-- ===== src/AudioBank.antt =====
-- include/client/av/audio_bank.hpp: sound arrives in pieces and is played in items of one size.
-- The size comes from the audio and video settings; here it is an argument.
pub mod Content
mod Tests
use skype.Common.{
  is_nil, ℕ, Bool, true, false, List, [], ◌∷◌, ◌++◌, Bytes, length, ltb, ◌==◌, if◌then◌else◌,
}

-- The items that are complete, the oldest first, and the one that is being filled.
pub record AudioBank : Type 0 where
  pub store : List Bytes
  pub item : Bytes

abbrev pub new_bank : AudioBank
new_bank = record { store = []; item = [] }

-- The item once it is filled from the data, and the data from the index on that is given back.
unfoldable pub copy_data : ℕ → Bytes → Bytes → Bytes × Bytes
copy_data buffer_size item [] = (item, [])
copy_data buffer_size item (x ∷ rest) =
    let filled = copy_data buffer_size (item ++ x ∷ []) rest in
    if ltb (length item) buffer_size then filled else (item, x ∷ rest)

-- `m_store.push(std::move(m_item))`, after which the item is empty.
abbrev pub push_item : AudioBank → AudioBank
push_item bank = record { store = bank.store ++ bank.item ∷ []; item = [] }

-- What of the data the item had no room for goes to a new one.
unfoldable pub load_rest : ℕ → Bytes → AudioBank → AudioBank
load_rest buffer_size [] bank = bank
load_rest buffer_size (x ∷ rest) bank = record (push_item bank) {
  item = (copy_data buffer_size [] (x ∷ rest)).0;
}

unfoldable pub push_if_full : ℕ → AudioBank → AudioBank
push_if_full buffer_size bank = if length bank.item == buffer_size then push_item bank else bank

unfoldable pub load : ℕ → Bytes → AudioBank → AudioBank
load buffer_size bytes bank =
    if ltb buffer_size (length bytes)
    then bank
    else if is_nil bank.item
    then record bank { item = bytes }
    else (let (item, rest) = copy_data buffer_size bank.item bytes in
        push_if_full buffer_size (load_rest buffer_size rest (record bank { item = item })))

-- The oldest item, or no bytes where none is complete.
unfoldable pub grab : AudioBank → Bytes × AudioBank
grab bank = elim bank.store [
  | [] ↦ ([], bank)
  | item ∷ store ↦ (item, record bank { store = store })
]
