-- ===== src/Chat.antt =====
-- src/shared/user_chat.cpp: a chat message, its text form and the order of two messages.
pub mod RoundTrip
pub mod Order
pub mod Response
mod Tests
use mathlib.Core.List.{zip}
use skype.Common.{
  ℕ, suc, ◌-◌, ◌≡◌, Bool, true, false, ◌&&◌, Option, none, some, List, [], ◌∷◌, ◌++◌, Bytes, codes,
  length, get_elem?, same_text, ◌==◌, if◌then◌else◌, ◌>>=◌,
}
use skype.Common.Int.{ℤ, pos, negsuc, to_size, ◌=ℤ◌, ◌<ℤ?◌}
use skype.Text.{split, split_first, split_at}
use skype.Text.Number.{print_int, stoi}

pub record UserChat : Type 0 where
  pub id : ℤ
  pub created_at : Bytes
  pub sender : ℤ
  pub recipient : ℤ
  pub text : Bytes
  pub delivered : Bool
  pub empty : Bool

abbrev pub comma : ℕ
comma = b','

abbrev pub colon : ℕ
colon = b':'

-- The constructor without arguments.
abbrev pub new_chat : UserChat
new_chat = record {
  id = pos 0;
  created_at = [];
  sender = pos 0;
  recipient = pos 0;
  text = [];
  delivered = false;
  empty = true;
}

abbrev pub flag : Bool → Bytes
flag true = codes "true"
flag false = codes "false"

-- The fields in front of the text; nothing stands between the last of them and the text.
unfoldable pub to_string : UserChat → Bytes
to_string c =
    print_int c.id
    ++ comma
      ∷ (c.created_at
          ++ comma
            ∷ (print_int c.sender
                ++ comma ∷ (print_int c.recipient ++ comma ∷ (flag c.delivered ++ c.text))))

-- The assignments of `from_string` run in order: one that throws leaves those before it in place.
abbrev pub Attempt : Type 0
Attempt = UserChat × Bool

abbrev pub and_then : Attempt → (UserChat → Attempt) → Attempt
and_then (c, true) f = f c
and_then (c, false) f = (c, false)

abbrev pub assign {ℓ} : {A : Type ℓ} → Option A → (A → UserChat) → UserChat → Attempt
assign none set c = (c, false)
assign (some a) set c = (set a, true)

unfoldable pub load : List Bytes → Bytes → UserChat → Attempt
load fields text c =
    and_then (assign (get_elem? fields 0 >>= stoi) (λ v. record c { id = v }) c) λ c₁.
      and_then (assign (get_elem? fields 1) (λ v. record c₁ { created_at = v }) c₁) λ c₂.
        and_then (assign (get_elem? fields 2 >>= stoi) (λ v. record c₂ { sender = v }) c₂) λ c₃.
          and_then (assign (get_elem? fields 3 >>= stoi) (λ v. record c₃ { recipient = v }) c₃)
            λ c₄.
              and_then
                (assign (get_elem? fields 4)
                  (λ v. record c₄ { delivered = same_text v (codes "true") }) c₄)
                λ c₅. (record c₅ { text = text }, true)

-- `from_string`, from its last step to its first. The split of a text at a comma always ends, so
-- the `none` of `from_fields` does not occur.
unfoldable pub from_fields : UserChat → Bytes → Option (List Bytes) → UserChat
unfolding load
from_fields c text none = c
from_fields c text (some fields) = (load fields text c).0

unfoldable pub from_content : UserChat → Option (Bytes × Bytes) → UserChat
unfolding from_fields
from_content c none = c
from_content c (some (info, text)) = from_fields c text (split info (comma ∷ []))

unfoldable pub from_header : UserChat → Bytes → Option ℤ → UserChat
unfolding from_content
from_header c content none = c
from_header c content (some n) = from_content c (split_at content (to_size n))

unfoldable pub from_string : UserChat → Bytes → UserChat
unfolding from_header
from_string c s =
    let (header, content) = split_first s (colon ∷ []) in from_header c content (stoi header)

unfoldable pub created_at_date : UserChat → Bytes
created_at_date c = (split_first c.created_at (codes " ")).0

unfoldable pub created_at_time : UserChat → Bytes
created_at_time c =
    let time_long = (split_first c.created_at (codes " ")).1 in
    let (hours, time_rest) = split_first time_long (codes ":") in
    hours ++ colon ∷ (split_first time_rest (codes ":")).0

pub data ComparisonType : Type 0 where
  greater_than lesser_than : ComparisonType

abbrev pub fails : ComparisonType → ℤ → ℤ → Bool
fails greater_than l r = l <ℤ? r
fails lesser_than l r = r <ℤ? l

-- The loop of `compare` over two vectors of one size.
unfoldable pub compare_fields : ComparisonType → List (Bytes × Bytes) → Bool
compare_fields t [] = true
compare_fields t ((a, b) ∷ rest) =
    let later = compare_fields t rest in
    elim (stoi a) [
      | none ↦ false
      | some l ↦ elim (stoi b) [ none ↦ false | some r ↦ if fails t l r then false else later ]
    ]

-- The comparison of two vectors of fields of one size; a split at a byte always ends.
unfoldable pub same_size : ComparisonType → Option (List Bytes) → Option (List Bytes) → Bool
unfolding compare_fields zip
same_size t (some ls) (some rs) =
    if length ls == length rs then compare_fields t (zip ls rs) else false
same_size t _ _ = false

unfoldable pub compare_dates : ComparisonType → Bytes → Bytes → Bool
unfolding same_size
compare_dates t l r = same_size t (split l (codes "-")) (split r (codes "-"))

-- The third field is cut at the dot, and the fraction becomes a fourth.
unfoldable pub time_fields : List Bytes → Option (List Bytes)
time_fields (h ∷ m ∷ s ∷ []) =
    let (secs, milli) = split_first s (codes ".") in some (h ∷ m ∷ secs ∷ milli ∷ [])
time_fields _ = none

-- The source demands three fields on both sides, so that both have four in the end.
unfoldable pub compare_times : ComparisonType → Bytes → Bytes → Bool
unfolding same_size time_fields
compare_times t l r =
    same_size t (split l (codes ":") >>= time_fields) (split r (codes ":") >>= time_fields)

unfoldable pub compare_chats : ComparisonType → UserChat → UserChat → Bool
compare_chats t c d =
    let (date_left, time_left) = split_first c.created_at (codes " ") in
    let (date_right, time_right) = split_first d.created_at (codes " ") in
    compare_dates t date_left date_right && compare_times t time_left time_right

-- `operator<` and `operator>`
unfoldable pub less : UserChat → UserChat → Bool
less c d = compare_chats lesser_than c d

unfoldable pub greater : UserChat → UserChat → Bool
greater c d = compare_chats greater_than c d
