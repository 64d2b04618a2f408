-- ===== src/AudioBank/Content.antt =====
-- The bytes in the bank, through `load` and `grab`.
use skype.Common.{
  is_nil, ℕ, ◌≤◌, ◌≡◌, ◌≢◌, ◌⊎◌, inl, inr, refl, sym, ap, ◌∙◌, true, false, List, [], ◌∷◌, ◌++◌,
  append_assoc, append-nil, arith, Bytes, length, take, drop, length-append, take-append_left,
  drop-append_left, All, All-append, Bool-cases, ltb, le→ltb_false, ltb→lt, ◌==◌, ==_iff,
}
use skype.AudioBank.{AudioBank, copy_data, push_item, load_rest, push_if_full, load, grab}

abbrev pub concat : List Bytes → Bytes
concat [] = []
concat (s ∷ ss) = s ++ concat ss

-- All bytes that are in the bank, the oldest first.
abbrev pub content : AudioBank → Bytes
content bank = concat bank.store ++ bank.item

-- The complete items have the size of the buffer, and the other one has at most that.
pub record IsBank (buffer_size : ℕ) (bank : AudioBank) : Type 0 where
  pub complete : All (λ s. length s ≡ buffer_size) bank.store
  pub fits : length bank.item ≤ buffer_size

concat-append : (xs ys : List Bytes) → concat (xs ++ ys) ≡ concat xs ++ concat ys
concat-append [] ys = refl
concat-append (x ∷ xs) ys = rw (concat-append xs ys) (sym (append_assoc x (concat xs) (concat ys)))

module _ (n : ℕ) where
  copy_data-append :
      (item bytes : Bytes)
      → (copy_data n item bytes).0 ++ (copy_data n item bytes).1 ≡ item ++ bytes
  unfolding copy_data
  copy_data-append item [] = refl
  copy_data-append item (x ∷ bytes) = elim (Bool-cases (ltb (length item) n)) [
    | inl room ↦
        rw room (copy_data-append (item ++ x ∷ []) bytes ∙ append_assoc item (x ∷ []) bytes)
    | inr full ↦ rw full refl
  ]

  -- The item stays within the size, and where something is left it is full.
  copy_data-fits :
      (item bytes : Bytes)
      → length item ≤ n
      → (length (copy_data n item bytes).0 ≤ n)
        × (((copy_data n item bytes).1 ≡ []) ⊎ (length (copy_data n item bytes).0 ≡ n))
  unfolding copy_data
  copy_data-fits item [] h = (h, inl refl)
  copy_data-fits item (x ∷ bytes) h = elim (Bool-cases (ltb (length item) n)) [
    | inl room ↦ rw room (
        copy_data-fits (item ++ x ∷ []) bytes
          (omega (arith, ltb→lt (length item) n room, length-append item (x ∷ []))))
    | inr full ↦ rw full (h, inr (ground (arith, full, h)))
  ]

  copy_data-shorter : (item bytes : Bytes) → length (copy_data n item bytes).1 ≤ length bytes
  unfolding copy_data
  copy_data-shorter item [] = omega arith
  copy_data-shorter item (x ∷ bytes) = elim (Bool-cases (ltb (length item) n)) [
    | inl room ↦ rw room (omega (arith, copy_data-shorter (item ++ x ∷ []) bytes))
    | inr full ↦ rw full (omega arith)
  ]

  push_item-content : (bank : AudioBank) → content (push_item bank) ≡ content bank
  push_item-content bank =
      append-nil (concat (bank.store ++ bank.item ∷ []))
      ∙ concat-append bank.store (bank.item ∷ [])
      ∙ ap (λ (s : Bytes). concat bank.store ++ s) (append-nil bank.item)

  push_item-IsBank :
      (bank : AudioBank) → IsBank n bank → length bank.item ≡ n → IsBank n (push_item bank)
  push_item-IsBank bank h full = record {
    complete = All-append (λ s. length s ≡ n) bank.store (bank.item ∷ []) h.complete (full, tt);
    fits = omega arith;
  }

  nothing_left : (bytes : Bytes) → length bytes ≤ n → (copy_data n [] bytes).1 ≡ []
  nothing_left bytes h =
      let (fits, cases) = copy_data-fits [] bytes (omega arith) in
      let whole = copy_data-append [] bytes in
      elim cases [
        | inl none ↦ none
        | inr full ↦ is_empty (copy_data n [] bytes).1 (
            omega (
              arith,
              h,
              full,
              ap length whole,
              length-append (copy_data n [] bytes).0 (copy_data n [] bytes).1,
            ))
      ]
    where
      is_empty : (s : Bytes) → length s ≡ 0 → s ≡ []
      is_empty [] e = refl
      is_empty (x ∷ s) e = absurd (omega arith)

  load_rest_lem :
      (rest : Bytes) (bank : AudioBank)
      → IsBank n bank
      → (rest ≡ []) ⊎ (length bank.item ≡ n)
      → length rest ≤ n
      → IsBank n (load_rest n rest bank) × (content (load_rest n rest bank) ≡ content bank ++ rest)
  unfolding load_rest
  load_rest_lem [] bank h c l = (h, sym (append-nil (content bank)))
  load_rest_lem (x ∷ rest) bank h (inl e) l = absurd (cc e)
  load_rest_lem (x ∷ rest) bank h (inr full) l =
      let pushed = push_item-IsBank bank h full in
      let (fits, _) = copy_data-fits [] (x ∷ rest) (omega arith) in
      let all_in : (copy_data n [] (x ∷ rest)).0 ≡ x ∷ rest =
        sym (append-nil (copy_data n [] (x ∷ rest)).0)
        ∙ ap (λ (s : Bytes). (copy_data n [] (x ∷ rest)).0 ++ s) (sym (nothing_left (x ∷ rest) l))
        ∙ copy_data-append [] (x ∷ rest) in
      (
        record { complete = pushed.complete; fits = fits },
        rw all_in (
            ap (λ (s : Bytes). s ++ x ∷ rest)
              (sym (append-nil (concat (bank.store ++ bank.item ∷ []))) ∙ push_item-content bank)),
      )

  push_if_full_lem :
      (bank : AudioBank)
      → IsBank n bank
      → IsBank n (push_if_full n bank) × (content (push_if_full n bank) ≡ content bank)
  unfolding push_if_full
  push_if_full_lem bank h = elim (Bool-cases (length bank.item == n)) [
    | inl full ↦
        rw full
          (push_item-IsBank bank h ((==_iff (length bank.item) n).0 full), push_item-content bank)
    | inr other ↦ rw other (h, refl)
  ]

nil_of_is_nil : (s : Bytes) → is_nil s ≡ true → s ≡ []
nil_of_is_nil [] h = refl
nil_of_is_nil (x ∷ s) h = cc

load_empty :
    (n : ℕ) (bytes : Bytes) (bank : AudioBank)
    → length bytes ≤ n
    → is_nil bank.item ≡ true
    → load n bytes bank ≡ record bank { item = bytes }
unfolding load
load_empty n bytes bank h e = ground (arith, le→ltb_false n (length bytes) h, e)

load_filled :
    (n : ℕ) (bytes : Bytes) (bank : AudioBank)
    → length bytes ≤ n
    → is_nil bank.item ≡ false
    → load n bytes bank
      ≡ push_if_full n (
          load_rest n
            (copy_data n bank.item bytes).1
            (record bank { item = (copy_data n bank.item bytes).0 }))
unfolding load
load_filled n bytes bank h e = ground (arith, le→ltb_false n (length bytes) h, e)

-- A bank of sound is a queue of bytes: data of at most the buffer's size is put behind all that is
-- in it, no byte is lost or moved, and the complete items keep the buffer's size.
pub load-content :
    (n : ℕ) (bytes : Bytes) (bank : AudioBank)
    → IsBank n bank
    → length bytes ≤ n
    → IsBank n (load n bytes bank) × (content (load n bytes bank) ≡ content bank ++ bytes)
load-content n bytes bank h l = elim (Bool-cases (is_nil bank.item)) [
  | inl e ↦ rw (load_empty n bytes bank l e) (
    record { complete = h.complete; fits = l },
    ap (λ (s : Bytes). s ++ bytes)
        (sym (append-nil (concat bank.store))
          ∙ ap (λ (s : Bytes). concat bank.store ++ s) (sym (nil_of_is_nil bank.item e))),
  )
  | inr e ↦
      let (fits, cases) = copy_data-fits n bank.item bytes h.fits in
      let rest = (copy_data n bank.item bytes).1 in
      let filled : AudioBank = record bank { item = (copy_data n bank.item bytes).0 } in
      let (h', same') =
        load_rest_lem n rest filled (record { complete = h.complete; fits = fits }) cases
          (omega (arith, l, copy_data-shorter n bank.item bytes)) in
      let (h'', same'') = push_if_full_lem n (load_rest n rest filled) h' in
      rw (load_filled n bytes bank l e) (
        h'',
        same''
            ∙ same'
            ∙ append_assoc (concat bank.store) filled.item rest
            ∙ ap (λ (s : Bytes). concat bank.store ++ s) (copy_data-append n bank.item bytes)
            ∙ sym (append_assoc (concat bank.store) bank.item bytes),
      )
]

grab_first :
    (n : ℕ) (bank : AudioBank) (s : Bytes) (ss : List Bytes)
    → bank.store ≡ s ∷ ss
    → grab bank ≡ (s, record bank { store = ss })
unfolding grab
grab_first n bank s ss e = rw (e, grab) refl

-- Where an item is complete, grab gives the first bytes in the bank, as many as the buffer's size,
-- and leaves the others in order.
pub grab-content :
    (n : ℕ) (bank : AudioBank)
    → IsBank n bank
    → bank.store ≢ []
    → IsBank n (grab bank).1
      × ((grab bank).0 ≡ take n (content bank))
      × (content (grab bank).1 ≡ drop n (content bank))
grab-content n bank h e = go bank.store refl
  where
    go :
        (ts : List Bytes)
        → bank.store ≡ ts
        → IsBank n (grab bank).1
          × ((grab bank).0 ≡ take n (content bank))
          × (content (grab bank).1 ≡ drop n (content bank))
    go [] p = absurd (e p)
    go (s ∷ ss) p =
        let (full, rest) = rw p at h.complete in
        let spelt : content bank ≡ s ++ (concat ss ++ bank.item) =
          ap (λ (ts : List Bytes). concat ts ++ bank.item) p
          ∙ append_assoc s (concat ss) bank.item in
        rw (grab_first n bank s ss p) (
          record { complete = rest; fits = h.fits },
          sym (
              ap (take n) spelt
              ∙ ap (λ (k : ℕ). take k (s ++ (concat ss ++ bank.item))) (sym full)
              ∙ take-append_left s (concat ss ++ bank.item)),
          sym (
              ap (drop n) spelt
              ∙ ap (λ (k : ℕ). drop k (s ++ (concat ss ++ bank.item))) (sym full)
              ∙ drop-append_left s (concat ss ++ bank.item)),
        )
