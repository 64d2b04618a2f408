-- ===== src/Chat/Order.antt =====
-- The comparison of two messages, field by field.
use mathlib.Core.List.{zip}
use skype.Common.{
  ◌≡◌, ◌↔◌, refl, sym, ◌∙◌, true, false, inl, inr, some, List, [], ◌∷◌, arith, Bytes, codes, length,
  ==_refl, Option-cases, Bool-cases, some_inj, ◌==◌, All, ◌>>=◌, if◌then◌else◌,
}
use skype.Common.Int.{ℤ, pos, negsuc, ◌<ℤ?◌}
use skype.Text.{split, split_first}
use skype.Text.Number.{stoi}
use skype.Chat.{
  UserChat, ComparisonType, lesser_than, greater_than, fails, compare_fields, same_size,
  compare_dates, time_fields, compare_times, compare_chats, less, greater,
}

-- Both texts are numbers, and the comparison does not fail on them.
abbrev pub Agree : ComparisonType → Bytes × Bytes → Type 0
Agree t p = (l : ℤ) × (r : ℤ) × (stoi p.0 ≡ some l) × (stoi p.1 ≡ some r) × (fails t l r ≡ false)

compare_step :
    (t : ComparisonType) (a b : Bytes) (rest : List (Bytes × Bytes)) (l r : ℤ)
    → stoi a ≡ some l
    → stoi b ≡ some r
    → compare_fields t ((a, b) ∷ rest) ≡ (if fails t l r then false else compare_fields t rest)
unfolding compare_fields
compare_step t a b rest l r h k = rw (h, k, compare_fields)

compare_sound :
    (t : ComparisonType) (ps : List (Bytes × Bytes)) → compare_fields t ps ≡ true → All (Agree t) ps
compare_sound t [] h = tt
compare_sound t ((a, b) ∷ rest) h = elim (Option-cases (stoi a)) [
  | inl e ↦ absurd (unfold compare_fields in ground (arith, h))
  | inr (l, e) ↦ elim (Option-cases (stoi b)) [
    | inl f ↦ absurd (unfold compare_fields in ground (arith, h))
    | inr (r, f) ↦ elim (Bool-cases (fails t l r)) [
      | inl bad ↦ absurd (cc (compare_step t a b rest l r e f))
      | inr good ↦ (
        (l, r, e, f, good),
        compare_sound t rest (rw good at (sym (compare_step t a b rest l r e f) ∙ h)),
      )
    ]
  ]
]

compare_complete :
    (t : ComparisonType) (ps : List (Bytes × Bytes)) → All (Agree t) ps → compare_fields t ps ≡ true
compare_complete t [] h = unfold compare_fields in refl
compare_complete t ((a, b) ∷ rest) ((l, r, e, f, k), hs) =
    compare_step t a b rest l r e f ∙ rw k (compare_complete t rest hs)

-- The comparison holds exactly when it holds for every field by itself.
pub compare_fields_iff :
    (t : ComparisonType) (ps : List (Bytes × Bytes))
    → (compare_fields t ps ≡ true) ↔ All (Agree t) ps
compare_fields_iff t ps = (compare_sound t ps, compare_complete t ps)

abbrev pub IsNumber : Bytes → Type 0
IsNumber s = (v : ℤ) × (stoi s ≡ some v)

not_less_self : (t : ComparisonType) (v : ℤ) → fails t v v ≡ false
not_less_self lesser_than (pos n) = ground arith
not_less_self lesser_than (negsuc n) = ground arith
not_less_self greater_than (pos n) = ground arith
not_less_self greater_than (negsuc n) = ground arith

zip_self-Agree :
    (t : ComparisonType) (ps : List Bytes) → All IsNumber ps → All (Agree t) (zip ps ps)
unfolding zip
zip_self-Agree t [] h = tt
zip_self-Agree t (p ∷ ps) ((v, e), hs) = ((v, v, e, e, not_less_self t v), zip_self-Agree t ps hs)

same_size_self :
    (t : ComparisonType) (ps : List Bytes)
    → All IsNumber ps
    → same_size t (some ps) (some ps) ≡ true
unfolding same_size
same_size_self t ps h =
    rw (==_refl (length ps)) (compare_complete t (zip ps ps) (zip_self-Agree t ps h))

-- A message whose time is made of numbers is below and above itself: neither operator is strict.
pub less_self :
    (c : UserChat) (date time : Bytes) (ds ts : List Bytes)
    → split_first c.created_at (codes " ") ≡ (date, time)
    → split date (codes "-") ≡ some ds
    → (split time (codes ":") >>= time_fields) ≡ some ts
    → All IsNumber ds
    → All IsNumber ts
    → (less c c ≡ true) × (greater c c ≡ true)
unfolding less greater compare_chats compare_dates compare_times
less_self c date time ds ts e f g h k = (both lesser_than, both greater_than)
  where
    both : (t : ComparisonType) → compare_chats t c c ≡ true
    both t = rw (e, f, g, same_size_self t ds h, same_size_self t ts k)

months_disagree :
    (p : Bytes × Bytes) (m m' : Bytes) (ps : List (Bytes × Bytes)) (n n' : ℤ)
    → stoi m ≡ some n
    → stoi m' ≡ some n'
    → (n' <ℤ? n) ≡ true
    → ¬ All (Agree lesser_than) (p ∷ (m, m') ∷ ps)
months_disagree p m m' ps n n' g g' h (_, ((l, r, e, f, good), _)) =
    let same : l ≡ n = some_inj (sym e ∙ g) in let same' : r ≡ n' = some_inj (sym f ∙ g') in cc

months_fail :
    (y y' m m' : Bytes) (ds ds' : List Bytes) (n n' : ℤ)
    → stoi m ≡ some n
    → stoi m' ≡ some n'
    → (n' <ℤ? n) ≡ true
    → same_size lesser_than (some (y ∷ m ∷ ds)) (some (y' ∷ m' ∷ ds')) ≡ false
unfolding same_size
months_fail y y' m m' ds ds' n n' g g' h =
    elim (Bool-cases (compare_fields lesser_than ((y, y') ∷ (m, m') ∷ zip ds ds'))) [
      | inl agree ↦ absurd (
          months_disagree (y, y') m m' (zip ds ds') n n' g g' h
            (compare_sound lesser_than ((y, y') ∷ (m, m') ∷ zip ds ds') agree))
      | inr bad ↦ elim (Bool-cases (length (y ∷ m ∷ ds) == length (y' ∷ m' ∷ ds'))) [
        | inl long ↦ rw long bad
        | inr short ↦ rw short
      ]
    ]

-- Of two messages, the one with the greater month is not below the other, even where its year is
-- smaller.
pub less_month :
    (c d : UserChat) (date date' time time' y m day y' m' day' : Bytes) (n n' : ℤ)
    → split_first c.created_at (codes " ") ≡ (date, time)
    → split_first d.created_at (codes " ") ≡ (date', time')
    → split date (codes "-") ≡ some (y ∷ m ∷ day ∷ [])
    → split date' (codes "-") ≡ some (y' ∷ m' ∷ day' ∷ [])
    → stoi m ≡ some n
    → stoi m' ≡ some n'
    → (n' <ℤ? n) ≡ true
    → less c d ≡ false
unfolding less compare_chats compare_dates
less_month c d date date' time time' y m day y' m' day' n n' e e' f f' g g' h =
    rw (e, e', f, f', months_fail y y' m m' (day ∷ []) (day' ∷ []) n n' g g' h)
