-- ===== src/Text/Trim.antt =====
-- `trim`, `to_upper`, `join` and `last`.
use mathlib.Core.List.{reverse, reverse-append, reverse-reverse, reverse-cons}
use skype.Common.{
  ℕ, zero, suc, ◌+◌, ◌≡◌, refl, sym, ap, ◌∙◌, true, false, inl, inr, none, some, List, [], ◌∷◌,
  ◌++◌, append_assoc, append-nil, arith, Bytes, length, Bool-cases, All, All-append,
}
use skype.Text.{find, last_loop, last, concat_with, pop_back, join, trim_left, trim_right, trim}
use skype.Text.Number.{is_space}
use skype.Text.Split.{intercalate}

-- A text that holds the delimiter has no last piece: the loop never ends, whatever its rounds.
last_loop_found :
    (fuel start e : ℕ) (s delim : Bytes) → last_loop fuel s delim start (some e) ≡ none
unfolding last_loop
last_loop_found zero start e s delim = refl
last_loop_found (suc fuel) start e s delim = last_loop_found fuel (e + length delim) e s delim

-- Where the delimiter is in the text, no number of rounds is enough for last.
pub last_diverges :
    (fuel e : ℕ) (s delim : Bytes) → find delim s ≡ some e → last fuel s delim ≡ none
unfolding last
last_diverges fuel e s delim h = rw h (last_loop_found fuel 0 e s delim)

-- `join` cuts one byte off, whatever the delimiter's length.
pub pop_back-append : (s : Bytes) (c : ℕ) → pop_back (s ++ c ∷ []) ≡ some s
unfolding pop_back
pop_back-append [] c = refl
pop_back-append (d ∷ []) c = refl
pop_back-append (d ∷ e ∷ s) c = rw (pop_back-append (e ∷ s) c)

pub concat_with-intercalate :
    (ds p : Bytes) (ps : List Bytes) → concat_with ds (p ∷ ps) ≡ intercalate ds (p ∷ ps) ++ ds
unfolding concat_with
concat_with-intercalate ds p [] = append-nil _
concat_with-intercalate ds p (q ∷ ps) = rw (concat_with-intercalate ds q ps) (simp append_assoc)

join-concat_with :
    (ds : Bytes) (d : ℕ) (ss : List Bytes)
    → join ss (ds ++ d ∷ []) ≡ pop_back (concat_with (ds ++ d ∷ []) ss)
unfolding join
join-concat_with [] d ss = refl
join-concat_with (e ∷ ds) d ss = refl

-- Joining with a delimiter of n + 1 bytes leaves its first n bytes behind the last piece.
pub join-intercalate :
    (ds p : Bytes) (d : ℕ) (ps : List Bytes)
    → join (p ∷ ps) (ds ++ d ∷ []) ≡ some (intercalate (ds ++ d ∷ []) (p ∷ ps) ++ ds)
join-intercalate ds p d ps =
    join-concat_with ds d (p ∷ ps)
    ∙ ap pop_back (concat_with-intercalate (ds ++ d ∷ []) p ps ∙ sym (append_assoc _ ds (d ∷ [])))
    ∙ pop_back-append (intercalate (ds ++ d ∷ []) (p ∷ ps) ++ ds) d

abbrev pub IsSpace : ℕ → Type 0
IsSpace c = is_space c ≡ true

-- A text that is empty or begins with a byte that is no space.
abbrev pub StartsBare : Bytes → Type 0
StartsBare [] = Unit
StartsBare (c ∷ s) = is_space c ≡ false

trim_left-StartsBare : (s : Bytes) → StartsBare (trim_left s)
unfolding trim_left
trim_left-StartsBare [] = tt
trim_left-StartsBare (c ∷ s) = ground (arith, trim_left-StartsBare s)

-- What `trim_left` takes off is spaces.
trim_left_split : (s : Bytes) → (a : Bytes) × (s ≡ a ++ trim_left s) × All IsSpace a
unfolding trim_left is_space
trim_left_split [] = ([], refl, tt)
trim_left_split (c ∷ s) =
    let (a, e, h) = trim_left_split s in
    elim (Bool-cases (is_space c)) [
      | inl yes' ↦ (c ∷ a, ground arith, (yes', h))
      | inr no' ↦ ([], ground arith, tt)
    ]

All-reverse : (s : Bytes) → All IsSpace s → All IsSpace (reverse s)
All-reverse [] h = tt
All-reverse (c ∷ s) (h, hs) =
    rw (reverse-cons c s) (All-append IsSpace (reverse s) (c ∷ []) (All-reverse s hs) (h, tt))

trim_right_split : (s : Bytes) → (b : Bytes) × (s ≡ trim_right s ++ b) × All IsSpace b
unfolding trim_right
trim_right_split s =
    let (a, e, h) = trim_left_split (reverse s) in
    (
      reverse a,
      sym (reverse-reverse s) ∙ ap reverse e ∙ reverse-append a (trim_left (reverse s)),
      All-reverse a h,
    )

StartsBare_prefix : (u b : Bytes) → StartsBare (u ++ b) → StartsBare u
StartsBare_prefix [] b h = tt
StartsBare_prefix (c ∷ u) b h = h

-- What `trim` promises of its result.
pub record IsTrimmed (s t : Bytes) : Type 0 where
  pub before : Bytes
  pub after : Bytes
  pub whole : s ≡ before ++ (t ++ after)
  pub before_spaces : All IsSpace before
  pub after_spaces : All IsSpace after
  pub starts : StartsBare t
  pub ends : StartsBare (reverse t)

-- `trim` cuts off white space alone, on both sides, and what it leaves neither begins nor ends
-- with it.
pub trim-IsTrimmed : (s : Bytes) → IsTrimmed s (trim s)
unfolding trim
trim-IsTrimmed s =
    let (a, e, h) = trim_left_split s in
    let (b, e', h') = trim_right_split (trim_left s) in
    record {
      before = a;
      after = b;
      whole = e ∙ ap (λ (t : Bytes). a ++ t) e';
      before_spaces = h;
      after_spaces = h';
      starts = StartsBare_prefix (trim_right (trim_left s)) b (rw (← e') (trim_left-StartsBare s));
      ends = ends_bare (trim_left s);
    }
  where
    ends_bare : (t : Bytes) → StartsBare (reverse (trim_right t))
    ends_bare t =
        unfold trim_right in
        rw (reverse-reverse (trim_left (reverse t))) (trim_left-StartsBare (reverse t))
