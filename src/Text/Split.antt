-- ===== src/Text/Split.antt =====
-- `split` and `split_first`, and the joining of pieces.
use skype.Common.{
  ℕ, zero, suc, ◌+◌, ◌<◌, ◌≡◌, ◌≢◌, refl, sym, ap, ◌∙◌, inl, inr, Option, none, some, List, [], ◌∷◌,
  ◌++◌, arith, Bytes, length, take, drop, length-append, length-drop, take-append_left,
  Option-cases, some_inj, map-eq-some, All, Lacks,
}
use Prim.Native.Nat.add
use mathlib.Core.Option
use mathlib.Core.Path.{subst}
use skype.Text.{find, split_loop, split, split_first}
use skype.Text.Find.{find_split, find_of_Lacks, find-append, find_before, find_lt, find-none-Lacks}

-- The part behind a text and one byte.
drop-append_past : (d : ℕ) (p s : Bytes) → drop (length p + 1) (p ++ d ∷ s) ≡ s
drop-append_past d [] s = refl
drop-append_past d (c ∷ p) s = rw add.suc (drop-append_past d p s)

-- The pieces with the delimiter between them.
abbrev pub intercalate : Bytes → List Bytes → Bytes
intercalate ds [] = []
intercalate ds (p ∷ []) = p
intercalate ds (p ∷ q ∷ ps) = p ++ (ds ++ intercalate ds (q ∷ ps))

-- With a delimiter that is not empty the loop ends, and its pieces spell the text.
abbrev pub Spells : Bytes → Bytes → Option (List Bytes) → Type 0
Spells ds s r =
    (p : Bytes) × (ps : List Bytes) × (r ≡ some (p ∷ ps)) × (intercalate ds (p ∷ ps) ≡ s)

module _ (d : ℕ) (ds : Bytes) where
  pub split_loop-none :
      (f : ℕ) (s : Bytes) → find (d ∷ ds) s ≡ none → split_loop (suc f) (d ∷ ds) s ≡ some (s ∷ [])
  unfolding split_loop
  split_loop-none f s h = rw (h, split_loop)

  pub split_loop-some :
      (f : ℕ) (s : Bytes) (e : ℕ)
      → find (d ∷ ds) s ≡ some e
      → split_loop (suc f) (d ∷ ds) s
        ≡ Option.map
            (λ (ps : List Bytes). take e s ∷ ps)
            (split_loop f (d ∷ ds) (drop (e + length (d ∷ ds)) s))
  unfolding split_loop
  split_loop-some f s e h = rw (h, split_loop)

  pub split_loop-Spells :
      (f : ℕ) (s : Bytes) → length s < f → Spells (d ∷ ds) s (split_loop f (d ∷ ds) s)
  split_loop-Spells zero s h = absurd (omega arith)
  split_loop-Spells (suc f) s h = elim (Option-cases (find (d ∷ ds) s)) [
    | inl e ↦ (s, [], split_loop-none f s e, refl)
    | inr (i, e) ↦
        let rest = drop (i + length (d ∷ ds)) s in
        let (q, qs, eq, spelt) =
          split_loop-Spells f rest
            (omega (arith, find_lt d ds s i e, length-drop (i + length (d ∷ ds)) s)) in
        (
          take i s,
          q ∷ qs,
          split_loop-some f s i e ∙ ap (Option.map (λ (ps : List Bytes). take i s ∷ ps)) eq,
          ap (λ (r : Bytes). take i s ++ ((d ∷ ds) ++ r)) spelt ∙ sym (find_split (d ∷ ds) s i e),
        )
  ]

-- One byte as the delimiter: no piece holds it.
split_loop-Lacks :
    (d f : ℕ) (s : Bytes) (ps : List Bytes) → split_loop f (d ∷ []) s ≡ some ps → All (Lacks d) ps
split_loop-Lacks d zero s ps h = unfold split_loop in cc
split_loop-Lacks d (suc f) s ps h = elim (Option-cases (find (d ∷ []) s)) [
  | inl e ↦
      subst (All (Lacks d)) (some_inj (sym (split_loop-none d [] f s e) ∙ h))
        (find-none-Lacks d s e, tt)
  | inr (i, e) ↦
      let (qs, more, whole) =
        map-eq-some (split_loop f (d ∷ []) (drop (i + 1) s)) (λ (r : List Bytes). take i s ∷ r)
          (sym (split_loop-some d [] f s i e) ∙ h) in
      subst (All (Lacks d)) whole
        (find_before d s i e, split_loop-Lacks d f (drop (i + 1) s) qs more)
]

-- One byte as the delimiter: the pieces of a joined list are the list.
split_loop-intercalate :
    (d f : ℕ) (p : Bytes) (ps : List Bytes)
    → length (intercalate (d ∷ []) (p ∷ ps)) < f
    → All (Lacks d) (p ∷ ps)
    → split_loop f (d ∷ []) (intercalate (d ∷ []) (p ∷ ps)) ≡ some (p ∷ ps)
split_loop-intercalate d zero p ps h k = absurd (omega arith)
split_loop-intercalate d (suc f) p [] h (k, _) = split_loop-none d [] f p (find_of_Lacks d p k)
split_loop-intercalate d (suc f) p (q ∷ qs) h (k, ks) =
    let rest = intercalate (d ∷ []) (q ∷ qs) in
    split_loop-some d [] f (p ++ d ∷ rest) (length p) (find-append d p rest k)
    ∙ cc (
      take-append_left p (d ∷ rest),
      drop-append_past d p rest,
      split_loop-intercalate d f q qs (omega (arith, length-append p (d ∷ rest))) ks,
    )

-- With a delimiter that is not empty split ends, and its pieces, joined by the delimiter, are the
-- text.
pub split-Spells : (d : ℕ) (ds s : Bytes) → Spells (d ∷ ds) s (split s (d ∷ ds))
unfolding split
split-Spells d ds s = split_loop-Spells d ds (suc (length s)) s (omega arith)

pub split-Lacks :
    (d : ℕ) (s : Bytes) (ps : List Bytes) → split s (d ∷ []) ≡ some ps → All (Lacks d) ps
unfolding split
split-Lacks d s ps h = split_loop-Lacks d (suc (length s)) s ps h

-- Pieces that lack a byte, written with that byte between them, are what `split` gives back.
pub split-intercalate :
    (d : ℕ) (p : Bytes) (ps : List Bytes)
    → All (Lacks d) (p ∷ ps)
    → split (intercalate (d ∷ []) (p ∷ ps)) (d ∷ []) ≡ some (p ∷ ps)
unfolding split
split-intercalate d p ps h =
    split_loop-intercalate d (suc (length (intercalate (d ∷ []) (p ∷ ps)))) p ps (omega arith) h

split_first_found :
    (ds s : Bytes) (e : ℕ)
    → find ds s ≡ some e
    → s ≢ []
    → split_first s ds ≡ (take e s, drop (e + length ds) s)
unfolding split_first
split_first_found ds [] e h k = absurd (k refl)
split_first_found ds (c ∷ s) e h k = rw (h, split_first)

append-cons-ne-nil : (d : ℕ) (p s : Bytes) → p ++ d ∷ s ≢ []
append-cons-ne-nil d [] s h = cc
append-cons-ne-nil d (c ∷ p) s h = cc

-- One byte as the delimiter: `split_first` cuts at the first one.
pub split_first-append :
    (d : ℕ) (p s : Bytes) → Lacks d p → split_first (p ++ d ∷ s) (d ∷ []) ≡ (p, s)
split_first-append d p s h =
    split_first_found (d ∷ []) (p ++ d ∷ s) (length p) (find-append d p s h)
      (append-cons-ne-nil d p s)
    ∙ cc (take-append_left p (d ∷ s), drop-append_past d p s)

-- A text without the delimiter is all in the first part.
pub split_first_of_Lacks : (d : ℕ) (p : Bytes) → Lacks d p → split_first p (d ∷ []) ≡ (p, [])
unfolding split_first
split_first_of_Lacks d [] h = refl
split_first_of_Lacks d (c ∷ p) h = rw (split_first, find_of_Lacks d (c ∷ p) h)
