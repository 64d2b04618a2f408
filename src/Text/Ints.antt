-- ===== src/Text/Ints.antt =====
-- `split_to_ints` in terms of `split` and `stoi`.
use mathlib.Core.Option
use skype.Common.{
  ℕ, zero, suc, ◌+◌, ◌^◌, ◌<◌, ◌≡◌, refl, sym, ap, ◌∙◌, inl, inr, Option, none, some, List, [], ◌∷◌,
  map, arith, Bytes, length, take, drop, length-drop, Option-cases, All, Lacks,
}
use skype.Common.Int.{ℤ, pos, to_size}
use skype.Text.{find, split_loop, split, split_ints_loop, split_to_ints, or_empty}
use skype.Text.Number.{stoi, print_nat, print_int}
use skype.Text.Number.Print.{IsDigit, print_nat-Lacks}
use skype.Text.Number.Read.{stoi-print_int}
use skype.Text.Find.{find_lt}
use skype.Text.Split.{
  intercalate, split_loop-none, split_loop-some, split_loop-Spells, split-intercalate,
}

abbrev cons_int : ℤ → Option (List ℕ) → Option (List ℕ)
cons_int v r = Option.map (λ (vs : List ℕ). to_size v ∷ vs) r

-- The numbers that the pieces spell, if each of them spells one.
abbrev pub ints_of : List Bytes → Option (List ℕ)
ints_of [] = some []
ints_of (p ∷ ps) = elim (stoi p) [ none ↦ none | some v ↦ cons_int v (ints_of ps) ]

module _ (d : ℕ) (ds : Bytes) where
  ints_step_none :
      (f : ℕ) (s : Bytes)
      → find (d ∷ ds) s ≡ none
      → split_ints_loop (suc f) (d ∷ ds) s ≡ some (ints_of (s ∷ []))
  unfolding split_ints_loop
  ints_step_none f s h = rw (h, split_ints_loop) (ground arith)

  ints_step_some :
      (f : ℕ) (s : Bytes) (i : ℕ) (ps : List Bytes)
      → find (d ∷ ds) s ≡ some i
      → split_ints_loop f (d ∷ ds) (drop (i + length (d ∷ ds)) s) ≡ some (ints_of ps)
      → split_ints_loop (suc f) (d ∷ ds) s ≡ some (ints_of (take i s ∷ ps))
  unfolding split_ints_loop
  ints_step_some f s i ps h k = rw (h, split_ints_loop) (ground (arith, k))

  split_ints_loop_lem :
      (f : ℕ) (s : Bytes)
      → length s < f
      → split_ints_loop f (d ∷ ds) s ≡ Option.map ints_of (split_loop f (d ∷ ds) s)
  split_ints_loop_lem zero s h = absurd (omega arith)
  split_ints_loop_lem (suc f) s h = elim (Option-cases (find (d ∷ ds) s)) [
    | inl e ↦ ints_step_none f s e ∙ sym (ap (Option.map ints_of) (split_loop-none d ds f s e))
    | inr (i, e) ↦
        let rest = drop (i + length (d ∷ ds)) s in
        let short : length rest < f =
          omega (arith, find_lt d ds s i e, length-drop (i + length (d ∷ ds)) s) in
        let (q, qs, eq, _) = split_loop-Spells d ds f rest short in
        ints_step_some f s i (q ∷ qs) e
          (split_ints_loop_lem f rest short ∙ ap (Option.map ints_of) eq)
        ∙ sym (
            ap (Option.map ints_of) (
              split_loop-some d ds f s i e
              ∙ ap (Option.map (λ (ps : List Bytes). take i s ∷ ps)) eq))
  ]

-- With a delimiter that is not empty: the pieces are split as by `split`, each one is read by
-- `stoi`, and one piece that is no number empties the whole result.
pub split_to_ints-split :
    (d : ℕ) (ds s : Bytes)
    → split_to_ints s (d ∷ ds) ≡ Option.map (λ ps. or_empty (ints_of ps)) (split s (d ∷ ds))
unfolding split_to_ints split
split_to_ints-split d ds s =
    ap (Option.map or_empty) (split_ints_loop_lem d ds (suc (length s)) s (omega arith))
    ∙ map-map (split_loop (suc (length s)) (d ∷ ds) s)
  where
    map-map :
        (o : Option (List Bytes))
        → Option.map or_empty (Option.map ints_of o) ≡ Option.map (λ ps. or_empty (ints_of ps)) o
    map-map none = refl
    map-map (some ps) = refl

abbrev pub Small : ℕ → Type 0
Small n = n < 2 ^ 31

ints_of-map : (ns : List ℕ) → All Small ns → ints_of (map print_nat ns) ≡ some ns
ints_of-map [] h = refl
ints_of-map (n ∷ ns) (h, hs) = ground (arith, stoi-print_nat_some n, ints_of-map ns hs)
  where
    stoi-print_nat_some : (m : ℕ) → Small m → stoi (print_nat m) ≡ some (pos m)
    stoi-print_nat_some m k = unfold print_int in stoi-print_int (pos m) k

map-Lacks : (d : ℕ) (ns : List ℕ) → (¬ IsDigit d) → All (Lacks d) (map print_nat ns)
map-Lacks d [] h = tt
map-Lacks d (n ∷ ns) h = (print_nat-Lacks d n h, map-Lacks d ns h)

-- The numbers that were printed with a byte between them are read back.
pub split_to_ints-intercalate :
    (d n : ℕ) (ns : List ℕ)
    → (¬ IsDigit d)
    → All Small (n ∷ ns)
    → split_to_ints (intercalate (d ∷ []) (map print_nat (n ∷ ns))) (d ∷ []) ≡ some (n ∷ ns)
split_to_ints-intercalate d n ns h k =
    split_to_ints-split d [] (intercalate (d ∷ []) (map print_nat (n ∷ ns)))
    ∙ ap (Option.map (λ ps. or_empty (ints_of ps)))
        (split-intercalate d (print_nat n) (map print_nat ns) (map-Lacks d (n ∷ ns) h))
    ∙ ap (λ (r : Option (List ℕ)). some (or_empty r)) (ints_of-map (n ∷ ns) k)
