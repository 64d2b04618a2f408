-- ===== src/Text/Find.antt =====
-- Where `find` sees a delimiter, and what it passes over.
use skype.Common.{
  ℕ, zero, suc, ◌+◌, ◌<◌, ◌≡◌, refl, ap, true, none, some, [], ◌∷◌, ◌++◌, arith, Bytes, length,
  take, drop, Lacks, ==_iff,
}
use Prim.Native.Nat.add
use native.Mathlib.Nat.{zero-add}
use mathlib.Core.Path.{ap₂}
use mathlib.Core.Bool.{and-eq-true_iff}
use skype.Text.{starts_with, find}

starts_with_split : (ds s : Bytes) → starts_with ds s ≡ true → s ≡ ds ++ drop (length ds) s
unfolding starts_with
starts_with_split [] s h = refl
starts_with_split (d ∷ ds) [] h = cc
starts_with_split (d ∷ ds) (c ∷ s) h =
    let (same, more) = (and-eq-true_iff _ _).0 h in
    ap₂ (λ (x : ℕ) (l : Bytes). x ∷ l) ((==_iff c d).0 same) (starts_with_split ds s more)

-- Where `find` succeeds the text is what stands before, the delimiter, and what follows it.
pub find_split :
    (ds s : Bytes) (i : ℕ) → find ds s ≡ some i → s ≡ take i s ++ (ds ++ drop (i + length ds) s)
unfolding find
find_split ds [] i h = ground (arith, starts_with_split ds [])
find_split ds (c ∷ s) zero h = rw zero-add (starts_with_split ds (c ∷ s) (ground arith))
find_split ds (c ∷ s) (suc i) h =
    rw add.suc (ap (λ (l : Bytes). c ∷ l) (find_split ds s i (ground arith)))

-- One byte: a text without it holds no delimiter.
pub find_of_Lacks : (d : ℕ) (s : Bytes) → Lacks d s → find (d ∷ []) s ≡ none
unfolding find starts_with
find_of_Lacks d [] h = refl
find_of_Lacks d (c ∷ s) (h, k) = ground (arith, find_of_Lacks d s k)

-- One byte: the first delimiter stands behind a text without it.
pub find-append : (d : ℕ) (p s : Bytes) → Lacks d p → find (d ∷ []) (p ++ d ∷ s) ≡ some (length p)
unfolding find starts_with
find-append d [] s h = ground arith
find-append d (c ∷ p) s (h, k) = ground (arith, find-append d p s k)

-- One byte: what stands before the first delimiter does not hold it.
pub find_before : (d : ℕ) (s : Bytes) (i : ℕ) → find (d ∷ []) s ≡ some i → Lacks d (take i s)
unfolding find starts_with
find_before d [] i h = cc
find_before d (c ∷ s) zero h = tt
find_before d (c ∷ s) (suc i) h = ground (arith, find_before d s i)

pub find_lt : (d : ℕ) (ds s : Bytes) (i : ℕ) → find (d ∷ ds) s ≡ some i → i < length s
unfolding find starts_with
find_lt d ds [] i h = cc
find_lt d ds (c ∷ s) zero h = omega arith
find_lt d ds (c ∷ s) (suc i) h = ground (arith, find_lt d ds s i)

-- One byte: where `find` fails the text does not hold it.
pub find-none-Lacks : (d : ℕ) (s : Bytes) → find (d ∷ []) s ≡ none → Lacks d s
unfolding find starts_with
find-none-Lacks d [] h = tt
find-none-Lacks d (c ∷ s) h = ground (arith, find-none-Lacks d s)
