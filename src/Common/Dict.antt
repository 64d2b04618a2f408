-- ===== src/Common/Dict.antt =====
-- A dictionary with `int` keys (`std::unordered_map<int, V>`) as a list of pairs.
use mathlib.Core.Path.{◌≡◌, ◌∙◌, refl, sym, ap}
use mathlib.Core.Logic.{inl, inr}
use mathlib.Core.Bool.{false}
use mathlib.Core.Option.{Option, none, some}
use mathlib.Core.List.{List, [], ◌∷◌}
use native.Mathlib.Omega.{arith}
use skype.Common.Tests.{if◌then◌else◌, Bool-cases, some_inj}
use skype.Common.Lists.{All}
use mathlib.Core.Path.{subst}
use skype.Common.Int.{ℤ, ◌=ℤ◌, =ℤ_iff}

module _ {ℓ} {V : Type ℓ} where
  unfoldable pub lookup : ℤ → List (ℤ × V) → Option V
  lookup k [] = none
  lookup k ((j, v) ∷ m) = if j =ℤ k then some v else lookup k m

  unfoldable pub erase : ℤ → List (ℤ × V) → List (ℤ × V)
  erase k [] = []
  erase k ((j, v) ∷ m) = if j =ℤ k then erase k m else (j, v) ∷ erase k m

  -- A write through a reference to a value in the dictionary.
  unfoldable pub replace : ℤ → V → List (ℤ × V) → List (ℤ × V)
  replace k w [] = []
  replace k w ((j, v) ∷ m) = if j =ℤ k then (j, w) ∷ replace k w m else (j, v) ∷ replace k w m

  pub lookup-erase_self : (k : ℤ) (m : List (ℤ × V)) → lookup k (erase k m) ≡ none
  unfolding lookup erase
  lookup-erase_self k [] = refl
  lookup-erase_self k ((j, v) ∷ m) = ground (arith, lookup-erase_self k m)

  pub lookup-erase_ne :
      (k i : ℤ) (m : List (ℤ × V)) → (i =ℤ k) ≡ false → lookup k (erase i m) ≡ lookup k m
  unfolding lookup erase
  lookup-erase_ne k i [] h = refl
  lookup-erase_ne k i ((j, v) ∷ m) h = elim (Bool-cases (j =ℤ i)) [
    | inl same ↦ rw same (lookup-erase_ne k i m h ∙ ground (arith, h, (=ℤ_iff j i).0 same))
    | inr other ↦ rw other (ground (arith, lookup-erase_ne k i m h))
  ]

  pub lookup-replace_self :
      (k : ℤ) (w v : V) (m : List (ℤ × V)) → lookup k m ≡ some v → lookup k (replace k w m) ≡ some w
  unfolding lookup replace
  lookup-replace_self k w v [] h = cc
  lookup-replace_self k w v ((j, u) ∷ m) h = ground (arith, lookup-replace_self k w v m)

  pub lookup-replace_ne :
      (k i : ℤ) (w : V) (m : List (ℤ × V))
      → (i =ℤ k) ≡ false
      → lookup k (replace i w m) ≡ lookup k m
  unfolding lookup replace
  lookup-replace_ne k i w [] h = refl
  lookup-replace_ne k i w ((j, v) ∷ m) h = elim (Bool-cases (j =ℤ i)) [
    | inl same ↦ rw same (ground (arith, lookup-replace_ne k i w m h, h, (=ℤ_iff j i).0 same))
    | inr other ↦ rw other (ground (arith, lookup-replace_ne k i w m h))
  ]

  pub lookup-replace-none :
      (k i : ℤ) (w : V) (m : List (ℤ × V)) → lookup k m ≡ none → lookup k (replace i w m) ≡ none
  unfolding lookup replace
  lookup-replace-none k i w [] h = refl
  lookup-replace-none k i w ((j, v) ∷ m) h = ground (arith, lookup-replace-none k i w m)

-- What holds of every entry holds of the one that is found, and of what is left or written.
module _ {ℓ κ} {V : Type ℓ} (P : ℤ × V → Type κ) where
  pub All-lookup : (k : ℤ) (m : List (ℤ × V)) (v : V) → All P m → lookup k m ≡ some v → P (k, v)
  unfolding lookup
  All-lookup k [] v h e = cc
  All-lookup k ((j, w) ∷ m) v (p, h) e = elim (Bool-cases (j =ℤ k)) [
    | inl same ↦
        subst P
          (ap (λ (i : ℤ). (i, w)) ((=ℤ_iff j k).0 same)
            ∙ ap (λ (x : V). (k, x)) (some_inj (rw same at e)))
          p
    | inr other ↦ All-lookup k m v h (rw other at e)
  ]

  pub All-erase : (k : ℤ) (m : List (ℤ × V)) → All P m → All P (erase k m)
  unfolding erase
  All-erase k [] h = tt
  All-erase k ((j, w) ∷ m) (p, h) = elim (Bool-cases (j =ℤ k)) [
    | inl same ↦ rw same (All-erase k m h)
    | inr other ↦ rw other (p, All-erase k m h)
  ]

  pub All-replace : (k : ℤ) (v : V) (m : List (ℤ × V)) → P (k, v) → All P m → All P (replace k v m)
  unfolding replace
  All-replace k v [] q h = tt
  All-replace k v ((j, w) ∷ m) q (p, h) = elim (Bool-cases (j =ℤ k)) [
    | inl same ↦
        rw same
          (subst P (ap (λ (i : ℤ). (i, v)) (sym ((=ℤ_iff j k).0 same))) q, All-replace k v m q h)
    | inr other ↦ rw other (p, All-replace k v m q h)
  ]
