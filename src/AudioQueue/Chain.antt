-- ===== src/AudioQueue/Chain.antt =====
-- The nodes of the queue from one on up to another, with the packages that they hold.
use skype.Common.{ℕ, suc, true, ◌≡◌, refl, ap, ◌≢◌, ◌<◌, ◌≤◌, ◌⊎◌, some, List, [], ◌∷◌, ◌++◌, arith}
use skype.AudioQueue.{Node, write}

module _ {A : Type 0} where
  abbrev pub Chain : (ℕ → Node A) → List A → ℕ → ℕ → Type 0
  Chain node [] i t = i ≡ t
  Chain node (x ∷ xs) i t =
      (i < t)
      × ((node i).audio ≡ some x)
      × ((node i).next ≡ some (suc i))
      × ((node i).alive ≡ true)
      × Chain node xs (suc i) t

  pub write_other : (node : ℕ → Node A) (n : Node A) (j i : ℕ) → i ≢ j → write j n node i ≡ node i
  write_other node n j i h = ground arith

  pub write_self : (node : ℕ → Node A) (n : Node A) (j : ℕ) → write j n node j ≡ n
  write_self node n j = ground arith

  -- A write outside of the chain leaves it.
  pub Chain-write :
      (node : ℕ → Node A) (n : Node A) (j : ℕ) (xs : List A) (i t : ℕ)
      → (j < i) ⊎ (t ≤ j)
      → Chain node xs i t
      → Chain (write j n node) xs i t
  Chain-write node n j [] i t o h = h
  Chain-write node n j (x ∷ xs) i t o (l, a, b, c, h) = (
    l,
    rw (write_other node n j i (omega (arith, o, l))) a,
    rw (write_other node n j i (omega (arith, o, l))) b,
    rw (write_other node n j i (omega (arith, o, l))) c,
    Chain-write node n j xs (suc i) t (omega (arith, o, l)) h,
  )

  pub Chain-append :
      (node : ℕ → Node A) (x : A) (xs : List A) (i t : ℕ)
      → (node t).audio ≡ some x
      → (node t).next ≡ some (suc t)
      → (node t).alive ≡ true
      → Chain node xs i t
      → Chain node (xs ++ x ∷ []) i (suc t)
  Chain-append node x [] i t a b c h = (omega (arith, h), rw h a, rw h b, rw h c, ap suc h)
  Chain-append node x (y ∷ xs) i t a b c (l, p, q, r, h) =
      (omega (arith, l), p, q, r, Chain-append node x xs (suc i) t a b c h)

  pub Chain-le : (node : ℕ → Node A) (xs : List A) (i t : ℕ) → Chain node xs i t → i ≤ t
  Chain-le node [] i t h = omega (arith, h)
  Chain-le node (x ∷ xs) i t (l, a, b, c, h) = omega (arith, l)

  -- A chain from a node to itself holds nothing, and one to a later node its first package.
  pub Chain-nil : (node : ℕ → Node A) (xs : List A) (i t : ℕ) → i ≡ t → Chain node xs i t → xs ≡ []
  Chain-nil node [] i t e h = refl
  Chain-nil node (x ∷ xs) i t e (l, a, b, c, h) = absurd (omega (arith, l, e))

  pub Chain-cons :
      (node : ℕ → Node A) (xs : List A) (i t : ℕ)
      → i < t
      → Chain node xs i t
      → (y : A) × (ys : List A) × (xs ≡ y ∷ ys)
        × ((node i).audio ≡ some y)
        × ((node i).next ≡ some (suc i))
        × ((node i).alive ≡ true)
        × Chain node ys (suc i) t
  Chain-cons node [] i t l h = absurd (omega (arith, l, h))
  Chain-cons node (x ∷ xs) i t l (m, a, b, c, h) = (x, xs, refl, a, b, c, h)

  pub Chain-moved :
      (node : ℕ → Node A) (xs : List A) (i j t : ℕ) → i ≡ j → Chain node xs i t → Chain node xs j t
  Chain-moved node xs i j t e h = rw (← e) h
