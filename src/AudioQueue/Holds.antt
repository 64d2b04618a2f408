-- ===== src/AudioQueue/Holds.antt =====
-- The list of packages that a queue holds between two steps of its threads, and what writes to nodes
-- leave of it.
use skype.Common.{ℕ, suc, true, ◌≡◌, refl, ◌<◌, ◌≤◌, inr, some, List, [], ◌∷◌, ◌++◌, arith}
use skype.AudioQueue.{
  Node, Producer, Consumer, Queue, Effect, silent, pushes, pops, misses, write, new_queue, resting,
  allocated, loaded, filled, linked, waiting, looking, holding, taking, copied,
}
use skype.AudioQueue.Chain.{Chain, write_other, Chain-write, Chain-append, Chain-le}

module _ {A : Type 0} where
  -- The new node of the producer is the one behind `m_tail`, whose package is there once it is filled.
  abbrev pub Produces : (ℕ → Node A) → ℕ → ℕ → Producer A → Type 0
  Produces node tail fresh resting = fresh ≡ suc tail
  Produces node tail fresh (allocated x n) =
      (n ≡ suc tail) × (fresh ≡ suc n) × ((node n).alive ≡ true)
  Produces node tail fresh (loaded x n o) =
      (o ≡ tail) × (n ≡ suc tail) × (fresh ≡ suc n) × ((node n).alive ≡ true)
  Produces node tail fresh (filled x n o) =
      (o ≡ tail)
      × (n ≡ suc tail)
      × (fresh ≡ suc n)
      × ((node n).alive ≡ true)
      × ((node tail).audio ≡ some x)
  Produces node tail fresh (linked x n) =
      (n ≡ suc tail)
      × (fresh ≡ suc n)
      × ((node n).alive ≡ true)
      × ((node tail).audio ≡ some x)
      × ((node tail).next ≡ some n)

  -- The packages `xs` that no pop has returned are in the nodes from `m_head` on, or from the one
  -- before it while its package is not read.
  abbrev pub Consumes : (ℕ → Node A) → ℕ → ℕ → Consumer A → List A → Type 0
  Consumes node head tail waiting xs = Chain node xs head tail
  Consumes node head tail (looking o) xs = (o ≡ head) × Chain node xs head tail
  Consumes node head tail (holding o) xs = (o ≡ head) × (head < tail) × Chain node xs head tail
  Consumes node head tail (taking o) xs = (suc o ≡ head) × (o < tail) × Chain node xs o tail
  Consumes node head tail (copied o) xs =
      (suc o ≡ head) × ((node o).alive ≡ true) × Chain node xs head tail

  pub record Holds (q : Queue A) (xs : List A) : Type 0 where
    pub produces : Produces q.node q.tail q.fresh q.producer
    pub consumes : Consumes q.node q.head q.tail q.consumer xs
    pub tail_alive : (q.node q.tail).alive ≡ true

  -- What a step that the callers see does to a list of packages.
  abbrev pub Does : Effect A → List A → List A → Type 0
  Does silent xs ys = ys ≡ xs
  Does (pushes x) xs ys = ys ≡ xs ++ x ∷ []
  Does (pops p) xs ys = (x : A) × ((p ≡ some x) × (xs ≡ x ∷ ys))
  Does misses xs ys = (xs ≡ []) × (ys ≡ [])

  pub Holds-new_queue : (memory : ℕ → Node A) → Holds (new_queue memory) []
  Holds-new_queue memory = record { produces = refl; consumes = refl; tail_alive = refl }

  pub Consumes-write :
      (node : ℕ → Node A) (n : Node A) (j head tail : ℕ) (c : Consumer A) (xs : List A)
      → tail ≤ j
      → head ≤ tail
      → Consumes node head tail c xs
      → Consumes (write j n node) head tail c xs
  Consumes-write node n j head tail waiting xs l k h = Chain-write node n j xs head tail (inr l) h
  Consumes-write node n j head tail (looking o) xs l k (e, h) =
      (e, Chain-write node n j xs head tail (inr l) h)
  Consumes-write node n j head tail (holding o) xs l k (e, m, h) =
      (e, m, Chain-write node n j xs head tail (inr l) h)
  Consumes-write node n j head tail (taking o) xs l k (e, m, h) =
      (e, m, Chain-write node n j xs o tail (inr l) h)
  Consumes-write node n j head tail (copied o) xs l k (e, a, h) = (
    e,
    rw (write_other node n j o (omega (arith, e, l, k))) a,
    Chain-write node n j xs head tail (inr l) h,
  )

  pub Consumes-append :
      (node : ℕ → Node A) (x : A) (head tail : ℕ) (c : Consumer A) (xs : List A)
      → (node tail).audio ≡ some x
      → (node tail).next ≡ some (suc tail)
      → (node tail).alive ≡ true
      → Consumes node head tail c xs
      → Consumes node head (suc tail) c (xs ++ x ∷ [])
  Consumes-append node x head tail waiting xs a b v h = Chain-append node x xs head tail a b v h
  Consumes-append node x head tail (looking o) xs a b v (e, h) =
      (e, Chain-append node x xs head tail a b v h)
  Consumes-append node x head tail (holding o) xs a b v (e, m, h) =
      (e, omega (arith, m), Chain-append node x xs head tail a b v h)
  Consumes-append node x head tail (taking o) xs a b v (e, m, h) =
      (e, omega (arith, m), Chain-append node x xs o tail a b v h)
  Consumes-append node x head tail (copied o) xs a b v (e, l, h) =
      (e, l, Chain-append node x xs head tail a b v h)

  pub Consumes-le :
      (node : ℕ → Node A) (head tail : ℕ) (c : Consumer A) (xs : List A)
      → Consumes node head tail c xs
      → head ≤ tail
  Consumes-le node head tail waiting xs h = Chain-le node xs head tail h
  Consumes-le node head tail (looking o) xs (e, h) = Chain-le node xs head tail h
  Consumes-le node head tail (holding o) xs (e, m, h) = omega (arith, m)
  Consumes-le node head tail (taking o) xs (e, m, h) = omega (arith, e, m)
  Consumes-le node head tail (copied o) xs (e, l, h) = Chain-le node xs head tail h

  pub Produces-write :
      (node : ℕ → Node A) (n : Node A) (j tail fresh : ℕ) (p : Producer A)
      → j < tail
      → Produces node tail fresh p
      → Produces (write j n node) tail fresh p
  Produces-write node n j tail fresh resting l h = h
  Produces-write node n j tail fresh (allocated x i) l (e, f, a) =
      (e, f, rw (write_other node n j i (omega (arith, e, l))) a)
  Produces-write node n j tail fresh (loaded x i o) l (d, e, f, a) =
      (d, e, f, rw (write_other node n j i (omega (arith, e, l))) a)
  Produces-write node n j tail fresh (filled x i o) l (d, e, f, a, b) = (
    d,
    e,
    f,
    rw (write_other node n j i (omega (arith, e, l))) a,
    rw (write_other node n j tail (omega (arith, l))) b,
  )
  Produces-write node n j tail fresh (linked x i) l (e, f, a, b, c) = (
    e,
    f,
    rw (write_other node n j i (omega (arith, e, l))) a,
    rw (write_other node n j tail (omega (arith, l))) b,
    rw (write_other node n j tail (omega (arith, l))) c,
  )
