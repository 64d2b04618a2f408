-- ===== src/AudioQueue/Safety.antt =====
-- The nodes that the threads of the queue touch, and the next step of the one that pops.
use skype.Common.{ℕ, suc, true, ◌≡◌, refl, sym, ◌∙◌, ◌==◌, ◌⊎◌, inl, inr, List, arith, Bool-cases}
use skype.AudioQueue.{
  Node, Producer, Consumer, Queue, Effect, new_queue, Pop, Run, load_head, find_none, find_some,
  advance, copy, delete, resting, allocated, loaded, filled, linked, waiting, looking, holding,
  taking, copied,
}
use skype.AudioQueue.Chain.{Chain-cons}
use skype.AudioQueue.Holds.{Produces, Consumes}
use skype.AudioQueue.Order.{run-Trace}

module _ {A : Type 0} where
  -- The nodes that a thread reads or writes in its next step.
  abbrev pub Pushes : Producer A → ℕ → Type 0
  Pushes resting i = ⊥
  Pushes (allocated x n) i = ⊥
  Pushes (loaded x n o) i = o ≡ i
  Pushes (filled x n o) i = o ≡ i
  Pushes (linked x n) i = ⊥

  abbrev pub Pops : Consumer A → ℕ → Type 0
  Pops waiting i = ⊥
  Pops (looking o) i = ⊥
  Pops (holding o) i = o ≡ i
  Pops (taking o) i = o ≡ i
  Pops (copied o) i = o ≡ i

  Produces-alive :
      (node : ℕ → Node A) (tail fresh i : ℕ) (p : Producer A)
      → (node tail).alive ≡ true
      → Produces node tail fresh p
      → Pushes p i
      → (node i).alive ≡ true
  Produces-alive node tail fresh i resting v h u = absurd u
  Produces-alive node tail fresh i (allocated x n) v h u = absurd u
  Produces-alive node tail fresh i (loaded x n o) v (d, a, b, c) u = rw (sym u ∙ d) v
  Produces-alive node tail fresh i (filled x n o) v (d, a, b, c, w) u = rw (sym u ∙ d) v
  Produces-alive node tail fresh i (linked x n) v h u = absurd u

  Consumes-alive :
      (node : ℕ → Node A) (head tail i : ℕ) (c : Consumer A) (xs : List A)
      → Consumes node head tail c xs
      → Pops c i
      → (node i).alive ≡ true
  Consumes-alive node head tail i waiting xs h u = absurd u
  Consumes-alive node head tail i (looking o) xs h u = absurd u
  Consumes-alive node head tail i (holding o) xs (d, m, c) u =
      rw (sym u ∙ d) (Chain-cons node xs head tail m c).5
  Consumes-alive node head tail i (taking o) xs (d, m, c) u =
      rw (sym u) (Chain-cons node xs o tail m c).5
  Consumes-alive node head tail i (copied o) xs (d, v, c) u = rw (sym u) v

  -- Whatever steps the two threads of the queue have done: the node that one of them reads or
  -- writes in its next step is not deleted.
  pub run_alive :
      (memory : ℕ → Node A) (es : List (Effect A)) (t : Queue A)
      → Run (new_queue memory) es t
      → (i : ℕ) → (Pushes t.producer i ⊎ Pops t.consumer i)
      → (t.node i).alive ≡ true
  run_alive memory es t run i (inl u) =
      let (ys, tr, h) = run-Trace memory es t run in
      Produces-alive t.node t.tail t.fresh i t.producer h.tail_alive h.produces u
  run_alive memory es t run i (inr u) =
      let (ys, tr, h) = run-Trace memory es t run in
      Consumes-alive t.node t.head t.tail i t.consumer ys h.consumes u

  Consumes-Pop :
      (t : Queue A) (c : Consumer A) (ys : List A)
      → t.consumer ≡ c
      → Consumes t.node t.head t.tail c ys
      → (e : Effect A) × (r : Queue A) × Pop t e r
  Consumes-Pop t waiting ys d h = (_, _, load_head d)
  Consumes-Pop t (looking o) ys d h = elim (Bool-cases (o == t.tail)) [
    | inl e ↦ (_, _, find_none o d (ground arith))
    | inr e ↦ (_, _, find_some o d (ground arith))
  ]
  Consumes-Pop t (holding o) ys d (e, m, h) =
      (_, _, advance o (suc o) d (rw e (Chain-cons t.node ys t.head t.tail m h).4))
  Consumes-Pop t (taking o) ys d h = (_, _, copy o d)
  Consumes-Pop t (copied o) ys d h = (_, _, delete o d)

  -- Whatever steps the two threads of the queue have done, the one that pops can do its next step
  -- without the other: where it takes a node, the node behind it is linked.
  pub run_pops :
      (memory : ℕ → Node A) (es : List (Effect A)) (t : Queue A)
      → Run (new_queue memory) es t
      → (e : Effect A) × (r : Queue A) × Pop t e r
  run_pops memory es t run =
      let (ys, tr, h) = run-Trace memory es t run in Consumes-Pop t t.consumer ys refl h.consumes
