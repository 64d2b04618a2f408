-- ===== src/AudioQueue/Order.antt =====
-- The steps of the two threads of the queue, against a list of packages.
use skype.Common.{
  ℕ, suc, false, ◌≡◌, refl, sym, ◌∙◌, ◌<◌, ◌≤◌, inl, some, List, [], ◌∷◌, ◌++◌, arith, some_inj,
}
use skype.AudioQueue.{
  Node, Producer, Consumer, Queue, Effect, new_node, new_queue, Push, Pop, Run, allocate, load_tail,
  fill, link, publish, load_head, find_none, find_some, advance, copy, delete, start, push, pop,
  resting, allocated, loaded, filled, linked, waiting, looking, holding, taking, copied,
}
use skype.AudioQueue.Chain.{
  Chain, write_other, write_self, Chain-write, Chain-nil, Chain-cons, Chain-moved,
}
use skype.AudioQueue.Holds.{
  Produces, Consumes, Holds, Does, Holds-new_queue, Consumes-write, Consumes-append, Consumes-le,
  Produces-write,
}

module _ {A : Type 0} (q : Queue A) (xs : List A) (h : Holds q xs) where
  open h use {produces, consumes, tail_alive}

  Produces-at : (p : Producer A) → q.producer ≡ p → Produces q.node q.tail q.fresh p
  Produces-at p e = rw (← e) produces

  Consumes-at : (c : Consumer A) → q.consumer ≡ c → Consumes q.node q.head q.tail c xs
  Consumes-at c e = rw (← e) consumes

  head-le-tail : q.head ≤ q.tail
  head-le-tail = Consumes-le q.node q.head q.tail q.consumer xs consumes

  Chain-next : (o : ℕ) → o < q.tail → Chain q.node xs o q.tail → (q.node o).next ≡ some (suc o)
  Chain-next o l c = (Chain-cons q.node xs o q.tail l c).4

  Push-Holds : (e : Effect A) (r : Queue A) → Push q e r → (ys : List A) × Does e xs ys × Holds r ys
  Push-Holds e r (allocate x p) = (
    xs,
    refl,
    record {
      produces = (
        grind (arith, Produces-at resting p),
        refl,
        grind (arith, write_self q.node new_node q.fresh),
      );
      consumes =
          Consumes-write q.node new_node q.fresh q.head q.tail q.consumer xs
            (omega (arith, Produces-at resting p)) head-le-tail consumes;
      tail_alive = grind (arith, Produces-at resting p);
    },
  )
  Push-Holds e r (load_tail x n p) =
      let (a, b, c) = Produces-at (allocated x n) p in
      (
        xs,
        refl,
        record { produces = (refl, a, b, c); consumes = consumes; tail_alive = tail_alive },
      )
  Push-Holds e r (fill x n o p) =
      let (d, a, b, c) = Produces-at (loaded x n o) p in
      (
        xs,
        refl,
        record {
          produces = (d, a, b, grind arith, grind arith);
          consumes =
              Consumes-write q.node (record (q.node o) { audio = some x }) o q.head q.tail
                q.consumer xs (omega (arith, d)) head-le-tail consumes;
          tail_alive = grind arith;
        },
      )
  Push-Holds e r (link x n o p) =
      let (d, a, b, c, w) = Produces-at (filled x n o) p in
      (
        xs,
        refl,
        record {
          produces = (a, b, grind arith, grind arith, grind arith);
          consumes =
              Consumes-write q.node (record (q.node o) { next = some n }) o q.head q.tail q.consumer
                xs (omega (arith, d)) head-le-tail consumes;
          tail_alive = grind arith;
        },
      )
  Push-Holds e r (publish x n p) =
      let (a, b, c, w, v) = Produces-at (linked x n) p in
      (
        xs ++ x ∷ [],
        refl,
        record {
          produces = b;
          consumes = rw a (
              Consumes-append q.node x q.head q.tail q.consumer xs w (rw (← a) v) tail_alive
                consumes);
          tail_alive = c;
        },
      )

  Pop-Holds : (e : Effect A) (r : Queue A) → Pop q e r → (ys : List A) × Does e xs ys × Holds r ys
  Pop-Holds e r (load_head p) = (
    xs,
    refl,
    record {
      produces = produces;
      consumes = (refl, Consumes-at waiting p);
      tail_alive = tail_alive;
    },
  )
  Pop-Holds e r (find_none o p t) =
      let (d, c) = Consumes-at (looking o) p in
      let w = Chain-nil q.node xs q.head q.tail (sym d ∙ t) c in
      (xs, (w, w), record { produces = produces; consumes = c; tail_alive = tail_alive })
  Pop-Holds e r (find_some o p t) =
      let (d, c) = Consumes-at (looking o) p in
      (
        xs,
        refl,
        record {
          produces = produces;
          consumes = (d, omega (arith, head-le-tail, d, t), c);
          tail_alive = tail_alive;
        },
      )
  Pop-Holds e r (advance o n p t) =
      let (d, m, c) = Consumes-at (holding o) p in
      let l : o < q.tail = rw d m in
      let k : Chain q.node xs o q.tail = rw d c in
      (
        xs,
        refl,
        record {
          produces = produces;
          consumes = (some_inj (sym (Chain-next o l k) ∙ t), l, k);
          tail_alive = tail_alive;
        },
      )
  Pop-Holds e r (copy o p) =
      let (d, m, c) = Consumes-at (taking o) p in
      let (y, ys, e, a, b, v, w) = Chain-cons q.node xs o q.tail m c in
      (
        ys,
        (y, (a, e)),
        record {
          produces = produces;
          consumes = (d, v, Chain-moved q.node ys (suc o) q.head q.tail d w);
          tail_alive = tail_alive;
        },
      )
  Pop-Holds e r (delete o p) =
      let (d, v, c) = Consumes-at (copied o) p in
      (
        xs,
        refl,
        record {
          produces =
              Produces-write q.node (record (q.node o) { alive = false }) o q.tail q.fresh
                q.producer (omega (arith, d, head-le-tail)) produces;
          consumes =
              Chain-write q.node (record (q.node o) { alive = false }) o xs q.head q.tail
                (inl (omega (arith, d))) c;
          tail_alive =
              rw
                (write_other q.node (record (q.node o) { alive = false }) o q.tail
                  (omega (arith, d, head-le-tail)))
                tail_alive;
        },
      )

module _ {A : Type 0} where
  -- A list of packages that starts empty and does what the callers see.
  pub data Trace : List (Effect A) → List A → Type 0 where
    begin : Trace [] []
    next :
        {es : List (Effect A)} {xs ys : List A} (e : Effect A)
        → Trace es xs
        → Does e xs ys
        → Trace (es ++ e ∷ []) ys

  -- However the steps of the two threads follow one another: what the callers of the queue see is
  -- what a list shows them that starts empty, where a push appends its package, a pop takes the
  -- first one, and a pop that finds nothing finds the list empty.
  pub run-Trace :
      (memory : ℕ → Node A) (es : List (Effect A)) (t : Queue A)
      → Run (new_queue memory) es t
      → (ys : List A) × Trace es ys × Holds t ys
  run-Trace memory es t start = ([], begin, Holds-new_queue memory)
  run-Trace memory es t (push {es = ds} {r} {e} run s) =
      let (xs, tr, h) = run-Trace memory ds r run in
      let (ys, d, k) = Push-Holds r xs h e t s in (ys, next e tr d, k)
  run-Trace memory es t (pop {es = ds} {r} {e} run s) =
      let (xs, tr, h) = run-Trace memory ds r run in
      let (ys, d, k) = Pop-Holds r xs h e t s in (ys, next e tr d, k)
