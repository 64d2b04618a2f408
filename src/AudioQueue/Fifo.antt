-- ===== src/AudioQueue/Fifo.antt =====
-- What goes into the queue and what comes out of it.
use skype.Common.{
  ℕ, ◌≡◌, refl, ap, Option, some, List, [], ◌∷◌, ◌++◌, map, append_assoc, append-nil,
}
use skype.AudioQueue.{Node, Queue, Effect, silent, pushes, pops, misses, new_queue, Run}
use skype.AudioQueue.Holds.{Holds, Does}
use skype.AudioQueue.Order.{Trace, begin, next, run-Trace}
use mathlib.Core.List.{map-append}

module _ {A : Type 0} where
  unfoldable pub pushed : List (Effect A) → List A
  pushed [] = []
  pushed (silent ∷ es) = pushed es
  pushed (pushes x ∷ es) = x ∷ pushed es
  pushed (pops p ∷ es) = pushed es
  pushed (misses ∷ es) = pushed es

  unfoldable pub popped : List (Effect A) → List (Option A)
  popped [] = []
  popped (silent ∷ es) = popped es
  popped (pushes x ∷ es) = popped es
  popped (pops p ∷ es) = p ∷ popped es
  popped (misses ∷ es) = popped es

  pushed-append : (ds es : List (Effect A)) → pushed (ds ++ es) ≡ pushed ds ++ pushed es
  unfolding pushed
  pushed-append [] es = refl
  pushed-append (silent ∷ ds) es = pushed-append ds es
  pushed-append (pushes x ∷ ds) es = ap (λ l. x ∷ l) (pushed-append ds es)
  pushed-append (pops p ∷ ds) es = pushed-append ds es
  pushed-append (misses ∷ ds) es = pushed-append ds es

  popped-append : (ds es : List (Effect A)) → popped (ds ++ es) ≡ popped ds ++ popped es
  unfolding popped
  popped-append [] es = refl
  popped-append (silent ∷ ds) es = popped-append ds es
  popped-append (pushes x ∷ ds) es = popped-append ds es
  popped-append (pops p ∷ ds) es = ap (λ l. p ∷ l) (popped-append ds es)
  popped-append (misses ∷ ds) es = popped-append ds es

  Does-fifo :
      (e : Effect A) (xs ys : List A) (os : List (Option A))
      → Does e xs ys
      → (os ++ map some xs) ++ map some (pushed (e ∷ [])) ≡ (os ++ popped (e ∷ [])) ++ map some ys
  unfolding pushed popped
  Does-fifo silent xs ys os d = simp (d, append_assoc, append-nil)
  Does-fifo (pushes x) xs ys os d = simp (d, append_assoc, append-nil, map-append)
  Does-fifo (pops p) xs ys os (x, (a, b)) = simp (a, b, append_assoc, append-nil)
  Does-fifo misses xs ys os (a, b) = simp (a, b, append-nil)

  Trace-fifo :
      (es : List (Effect A)) (xs : List A)
      → Trace es xs
      → map some (pushed es) ≡ popped es ++ map some xs
  unfolding pushed popped
  Trace-fifo es xs begin = refl
  Trace-fifo es xs (next {es = ds} {xs = ws} e run d) = simp (
    pushed-append ds (e ∷ []),
    popped-append ds (e ∷ []),
    map-append some (pushed ds) (pushed (e ∷ [])),
    Trace-fifo ds ws run,
    Does-fifo e ws xs (popped ds) d,
  )

  -- However the steps follow one another: the packages pushed are those that pops returned, in the same
  -- order, and behind them those that are in the queue; a pop that finds a node returns a package.
  pub run_fifo :
      (memory : ℕ → Node A) (es : List (Effect A)) (t : Queue A)
      → Run (new_queue memory) es t
      → (ys : List A) × Holds t ys × (map some (pushed es) ≡ popped es ++ map some ys)
  run_fifo memory es t run =
      let (ys, tr, h) = run-Trace memory es t run in (ys, h, Trace-fifo es ys tr)
