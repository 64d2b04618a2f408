-- ===== src/AudioQueue/Tests.antt =====
-- The queue between two threads, on a run in which a pop starts before a push is done.
use skype.Common.{ℕ, true, false, ◌≡◌, refl, inr, some, List, ◌++◌, map, arith}
use skype.AudioQueue.{
  Node, Queue, Effect, new_node, new_queue, Pop, Run, is_empty, allocate, load_tail, fill, link,
  publish, load_head, find_some, advance, copy, delete, start, push, pop,
}
use skype.AudioQueue.Holds.{Holds}
use skype.AudioQueue.Order.{Trace, run-Trace}
use skype.AudioQueue.Fifo.{pushed, popped, run_fifo}
use skype.AudioQueue.Safety.{run_alive, run_pops}

abbrev memory : ℕ → Node ℕ
memory i = new_node

-- A push of 7, with a load of `m_head` before its end.
abbrev begun : (es : List (Effect ℕ)) × (t : Queue ℕ) × Run (new_queue memory) es t
begun = (
  _,
  _,
  push
      (pop
        (push (push (push (push start (allocate 7 refl)) (load_tail 7 1 refl)) (fill 7 1 0 refl))
          (link 7 1 0 refl))
        (load_head refl))
      (publish 7 1 refl),
)

-- The pop finds the node.
abbrev found : (es : List (Effect ℕ)) × (t : Queue ℕ) × Run (new_queue memory) es t
found = (_, _, pop begun.2 (find_some 0 refl (omega arith)))

abbrev taken : (es : List (Effect ℕ)) × (t : Queue ℕ) × Run (new_queue memory) es t
taken = (_, _, pop (pop (pop found.2 (advance 0 1 refl refl)) (copy 0 refl)) (delete 0 refl))

taken_empty : is_empty taken.1 ≡ true
unfolding is_empty
taken_empty = refl

taken_deleted : (taken.1.node 0).alive ≡ false
taken_deleted = refl

run_alive_example : (found.1.node 0).alive ≡ true
run_alive_example = run_alive memory found.0 found.1 found.2 0 (inr refl)

run_pops_example : (e : Effect ℕ) × (r : Queue ℕ) × Pop found.1 e r
run_pops_example = run_pops memory found.0 found.1 found.2

run-Trace_example : (ys : List ℕ) × Trace taken.0 ys × Holds taken.1 ys
run-Trace_example = run-Trace memory taken.0 taken.1 taken.2

run_fifo_example :
    (ys : List ℕ) × Holds taken.1 ys × (map some (pushed taken.0) ≡ popped taken.0 ++ map some ys)
run_fifo_example = run_fifo memory taken.0 taken.1 taken.2
