-- ===== src/Poll/Packed.antt =====
-- src/shared/connection/connection_poll.cpp: the sockets that the array holds, without gaps.
use skype.Common.{
  suc, ◌-◌, ◌≡◌, refl, ap, ◌∙◌, ◌≤◌, ◌<◌, Bool, true, false, List, [], ◌∷◌, ◌++◌, length, replicate,
  arith, All, length-append, All-append, All-parts, ◌⊎◌,
}
use skype.Common.Int.{ℤ, ◌=ℤ◌}
use skype.Poll.{
  Poll, no_socket, add_socket, remove_socket, clear_socket, reposition_poll, count_poll_index,
  select_socket_with_events,
}
use skype.Poll.Slots.{
  Other, clear-free, clear-append, count-append, write_slot-room, reposition-clear, leb-false,
  reposition_poll-packed, first_ready-cases,
}

-- The array holds the sockets `xs`, and `own` in front.
pub record Packed (own : ℤ) (xs : List ℤ) (p : Poll) : Type 0 where
  pub fits : length xs ≤ 9
  pub slots : p.fds ≡ own ∷ (xs ++ replicate (9 - length xs) no_socket)
  pub index_of : p.index ≡ suc (length xs)
  pub valid : All (Other no_socket) xs

-- Up to eight sockets leave room for another, which stands behind them.
pub add_socket-Packed :
    (own s : ℤ) (xs : List ℤ) (p : Poll)
    → Packed own xs p
    → length xs < 9
    → (s =ℤ no_socket) ≡ false
    → ((add_socket s p).0 ≡ true) × Packed own (xs ++ s ∷ []) (add_socket s p).1
unfolding add_socket
add_socket-Packed own s xs p h room valid =
    let filled = write_slot-room own s xs room in
    rw h.index_of (
      rw (leb-false xs room) (
        refl,
        record {
          fits = omega (arith, room, length-append xs (s ∷ []));
          slots = rw h.slots filled;
          index_of = omega (arith, length-append xs (s ∷ []));
          valid = All-append (Other no_socket) xs (s ∷ []) h.valid (valid, tt);
        },
      ))

-- With nine the array is full and stays as it is.
pub add_socket_full :
    (own s : ℤ) (xs : List ℤ) (p : Poll)
    → Packed own xs p
    → length xs ≡ 9
    → add_socket s p ≡ (false, p)
unfolding add_socket
add_socket_full own s xs p h full = rw (h.index_of, full) refl

-- The socket that is removed leaves no gap.
pub remove_socket-Packed :
    (own s : ℤ) (ys zs : List ℤ) (p : Poll)
    → Packed own (ys ++ s ∷ zs) p
    → All (Other s) ys
    → All (Other s) zs
    → Packed own (ys ++ zs) (remove_socket s p)
unfolding remove_socket count_poll_index
remove_socket-Packed own s ys zs p h before behind =
    let n = 9 - length (ys ++ s ∷ zs) in
    let (valid, (_, valid')) = All-parts (Other no_socket) ys (s ∷ zs) h.valid in
    let closed = reposition-clear s ys zs n before behind valid valid' in
    let size : suc n ≡ 9 - length (ys ++ zs) =
      omega (arith, h.fits, length-append ys zs, length-append ys (s ∷ zs)) in
    rw h.slots (
      rw closed (record {
        fits = omega (arith, h.fits, length-append ys zs, length-append ys (s ∷ zs));
        slots = ap (λ k. own ∷ ((ys ++ zs) ++ replicate k no_socket)) size;
        index_of = omega (
          arith,
          count-append (ys ++ zs) (suc n) (All-append (Other no_socket) ys zs valid valid'),
        );
        valid = All-append (Other no_socket) ys zs valid valid';
      }))

-- A socket that is not there is removed without a change.
pub remove_absent-Packed :
    (own s : ℤ) (xs : List ℤ) (p : Poll)
    → Packed own xs p
    → All (Other s) xs
    → Packed own xs (remove_socket s p)
unfolding remove_socket count_poll_index
remove_absent-Packed own s xs p h absent =
    let n = 9 - length xs in
    let same : reposition_poll (clear_socket s (xs ++ replicate n no_socket))
        ≡ xs ++ replicate n no_socket =
      ap reposition_poll (
        clear-append s xs (replicate n no_socket) absent
        ∙ ap (λ (l : List ℤ). xs ++ l) (clear-free s n))
      ∙ reposition_poll-packed xs n h.valid in
    rw h.slots (
      rw same (record {
        fits = h.fits;
        slots = refl;
        index_of = omega (arith, count-append xs n h.valid);
        valid = h.valid;
      }))

-- What is selected is one of the sockets, or none.
pub select-cases :
    (own : ℤ) (ready : ℤ → Bool) (xs : List ℤ) (p : Poll)
    → Packed own xs p
    → (select_socket_with_events ready p ≡ no_socket)
      ⊎ ((ys zs : List ℤ) × (xs ≡ ys ++ select_socket_with_events ready p ∷ zs))
unfolding select_socket_with_events
select-cases own ready xs p h = rw h.slots (first_ready-cases ready (9 - length xs) xs)
