-- ===== src/Poll.antt =====
-- src/shared/connection/connection_poll.cpp: the sockets that the server listens to, in an array of
-- ten. A free slot holds -1. What poll(2) reports is a function that says which sockets have input.
pub mod Slots
pub mod Packed
use skype.Common.{
  ℕ, zero, suc, ◌+◌, Bool, true, false, not, ◌&&◌, leb, List, [], ◌∷◌, replicate, if◌then◌else◌,
}
use skype.Common.Int.{ℤ, negsuc, ◌=ℤ◌}

-- `MAX_CONNECTIONS`
abbrev pub max_connections : ℕ
max_connections = 10

abbrev pub no_socket : ℤ
no_socket = negsuc 0

-- The slots of `m_poll`, and `m_poll_index`.
pub record Poll : Type 0 where
  pub fds : List ℤ
  pub index : ℕ

abbrev pub new_poll : Poll
new_poll = record { fds = replicate max_connections no_socket; index = 0 }

-- A write to the slot.
unfoldable pub write_slot : ℕ → ℤ → List ℤ → List ℤ
write_slot i s [] = []
write_slot zero s (fd ∷ fds) = s ∷ fds
write_slot (suc i) s (fd ∷ fds) = fd ∷ write_slot i s fds

unfoldable pub add_socket : ℤ → Poll → Bool × Poll
unfolding write_slot
add_socket s p =
    if leb max_connections p.index
    then (false, p)
    else (true, record { fds = write_slot p.index s p.fds; index = suc p.index })

-- The slots behind the first one, which is the listening socket's.
abbrev pub behind_own : List ℤ → List ℤ
behind_own [] = []
behind_own (own ∷ fds) = fds

abbrev pub with_own : (List ℤ → List ℤ) → List ℤ → List ℤ
with_own f [] = []
with_own f (own ∷ fds) = own ∷ f fds

-- The first of them that has input.
unfoldable pub first_ready : (ℤ → Bool) → List ℤ → ℤ
first_ready ready [] = no_socket
first_ready ready (fd ∷ fds) =
    if not (fd =ℤ no_socket) && ready fd then fd else first_ready ready fds

unfoldable pub select_socket_with_events : (ℤ → Bool) → Poll → ℤ
unfolding first_ready
select_socket_with_events ready p = first_ready ready (behind_own p.fds)

unfoldable pub clear_socket : ℤ → List ℤ → List ℤ
clear_socket s [] = []
clear_socket s (fd ∷ fds) = (if fd =ℤ s then no_socket else fd) ∷ clear_socket s fds

-- The loop of `reposition_poll`, with the slot `fd` in front of the others: it is swapped with the
-- next where it is free and that one is not.
unfoldable pub reposition_from : ℤ → List ℤ → List ℤ
reposition_from fd [] = fd ∷ []
reposition_from fd (next ∷ fds) =
    let (kept, carried) =
      if fd =ℤ no_socket && not (next =ℤ no_socket) then (next, no_socket) else (fd, next) in
    kept ∷ reposition_from carried fds

unfoldable pub reposition_poll : List ℤ → List ℤ
unfolding reposition_from
reposition_poll [] = []
reposition_poll (fd ∷ fds) = reposition_from fd fds

unfoldable pub count_sockets : List ℤ → ℕ
count_sockets [] = 0
count_sockets (fd ∷ fds) = if fd =ℤ no_socket then 0 else suc (count_sockets fds)

unfoldable pub count_poll_index : List ℤ → ℕ
unfolding count_sockets
count_poll_index fds = 1 + count_sockets (behind_own fds)

unfoldable pub remove_socket : ℤ → Poll → Poll
unfolding reposition_poll clear_socket count_poll_index
remove_socket s p =
    let fds = with_own (λ l. reposition_poll (clear_socket s l)) p.fds in
    record { fds = fds; index = count_poll_index fds }
