-- ===== src/Call/Dial.antt =====
-- src/client/user/call.cpp: how one of the two peers of a call is connected, by the end that calls and
-- by the one that accepts.
use skype.Common.{
  ℕ, zero, suc, Bool, true, false, not, ◌||◌, ltb, leb, Option, none, some, List, [], ◌∷◌, Bytes,
  if◌then◌else◌,
}
use skype.Common.Int.{ℤ}
use skype.Text.Number.{print_int}
use skype.Peer.{
  Peer, PeerStatus, awaiting, error, Arrivals, reset, connect_peer, accept_peer, ping_peer,
  hangup_peer, handshake_peer, is_accepted,
}
use skype.Client.{Job, JobType, new_job}

-- What the server and the other end do while a round lasts, and whether a hangup has come in.
pub record Moment : Type 0 where
  pub server : Bytes → Bytes
  pub arrivals : Arrivals
  pub hangup : Bool

abbrev pub is_error : PeerStatus → Bool
is_error error = true
is_error _ = false

abbrev pub is_awaiting : PeerStatus → Bool
is_awaiting awaiting = true
is_awaiting _ = false

abbrev pub ping_timeout : ℕ
ping_timeout = 10

abbrev pub accept_timeout : ℕ
accept_timeout = 40

-- How a dial ends: its result, the peer, how many pings were sent, whether a hangup was asked for,
-- whether the caller was removed, and the jobs that it posted.
pub record Dialled : Type 0 where
  pub ok : Bool
  pub peer : Peer
  pub pings : ℕ
  pub hung : Bool
  pub removed : Bool
  pub posted : List Job

abbrev pub ended : Bool → Peer → ℕ → Bool → Dialled
ended ok p pings hung = record {
  ok = ok;
  peer = p;
  pings = pings;
  hung = hung;
  removed = false;
  posted = [];
}

-- The handshake behind the loop.
unfoldable pub conclude_dial : Arrivals → ℕ → Bool → Peer → Dialled
conclude_dial es pings hung p =
    let p' = (handshake_peer es p).0 in ended (not (is_error p'.status)) p' pings hung

-- The loop of `udp_connect` at its round `count`; `none` is fuel that ran out.
unfoldable pub dial : ℕ → (ℕ → Moment) → ℕ → Bool → Peer → Option Dialled
dial zero now count hung p = none
dial (suc fuel) now count hung p =
    let m = now count in
    let p' = ping_peer m.server p in
    let hung' = hung || m.hangup in
    let rest = dial fuel now (suc count) hung' p' in
    if is_accepted p.status
    then some (conclude_dial m.arrivals count hung p)
    else if is_error p'.status
    then some (record (ended false p' (suc count) hung') { removed = true })
    else if hung'
    then some (ended true (hangup_peer m.server p') (suc count) true)
    else if ltb ping_timeout count
    then some (record (ended false (hangup_peer m.server p') (suc count) hung') {
      posted = new_job JobType.hangup ∷ [];
    })
    else rest

-- A round for each `count` from 0 to 11.
abbrev pub dial_fuel : ℕ
dial_fuel = 12

unfoldable pub udp_connect : (Bytes → Bytes) → (ℕ → Moment) → ℤ → Bool → Peer → Option Dialled
unfolding dial
udp_connect server now peer_id hung p =
    let p' = connect_peer server (print_int peer_id) p in
    if not (is_awaiting p'.status)
    then some (ended false p' 0 hung)
    else dial dial_fuel now 0 hung p'

unfoldable pub udp_accept : Moment → ℤ → Peer → Bool × Peer
udp_accept m user_id p =
    let p' = accept_peer m.server (print_int user_id) p in
    if is_accepted p'.status
    then (let p'' = (handshake_peer m.arrivals p').0 in (not (is_error p''.status), p''))
    else (false, p')

-- The retries of `accept`: each resets the peer first.
unfoldable pub accept_again : ℕ → (ℕ → Moment) → ℤ → ℕ → Peer → Option (Bool × Peer)
accept_again zero now user_id count p = none
accept_again (suc fuel) now user_id count p =
    let (ok, p') = udp_accept (now count) user_id (reset p) in
    let rest = accept_again fuel now user_id (suc count) p' in
    if leb accept_timeout count || ok then some (ok, p') else rest

-- A retry for each `count` from 0 to 40.
abbrev pub accept_fuel : ℕ
accept_fuel = 41

unfoldable pub accept_video : Moment → (ℕ → Moment) → ℤ → Peer → Option (Bool × Peer)
unfolding accept_again
accept_video m now user_id p =
    let (ok, p') = udp_accept m user_id p in
    if ok then some (true, p') else accept_again accept_fuel now user_id 0 p'
