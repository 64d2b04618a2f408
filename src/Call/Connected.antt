-- ===== src/Call/Connected.antt =====
-- When a call counts as connected, and how often a call is accepted for video.
use skype.Common.{
  ℕ, zero, suc, ◌+◌, ◌<◌, ◌≤◌, ◌≡◌, refl, Bool, true, false, ◌||◌, leb, none, some, Bytes, arith,
  Bool-cases, Option-cases, some_inj, inl, inr,
}
use skype.Common.Int.{ℤ}
use skype.Client.{Job}
use skype.Peer.{Peer, new_peer, reset}
use skype.Call.{
  Call, Moment, Line, Dialled, Outcome, udp_connect, udp_accept, after_audio, connect, accept_again,
  accept_video, accept_fuel, accept_timeout, drop_caller,
}

drop_caller-connected :
    (d : Dialled) (k : ℤ) (c : Call) → (drop_caller d k c).connected ≡ c.connected
drop_caller-connected d k c = ground arith

after_audio_marks :
    (video : Line) (late : Bool) (peer_id : ℤ) (local_ip : Bytes) (c : Call) (a : Dialled)
    (o : Outcome)
    → c.connected ≡ false
    → after_audio video late peer_id local_ip c a ≡ some o
    → o.call.connected ≡ true
    → (a.ok ≡ true) × ((a.hung || late) ≡ false)
unfolding after_audio
after_audio_marks video late peer_id local_ip c a o fresh e marked = elim (Bool-cases a.ok) [
  | inr failed ↦ absurd (cc (drop_caller-connected a peer_id c, some_inj (rw failed at e)))
  | inl ok ↦ elim (Bool-cases (a.hung || late)) [
    | inr calm ↦ (ok, calm)
    | inl hung ↦ absurd (cc (drop_caller-connected a peer_id c, some_inj (rw (ok, hung) at e)))
  ]
]

-- A call that was not connected counts as connected after `connect` only where the dial for sound
-- has come to a handshake that did not fail, and no hangup was asked for until then.
pub connect_marks :
    (audio video : Line) (local_ip : Bytes) (job : Job) (c : Call) (o : Outcome)
    → c.connected ≡ false
    → connect audio video local_ip job c ≡ some o
    → o.call.connected ≡ true
    → (a : Dialled) × (udp_connect audio.server audio.now job.int_value false
          (new_peer job.argument local_ip)
        ≡ some a)
      × (a.ok ≡ true)
      × ((a.hung || audio.late) ≡ false)
unfolding connect
connect_marks audio video local_ip job c o fresh e marked =
    elim (Option-cases
      (udp_connect audio.server audio.now job.int_value false (new_peer job.argument local_ip))) [
        | inl ran_out ↦ absurd (cc (rw (ran_out, connect) at e))
        | inr (a, dialled) ↦
            let c' : Call = record c {
              token = job.argument;
              hangup = false;
              audio = none;
              video = none;
            } in
            let (ok, calm) =
              after_audio_marks video audio.late job.int_value local_ip c' a o fresh
                (rw (dialled, connect) at e) marked in
            (a, dialled, ok, calm)
      ]

accept_again-total :
    (f : ℕ) (now : ℕ → Moment) (user_id : ℤ) (count : ℕ) (p : Peer)
    → count ≤ 40
    → 40 < count + f
    → (r : Bool × Peer) × (accept_again f now user_id count p ≡ some r)
unfolding accept_again
accept_again-total zero now user_id count p h g = absurd (omega arith)
accept_again-total (suc f) now user_id count p h g =
    let (ok, p') = udp_accept (now count) user_id (reset p) in
    elim (Bool-cases (leb accept_timeout count || ok)) [
      | inl done ↦ ((ok, p'), rw done refl)
      | inr more ↦
          rw more (accept_again-total f now user_id (suc count) p' (ground arith) (omega arith))
    ]

-- The retries of `accept` end with the fuel that is given, the forty-first at the latest.
pub accept_video-total :
    (m : Moment) (now : ℕ → Moment) (user_id : ℤ) (p : Peer)
    → (r : Bool × Peer) × (accept_video m now user_id p ≡ some r)
unfolding accept_video
accept_video-total m now user_id p =
    let p' = (udp_accept m user_id p).1 in
    elim (Bool-cases (udp_accept m user_id p).0) [
      | inl ok ↦ ((true, p'), rw ok refl)
      | inr failed ↦
          rw failed (accept_again-total accept_fuel now user_id 0 p' (omega arith) (omega arith))
    ]
