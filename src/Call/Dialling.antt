-- ===== src/Call/Dialling.antt =====
-- The loop that pings until the other end accepts.
use skype.Common.{
  ℕ, zero, suc, ◌+◌, ◌-◌, ◌<◌, ◌≤◌, ◌≡◌, refl, ap, ◌∙◌, Bool, true, false, not, ltb, le→ltb_false,
  lt→ltb, Option, some, is_nil, [], ◌∷◌, ◌++◌, Bytes, codes, if◌then◌else◌, arith, Lacks, ◌||◌,
}
use skype.Common.Int.{ℤ}
use skype.Text.Number.{print_int}
use skype.Reply.{ReplyCode, r_200, r_203}
use skype.Command.{ping, connect}
use skype.Peer.{Peer, server_text, ping_peer, connect_peer, hangup_peer, new_peer, is_accepted}
use skype.Peer.Status.{first_status}
use skype.Client.{JobType, new_job}
use skype.Call.{
  Moment, Dialled, ended, dial, dial_fuel, udp_connect, conclude_dial, is_error, is_awaiting,
  ping_timeout,
}
use skype.Call.Answered.{
  calling, answered, connect_calls, ping_awaits, ping_accepts, conclude_dial-first,
}

module _ (now : ℕ → Moment) (token local_ip : Bytes) where
  -- In the moment the other end has not accepted, and no hangup has come in.
  abbrev pub Waits : Moment → Type 0
  Waits m = (m.server (server_text ping token) ≡ codes "203 Awaiting") × (m.hangup ≡ false)

  -- It has accepted, and the server gives its address.
  abbrev pub Accepts : Bytes → Bytes → Moment → Type 0
  Accepts place kind m =
      (m.server (server_text ping token) ≡ codes "201 " ++ (place ++ b' ' ∷ kind))
      × (m.hangup ≡ false)

  dial-Waits :
      (f count : ℕ) (code : ReplyCode)
      → Waits (now count)
      → count ≤ 10
      → dial (suc f) now count false (calling token local_ip code)
        ≡ dial f now (suc count) false (calling token local_ip r_203)
  unfolding dial
  dial-Waits f count code (answer, quiet) h =
      rw
        (
          ping_awaits (now count).server token local_ip code answer,
          quiet,
          le→ltb_false ping_timeout count h,
        )
        refl

  dial-Accepts :
      (f count : ℕ) (code : ReplyCode) (place kind : Bytes)
      → Lacks b' ' place
      → Accepts place kind (now count)
      → count ≤ 10
      → dial (suc (suc f)) now count false (calling token local_ip code)
        ≡ some (
            conclude_dial
              (now (suc count)).arrivals
              (suc count)
              false
              (answered token local_ip place kind))
  unfolding dial
  dial-Accepts f count code place kind bare (answer, quiet) h =
      rw
        (
          ping_accepts (now count).server token local_ip code place kind bare answer,
          quiet,
          le→ltb_false ping_timeout count h,
        )
        refl

  dial_times_out :
      (f count : ℕ) (code : ReplyCode)
      → Waits (now count)
      → 10 < count
      → dial (suc f) now count false (calling token local_ip code)
        ≡ some
            (record (ended false
              (hangup_peer (now count).server (calling token local_ip r_203))
              (suc count)
              false) { posted = new_job JobType.hangup ∷ [] })
  unfolding dial
  dial_times_out f count code (answer, quiet) h =
      rw
        (
          ping_awaits (now count).server token local_ip code answer,
          quiet,
          lt→ltb ping_timeout count h,
        )
        refl

  -- The rounds before the one that is looked at.
  dial_from :
      (n f count k : ℕ) (code : ReplyCode)
      → count + k ≡ n
      → n ≤ 11
      → ((i : ℕ) → i < n → Waits (now i))
      → (code' : ReplyCode) × (dial (k + f) now count false (calling token local_ip code)
          ≡ dial f now n false (calling token local_ip code'))
  dial_from n f count zero code e h w =
      let none_left : 0 + f ≡ f = omega arith in
      let here : count ≡ n = omega arith in (code, rw (none_left, here) refl)
  dial_from n f count (suc k) code e h w =
      let one_more : suc k + f ≡ suc (k + f) = omega arith in
      let (code', rest) = dial_from n f (suc count) k r_203 (omega arith) h w in
      (
        code',
        ap (λ (g : ℕ). dial g now count false (calling token local_ip code)) one_more
            ∙ dial-Waits (k + f) count code (w count (omega arith)) (omega arith)
            ∙ rest,
      )

  module _ (server : Bytes → Bytes) (peer_id : ℤ)
      (called : server (
          server_text connect
            (token ++ (codes " " ++ (print_int peer_id ++ (codes " " ++ local_ip)))))
        ≡ codes "200 OK") where
    udp_connect_dials :
        udp_connect server now peer_id false (new_peer token local_ip)
        ≡ dial dial_fuel now 0 false (calling token local_ip r_200)
    unfolding udp_connect
    udp_connect_dials =
        rw (connect_calls server token local_ip (print_int peer_id) called, udp_connect) refl

    -- Where the server takes the call, the other end accepts by the eleventh ping, at an address
    -- that is not empty and has no space, and no hangup comes in until then, the loop ends with
    -- the handshake at the address that the server gives: connected where the first `receive`
    -- gives `200 OK`, and in error otherwise.
    pub udp_connect-answered :
        (n : ℕ) (place kind : Bytes)
        → n ≤ 10
        → ((i : ℕ) → i < n → Waits (now i))
        → Lacks b' ' place
        → is_nil place ≡ false
        → Accepts place kind (now n)
        → let status = first_status (now (suc n)).arrivals in
          udp_connect server now peer_id false (new_peer token local_ip)
          ≡ some (
              ended
                (not (is_error status))
                (record (answered token local_ip place kind) { status = status })
                (suc n)
                false)
    udp_connect-answered n place kind h w bare named a =
        let fuel : 12 ≡ n + suc (suc (10 - n)) = omega arith in
        let (code, e) = dial_from n (suc (suc (10 - n))) 0 n r_200 (omega arith) (omega arith) w in
        udp_connect_dials
        ∙ ap (λ (g : ℕ). dial g now 0 false (calling token local_ip r_200)) fuel
        ∙ e
        ∙ dial-Accepts (10 - n) n code place kind bare a h
        ∙ ap some
            (conclude_dial-first token local_ip place kind (now (suc n)).arrivals (suc n) named)

    -- Where the server takes the call and the other end has not accepted by the twelfth ping, the
    -- call is given up: the server is told to hang up, and a job to hang up is posted.
    pub udp_connect_gives_up :
        ((i : ℕ) → i < 12 → Waits (now i))
        → udp_connect server now peer_id false (new_peer token local_ip)
          ≡ some
              (record (ended false
                (hangup_peer (now 11).server (calling token local_ip r_203))
                12
                false) { posted = new_job JobType.hangup ∷ [] })
    udp_connect_gives_up w =
        let (code, e) =
          dial_from 11 1 0 11 r_200 (omega arith) (omega arith) (λ i h. w i (omega arith)) in
        udp_connect_dials ∙ e ∙ dial_times_out 0 11 code (w 11 (omega arith)) (omega arith)

abbrev pub Ends : Option Dialled → Type 0
Ends o = (d : Dialled) × (o ≡ some d) × (d.pings ≤ 12)

Ends-if :
    (b : Bool) (x y : Option Dialled)
    → (b ≡ true → Ends x)
    → (b ≡ false → Ends y)
    → Ends (if b then x else y)
Ends-if true x y h k = h refl
Ends-if false x y h k = k refl

Ends-with : (d : Dialled) → d.pings ≤ 12 → Ends (some d)
Ends-with d h = (d, refl, h)

dial-Ends :
    (f : ℕ) (now : ℕ → Moment) (count : ℕ) (hung : Bool) (p : Peer)
    → count ≤ 11
    → 11 < count + f
    → Ends (dial f now count hung p)
unfolding dial conclude_dial
dial-Ends zero now count hung p h g = absurd (omega arith)
dial-Ends (suc f) now count hung p h g =
    let p' = ping_peer (now count).server p in
    let hung' = hung || (now count).hangup in
    Ends-if (is_accepted p.status) _ _
      (λ _. Ends-with (conclude_dial (now count).arrivals count hung p) (omega arith))
      λ _.
        Ends-if (is_error p'.status) _ _
          (λ _.
            Ends-with (record (ended false p' (suc count) hung') { removed = true }) (omega arith))
          λ _.
            Ends-if hung' _ _
              (λ _.
                Ends-with (ended true (hangup_peer (now count).server p') (suc count) true)
                  (omega arith))
              λ _.
                Ends-if (ltb ping_timeout count) _ _
                  (λ _.
                    Ends-with
                      (record (ended false (hangup_peer (now count).server p') (suc count) hung') {
                        posted = new_job JobType.hangup ∷ [];
                      })
                      (omega arith))
                  λ more. dial-Ends f now (suc count) hung' p' (ground arith) (omega arith)

-- Whatever the server, the other end and the user do, connecting ends, after at most twelve pings.
pub udp_connect-Ends :
    (server : Bytes → Bytes) (now : ℕ → Moment) (peer_id : ℤ) (hung : Bool) (p : Peer)
    → Ends (udp_connect server now peer_id hung p)
unfolding udp_connect
udp_connect-Ends server now peer_id hung p =
    let p' = connect_peer server (print_int peer_id) p in
    Ends-if (not (is_awaiting p'.status)) _ _ (λ _. Ends-with (ended false p' 0 hung) (omega arith))
      λ _. dial-Ends dial_fuel now 0 hung p' (omega arith) (omega arith)
