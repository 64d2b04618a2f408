-- ===== src/Peer/Status.antt =====
-- The status of a peer after a ping and after a handshake, and the messages of a handshake.
use skype.Common.{
  ℕ, zero, suc, ◌≤◌, ◌≡◌, ◌≢◌, refl, ap, sym, ◌∙◌, Bool, true, false, inl, inr, none, some, [], ◌∷◌,
  ◌++◌, Bytes, codes, is_nil, same_text, eq_of_same_text, if◌then◌else◌, arith, Lacks, Bool-cases,
}
use skype.Text.{split_first}
use skype.Text.Split.{split_first-append}
use skype.Reply.{r_201, from_string}
use skype.Command.{ping}
use skype.Peer.{
  Peer, PeerStatus, idle, awaiting, accepted, connected, error, PeerType, initiator, acceptor,
  untyped, PeerNetwork, local, web, unselected, server_text, send_server, take_address,
  ping_initiator, ping_peer, ok_msg, Arrivals, is_accepted, invalid_to_handshake, Exchange,
  udp_respond, udp_receive, take_arrival, hole_punch, retry, max_punch_trials, await, conclude,
  punch_web, new_exchange, confirm, handshake_acceptor, handshake_initiator, handshake_as,
  handshake_peer,
}

-- What a handshake comes to by the first `receive` alone.
abbrev pub first_status : Arrivals → PeerStatus
first_status [] = error
first_status (none ∷ es) = error
first_status (some text ∷ es) = if same_text text ok_msg then connected else error

-- A request that is not valid stays so, and nothing is sent for it.
retry_invalid :
    (trials : ℕ) (x : Exchange)
    → x.valid ≡ false
    → ((retry trials x).0 ≡ false) × ((retry trials x).1.sent ≡ x.sent)
unfolding retry hole_punch udp_receive udp_respond
retry_invalid zero x h = (refl, refl)
retry_invalid (suc trials) x h =
    rw (h, retry)
      (retry_invalid trials
        (record { valid = false; text = ok_msg; arrivals = x.arrivals; sent = x.sent }) refl)

retry_failed :
    (trials : ℕ) (x : Exchange)
    → x.valid ≡ false
    → (conclude (retry trials x).0 (retry trials x).1.text ≡ error)
      × ((retry trials x).1.sent ≡ x.sent)
retry_failed trials x h = let (failed, same) = retry_invalid trials x h in (rw failed refl, same)

await_first :
    (x : Exchange)
    → x.valid ≡ true
    → (conclude (await x).0 (await x).1.text ≡ first_status x.arrivals)
      × ((await x).1.sent ≡ x.sent)
unfolding await udp_receive
await_first x h = rw h (by_first max_punch_trials x.arrivals)
  where
    by_first :
        (trials : ℕ) (es : Arrivals)
        → let x' = take_arrival es (record x { valid = true }) in
          let r : Bool × Exchange = if x'.valid then (true, x') else retry trials x' in
          (conclude r.0 r.1.text ≡ first_status es) × (r.1.sent ≡ x.sent)
    by_first trials [] = retry_failed trials (record x { valid = false }) refl
    by_first trials (none ∷ es) =
        retry_failed trials (record x { valid = false; arrivals = es }) refl
    by_first trials (some text ∷ es) = (refl, refl)

punched :
    (network : PeerNetwork) (es : Arrivals)
    → let x = punch_web network (new_exchange es) in
      (x.valid ≡ true) × (x.arrivals ≡ es) × (x.sent ≤ 1)
unfolding punch_web hole_punch udp_respond
punched local es = (refl, refl, omega arith)
punched web es = (refl, refl, omega arith)
punched unselected es = (refl, refl, omega arith)

accepted_of : (s : PeerStatus) → is_accepted s ≡ true → s ≡ accepted
accepted_of accepted h = refl
accepted_of idle h = cc
accepted_of awaiting h = cc
accepted_of connected h = cc
accepted_of error h = cc

valid_parts :
    (p : Peer)
    → invalid_to_handshake p ≡ false
    → (is_accepted p.status ≡ true) × (is_nil p.peer_address ≡ false)
unfolding invalid_to_handshake
valid_parts p h = ground (arith, h)

confirm_sent : (st : PeerStatus) (x : Exchange) → x.sent ≤ 1 → (confirm st x).sent ≤ 2
unfolding confirm udp_respond
confirm_sent connected x h = ground (arith, h)
confirm_sent idle x h = omega (arith, h)
confirm_sent awaiting x h = omega (arith, h)
confirm_sent accepted x h = omega (arith, h)
confirm_sent error x h = omega (arith, h)

asked :
    (x : Exchange)
    → x.valid ≡ true
    → let x' = udp_respond (record x { text = ok_msg }) in
      (x'.valid ≡ true) × (x'.arrivals ≡ x.arrivals) × (x'.sent ≡ suc x.sent)
unfolding udp_respond
asked x h = rw h (refl, refl, refl)

-- Only the first `receive` counts, and at most two messages are sent.
handshake_as-first :
    (ty : PeerType) (network : PeerNetwork) (es : Arrivals)
    → ty ≢ untyped
    → ((handshake_as ty network es).0 ≡ first_status es) × ((handshake_as ty network es).1.sent ≤ 2)
unfolding handshake_acceptor handshake_initiator
handshake_as-first acceptor network es typed =
    let x = punch_web network (new_exchange es) in
    let (valid, same, once) = punched network es in
    let (status, sent) = await_first x valid in
    (
      status ∙ ap first_status same,
      confirm_sent (conclude (await x).0 (await x).1.text) (await x).1 (omega (arith, sent, once)),
    )
handshake_as-first initiator network es typed =
    let x = punch_web network (new_exchange es) in
    let (valid, same, once) = punched network es in
    let (valid', same', twice) = asked x valid in
    let (status, sent) = await_first (udp_respond (record x { text = ok_msg })) valid' in
    (status ∙ ap first_status same' ∙ ap first_status same, omega (arith, sent, once, twice))
handshake_as-first untyped network es typed = absurd (typed refl)

-- A handshake of a peer that may begin one ends as the first `receive` does: where that fails or
-- times out, none of the retries sends or receives anything, and the handshake fails. At most two
-- messages are sent.
pub handshake_peer-first :
    (es : Arrivals) (p : Peer)
    → invalid_to_handshake p ≡ false
    → p.peer_type ≢ untyped
    → ((handshake_peer es p).0 ≡ record p { status = first_status es })
      × ((handshake_peer es p).1 ≤ 2)
unfolding handshake_peer
handshake_peer-first es p valid typed =
    let (status, sent) = handshake_as-first p.peer_type p.network_type es typed in
    rw valid (rw status refl, sent)

first_status-connected :
    (es : Arrivals) → first_status es ≡ connected → (rest : Arrivals) × (es ≡ some ok_msg ∷ rest)
first_status-connected [] h = cc
first_status-connected (none ∷ es) h = cc
first_status-connected (some text ∷ es) h = elim (Bool-cases (same_text text ok_msg)) [
  | inl same ↦ (es, ap (λ (t : Bytes). some t ∷ es) (eq_of_same_text text ok_msg same))
  | inr other ↦ absurd (cc (rw other at h))
]

handshake_as-connected :
    (ty : PeerType) (network : PeerNetwork) (es : Arrivals)
    → (handshake_as ty network es).0 ≡ connected
    → first_status es ≡ connected
handshake_as-connected acceptor network es h =
    sym (handshake_as-first acceptor network es (λ e. cc)).0 ∙ h
handshake_as-connected initiator network es h =
    sym (handshake_as-first initiator network es (λ e. cc)).0 ∙ h
handshake_as-connected untyped network es h = cc

-- A handshake connects only a peer that was accepted and has an address, and only where `200 OK`
-- is what the first `receive` gives: a text that arrives behind a failed one connects nobody.
pub handshake_connects :
    (es : Arrivals) (p : Peer)
    → p.status ≢ connected
    → (handshake_peer es p).0.status ≡ connected
    → (p.status ≡ accepted)
      × (is_nil p.peer_address ≡ false)
      × ((rest : Arrivals) × (es ≡ some ok_msg ∷ rest))
unfolding handshake_peer
handshake_connects es p new h = elim (Bool-cases (invalid_to_handshake p)) [
  | inl invalid ↦ absurd (new (rw invalid at h))
  | inr valid ↦
      let (was_accepted, named) = valid_parts p valid in
      (
        accepted_of p.status was_accepted,
        named,
        first_status-connected es
            (handshake_as-connected p.peer_type p.network_type es (rw valid at h)),
      )
]

code_201 : from_string (codes "201") ≡ r_201
unfolding from_string
code_201 = refl

module _ (server : Bytes → Bytes) where
  waiting :
      (st : PeerStatus) (q : Peer)
      → is_accepted st ≡ false
      → ping_initiator server st q ≡ ping_initiator server awaiting q
  unfolding ping_initiator
  waiting idle q h = refl
  waiting awaiting q h = refl
  waiting accepted q h = cc
  waiting connected q h = refl
  waiting error q h = refl

  as_initiator :
      (p : Peer) → p.peer_type ≡ initiator → ping_peer server p ≡ ping_initiator server p.status p
  unfolding ping_peer
  as_initiator p i = ground (arith, i)

  ping_lem :
      (p : Peer)
      → p.peer_type ≡ initiator
      → is_accepted p.status ≡ false
      → ping_peer server p ≡ ping_initiator server awaiting p
  ping_lem p i s = as_initiator p i ∙ waiting p.status p s

  -- An initiator that is not accepted yet takes the peer's address and network from the server's
  -- answer 201 to its ping, and is accepted.
  pub ping_peer-accepted :
      (p : Peer) (address address_type : Bytes)
      → p.peer_type ≡ initiator
      → is_accepted p.status ≡ false
      → Lacks b' ' address
      → server (server_text ping p.token) ≡ codes "201 " ++ (address ++ b' ' ∷ address_type)
      → ping_peer server p ≡ record p {
        status = accepted;
        peer_address = address;
        last_reply = r_201;
        network_type = if same_text address_type (codes "LOCAL") then local else web;
      }
  unfolding ping_initiator send_server take_address
  ping_peer-accepted p address address_type i s plain answer =
      let behind = address ++ b' ' ∷ address_type in
      let code : split_first (codes "201 " ++ behind) (codes " ") ≡ (codes "201", behind) =
        split_first-append b' ' (codes "201") behind
          (omega arith, (omega arith, (omega arith, tt))) in
      ping_lem p i s
      ∙ ground
          (arith, i, answer, code, code_201, split_first-append b' ' address address_type plain)
