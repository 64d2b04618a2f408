-- ===== src/Call/Answered.antt =====
-- src/client/user/call.cpp: what the end that calls makes of the server's answers to CONNECT and PING, and
-- of the handshake behind them.
use skype.Common.{
  ℕ, ◌≡◌, refl, ap, Bool, true, false, not, is_nil, [], ◌∷◌, ◌++◌, Bytes, codes, same_text,
  if◌then◌else◌, arith, Lacks,
}
use skype.Text.{split_first}
use skype.Text.Split.{split_first-append}
use skype.Reply.{ReplyCode, r_200, r_201, r_203, from_string}
use skype.Command.{ping, connect}
use skype.Peer.{
  Peer, awaiting, accepted, initiator, local, web, unselected, server_text, send_server,
  take_address, ping_initiator, ping_peer, connect_peer, new_peer, Arrivals, invalid_to_handshake,
}
use skype.Peer.Status.{first_status, handshake_peer-first}
use skype.Call.{ended, conclude_dial, is_error}

-- A peer that has called and waits, and one that was accepted.
abbrev pub calling : Bytes → Bytes → ReplyCode → Peer
calling token local_ip code = record {
  peer_address = [];
  token = token;
  status = awaiting;
  peer_type = initiator;
  last_reply = code;
  local_ip = local_ip;
  network_type = unselected;
}

abbrev pub answered : Bytes → Bytes → Bytes → Bytes → Peer
answered token local_ip place kind = record {
  peer_address = place;
  token = token;
  status = accepted;
  peer_type = initiator;
  last_reply = r_201;
  local_ip = local_ip;
  network_type = if same_text kind (codes "LOCAL") then local else web;
}

module _ (server : Bytes → Bytes) (token local_ip : Bytes) where
  pub connect_calls :
      (id : Bytes)
      → server (server_text connect (token ++ (codes " " ++ (id ++ (codes " " ++ local_ip)))))
        ≡ codes "200 OK"
      → connect_peer server id (new_peer token local_ip) ≡ calling token local_ip r_200
  unfolding connect_peer send_server new_peer split_first from_string
  connect_calls id h = rw h refl

  pub ping_awaits :
      (code : ReplyCode)
      → server (server_text ping token) ≡ codes "203 Awaiting"
      → ping_peer server (calling token local_ip code) ≡ calling token local_ip r_203
  unfolding ping_peer ping_initiator send_server split_first from_string
  ping_awaits code h = rw h refl

  pub ping_accepts :
      (code : ReplyCode) (place kind : Bytes)
      → Lacks b' ' place
      → server (server_text ping token) ≡ codes "201 " ++ (place ++ b' ' ∷ kind)
      → ping_peer server (calling token local_ip code) ≡ answered token local_ip place kind
  unfolding ping_peer ping_initiator send_server take_address from_string
  ping_accepts code place kind bare h =
      rw (h, split_first-append b' ' (codes "201") (place ++ b' ' ∷ kind) (omega arith))
        (rw (split_first-append b' ' place kind bare) refl)

-- The handshake of a peer that was accepted.
pub conclude_dial-first :
    (token local_ip place kind : Bytes) (es : Arrivals) (pings : ℕ)
    → is_nil place ≡ false
    → conclude_dial es pings false (answered token local_ip place kind)
      ≡ ended
          (not (is_error (first_status es)))
          (record (answered token local_ip place kind) { status = first_status es })
          pings
          false
unfolding conclude_dial invalid_to_handshake
conclude_dial-first token local_ip place kind es pings named =
    let p = answered token local_ip place kind in
    ap (λ (q : Peer). ended (not (is_error q.status)) q pings false)
      (handshake_peer-first es p (ready (same_text kind (codes "LOCAL"))) (λ e. cc)).0
  where
    ready :
        (here : Bool)
        → invalid_to_handshake (record (answered token local_ip place kind) {
          network_type = if here then local else web;
        })
          ≡ false
    ready true = rw (named, invalid_to_handshake) refl
    ready false = rw (named, invalid_to_handshake) refl
