-- ===== src/Peer/Tests.antt =====
-- Instances of the theorems on a peer.
use skype.Common.{◌≡◌, refl, false, none, some, [], ◌∷◌, Bytes, codes, is_nil}
use skype.Reply.{r_200, r_201}
use skype.Peer.{
  Peer, awaiting, accepted, error, initiator, acceptor, web, ok_msg, Arrivals, handshake_peer,
  handshake_acceptor, await, retry, confirm, udp_receive, udp_respond, hole_punch, punch_web,
  invalid_to_handshake,
}
use skype.Peer.Status.{handshake_connects}

abbrev ready : Peer
ready = record {
  peer_address = codes "8.8.8.8:60";
  token = codes "T";
  status = accepted;
  peer_type = acceptor;
  last_reply = r_201;
  local_ip = codes "10.0.0.2";
  network_type = web;
}

abbrev calling : Peer
calling = record ready {
  peer_address = [];
  status = awaiting;
  peer_type = initiator;
  last_reply = r_200;
}

handshake_connects_example :
    (ready.status ≡ accepted)
    × (is_nil ready.peer_address ≡ false)
    × ((rest : Arrivals) × (some ok_msg ∷ [] ≡ some ok_msg ∷ rest))
unfolding handshake_peer handshake_acceptor await udp_receive punch_web hole_punch udp_respond
    invalid_to_handshake
handshake_connects_example = handshake_connects (some ok_msg ∷ []) ready (λ e. cc) refl

-- The message that comes behind a receive that timed out is not read, and no trial sends anything.
late_message : handshake_peer (none ∷ some ok_msg ∷ []) ready ≡ (record ready { status = error }, 1)
unfolding handshake_peer handshake_acceptor await retry udp_receive punch_web confirm hole_punch
    udp_respond invalid_to_handshake
late_message = refl

-- The server answers every text alike.
abbrev answering : Bytes → Bytes
answering text = codes "201 8.8.8.8:60 LOCAL"
