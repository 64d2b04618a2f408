-- ===== src/Peer.antt =====
-- src/client/peer_to_peer.cpp: one end of a call. The server is a function from the text of a request
-- to the text of its answer, and what the peer sends is a list, one entry for each call of `recvfrom`,
-- where `none` is a call that fails or times out.
pub mod Status
mod Tests
use skype.Common.{
  ◌+◌, ℕ, zero, suc, Bool, true, false, not, ◌||◌, Option, none, some, List, [], ◌∷◌, ◌++◌, Bytes,
  codes, is_nil, same_text, if◌then◌else◌,
}
use skype.Text.{split_first}
use skype.Reply.{ReplyCode, r_200, r_201, r_203, r_306, from_string, get_message}
use skype.Command.{Name, connect, accept, reject, ping, hangup, to_string}

pub data PeerStatus : Type 0 where
  idle awaiting accepted connected error : PeerStatus

pub data PeerType : Type 0 where
  initiator acceptor untyped : PeerType

pub data PeerNetwork : Type 0 where
  local web unselected : PeerNetwork

pub record Peer : Type 0 where
  pub peer_address : Bytes
  pub token : Bytes
  pub status : PeerStatus
  pub peer_type : PeerType
  pub last_reply : ReplyCode
  pub local_ip : Bytes
  pub network_type : PeerNetwork

unfoldable pub new_peer : Bytes → Bytes → Peer
new_peer token local_ip = record {
  peer_address = [];
  token = token;
  status = idle;
  peer_type = untyped;
  last_reply = ReplyCode.unknown;
  local_ip = local_ip;
  network_type = unselected;
}

unfoldable pub reset : Peer → Peer
reset p = record p {
  last_reply = ReplyCode.unknown;
  peer_address = [];
  status = idle;
  peer_type = untyped;
}

abbrev pub server_text : Name → Bytes → Bytes
server_text cmd rest = to_string cmd ++ (codes " " ++ rest)

module _ (server : Bytes → Bytes) where
  -- The message behind the code, and the peer with the code noted.
  unfoldable pub send_server : Bytes → Peer → Bytes × Peer
  send_server text p =
      let (code, msg) = split_first (server text) (codes " ") in
      (msg, record p { last_reply = from_string code })

  abbrev pub send_with_argument : Name → Bytes → Peer → Bytes × Peer
  send_with_argument cmd arg p = send_server (server_text cmd (p.token ++ (codes " " ++ arg))) p

  abbrev pub send_plain : Name → Peer → Bytes × Peer
  send_plain cmd p = send_server (server_text cmd p.token) p

  abbrev pub after_connect : ReplyCode → PeerStatus
  after_connect r_200 = awaiting
  after_connect r_306 = awaiting
  after_connect _ = error

  unfoldable pub connect_peer : Bytes → Peer → Peer
  connect_peer peer_id p =
      let (response, p') = send_with_argument connect (peer_id ++ (codes " " ++ p.local_ip)) p in
      record p' { peer_type = initiator; status = after_connect p'.last_reply }

  -- The address and its type in an answer 201.
  unfoldable pub take_address : Bytes → Peer → Peer
  take_address response p =
      let (address, address_type) = split_first response (codes " ") in
      record p {
        status = accepted;
        peer_address = address;
        network_type = if same_text address_type (codes "LOCAL") then local else web;
      }

  abbrev pub after_accept : ReplyCode → Bytes → Peer → Peer
  after_accept r_201 response p = take_address response p
  after_accept _ response p = record p { status = error }

  unfoldable pub accept_peer : Bytes → Peer → Peer
  accept_peer peer_id p =
      let (response, p') =
        send_with_argument accept (peer_id ++ (codes " " ++ p.local_ip))
          (record p { peer_type = acceptor }) in
      after_accept p'.last_reply response p'

  abbrev pub idle_if_ok : ReplyCode → PeerStatus
  idle_if_ok r_200 = idle
  idle_if_ok _ = error

  unfoldable pub reject_peer : Bytes → Peer → Peer
  reject_peer peer_id p =
      let (response, p') = send_with_argument reject peer_id (record p { peer_type = acceptor }) in
      record p' { status = idle_if_ok p'.last_reply }

  abbrev pub after_ping : ReplyCode → Bytes → Peer → Peer
  after_ping r_201 response p = take_address response p
  after_ping r_203 response p = record p { status = awaiting }
  after_ping _ response p = record p { status = error }

  -- Only who has connected pings, and only until the call is accepted.
  unfoldable pub ping_initiator : PeerStatus → Peer → Peer
  ping_initiator accepted p = p
  ping_initiator _ p =
      let (response, p') = send_plain ping p in after_ping p'.last_reply response p'

  unfoldable pub ping_peer : Peer → Peer
  ping_peer p = elim p.peer_type [
    | initiator ↦ ping_initiator p.status p
    | acceptor ↦ p
    | untyped ↦ p
  ]

  unfoldable pub hangup_peer : Peer → Peer
  hangup_peer p = elim p.peer_type [
    | initiator ↦
        (let (response, p') = send_plain hangup p in
          record p' { status = idle_if_ok p'.last_reply })
    | acceptor ↦ p
    | untyped ↦ p
  ]

abbrev pub ok_msg : Bytes
ok_msg = codes "200 OK"

-- What the peer sends, one entry for each call of `recvfrom`; behind the end all calls time out.
abbrev pub Arrivals : Type 0
Arrivals = List (Option Bytes)

abbrev pub is_accepted : PeerStatus → Bool
is_accepted accepted = true
is_accepted _ = false

abbrev pub is_unselected : PeerNetwork → Bool
is_unselected unselected = true
is_unselected _ = false

unfoldable pub invalid_to_handshake : Peer → Bool
invalid_to_handshake p =
    not (is_accepted p.status) || (is_nil p.peer_address || is_unselected p.network_type)

-- The request of a handshake: `m_valid`, its text, what is still to arrive, and how many messages
-- were sent. That a message can be handed to the system is assumed.
pub record Exchange : Type 0 where
  pub valid : Bool
  pub text : Bytes
  pub arrivals : Arrivals
  pub sent : ℕ

-- `UDPConn::respond` and `UDPConn::receive` do nothing with a request that is not valid, and nothing
-- makes it valid again.
unfoldable pub udp_respond : Exchange → Exchange
udp_respond x = if x.valid then record x { sent = suc x.sent } else x

abbrev pub take_arrival : Arrivals → Exchange → Exchange
take_arrival [] x = record x { valid = false }
take_arrival (none ∷ es) x = record x { valid = false; arrivals = es }
take_arrival (some text ∷ es) x = record x { text = text; arrivals = es }

unfoldable pub udp_receive : Exchange → Exchange
udp_receive x = if x.valid then take_arrival x.arrivals x else x

unfoldable pub hole_punch : Exchange → Exchange
hole_punch x = udp_respond (record x { text = ok_msg })

-- The trials that are left: whether one of them received a text, and the request behind them.
unfoldable pub retry : ℕ → Exchange → Bool × Exchange
retry zero x = (false, x)
retry (suc trials) x =
    let x' = udp_receive (hole_punch x) in
    let rest = retry trials x' in if x'.valid then (true, x') else rest

abbrev pub max_punch_trials : ℕ
max_punch_trials = 20

-- The first `receive` and the retries behind it.
unfoldable pub await : Exchange → Bool × Exchange
await x = let x' = udp_receive x in if x'.valid then (true, x') else retry max_punch_trials x'

abbrev pub conclude : Bool → Bytes → PeerStatus
conclude false text = error
conclude true text = if same_text text ok_msg then connected else error

unfoldable pub punch_web : PeerNetwork → Exchange → Exchange
punch_web web x = hole_punch x
punch_web local x = x
punch_web unselected x = x

abbrev pub new_exchange : Arrivals → Exchange
new_exchange es = record { valid = true; text = []; arrivals = es; sent = 0 }

-- The acceptor answers a handshake that succeeds.
unfoldable pub confirm : PeerStatus → Exchange → Exchange
confirm connected x = udp_respond (record x { text = ok_msg })
confirm _ x = x

-- How the handshake ends: the status, and the request behind it.
unfoldable pub handshake_acceptor : PeerNetwork → Arrivals → PeerStatus × Exchange
handshake_acceptor network es =
    let (got, x) = await (punch_web network (new_exchange es)) in
    let status = conclude got x.text in (status, confirm status x)

-- The initiator sends its message first.
unfoldable pub handshake_initiator : PeerNetwork → Arrivals → PeerStatus × Exchange
handshake_initiator network es =
    let x = record (punch_web network (new_exchange es)) { text = ok_msg } in
    let (got, x') = await (udp_respond x) in (conclude got x'.text, x')

abbrev pub handshake_as : PeerType → PeerNetwork → Arrivals → PeerStatus × Exchange
handshake_as acceptor network es = handshake_acceptor network es
handshake_as initiator network es = handshake_initiator network es
handshake_as untyped network es = (accepted, new_exchange es)

-- The peer after the handshake, and how many messages it has sent.
unfoldable pub handshake_peer : Arrivals → Peer → Peer × ℕ
handshake_peer es p =
    if invalid_to_handshake p
    then (p, 0)
    else let (status, x) = handshake_as p.peer_type p.network_type es in
      (record p { status = status }, x.sent)
