-- ===== src/Server/Meeting.antt =====
-- The two ends of a call of src/client/peer_to_peer.cpp in front of the server of src/server: one
-- connects, the other accepts, the first pings.
use skype.Common.{
  ◌≡◌, refl, sym, ap, ◌∙◌, false, none, [], ◌∷◌, ◌++◌, Bytes, codes, arith, is_nil, Lacks,
  if◌then◌else◌, same_text,
}
use skype.Common.Int.{ℤ, IsInt}
use skype.Text.Split.{split_first-append, split_first_of_Lacks}
use skype.Text.Number.{print_int}
use skype.Awaiting.{AwaitingUser, get, put, insert, own_address, peers_address, address_type}
use skype.Awaiting.Address.{accepted_peer}
use skype.Reply.{r_200, r_201, get_message, append_message, from_string}
use skype.Command
use skype.Command.{to_string}
use skype.Peer.{
  Peer, new_peer, connect_peer, accept_peer, ping_peer, send_server, take_address, server_text,
  acceptor, local, web, PeerStatus,
}
use skype.Server.{Request, Postgres, State, set_reply, set_reply_message}
use skype.Server.Calls.{connect, accept, ping}
use skype.Server.Router.{route, validate_argument, require_login}
use skype.Server.Flow.{
  call_argument, connect_lem, accept_outcome, ping_lem, agreement, waiting, agreement_found,
}
use skype.Client.Served.{received, route_known}
use skype.Client.Sync.{filled}
use skype.Call.Answered.{calling, answered, connect_calls, ping_accepts}

connect_named : Command.get (codes "CONNECT") ≡ Command.connect
unfolding Command.get
connect_named = refl

accept_named : Command.get (codes "ACCEPT") ≡ Command.accept
unfolding Command.get
accept_named = refl

ping_named : Command.get (codes "PING") ≡ Command.ping
unfolding Command.get
ping_named = refl

module _ {Db : Type 0} (pg : Postgres Db) (place : Bytes) (st : State Db) (token : Bytes)
    (bare : Lacks b' ' token) (known : (pg.search_user_by_token token st.db).empty ≡ false) where
  abbrev asked : Bytes → Request
  asked text = record (received place text) { token = token }

  route-connect :
      (id : ℤ) (l : Bytes)
      → let text = server_text Command.connect (token ++ b' ' ∷ call_argument id l) in
        route pg [] (received place text) st ≡ connect pg (call_argument id l) (asked text) st
  unfolding to_string validate_argument require_login
  route-connect id l =
      route_known pg [] place Command.connect (codes "CONNECT") (token ++ b' ' ∷ call_argument id l)
        token (call_argument id l) st (omega arith) connect_named refl
        (split_first-append b' ' token (call_argument id l) bare) known
        (rw (filled (print_int id) l) refl)

  route-accept :
      (id : ℤ) (l : Bytes)
      → let text = server_text Command.accept (token ++ b' ' ∷ call_argument id l) in
        route pg [] (received place text) st ≡ accept pg (call_argument id l) (asked text) st
  unfolding to_string validate_argument require_login
  route-accept id l =
      route_known pg [] place Command.accept (codes "ACCEPT") (token ++ b' ' ∷ call_argument id l)
        token (call_argument id l) st (omega arith) accept_named refl
        (split_first-append b' ' token (call_argument id l) bare) known
        (rw (filled (print_int id) l) refl)

  route-ping :
      let text = server_text Command.ping token in
      route pg [] (received place text) st ≡ ping pg [] (asked text) st
  unfolding to_string validate_argument require_login
  route-ping =
      route_known pg [] place Command.ping (codes "PING") token token [] st (omega arith) ping_named
        refl (split_first_of_Lacks b' ' token bare) known refl

-- The end that has accepted, at the address that the server gives.
abbrev pub accepting : Bytes → Bytes → Bytes → Bytes → Peer
accepting token local_ip place kind = record {
  peer_address = place;
  token = token;
  status = PeerStatus.accepted;
  peer_type = acceptor;
  last_reply = r_201;
  local_ip = local_ip;
  network_type = if same_text kind (codes "LOCAL") then local else web;
}

accept_takes :
    (server : Bytes → Bytes) (token local_ip id place kind : Bytes)
    → Lacks b' ' place
    → server (server_text Command.accept (token ++ (codes " " ++ (id ++ (codes " " ++ local_ip)))))
      ≡ codes "201 " ++ (place ++ b' ' ∷ kind)
    → accept_peer server id (new_peer token local_ip) ≡ accepting token local_ip place kind
unfolding accept_peer send_server new_peer take_address from_string
accept_takes server token local_ip id place kind bare h =
    rw (h, split_first-append b' ' (codes "201") (place ++ b' ' ∷ kind) (omega arith))
      (rw (split_first-append b' ' place kind bare) refl)

module _ {Db : Type 0} (pg : Postgres Db) (place_a place_b token_a token_b la lb : Bytes) (b : ℤ)
    (s : State Db) where
  -- What the server answers to a text from the address, in a state.
  abbrev pub answers : Bytes → State Db → Bytes → Bytes
  answers place st text = (route pg [] (received place text) st).0.message

  abbrev pub id_a : ℤ
  id_a = (pg.search_user_by_token token_a s.db).id

  abbrev connect_text : Bytes
  connect_text = server_text Command.connect (token_a ++ b' ' ∷ call_argument b la)

  abbrev accept_text : Bytes
  accept_text = server_text Command.accept (token_b ++ b' ' ∷ call_argument id_a lb)

  -- The states after CONNECT and after ACCEPT.
  abbrev pub after_connect : State Db
  after_connect = (route pg [] (received place_a connect_text) s).1

  abbrev pub after_accept : State Db
  after_accept = (route pg [] (received place_b accept_text) after_connect).1

  -- The peer that connects, the one that accepts, and the first again once it has pinged.
  abbrev pub calling_peer : Peer
  calling_peer = connect_peer (answers place_a s) (print_int b) (new_peer token_a la)

  abbrev pub accepting_peer : Peer
  accepting_peer =
      accept_peer (answers place_b after_connect) (print_int id_a) (new_peer token_b lb)

  abbrev pub pinging_peer : Peer
  pinging_peer = ping_peer (answers place_a after_accept) calling_peer

  abbrev req_a : Request
  req_a = record (received place_a connect_text) { token = token_a }

  abbrev req_b : Request
  req_b = record (received place_b accept_text) { token = token_b }

  abbrev pub agreed_entry : AwaitingUser
  agreed_entry = agreement pg req_a req_b s b la lb

  module _ (fits_a : IsInt id_a) (fits_b : IsInt b) (bare_a : Lacks b' ' token_a)
      (bare_b : Lacks b' ' token_b) (known_a : (pg.search_user_by_token token_a s.db).empty ≡ false)
      (known_b : (pg.search_user_by_token token_b s.db).empty ≡ false) (named_a : is_nil la ≡ false)
      (named_b : is_nil lb ≡ false) (free : get id_a s.awaiting ≡ none) where
    connect_routed : route pg [] (received place_a connect_text) s ≡ (
      set_reply r_200 req_a,
      record s { awaiting = (insert (waiting pg req_a req_b s b la lb) s.awaiting).1 },
    )
    connect_routed =
        route-connect pg place_a s token_a bare_a known_a b la
        ∙ connect_lem pg req_a s b la fits_b named_a known_a free

    calling_lem : calling_peer ≡ calling token_a la r_200
    unfolding set_reply get_message
    calling_lem =
        connect_calls (answers place_a s) token_a la (print_int b)
          (ap (λ o. o.0.message) connect_routed)

    accept_routed : route pg [] (received place_b accept_text) after_connect ≡ (
      set_reply_message r_201
          (own_address agreed_entry ++ (codes " " ++ address_type agreed_entry))
          req_b,
      record s {
        awaiting = put id_a agreed_entry (insert (waiting pg req_a req_b s b la lb) s.awaiting).1;
      },
    )
    accept_routed =
        let st = record s { awaiting = (insert (waiting pg req_a req_b s b la lb) s.awaiting).1 } in
        ap (λ o. route pg [] (received place_b accept_text) o.1) connect_routed
        ∙ route-accept pg place_b st token_b bare_b known_b id_a lb
        ∙ ap (λ o. accept pg (call_argument id_a lb) req_b o.1)
            (sym (connect_lem pg req_a s b la fits_b named_a known_a free))
        ∙ accept_outcome pg req_a req_b s b la lb fits_a fits_b known_a known_b named_a named_b free

    ping_answered :
        is_nil place_b ≡ false
        → answers place_a after_accept (server_text Command.ping token_a)
          ≡ codes "201 " ++ (peers_address agreed_entry ++ b' ' ∷ address_type agreed_entry)
    unfolding set_reply_message append_message
    ping_answered there =
        let st = record s {
          awaiting = put id_a agreed_entry (insert (waiting pg req_a req_b s b la lb) s.awaiting).1;
        } in
        let text = server_text Command.ping token_a in
        ap (λ o. (route pg [] (received place_a text) o.1).0.message) accept_routed
        ∙ ap (λ o. o.0.message)
            (route-ping pg place_a st token_a bare_a known_a
              ∙ ping_lem pg (record (received place_a text) { token = token_a }) st agreed_entry []
                  known_a
                  (agreement_found pg req_a req_b s b la lb fits_a fits_b known_a known_b named_a
                    named_b free)
                  (accepted_peer id_a b place_a la place_b lb there))

    -- Two users whose numbers are ints, with tokens that the server knows and that hold no space,
    -- and with local addresses, the first of whom waits for no call, and the second with an
    -- address: once the first has connected to the second, the second has accepted and the first
    -- has pinged, over the server's router, both ends are accepted; each holds the address that
    -- the server's entry has of the other, if these hold no space, and both take the network that
    -- the entry says.
    pub peers_meet :
        is_nil place_b ≡ false
        → Lacks b' ' (own_address agreed_entry)
        → Lacks b' ' (peers_address agreed_entry)
        → (pinging_peer
            ≡ answered token_a la (peers_address agreed_entry) (address_type agreed_entry))
          × (accepting_peer
              ≡ accepting token_b lb (own_address agreed_entry) (address_type agreed_entry))
    unfolding set_reply_message append_message
    peers_meet there plain_a plain_b = (
      ap (ping_peer (answers place_a after_accept)) calling_lem
          ∙ ping_accepts (answers place_a after_accept) token_a la r_200
              (peers_address agreed_entry) (address_type agreed_entry) plain_b
              (ping_answered there),
      accept_takes (answers place_b after_connect) token_b lb (print_int id_a)
          (own_address agreed_entry) (address_type agreed_entry) plain_a
          (ap (λ o. o.0.message) accept_routed),
    )
