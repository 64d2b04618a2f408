-- ===== src/Server/Loop.antt =====
-- src/server/server.cpp and src/shared/connection/passive_conn.cpp: the server's loop. What the system
-- gives in one turn is a parameter: the client that connects, which sockets have input, what is read
-- from the one that is selected, whether the answer can be sent.
pub mod Clients
pub mod Limits
mod Tests
use skype.Common.{
  Bool, true, false, not, Option, none, some, List, [], ◌∷◌, ◌++◌, Bytes, if◌then◌else◌,
}
use skype.Common.Int.{ℤ, ◌=ℤ◌}
use skype.Common.Dict.{lookup}
use skype.Reply.{r_200, get_message}
use skype.Poll.{Poll, no_socket, add_socket, remove_socket, select_socket_with_events}
use skype.Server.{Request, Postgres, State, Outcome}
use skype.Server.Router.{route, route_throws}
use skype.TextIo.Datagram.{SocketAddress, udp_receive, udp_respond}
use skype.Server.Users.{exit}

-- `m_poll`, and `m_addresses` with the newest entry first.
pub record Connections : Type 0 where
  pub poll : Poll
  pub addresses : List (ℤ × Bytes)

-- What `TextIO::receive` comes to: nothing, a text, or an exception, where the length in the header
-- is so large that the buffer cannot be allocated (`msg_length + 1` overflows at 2^31 - 1).
pub data Received : Type 0 where
  no_text : Received
  a_text : Bytes → Received
  too_long : Received

pub record Turn : Type 0 where
  pub arrival : Option (ℤ × Bytes)
  pub ready : ℤ → Bool
  pub text : Received
  pub answered : Bool
  pub fresh : Bytes

-- What is handed to `send`, each text with its socket.
abbrev pub Sent : Type 0
Sent = List (ℤ × Bytes)

-- `accept_connection` of the connections. Whether `add_socket` has found room is not looked at.
unfoldable pub accept_client : Option (ℤ × Bytes) → Connections → Connections
accept_client none c = c
accept_client (some (socket, address)) c = record {
  poll = (add_socket socket c.poll).1;
  addresses = (socket, address) ∷ c.addresses;
}

abbrev pub greeting : Option (ℤ × Bytes) → Sent
greeting none = []
greeting (some (socket, address)) = (socket, get_message r_200) ∷ []

-- That of the server, which greets the client.
unfoldable pub accept_connection : Option (ℤ × Bytes) → Connections → Connections × Sent
unfolding accept_client
accept_connection arrival c = (accept_client arrival c, greeting arrival)

-- The request from a socket; a text that does not come leaves it without data.
unfoldable pub receive_from : Option Bytes → Bytes → Request
receive_from none address = record {
  address = address;
  token = [];
  valid = false;
  exits = false;
  message = [];
}
receive_from (some text) address = record {
  address = address;
  token = [];
  valid = true;
  exits = false;
  message = text;
}

unfoldable pub disconnect_client : ℤ → Connections → Connections
disconnect_client socket c = record c { poll = remove_socket socket c.poll }

unfoldable pub disconnect_client_on_request : Request → ℤ → Connections → Connections
unfolding disconnect_client
disconnect_client_on_request req socket c = if req.exits then disconnect_client socket c else c

pub record Turned (Db : Type 0) : Type 0 where
  pub connections : Connections
  pub state : State Db
  pub sent : Sent

module _ {Db : Type 0} (pg : Postgres Db) where
  -- The socket of a request that was received is not negative.
  unfoldable pub disconnect_client_on_failure :
      Request → ℤ → Connections → State Db → Connections × State Db
  unfolding disconnect_client
  disconnect_client_on_failure req socket c s =
      if not req.valid then (disconnect_client socket c, (exit pg [] req s).1) else (c, s)

  -- `respond`, and the two disconnects.
  unfoldable pub finish : Turn → ℤ → Connections → Sent → Outcome Db → Turned Db
  unfolding disconnect_client_on_request disconnect_client_on_failure
  finish t socket c sent (req, s) =
      let sent' = if req.valid then sent ++ (socket, req.message) ∷ [] else sent in
      let req' = record req { valid = if req.valid then t.answered else false } in
      let c' = disconnect_client_on_request req' socket c in
      let (c'', s') = disconnect_client_on_failure req' socket c' s in
      record { connections = c''; state = s'; sent = sent' }

  -- `none` is what `route` throws.
  unfoldable pub serve_request :
      Turn → ℤ → Request → Connections → Sent → State Db → Option (Turned Db)
  serve_request t socket req c sent s =
      let routed = finish t socket c sent (route pg t.fresh req s) in
      if route_throws pg req s then none else some routed

  -- `none` is what the allocation of the buffer throws.
  unfoldable pub serve_received :
      Received → Turn → ℤ → Bytes → Connections → Sent → State Db → Option (Turned Db)
  unfolding receive_from serve_request
  serve_received no_text t socket address c sent s =
      serve_request t socket (receive_from none address) c sent s
  serve_received (a_text text) t socket address c sent s =
      serve_request t socket (receive_from (some text) address) c sent s
  serve_received too_long t socket address c sent s = none

  -- The turn once a socket is selected; `none` is what `at` throws where it has no address.
  unfoldable pub serve_socket :
      Turn → ℤ → Option Bytes → Connections → Sent → State Db → Option (Turned Db)
  unfolding serve_received
  serve_socket t socket none c sent s = none
  serve_socket t socket (some address) c sent s = serve_received t.text t socket address c sent s

  -- Where no socket has input, the request is not valid, so that nothing is routed, answered or
  -- disconnected.
  unfoldable pub serve_selected : Turn → Connections → Sent → State Db → Option (Turned Db)
  unfolding serve_socket
  serve_selected t c sent s =
      let socket = select_socket_with_events t.ready c.poll in
      if socket =ℤ no_socket
      then some (record { connections = c; state = s; sent = sent })
      else serve_socket t socket (lookup socket c.addresses) c sent s

  -- One turn of `main_loop`; `none` is an exception, which ends the server.
  unfoldable pub turn : Turn → Connections → State Db → Option (Turned Db)
  unfolding accept_connection serve_selected
  turn t c s = let (c', sent) = accept_connection t.arrival c in serve_selected t c' sent s

  -- One turn of `udp_worker`, for no datagram or one; `none` is an exception.
  unfoldable pub udp_turn :
      Bytes
      → Option (Bytes × SocketAddress)
      → State Db
      → Option (Option (SocketAddress × Bytes) × State Db)
  unfolding receive_from
  udp_turn fresh none s = some (none, (route pg fresh (receive_from none []) s).1)
  udp_turn fresh (some (datagram, from)) s =
      let (text, address) = udp_receive datagram from in
      let asked = receive_from (some text) address in
      let (req, s') = route pg fresh asked s in
      let answer = if req.valid then some (udp_respond req.address req.message) else none in
      if route_throws pg asked s then none else some (answer, s')
