-- ===== src/Server/Loop/Limits.antt =====
-- src/server/server.cpp: a client that finds no room, and one that is lost.
use skype.Common.{
  ◌≡◌, refl, ap, Bool, true, false, List, [], ◌∷◌, ◌++◌, length, All, All-parts, Bytes, none, some,
  inl, inr,
}
use skype.Common.Int.{ℤ, ◌=ℤ◌}
use skype.Common.Dict.{lookup}
use skype.Reply.{r_200, get_message}
use skype.Poll.{no_socket, add_socket, select_socket_with_events}
use skype.Poll.Slots.{Other}
use skype.Poll.Packed.{add_socket_full, select-cases}
use skype.Server.{Postgres, State, set_reply}
use skype.Server.Router.{route, route_throws, invalid_command}
use skype.Server.Users.{exit, leaving}
use skype.Server.Loop.{
  Connections, Turn, accept_connection, no_text, receive_from, serve_received, serve_request,
  disconnect_client, disconnect_client_on_request, disconnect_client_on_failure, accept_client,
  finish, serve_socket, serve_selected, turn,
}
use skype.Server.Loop.Clients.{IsServed, Other-sym}

-- A client that connects while nine others are connected is greeted with 200, but its socket is
-- not listened to: whichever sockets have input, it is not selected.
pub accept_connection_full :
    (own s : ℤ) (a : Bytes) (xs : List ℤ) (c : Connections) (ready : ℤ → Bool)
    → IsServed own xs c
    → length xs ≡ 9
    → (s =ℤ no_socket) ≡ false
    → All (Other s) xs
    → ((accept_connection (some (s, a)) c).1 ≡ (s, get_message r_200) ∷ [])
      × ((accept_connection (some (s, a)) c).0.poll ≡ c.poll)
      × ((select_socket_with_events ready (accept_connection (some (s, a)) c).0.poll =ℤ s) ≡ false)
unfolding accept_connection accept_client
accept_connection_full own s a xs c ready h full valid new =
    let same : (add_socket s c.poll).1 ≡ c.poll =
      ap (λ r. r.1) (add_socket_full own s xs c.poll h.packed full) in
    (
      refl,
      same,
      rw same (elim (select-cases own ready xs c.poll h.packed) [
        | inl idle ↦ rw idle (Other-sym s no_socket valid)
        | inr (ys, zs, e) ↦
            let new' : All (Other s) (ys ++ select_socket_with_events ready c.poll ∷ zs) =
              rw (← e) new in
            (All-parts (Other s) ys (select_socket_with_events ready c.poll ∷ zs) new').1.0
      ]),
    )

module _ {Db : Type 0} (pg : Postgres Db) where
  -- Where no client connects and the text of the selected client does not come, no user has the
  -- empty token, and a user has the client's address: this user is logged off and loses its token,
  -- and the client is disconnected without an answer.
  pub turn_lost :
      (t : Turn) (c : Connections) (st : State Db) (a : Bytes)
      → t.arrival ≡ none
      → t.text ≡ no_text
      → (select_socket_with_events t.ready c.poll =ℤ no_socket) ≡ false
      → lookup (select_socket_with_events t.ready c.poll) c.addresses ≡ some a
      → (pg.search_user_by_token [] st.db).empty ≡ true
      → (pg.search_user_by_address a st.db).empty ≡ false
      → turn pg t c st
        ≡ some (record {
          connections = disconnect_client (select_socket_with_events t.ready c.poll) c;
          state = record st {
            db =
                (pg.remove_user_token
                  (pg.search_user_by_address a st.db)
                  (pg.logoff (pg.search_user_by_address a st.db) st.db).1).1;
          };
          sent = [];
        })
  unfolding turn accept_connection accept_client disconnect_client_on_request
      disconnect_client_on_failure serve_selected serve_socket serve_received serve_request finish
      receive_from route route_throws invalid_command exit leaving set_reply
  turn_lost t c st a quiet lost busy known nobody there =
      rw (quiet, turn) (rw (busy, known) (rw lost (rw nobody (rw there refl))))
