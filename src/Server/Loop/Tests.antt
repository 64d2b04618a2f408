-- ===== src/Server/Loop/Tests.antt =====
-- The server's loop on sockets that are numbers from 3 on, where 3 is the listening one.
use skype.Common.{◌≡◌, refl, true, false, none, some, List, [], ◌∷◌, codes, replicate, arith}
use skype.Common.Int.{ℤ, pos, ◌=ℤ◌}
use skype.Common.Dict.{lookup}
use skype.Reply.{r_200, get_message}
use skype.Poll.{no_socket, new_poll, add_socket, remove_socket, select_socket_with_events}
use skype.Server.{Postgres}
use skype.Server.Memory.{Memory, memory, two_users}
use skype.Server.Loop.{
  Connections, Turn, Turned, no_text, accept_connection, disconnect_client, turn,
}
use skype.Server.Loop.Clients.{IsServed, turn-IsServed}
use skype.Server.Loop.Limits.{accept_connection_full, turn_lost}

-- A database that forgets all sessions at a logout.
abbrev forgetful : Postgres Memory
forgetful = record memory { remove_user_token = λ u db. (true, record db { sessions = [] }) }

abbrev one_client : Connections
one_client = record {
  poll = record { fds = pos 3 ∷ pos 4 ∷ replicate 8 no_socket; index = 2 };
  addresses = (pos 4, codes "1.1.1.1:80") ∷ [];
}

one_client_added : (add_socket (pos 4) (add_socket (pos 3) new_poll).1).1 ≡ one_client.poll
unfolding add_socket
one_client_added = refl

one_client_removed : (remove_socket (pos 4) one_client.poll).fds ≡ pos 3 ∷ replicate 9 no_socket
unfolding remove_socket
one_client_removed = refl

-- The first of two gaps is closed, the second is not: the socket behind it is not counted.
two_gaps :
    remove_socket
      (pos 5)
      (record { fds = pos 3 ∷ pos 4 ∷ no_socket ∷ pos 5 ∷ pos 6 ∷ []; index = 5 })
    ≡ record { fds = pos 3 ∷ pos 4 ∷ no_socket ∷ pos 6 ∷ no_socket ∷ []; index = 2 }
unfolding remove_socket
two_gaps = refl

abbrev silent_turn : Turn
silent_turn = record {
  arrival = none;
  ready = λ s. s =ℤ pos 4;
  text = no_text;
  answered = true;
  fresh = codes "T";
}

one_client-IsServed : IsServed (pos 3) (pos 4 ∷ []) one_client
unfolding lookup
one_client-IsServed = record {
  packed = record { fits = omega arith; slots = refl; index_of = refl; valid = (refl, tt) };
  distinct = (tt, tt);
  known = ((codes "1.1.1.1:80", refl), tt);
}

turn-IsServed_example :
    (r : Turned Memory) × (turn forgetful silent_turn one_client two_users ≡ some r)
    × (ys : List ℤ) × IsServed (pos 3) ys r.connections
turn-IsServed_example =
    turn-IsServed forgetful (pos 3) silent_turn (pos 4 ∷ []) one_client two_users
      one_client-IsServed tt (λ e. cc) (λ u. refl)

turn_lost_example :
    turn forgetful silent_turn one_client two_users
    ≡ some (record {
      connections = disconnect_client (pos 4) one_client;
      state = record two_users { db = record two_users.db { sessions = [] } };
      sent = [];
    })
unfolding lookup select_socket_with_events
turn_lost_example =
    turn_lost forgetful silent_turn one_client two_users (codes "1.1.1.1:80") refl refl refl refl
      refl refl

abbrev nine : List ℤ
nine = pos 4 ∷ pos 5 ∷ pos 6 ∷ pos 7 ∷ pos 8 ∷ pos 9 ∷ pos 10 ∷ pos 11 ∷ pos 12 ∷ []

abbrev nine_clients : Connections
nine_clients = record {
  poll = record { fds = pos 3 ∷ nine; index = 10 };
  addresses =
      (pos 4, codes "1.1.1.1")
      ∷ (pos 5, codes "1.1.1.1")
      ∷ (pos 6, codes "1.1.1.1")
      ∷ (pos 7, codes "1.1.1.1")
      ∷ (pos 8, codes "1.1.1.1")
      ∷ (pos 9, codes "1.1.1.1")
      ∷ (pos 10, codes "1.1.1.1")
      ∷ (pos 11, codes "1.1.1.1")
      ∷ (pos 12, codes "1.1.1.1")
      ∷ [];
}

nine_clients-IsServed : IsServed (pos 3) nine nine_clients
unfolding lookup
nine_clients-IsServed = record {
  packed = record {
    fits = omega arith;
    slots = refl;
    index_of = refl;
    valid = (refl, (refl, (refl, (refl, (refl, (refl, (refl, (refl, (refl, tt)))))))));
  };
  distinct = (
    (refl, (refl, (refl, (refl, (refl, (refl, (refl, (refl, tt)))))))),
    (
      (refl, (refl, (refl, (refl, (refl, (refl, (refl, tt))))))),
      (
        (refl, (refl, (refl, (refl, (refl, (refl, tt)))))),
        (
          (refl, (refl, (refl, (refl, (refl, tt))))),
          (
            (refl, (refl, (refl, (refl, tt)))),
            ((refl, (refl, (refl, tt))), ((refl, (refl, tt)), ((refl, tt), (tt, tt)))),
          ),
        ),
      ),
    ),
  );
  known = (
    (codes "1.1.1.1", refl),
    (
      (codes "1.1.1.1", refl),
      (
        (codes "1.1.1.1", refl),
        (
          (codes "1.1.1.1", refl),
          (
            (codes "1.1.1.1", refl),
            (
              (codes "1.1.1.1", refl),
              ((codes "1.1.1.1", refl), ((codes "1.1.1.1", refl), ((codes "1.1.1.1", refl), tt))),
            ),
          ),
        ),
      ),
    ),
  );
}

accept_connection_full_example :
    ((accept_connection (some (pos 13, codes "2.2.2.2")) nine_clients).1
      ≡ (pos 13, get_message r_200) ∷ [])
    × ((accept_connection (some (pos 13, codes "2.2.2.2")) nine_clients).0.poll ≡ nine_clients.poll)
    × ((select_socket_with_events
            (λ s. true)
            (accept_connection (some (pos 13, codes "2.2.2.2")) nine_clients).0.poll
          =ℤ pos 13)
        ≡ false)
accept_connection_full_example =
    accept_connection_full (pos 3) (pos 13) (codes "2.2.2.2") nine nine_clients (λ s. true)
      nine_clients-IsServed refl refl
      (refl, (refl, (refl, (refl, (refl, (refl, (refl, (refl, (refl, tt)))))))))
