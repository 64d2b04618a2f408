-- ===== src/Server/Tests.antt =====
-- Instances of the theorems on the server, over a database in memory.
use skype.Common.{Bytes, ◌≡◌, ◌≢◌, refl, true, false, none, [], ◌∷◌, ◌++◌, codes, arith}
use skype.Common.Int.{pos}
use skype.Common.Dict.{lookup}
use skype.Text.{split_first, find, starts_with}
use skype.Text.Number
use skype.Text.Number.{print_int, stoi}
use skype.User.{update, set_online}
use skype.Awaiting
use skype.Awaiting.{
  AwaitingUser, AwaitingUsers, no_users, get, own_address, peers_address, address_type, created,
}
use skype.Awaiting.Registry.{IsTracked}
use skype.Reply.{r_200, r_201, r_202, r_305, r_306, r_307, get_message, append_message}
use skype.Reply
use skype.Command
use skype.Server.{Request, Postgres, State, Outcome, set_reply, set_reply_message}
use skype.Server.Users
use skype.Server.Calls
use skype.Server.Chats
use skype.Server.Chats.{no_user, sent_chat, set_delivered}
use skype.Server.Router.{route, parse, require_login}
use skype.Server.Answers.{answer_code, route-Answers}
use skype.Server.Frame.{route_denies, route_keeps_db}
use skype.Server.Tracked.{route-IsTracked}
use skype.Server.Flow.{agreed, agreement, ping_flow}
use skype.Server.Sessions.{found, search_hides, login_checks}
use skype.Server.Messages.{delivered-All}
use skype.Call.Answered.{answered}
use skype.Server.Meeting.{agreed_entry, pinging_peer, accepting_peer, accepting, peers_meet}
use skype.Server.Memory.{
  Memory, memory, person, message, two_users, from_khalil, from_mario, sent, local_a, local_b,
}

route_denies_example :
    route memory (codes "T") (sent (codes "SEND X 2 hi")) two_users
    ≡ (set_reply r_202 (sent (codes "SEND X 2 hi")), two_users)
unfolding parse require_login Command.get split_first find starts_with
route_denies_example =
    route_denies memory (codes "T") (sent (codes "SEND X 2 hi")) two_users refl (λ e. cc) (λ e. cc)
      (λ e. cc) refl

route-Answers_example :
    answer_code (route memory (codes "T") (sent (codes "BAD COMMAND")) two_users).0.message
    ≢ Reply.unknown
route-Answers_example = route-Answers memory (codes "T") (sent (codes "BAD COMMAND")) two_users

route-IsTracked_example :
    IsTracked (route memory (codes "T") (sent (codes "PING A")) two_users).1.awaiting
route-IsTracked_example = route-IsTracked memory (codes "T") (sent (codes "PING A")) two_users tt

route_keeps_db_example :
    (route memory (codes "T") (sent (codes "CONNECT A 2 10.0.0.2")) two_users).1.db ≡ two_users.db
unfolding parse require_login Command.get split_first find starts_with
route_keeps_db_example =
    route_keeps_db memory (codes "T") (sent (codes "CONNECT A 2 10.0.0.2")) two_users refl

ping_flow_example :
    ((Calls.ping memory [] from_khalil
        (agreed memory from_khalil from_mario two_users (pos 2) local_a local_b)).0
      ≡ set_reply_message r_201
          (peers_address (agreement memory from_khalil from_mario two_users (pos 2) local_a local_b)
            ++ (codes " "
                ++ address_type
                    (agreement memory from_khalil from_mario two_users (pos 2) local_a local_b)))
          from_khalil)
    × (get
          (pos 1)
          (Calls.ping memory [] from_khalil
            (agreed memory from_khalil from_mario two_users (pos 2) local_a local_b)).1.awaiting
        ≡ none)
unfolding Awaiting.get lookup
ping_flow_example =
    ping_flow memory from_khalil from_mario two_users (pos 2) local_a local_b (omega arith)
      (omega arith) refl refl refl refl refl [] refl

abbrev other_password : State Memory
other_password = record two_users {
  db = record two_users.db { people = person 1 (codes "khalil") (codes "secret") true ∷ [] };
}

search_hides_example :
    (Users.search memory (codes "khalil") from_mario other_password).0
    ≡ (Users.search memory (codes "khalil") from_mario two_users).0
search_hides_example =
    search_hides memory (codes "khalil") (codes "secret") from_mario two_users other_password refl

login_checks_example :
    ((found memory (codes "khalil") two_users).empty ≡ false)
    × ((found memory (codes "khalil") two_users).password ≡ codes "1234")
unfolding answer_code Users.login Users.is_empty Users.login_user update set_online
    Reply.from_string split_first find starts_with set_reply_message append_message
    skype.Server.set_reply_message_if
login_checks_example =
    login_checks memory (codes "T") (codes "khalil 1234") (sent []) two_users refl

delivered-All_example : Chats.delivered memory (codes "7,8") from_mario two_users ≡ (
  set_reply r_200 from_mario,
  record two_users { db = record two_users.db { chats = message 7 true ∷ message 8 true ∷ [] } },
)
unfolding print_int Number.print_nat set_delivered
delivered-All_example =
    delivered-All memory from_mario two_users (codes "7") (codes "8" ∷ [])
      ((omega arith, tt), ((omega arith, tt), tt)) (refl, (refl, tt)) refl

abbrev khalil_place : Bytes
khalil_place = codes "1.1.1.1:80"

abbrev mario_place : Bytes
mario_place = codes "2.2.2.2:90"

abbrev meeting_entry : AwaitingUser
meeting_entry =
    agreed_entry memory khalil_place mario_place (codes "A") (codes "B") local_a local_b (pos 2)
      two_users

meeting_addresses :
    (own_address meeting_entry ≡ khalil_place) × (peers_address meeting_entry ≡ mario_place)
unfolding own_address peers_address split_first find starts_with Awaiting.has_same_address
    Awaiting.set_peer_local_address Awaiting.set_peer_address Awaiting.awaiting_user
meeting_addresses = (refl, refl)

peers_meet_example :
    (pinging_peer memory khalil_place mario_place
        (codes "A")
        (codes "B")
        local_a
        local_b
        (pos 2)
        two_users
      ≡ answered (codes "A") local_a (peers_address meeting_entry) (address_type meeting_entry))
    × (accepting_peer memory khalil_place mario_place
          (codes "A")
          (codes "B")
          local_a
          local_b
          (pos 2)
          two_users
        ≡ accepting (codes "B") local_b (own_address meeting_entry) (address_type meeting_entry))
unfolding Awaiting.get lookup
peers_meet_example =
    peers_meet memory khalil_place mario_place (codes "A") (codes "B") local_a local_b (pos 2)
      two_users (omega arith) (omega arith) (omega arith) (omega arith) refl refl refl refl refl
      refl (rw meeting_addresses.0 (omega arith)) (rw meeting_addresses.1 (omega arith))
