-- ===== src/Server/Calls.antt =====
-- src/server/call_controllers.cpp: the commands of a call.
use skype.Common.{is_nil, Bool, true, false, Option, none, some, ◌++◌, Bytes, codes, if◌then◌else◌}
use skype.Common.Int.{ℤ}
use skype.Text.{split_first, to_int}
use skype.User.{User}
use skype.Awaiting.{
  AwaitingUsers, AwaitingUser, awaiting_user, set_peer_address, set_peer_local_address, own_address,
  peers_address, address_type, get, insert, destroy, put, exists,
}
use skype.Awaiting
use skype.Reply.{r_200, r_201, r_203, r_301, r_306, r_307, r_500, r_501}
use skype.Server.{Request, Postgres, State, Outcome, set_reply, set_reply_message}

-- The contact's number and the local address in the argument, or the request with its answer.
unfoldable pub validate_user_and_argument : Bytes → Request → User → Request × Option (ℤ × Bytes)
validate_user_and_argument arg req user =
    if user.empty
    then (set_reply r_301 req, none)
    else let (id_str, private_address) = split_first arg (codes " ") in
      let (valid, contact_id) = to_int id_str in
      if valid then (req, some (contact_id, private_address)) else (set_reply r_500 req, none)

unfoldable pub validate_local_address : Bytes → Request → Bool × Request
validate_local_address local_address req =
    if is_nil local_address then (false, set_reply r_501 req) else (true, req)

-- The call that waits learns the addresses of the user that accepts.
unfoldable pub answered : Bytes → Bytes → AwaitingUser → AwaitingUser
unfolding set_peer_address set_peer_local_address
answered address local_address u = set_peer_local_address local_address (set_peer_address address u)

-- The answer to a ping of a user that waits, once the ping is noted.
unfoldable pub answer_ping : {Db : Type 0} → AwaitingUser → Request → State Db → Outcome Db
answer_ping u req s = if is_nil (peers_address u) then (set_reply r_203 req, s) else (
  set_reply_message r_201 (peers_address u ++ (codes " " ++ address_type u)) req,
  record s { awaiting = (destroy u.id s.awaiting).1 },
)

module _ {Db : Type 0} (pg : Postgres Db) where
  -- Both checks of `connect` and `accept`.
  unfoldable pub validate : Bytes → Request → State Db → Request × Option (ℤ × Bytes)
  unfolding validate_user_and_argument validate_local_address
  validate arg req s =
      let user = pg.search_user_by_token req.token s.db in
      let (req', parsed) = validate_user_and_argument arg req user in
      elim parsed [
        | none ↦ (req', none)
        | some (contact_id, local_address) ↦
            let (valid, req'') = validate_local_address local_address req' in
            (req'', if valid then some (contact_id, local_address) else none)
      ]

  unfoldable pub connect : Bytes → Request → State Db → Outcome Db
  connect arg req s =
      let user = pg.search_user_by_token req.token s.db in
      let (req', parsed) = validate arg req s in
      elim parsed [
        | none ↦ (req', s)
        | some (contact_id, local_address) ↦
            let (inserted, awaiting') =
              insert (awaiting_user user.id contact_id req'.address local_address) s.awaiting in
            (
              if inserted then set_reply r_200 req' else set_reply r_306 req',
              record s { awaiting = awaiting' },
            )
      ]

  unfoldable pub accept : Bytes → Request → State Db → Outcome Db
  accept arg req s =
      let (req', parsed) = validate arg req s in
      elim parsed [
        | none ↦ (req', s)
        | some (contact_id, local_address) ↦ elim (get contact_id s.awaiting) [
          | none ↦ (set_reply r_307 req', s)
          | some u ↦
              let u' = answered req'.address local_address u in
              (
                set_reply_message r_201 (own_address u' ++ (codes " " ++ address_type u')) req',
                record s { awaiting = put contact_id u' s.awaiting },
              )
        ]
      ]

  unfoldable pub hangup : Bytes → Request → State Db → Outcome Db
  hangup arg req s =
      let user = pg.search_user_by_token req.token s.db in
      if user.empty
      then (set_reply r_301 req, s)
      else let (valid, awaiting') = destroy user.id s.awaiting in
        (
          if valid then set_reply r_200 req else set_reply r_307 req,
          record s { awaiting = awaiting' },
        )

  unfoldable pub reject : Bytes → Request → State Db → Outcome Db
  reject arg req s =
      let user = pg.search_user_by_token req.token s.db in
      let (req', parsed) = validate_user_and_argument arg req user in
      elim parsed [
        | none ↦ (req', s)
        | some (contact_id, _) ↦
            let (valid, awaiting') = destroy contact_id s.awaiting in
            (
              if valid then set_reply r_200 req' else set_reply r_307 req',
              record s { awaiting = awaiting' },
            )
      ]

  unfoldable pub ping : Bytes → Request → State Db → Outcome Db
  ping arg req s =
      let user = pg.search_user_by_token req.token s.db in
      if user.empty then (set_reply r_301 req, s) else elim (get user.id s.awaiting) [
        | none ↦ (set_reply r_307 req, s)
        | some u ↦ answer_ping u req (record s { awaiting = Awaiting.ping u.id s.awaiting })
      ]

unfoldable pub call_awaits : {Db : Type 0} → ℤ → State Db → Bool
call_awaits id s = exists id s.awaiting
