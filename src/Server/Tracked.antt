-- ===== src/Server/Tracked.antt =====
-- The entries of the users that wait, through the controllers and the router.
use skype.Common.{◌≡◌, refl, ◌∙◌, false, some, Bytes, arith}
use skype.Common.Int.{ℤ}
use skype.Awaiting.{AwaitingUser, AwaitingUsers, get, put, set_peer_address, set_peer_local_address}
use skype.Awaiting.Registry.{
  IsTracked, get-id, insert-IsTracked, destroy-IsTracked, put-IsTracked, ping-IsTracked,
}
use skype.Command.{
  Name, create, login, send, connect, accept, search, add, remove, available, reject, list, ping,
  exit, unknown, hangup, pending, chat, delivered,
}
use skype.Server.{Request, Postgres, State}
use skype.Server.Router.{controller, route, is_loggedin, invalid_command}
use skype.Server.Users
use skype.Server.Calls
use skype.Server.Frame.{is_call, controller_awaiting}

answered-id : (a l : Bytes) (u : AwaitingUser) → (Calls.answered a l u).id ≡ u.id
unfolding Calls.answered set_peer_address set_peer_local_address
answered-id a l u = refl

answer-IsTracked :
    (r : AwaitingUsers) (k : ℤ) (u : AwaitingUser) (a l : Bytes)
    → IsTracked r
    → get k r ≡ some u
    → IsTracked (put k (Calls.answered a l u) r)
answer-IsTracked r k u a l h e =
    put-IsTracked k u (Calls.answered a l u) r (answered-id a l u ∙ get-id k u r h e) e h

module _ {Db : Type 0} (pg : Postgres Db) (arg : Bytes) (req : Request) (s : State Db)
    (h : IsTracked s.awaiting) where
  connect-IsTracked : IsTracked (Calls.connect pg arg req s).1.awaiting
  unfolding Calls.connect
  connect-IsTracked = grind (arith, insert-IsTracked)

  accept-IsTracked : IsTracked (Calls.accept pg arg req s).1.awaiting
  unfolding Calls.accept
  accept-IsTracked = grind (arith, answer-IsTracked)

  hangup-IsTracked : IsTracked (Calls.hangup pg arg req s).1.awaiting
  unfolding Calls.hangup
  hangup-IsTracked = grind (arith, destroy-IsTracked)

  reject-IsTracked : IsTracked (Calls.reject pg arg req s).1.awaiting
  unfolding Calls.reject Calls.validate_user_and_argument
  reject-IsTracked = grind (arith, destroy-IsTracked)

  ping-kept : IsTracked (Calls.ping pg arg req s).1.awaiting
  unfolding Calls.ping Calls.answer_ping
  ping-kept = grind (arith, ping-IsTracked, destroy-IsTracked)

  other-IsTracked :
      (fresh : Bytes) (cmd : Name)
      → is_call cmd ≡ false
      → IsTracked (controller pg fresh cmd arg req s).1.awaiting
  other-IsTracked fresh cmd e = rw (controller_awaiting pg arg req s fresh cmd e) h

  controller-IsTracked :
      (fresh : Bytes) (cmd : Name) → IsTracked (controller pg fresh cmd arg req s).1.awaiting
  controller-IsTracked fresh create = other-IsTracked fresh create refl
  controller-IsTracked fresh login = other-IsTracked fresh login refl
  controller-IsTracked fresh send = other-IsTracked fresh send refl
  controller-IsTracked fresh connect = connect-IsTracked
  controller-IsTracked fresh accept = accept-IsTracked
  controller-IsTracked fresh search = other-IsTracked fresh search refl
  controller-IsTracked fresh add = other-IsTracked fresh add refl
  controller-IsTracked fresh remove = other-IsTracked fresh remove refl
  controller-IsTracked fresh available = other-IsTracked fresh available refl
  controller-IsTracked fresh reject = reject-IsTracked
  controller-IsTracked fresh list = other-IsTracked fresh list refl
  controller-IsTracked fresh ping = ping-kept
  controller-IsTracked fresh exit = other-IsTracked fresh exit refl
  controller-IsTracked fresh unknown = other-IsTracked fresh unknown refl
  controller-IsTracked fresh hangup = hangup-IsTracked
  controller-IsTracked fresh pending = other-IsTracked fresh pending refl
  controller-IsTracked fresh chat = other-IsTracked fresh chat refl
  controller-IsTracked fresh delivered = other-IsTracked fresh delivered refl

-- If every user that waits stands under its own number and has an entry that the timeout worker
-- looks at, this holds after any request too.
pub route-IsTracked :
    {Db : Type 0} (pg : Postgres Db) (fresh : Bytes) (req : Request) (s : State Db)
    → IsTracked s.awaiting
    → IsTracked (route pg fresh req s).1.awaiting
unfolding route invalid_command is_loggedin Users.is_valid_token
route-IsTracked pg fresh req s h = grind (arith, controller-IsTracked)
