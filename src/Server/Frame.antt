-- ===== src/Server/Frame.antt =====
-- The part of the state that each controller writes, and the router's check of the token.
use skype.Common.{◌≢◌, refl, ◌≡◌, Bool, true, false, Bytes, arith}
use skype.Command.{
  Name, create, login, send, connect, accept, search, add, remove, available, reject, list, ping,
  exit, unknown, hangup, pending, chat, delivered,
}
use skype.Reply.{r_202}
use skype.Server.{Request, Postgres, State, set_reply}
use skype.Server.Router.{controller, route, parse, is_loggedin, invalid_command, require_login}
use skype.Server.Users
use skype.Server.Calls
use skype.Server.Chats

-- The commands that may write to the database, and those of a call.
abbrev pub may_write : Name → Bool
may_write create = true
may_write login = true
may_write add = true
may_write remove = true
may_write exit = true
may_write send = true
may_write delivered = true
may_write _ = false

abbrev pub is_call : Name → Bool
is_call connect = true
is_call accept = true
is_call hangup = true
is_call reject = true
is_call ping = true
is_call _ = false

module _ {Db : Type 0} (pg : Postgres Db) (arg : Bytes) (req : Request) (s : State Db) where
  list_db : (Users.list pg arg req s).1.db ≡ s.db
  unfolding Users.list Users.list_contacts
  list_db = ground arith

  search_db : (Users.search pg arg req s).1.db ≡ s.db
  unfolding Users.search
  search_db = ground arith

  available_db : (Users.available pg arg req s).1.db ≡ s.db
  unfolding Users.available
  available_db = ground arith

  none_command_db : (Users.none_command pg arg req s).1.db ≡ s.db
  unfolding Users.none_command
  none_command_db = ground arith

  pending_db : (Chats.pending pg arg req s).1.db ≡ s.db
  unfolding Chats.pending Chats.get_chats
  pending_db = ground arith

  chat_db : (Chats.chat pg arg req s).1.db ≡ s.db
  unfolding Chats.chat Chats.get_chats
  chat_db = ground arith

  connect_db : (Calls.connect pg arg req s).1.db ≡ s.db
  unfolding Calls.connect Calls.validate Calls.validate_user_and_argument
      Calls.validate_local_address
  connect_db = ground arith

  accept_db : (Calls.accept pg arg req s).1.db ≡ s.db
  unfolding Calls.accept Calls.validate Calls.validate_user_and_argument
      Calls.validate_local_address
  accept_db = ground arith

  hangup_db : (Calls.hangup pg arg req s).1.db ≡ s.db
  unfolding Calls.hangup
  hangup_db = ground arith

  reject_db : (Calls.reject pg arg req s).1.db ≡ s.db
  unfolding Calls.reject Calls.validate_user_and_argument
  reject_db = ground arith

  ping_db : (Calls.ping pg arg req s).1.db ≡ s.db
  unfolding Calls.ping Calls.answer_ping
  ping_db = ground arith

  list_awaiting : (Users.list pg arg req s).1.awaiting ≡ s.awaiting
  unfolding Users.list Users.list_contacts
  list_awaiting = ground arith

  create_awaiting : (Users.create pg arg req s).1.awaiting ≡ s.awaiting
  unfolding Users.create Users.is_empty
  create_awaiting = ground arith

  search_awaiting : (Users.search pg arg req s).1.awaiting ≡ s.awaiting
  unfolding Users.search
  search_awaiting = ground arith

  add_awaiting : (Users.add pg arg req s).1.awaiting ≡ s.awaiting
  unfolding Users.add
  add_awaiting = ground arith

  remove_awaiting : (Users.remove pg arg req s).1.awaiting ≡ s.awaiting
  unfolding Users.remove
  remove_awaiting = ground arith

  available_awaiting : (Users.available pg arg req s).1.awaiting ≡ s.awaiting
  unfolding Users.available
  available_awaiting = ground arith

  exit_awaiting : (Users.exit pg arg req s).1.awaiting ≡ s.awaiting
  unfolding Users.exit
  exit_awaiting = ground arith

  none_command_awaiting : (Users.none_command pg arg req s).1.awaiting ≡ s.awaiting
  unfolding Users.none_command
  none_command_awaiting = ground arith

  send_awaiting : (Chats.send pg arg req s).1.awaiting ≡ s.awaiting
  unfolding Chats.send
  send_awaiting = ground arith

  pending_awaiting : (Chats.pending pg arg req s).1.awaiting ≡ s.awaiting
  unfolding Chats.pending Chats.get_chats
  pending_awaiting = ground arith

  chat_awaiting : (Chats.chat pg arg req s).1.awaiting ≡ s.awaiting
  unfolding Chats.chat Chats.get_chats
  chat_awaiting = ground arith

  delivered_awaiting : (Chats.delivered pg arg req s).1.awaiting ≡ s.awaiting
  unfolding Chats.delivered
  delivered_awaiting = ground arith

  login_awaiting : (fresh : Bytes) → (Users.login pg fresh arg req s).1.awaiting ≡ s.awaiting
  unfolding Users.login Users.is_empty Users.login_user
  login_awaiting fresh = ground arith

  controller_db :
      (fresh : Bytes) (cmd : Name)
      → may_write cmd ≡ false
      → (controller pg fresh cmd arg req s).1.db ≡ s.db
  controller_db fresh create h = cc
  controller_db fresh login h = cc
  controller_db fresh send h = cc
  controller_db fresh connect h = connect_db
  controller_db fresh accept h = accept_db
  controller_db fresh search h = search_db
  controller_db fresh add h = cc
  controller_db fresh remove h = cc
  controller_db fresh available h = available_db
  controller_db fresh reject h = reject_db
  controller_db fresh list h = list_db
  controller_db fresh ping h = ping_db
  controller_db fresh exit h = cc
  controller_db fresh unknown h = none_command_db
  controller_db fresh hangup h = hangup_db
  controller_db fresh pending h = pending_db
  controller_db fresh chat h = chat_db
  controller_db fresh delivered h = cc

  pub controller_awaiting :
      (fresh : Bytes) (cmd : Name)
      → is_call cmd ≡ false
      → (controller pg fresh cmd arg req s).1.awaiting ≡ s.awaiting
  controller_awaiting fresh create h = create_awaiting
  controller_awaiting fresh login h = login_awaiting fresh
  controller_awaiting fresh send h = send_awaiting
  controller_awaiting fresh connect h = cc
  controller_awaiting fresh accept h = cc
  controller_awaiting fresh search h = search_awaiting
  controller_awaiting fresh add h = add_awaiting
  controller_awaiting fresh remove h = remove_awaiting
  controller_awaiting fresh available h = available_awaiting
  controller_awaiting fresh reject h = cc
  controller_awaiting fresh list h = list_awaiting
  controller_awaiting fresh ping h = cc
  controller_awaiting fresh exit h = exit_awaiting
  controller_awaiting fresh unknown h = none_command_awaiting
  controller_awaiting fresh hangup h = cc
  controller_awaiting fresh pending h = pending_awaiting
  controller_awaiting fresh chat h = chat_awaiting
  controller_awaiting fresh delivered h = delivered_awaiting

-- Every command but three wants a login.
require_login_other :
    (cmd : Name) → cmd ≢ login → cmd ≢ create → cmd ≢ exit → require_login cmd ≡ true
unfolding require_login
require_login_other create l c e = absurd (c refl)
require_login_other login l c e = absurd (l refl)
require_login_other send l c e = refl
require_login_other connect l c e = refl
require_login_other accept l c e = refl
require_login_other search l c e = refl
require_login_other add l c e = refl
require_login_other remove l c e = refl
require_login_other available l c e = refl
require_login_other reject l c e = refl
require_login_other list l c e = refl
require_login_other ping l c e = refl
require_login_other exit l c e = absurd (e refl)
require_login_other unknown l c e = refl
require_login_other hangup l c e = refl
require_login_other pending l c e = refl
require_login_other chat l c e = refl
require_login_other delivered l c e = refl

module _ {Db : Type 0} (pg : Postgres Db) (fresh : Bytes) (req : Request) (s : State Db) where
  -- A request whose command only reads, or is one of a call, leaves the database as it is,
  -- whatever its arguments and its user.
  pub route_keeps_db : may_write (parse req).0 ≡ false → (route pg fresh req s).1.db ≡ s.db
  unfolding route invalid_command is_loggedin Users.is_valid_token
  route_keeps_db h = grind (arith, controller_db)

  -- A request whose command is none of a call leaves the users that wait as they are.
  pub route_keeps_awaiting :
      is_call (parse req).0 ≡ false → (route pg fresh req s).1.awaiting ≡ s.awaiting
  unfolding route invalid_command is_loggedin Users.is_valid_token
  route_keeps_awaiting h = grind (arith, controller_awaiting)

  -- A valid request whose command is none of LOGIN, CREATE and EXIT and whose token the database
  -- does not know is answered with 202; nothing else of the request and nothing of the server's
  -- state changes.
  pub route_denies :
      req.valid ≡ true
      → (parse req).0 ≢ login
      → (parse req).0 ≢ create
      → (parse req).0 ≢ exit
      → (pg.search_user_by_token (parse req).1.0 s.db).empty ≡ true
      → route pg fresh req s ≡ (set_reply r_202 req, s)
  unfolding route is_loggedin Users.is_valid_token
  route_denies v l c e unknown_token =
      ground (arith, v, require_login_other (parse req).0 l c e, unknown_token)
