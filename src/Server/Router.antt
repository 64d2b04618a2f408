-- ===== src/Server/Router.antt =====
-- src/server/router.cpp: a request is parsed, its token is checked, and its controller is called.
use skype.Common.{is_nil, Bool, true, false, not, ◌&&◌, ◌==◌, Bytes, codes, [], if◌then◌else◌}
use skype.Text.{split_first}
use skype.Reply.{r_501}
use skype.Command.{
  Name, create, login, send, connect, accept, search, add, remove, available, reject, list, ping,
  exit, unknown, hangup, pending, chat, delivered, value, get, has_argument,
  has_zero_or_more_arguments,
}
use skype.Server.{Request, Postgres, State, Outcome, set_reply}
use skype.Server.Users
use skype.Server.Calls
use skype.Server.Chats

unfoldable pub require_login : Name → Bool
require_login cmd =
    not (value cmd == value login)
    && (not (value cmd == value create) && not (value cmd == value exit))

-- The command, the token and the arguments.
unfoldable pub parse : Request → Name × (Bytes × Bytes)
parse req =
    let (command, body) = split_first req.message (codes " ") in
    let cmd = get command in
    if require_login cmd
    then (cmd, split_first body (codes " "))
    else if value cmd == value exit
    then (cmd, (body, []))
    else (cmd, ([], body))

unfoldable pub validate_argument : Name → Bytes → Bool
unfolding has_argument has_zero_or_more_arguments
validate_argument cmd arg =
    if has_zero_or_more_arguments cmd
    then true
    else if has_argument cmd
    then not (is_nil arg)
    else true

unfoldable pub invalid_command : Request → Request
invalid_command req = set_reply r_501 req

module _ {Db : Type 0} (pg : Postgres Db) where
  unfoldable pub is_loggedin : Name → Bytes → Request → State Db → Bool × Request
  is_loggedin cmd token req s =
      if require_login cmd then Users.is_valid_token pg token req s else (true, req)

  -- `m_controllers`; the token that a login would generate comes first.
  abbrev pub controller : Bytes → Name → Bytes → Request → State Db → Outcome Db
  controller fresh list = Users.list pg
  controller fresh create = Users.create pg
  controller fresh login = Users.login pg fresh
  controller fresh search = Users.search pg
  controller fresh add = Users.add pg
  controller fresh remove = Users.remove pg
  controller fresh available = Users.available pg
  controller fresh exit = Users.exit pg
  controller fresh send = Chats.send pg
  controller fresh pending = Chats.pending pg
  controller fresh chat = Chats.chat pg
  controller fresh delivered = Chats.delivered pg
  controller fresh connect = Calls.connect pg
  controller fresh accept = Calls.accept pg
  controller fresh hangup = Calls.hangup pg
  controller fresh reject = Calls.reject pg
  controller fresh ping = Calls.ping pg
  controller fresh unknown = Users.none_command pg

  unfoldable pub route : Bytes → Request → State Db → Outcome Db
  route fresh req s =
      if not req.valid
      then (invalid_command req, s)
      else (let (cmd, (token, arguments)) = parse req in
          let (allowed, req') = is_loggedin cmd token req s in
          if not allowed
          then (req', s)
          else if validate_argument cmd arguments
          then controller fresh cmd arguments (record req' { token = token }) s
          else (invalid_command req', s))

  abbrev pub controller_throws : Name → Request → State Db → Bool
  controller_throws cmd req s =
      if value cmd == value list then Users.list_throws pg req s else false

  -- Whether `route` throws, which nothing catches.
  unfoldable pub route_throws : Request → State Db → Bool
  route_throws req s =
      if not req.valid
      then false
      else (let (cmd, (token, arguments)) = parse req in
          let (allowed, req') = is_loggedin cmd token req s in
          if not allowed
          then false
          else if validate_argument cmd arguments
          then controller_throws cmd (record req' { token = token }) s
          else false)
