-- ===== src/Server/Answers.antt =====
-- The code in the answer of each controller, and of the router.
use skype.Common.{◌≡◌, ◌≢◌, refl, none, some, [], ◌++◌, Bytes, codes, arith}
use skype.Text.{split_first, split}
use skype.Reply.{ReplyCode, r_201, r_305, from_string, append_message}
use skype.Text.Split.{split-Spells}
use skype.Command.{
  Name, create, login, send, connect, accept, search, add, remove, available, reject, list, ping,
  exit, unknown, hangup, pending, chat, delivered,
}
use skype.Server.Router.{controller, route, is_loggedin, invalid_command}
use skype.Reply.Code.{from_string-get_message, get_message_code}
use skype.Server.{
  Request, Postgres, State, set_reply, set_reply_message, set_reply_if, set_reply_message_if,
}
use skype.Server.Users
use skype.Server.Calls
use skype.Server.Chats

-- The code that the client reads from an answer.
unfoldable pub answer_code : Bytes → ReplyCode
answer_code text = from_string (split_first text (codes " ")).0

pub set_reply_code :
    (code : ReplyCode) (req : Request) → answer_code (set_reply code req).message ≡ code
unfolding set_reply answer_code
set_reply_code code req = get_message_code code

message_code :
    (code : ReplyCode) (msg text : Bytes) (req : Request)
    → append_message code msg ≡ some text
    → answer_code (set_reply_message code msg req).message ≡ code
unfolding set_reply_message answer_code
message_code code msg text req h =
    rw (h, set_reply_message) (from_string-get_message code msg text h).0

pub r_201_message_code :
    (msg : Bytes) (req : Request) → answer_code (set_reply_message r_201 msg req).message ≡ r_201
r_201_message_code msg req =
    message_code r_201 msg (codes "201 " ++ msg) req (unfold append_message in refl)

r_305_message_code :
    (msg : Bytes) (req : Request) → answer_code (set_reply_message r_305 msg req).message ≡ r_305
r_305_message_code msg req =
    message_code r_305 msg (codes "305 Invalid chat id " ++ msg) req (unfold append_message in refl)

-- Splitting at a comma ends.
split_comma : (s : Bytes) → split s (codes ",") ≢ none
split_comma s h = let (p, ps, e, _) = split-Spells b',' [] s in cc

module _ {Db : Type 0} (pg : Postgres Db) (arg : Bytes) (req : Request) (s : State Db) where
  list-Answers : answer_code (Users.list pg arg req s).0.message ≢ ReplyCode.unknown
  unfolding Users.list Users.list_contacts
  list-Answers h = grind (arith, set_reply_code, r_201_message_code, r_305_message_code)

  create-Answers : answer_code (Users.create pg arg req s).0.message ≢ ReplyCode.unknown
  unfolding Users.create Users.is_empty
  create-Answers h = grind (arith, set_reply_code, r_201_message_code, r_305_message_code)

  search-Answers : answer_code (Users.search pg arg req s).0.message ≢ ReplyCode.unknown
  unfolding Users.search
  search-Answers h = grind (arith, set_reply_code, r_201_message_code, r_305_message_code)

  add-Answers : answer_code (Users.add pg arg req s).0.message ≢ ReplyCode.unknown
  unfolding Users.add set_reply_if
  add-Answers h = grind (arith, set_reply_code, r_201_message_code, r_305_message_code)

  remove-Answers : answer_code (Users.remove pg arg req s).0.message ≢ ReplyCode.unknown
  unfolding Users.remove set_reply_if
  remove-Answers h = grind (arith, set_reply_code, r_201_message_code, r_305_message_code)

  available-Answers : answer_code (Users.available pg arg req s).0.message ≢ ReplyCode.unknown
  unfolding Users.available
  available-Answers h = grind (arith, set_reply_code, r_201_message_code, r_305_message_code)

  exit-Answers : answer_code (Users.exit pg arg req s).0.message ≢ ReplyCode.unknown
  unfolding Users.exit
  exit-Answers h = grind (arith, set_reply_code, r_201_message_code, r_305_message_code)

  none_command-Answers : answer_code (Users.none_command pg arg req s).0.message ≢ ReplyCode.unknown
  unfolding Users.none_command
  none_command-Answers h = grind (arith, set_reply_code, r_201_message_code, r_305_message_code)

  send-Answers : answer_code (Chats.send pg arg req s).0.message ≢ ReplyCode.unknown
  unfolding Chats.send
  send-Answers h = grind (arith, set_reply_code, r_201_message_code, r_305_message_code)

  pending-Answers : answer_code (Chats.pending pg arg req s).0.message ≢ ReplyCode.unknown
  unfolding Chats.pending Chats.get_chats
  pending-Answers h = grind (arith, set_reply_code, r_201_message_code, r_305_message_code)

  chat-Answers : answer_code (Chats.chat pg arg req s).0.message ≢ ReplyCode.unknown
  unfolding Chats.chat Chats.get_chats
  chat-Answers h = grind (arith, set_reply_code, r_201_message_code, r_305_message_code)

  delivered-Answers : answer_code (Chats.delivered pg arg req s).0.message ≢ ReplyCode.unknown
  unfolding Chats.delivered
  delivered-Answers h =
      grind (arith, split_comma, set_reply_code, r_201_message_code, r_305_message_code)

  connect-Answers : answer_code (Calls.connect pg arg req s).0.message ≢ ReplyCode.unknown
  unfolding Calls.connect Calls.validate Calls.validate_user_and_argument
      Calls.validate_local_address
  connect-Answers h = grind (arith, set_reply_code, r_201_message_code, r_305_message_code)

  accept-Answers : answer_code (Calls.accept pg arg req s).0.message ≢ ReplyCode.unknown
  unfolding Calls.accept Calls.validate Calls.validate_user_and_argument
      Calls.validate_local_address
  accept-Answers h = grind (arith, set_reply_code, r_201_message_code, r_305_message_code)

  hangup-Answers : answer_code (Calls.hangup pg arg req s).0.message ≢ ReplyCode.unknown
  unfolding Calls.hangup
  hangup-Answers h = grind (arith, set_reply_code, r_201_message_code, r_305_message_code)

  reject-Answers : answer_code (Calls.reject pg arg req s).0.message ≢ ReplyCode.unknown
  unfolding Calls.reject Calls.validate_user_and_argument
  reject-Answers h = grind (arith, set_reply_code, r_201_message_code, r_305_message_code)

  ping-Answers : answer_code (Calls.ping pg arg req s).0.message ≢ ReplyCode.unknown
  unfolding Calls.ping Calls.answer_ping
  ping-Answers h = grind (arith, set_reply_code, r_201_message_code, r_305_message_code)

  login-Answers :
      (fresh : Bytes) → answer_code (Users.login pg fresh arg req s).0.message ≢ ReplyCode.unknown
  unfolding Users.login Users.is_empty Users.login_user set_reply_message_if
  login-Answers fresh h = grind (arith, set_reply_code, r_201_message_code, r_305_message_code)

  controller-Answers :
      (fresh : Bytes) (cmd : Name)
      → answer_code (controller pg fresh cmd arg req s).0.message ≢ ReplyCode.unknown
  controller-Answers fresh login = login-Answers fresh
  controller-Answers fresh unknown = none_command-Answers
  controller-Answers fresh create = create-Answers
  controller-Answers fresh send = send-Answers
  controller-Answers fresh connect = connect-Answers
  controller-Answers fresh accept = accept-Answers
  controller-Answers fresh search = search-Answers
  controller-Answers fresh add = add-Answers
  controller-Answers fresh remove = remove-Answers
  controller-Answers fresh available = available-Answers
  controller-Answers fresh reject = reject-Answers
  controller-Answers fresh list = list-Answers
  controller-Answers fresh ping = ping-Answers
  controller-Answers fresh exit = exit-Answers
  controller-Answers fresh hangup = hangup-Answers
  controller-Answers fresh pending = pending-Answers
  controller-Answers fresh chat = chat-Answers
  controller-Answers fresh delivered = delivered-Answers

-- Whatever request is routed, in whatever state, the server's answer begins with a code of the
-- protocol that the client can read.
pub route-Answers :
    {Db : Type 0} (pg : Postgres Db) (fresh : Bytes) (req : Request) (s : State Db)
    → answer_code (route pg fresh req s).0.message ≢ ReplyCode.unknown
unfolding route invalid_command is_loggedin Users.is_valid_token
route-Answers pg fresh req s h = grind (arith, set_reply_code, controller-Answers)
