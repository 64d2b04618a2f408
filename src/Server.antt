-- ===== src/Server.antt =====
-- src/shared/request.cpp, src/server/controller_utils.cpp and the state that the controllers share:
-- the database and the users that wait. The database stands behind the operations of
-- src/server/postgres.cpp, which send their queries to a database server; `Postgres` holds them.
pub mod Calls
pub mod Users
pub mod Chats
pub mod Router
pub mod Loop
pub mod Answers
pub mod Frame
pub mod Tracked
pub mod Flow
pub mod Sessions
pub mod Messages
pub mod Meeting
pub mod Memory
mod Tests
use skype.Common.{Bool, true, false, Option, none, some, List, [], Bytes, if◌then◌else◌}
use skype.Common.Int.{pos, ℤ}
use skype.User.{User}
use skype.Chat.{UserChat}
use skype.Awaiting.{AwaitingUsers}
use skype.Reply.{ReplyCode, r_200, r_201, r_500, get_message, append_message}

-- `message` is the text of the data; `m_socket` is the connections'.
pub record Request : Type 0 where
  pub address : Bytes
  pub token : Bytes
  pub valid : Bool
  pub exits : Bool
  pub message : Bytes

abbrev pub Term : Type 0
Term = Bytes

-- The operations that the controllers call. A search that finds no one gives a user that is empty.
pub record Postgres (Db : Type 0) : Type 0 where
  pub list_user_contacts : User → Db → List User
  pub list_user_contacts_throws : User → Db → Bool
  pub list_user_chats : User → Bool → User → Db → List UserChat
  pub search_user_by_token : Bytes → Db → User
  pub search_user_by_id : Term → Db → User
  pub search_user_by_username : Term → Db → User
  pub search_user_by_address : Term → Db → User
  pub search_user_chat_by_id : Term → Db → UserChat
  pub user_contact_exists : User → User → Db → Bool
  pub add_user_chat : UserChat → Db → Bool × Db
  pub add_user : User → Db → Bool × Db
  pub add_user_contact : User → User → Db → Bool × Db
  pub add_user_token : User → Bytes → Db → Bool × Db
  pub remove_user_contact : User → User → Db → Bool × Db
  pub remove_user_token : User → Db → Bool × Db
  pub update_user : User → Db → Bool × Db
  pub set_user_chat_to_delivered : UserChat → Db → Bool × Db
  pub logoff : User → Db → Bool × Db

pub record State (Db : Type 0) : Type 0 where
  pub db : Db
  pub awaiting : AwaitingUsers

-- What a controller makes of a request and of the state.
abbrev pub Outcome : Type 0 → Type 0
Outcome Db = Request × State Db

unfoldable pub set_reply : ReplyCode → Request → Request
set_reply code req = record req { message = get_message code }

-- A code without a text throws, and the request stays as it is; no caller passes such a code.
unfoldable pub set_reply_message : ReplyCode → Bytes → Request → Request
set_reply_message code msg req = elim (append_message code msg) [
  | none ↦ req
  | some text ↦ record req { message = text }
]

unfoldable pub set_reply_if : Bool → Request → Request
set_reply_if valid req = if valid then set_reply r_200 req else set_reply r_500 req

unfoldable pub set_reply_message_if : Bool → Bytes → Request → Request
set_reply_message_if valid msg req =
    if valid then set_reply_message r_201 msg req else set_reply r_500 req
