-- ===== src/Client.antt =====
-- src/client: the client's side of the text protocol, and the jobs that its interface posts.
-- The request that a client keeps for its server is a Link. The server, with the connection to it,
-- is a function from a command and a state to an answer and a state; `none` is an exchange that fails.
pub mod Accounts
pub mod Contacts
pub mod Chats
pub mod Jobs
pub mod Bus
pub mod Stuck
pub mod Lines
pub mod Listing
pub mod Served
pub mod Sync
pub mod LogIn
mod Tests
use skype.Common.{
  ℕ, Bool, true, false, not, Option, none, some, List, [], ◌∷◌, ◌++◌, Bytes, codes, if◌then◌else◌,
}
use skype.Common.Int.{ℤ, pos, negsuc}
use skype.Text.{find, starts_with}
use skype.Reply.{ReplyCode, get_message}
use skype.Chat.{UserChat}

-- `m_valid` of the request, and the text of its data.
pub record Link : Type 0 where
  pub valid : Bool
  pub message : Bytes

pub record Details : Type 0 where
  pub username : Bytes
  pub id : ℤ
  pub online : Bool
  pub awaiting : Bool

pub data JobType : Type 0 where
  list search add remove available disp_contacts setuser setpass create login logged getuser getid
        send chat pending delivered notification connect awaiting awaiting_notify accept reject
        hangup webcam discard video_stream audio_failed video_failed cleanup peer_hangup exit
        no_job :
      JobType

-- Without the fields for the interface's own texts and for video.
pub record Job : Type 0 where
  pub command : JobType
  pub argument : Bytes
  pub valid : Bool
  pub bool_value : Bool
  pub string : Bytes
  pub int_value : ℤ
  pub contact_list : List (ℤ × Details)
  pub chats : List UserChat

abbrev pub new_job : JobType → Job
new_job command = record {
  command = command;
  argument = [];
  valid = false;
  bool_value = false;
  string = [];
  int_value = negsuc 0;
  contact_list = [];
  chats = [];
}

abbrev pub set_data : Bytes → Link → Link
set_data text l = record l { message = text }

-- The code's text may stand anywhere in the answer.
unfoldable pub valid_response : ReplyCode → Bytes → Bool
unfolding find starts_with get_message
valid_response code text = elim (find (get_message code) text) [ none ↦ false | some i ↦ true ]

-- The link after the server was asked, and its state.
unfoldable pub after_answer : {S : Type 0} → Bytes → Option Bytes × S → Link × S
after_answer command (none, s) = (record { valid = false; message = command }, s)
after_answer command (some text, s) = (record { valid = true; message = text }, s)

module _ {S : Type 0} (server : Bytes → S → Option Bytes × S) where
  -- `respond` and `receive`: a link that is not valid sends nothing and receives nothing.
  unfoldable pub exchange : Bytes → Link → S → Link × S
  unfolding after_answer
  exchange command l s =
      if not l.valid then (set_data command l, s) else after_answer command (server command s)

  -- The command that most methods send and the code that they want.
  abbrev pub succeeded : ReplyCode → Link → Bool
  succeeded code l = if not l.valid then false else valid_response code l.message
