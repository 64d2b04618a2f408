-- ===== src/Client/Jobs.antt =====
-- src/client/client.cpp and src/client/job/job_bus.cpp: the jobs of the interface and what the client
-- does for them. The jobs of a call go to src/client/user/call.cpp, which is the parameter `call`: it
-- gives the job back with what it posts and the server that its requests leave. What a thread of it
-- does later counts as done with the job; the state of the call stands beside the server's in `S`.
use skype.Common.{
  Bool, true, false, Option, none, some, List, [], ◌∷◌, ◌++◌, Bytes, codes, is_nil, if◌then◌else◌,
}
use skype.Common.Int.{negsuc, ◌=ℤ◌}
use skype.Chat.{UserChat}
use skype.Client.{
  Link, Details, Job, JobType, list, search, add, remove, available, disp_contacts, setuser,
  setpass, create, login, logged, getuser, getid, send, chat, pending, delivered, notification,
  connect, awaiting, awaiting_notify, accept, reject, hangup, webcam, discard, video_stream,
  audio_failed, video_failed, cleanup, peer_hangup, exit, no_job, exchange, set_data,
}
use skype.Client.Accounts
use skype.Client.Accounts.{Accounts}
use skype.Client.Contacts
use skype.Client.Contacts.{ContactMap, display_contacts}
use skype.Client.Chats

pub record Client : Type 0 where
  pub accounts : Accounts
  pub contacts : ContactMap
  pub link : Link

-- A job once it is handled, the client, the state of the server, and the jobs that were posted.
pub record Handled (S : Type 0) : Type 0 where
  pub job : Job
  pub client : Client
  pub server : S
  pub posted : List Job

-- What a job of a call comes to: the job, the state of the server, and the jobs that were posted.
pub record Called (S : Type 0) : Type 0 where
  pub job : Job
  pub server : S
  pub posted : List Job

-- The token and the argument as the data of the request.
abbrev pub with_token : Client → Job → Link
with_token c j = set_data (c.accounts.token ++ (codes " " ++ j.argument)) c.link

module _ {S : Type 0} where
  abbrev pub quiet : Job → Client → S → Handled S
  quiet j c s = record { job = j; client = c; server = s; posted = [] }

  abbrev pub after_link : Job → Client → Link × S → Handled S
  after_link j c (l, s) = quiet j (record c { link = l }) s

  unfoldable pub contact_get_contacts : Job → Client → S → Handled S
  unfolding display_contacts
  contact_get_contacts j c s =
      let shown = display_contacts c.contacts in
      let valid = if Contacts.no_contacts shown then j.valid else true in
      quiet (record j { contact_list = shown; valid = valid }) c s

  unfoldable pub user_set_username : Job → Client → S → Handled S
  user_set_username j c s =
      let (valid, a) = Accounts.set_username j.argument c.accounts in
      quiet (record j { valid = valid }) (record c { accounts = a }) s

  unfoldable pub user_set_password : Job → Client → S → Handled S
  user_set_password j c s =
      let (valid, a) = Accounts.set_password j.argument c.accounts in
      quiet (record j { valid = valid }) (record c { accounts = a }) s

  unfoldable pub user_get_username : Job → Client → S → Handled S
  user_get_username j c s =
      let name = c.accounts.username in
      quiet (record j { string = name; valid = if is_nil name then j.valid else true }) c s

  unfoldable pub user_get_logged_in : Job → Client → S → Handled S
  user_get_logged_in j c s = quiet (record j { valid = c.accounts.logged_in }) c s

  unfoldable pub user_get_id : Job → Client → S → Handled S
  user_get_id j c s =
      let id = c.accounts.id in
      quiet (record j { int_value = id; valid = if id =ℤ negsuc 0 then j.valid else true }) c s

module _ {S : Type 0} (server : Bytes → S → Option Bytes × S) (blank : Details) where
  -- The methods of the contacts that leave what they know in the client and post jobs.
  abbrev pub after_contacts : Job → Client → Bool × Contacts.After server → Handled S
  after_contacts j c (valid, ((m, posted), (l, s))) = record {
    job = record j { valid = valid };
    client = record c { contacts = m; link = l };
    server = s;
    posted = posted;
  }

  unfoldable pub contact_list : Job → Client → S → Handled S
  contact_list j c s =
      after_contacts (record j { command = discard }) c
        (Contacts.list server blank c.contacts (set_data c.accounts.token c.link) s)

  unfoldable pub contact_search : Job → Client → S → Handled S
  contact_search j c s =
      let (valid, after) = Contacts.search server (with_token c j) s in
      after_link (record j { valid = valid }) c after

  unfoldable pub contact_add_user : Job → Client → S → Handled S
  contact_add_user j c s =
      after_contacts j c (Contacts.add_user server blank c.contacts (with_token c j) s)

  unfoldable pub contact_remove_user : Job → Client → S → Handled S
  contact_remove_user j c s =
      after_contacts j c (Contacts.remove_user server blank c.contacts (with_token c j) s)

  unfoldable pub contact_available : Job → Client → S → Handled S
  contact_available j c s =
      let (valid, after) = Contacts.available server (with_token c j) s in
      after_link (record j { valid = valid }) c after

  unfoldable pub user_register_user : Job → Client → S → Handled S
  user_register_user j c s =
      let (valid, after) = Accounts.register_user server c.accounts c.link s in
      after_link (record j { valid = valid }) c after

  unfoldable pub user_login : Job → Client → S → Handled S
  user_login j c s =
      let (valid, (a, after)) = Accounts.login server c.accounts c.link s in
      after_link (record j { valid = valid }) (record c { accounts = a }) after

  unfoldable pub chat_send : Job → Client → S → Handled S
  chat_send j c s =
      let (valid, after) = Chats.send server (with_token c j) s in
      after_link (record j { valid = valid }) c after

  unfoldable pub chat_deliver : Job → Client → S → Handled S
  chat_deliver j c s =
      let (valid, after) = Chats.deliver server (with_token c j) s in
      after_link (record j { valid = valid }) c after

  abbrev pub pending_job : Job → List UserChat → Job
  pending_job j [] = record j { chats = []; valid = false; command = discard }
  pending_job j (c ∷ cs) = record j { chats = c ∷ cs; valid = true }

  -- `none`: what `parse_chat` throws ends the thread.
  abbrev pub after_chats :
      (List UserChat → Job) → Client → Option (List UserChat) × (Link × S) → Option (Handled S)
  after_chats done c (none, after) = none
  after_chats done c (some chats, after) = some (after_link (done chats) c after)

  unfoldable pub chat_get_pending : Job → Client → S → Option (Handled S)
  chat_get_pending j c s =
      after_chats (pending_job j) c (Chats.get_pending server (with_token c j) s)

  unfoldable pub chat_get_all : Job → Client → S → Option (Handled S)
  chat_get_all j c s =
      after_chats (λ chats. record j { chats = chats; valid = true }) c
        (Chats.get_all server (with_token c j) s)

  unfoldable pub client_exit : Job → Client → S → Handled S
  client_exit j c s =
      after_link (record j { command = discard }) c
        (exchange server (codes "EXIT" ++ (codes " " ++ c.accounts.token)) c.link s)

  abbrev pub after_call : Client → Called S → Handled S
  after_call c done = record {
    job = done.job;
    client = c;
    server = done.server;
    posted = done.posted;
  }

  -- What a job of a call is given, and the answer that is dropped.
  abbrev pub call_with_token :
      (JobType → Job → S → Called S) → JobType → Job → Client → S → Handled S
  call_with_token call t j c s =
      let h = after_call c (call t (record j { argument = c.accounts.token }) s) in
      record h { job = record h.job { command = discard } }

  module _ (call : JobType → Job → S → Called S) where
    -- `m_JobBus_map`: a command without an entry is called as an empty function, which throws.
    unfoldable pub handle_job : JobType → Job → Client → S → Option (Handled S)
    handle_job list j c s = some (contact_list j c s)
    handle_job search j c s = some (contact_search j c s)
    handle_job add j c s = some (contact_add_user j c s)
    handle_job remove j c s = some (contact_remove_user j c s)
    handle_job available j c s = some (contact_available j c s)
    handle_job disp_contacts j c s = some (contact_get_contacts j c s)
    handle_job setuser j c s = some (user_set_username j c s)
    handle_job setpass j c s = some (user_set_password j c s)
    handle_job create j c s = some (user_register_user j c s)
    handle_job login j c s = some (user_login j c s)
    handle_job logged j c s = some (user_get_logged_in j c s)
    handle_job getuser j c s = some (user_get_username j c s)
    handle_job getid j c s = some (user_get_id j c s)
    handle_job send j c s = some (chat_send j c s)
    handle_job chat j c s = chat_get_all j c s
    handle_job pending j c s = chat_get_pending j c s
    handle_job delivered j c s = some (chat_deliver j c s)
    handle_job connect j c s = some (call_with_token call connect j c s)
    handle_job awaiting j c s = some (after_call c (call awaiting j s))
    handle_job accept j c s = some (call_with_token call accept j c s)
    handle_job reject j c s = some (call_with_token call reject j c s)
    handle_job hangup j c s = some (after_call c (call hangup j s))
    handle_job cleanup j c s = some (after_call c (call cleanup j s))
    handle_job exit j c s = some (client_exit j c s)
    handle_job notification j c s = none
    handle_job awaiting_notify j c s = none
    handle_job webcam j c s = none
    handle_job discard j c s = none
    handle_job video_stream j c s = none
    handle_job audio_failed j c s = none
    handle_job video_failed j c s = none
    handle_job peer_hangup j c s = none
    handle_job no_job j c s = none
