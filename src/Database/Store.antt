-- ===== src/Database/Store.antt =====
-- src/server/postgres.cpp, behind the interface that the controllers call.
use skype.Common.{Bool, true, false, Option, none, some, [], codes}
use skype.Server.{Postgres}
use skype.Database.{Connection, or_else, list_user_contacts, list_user_chats}
use skype.Database.Lookup.{
  search_user_by_token, search_user_by, search_user_chat_by, user_contact_exists,
}
use skype.Database.Writes.{
  add_user, add_user_chat, add_user_contact, add_user_token, remove_user_contact, remove_user_token,
  update_user, set_user_chat_to_delivered, logoff,
}

abbrev pub is_none {ℓ} : {A : Type ℓ} → Option A → Bool
is_none none = true
is_none (some a) = false

-- What `result_to_users` throws is noted beside the contacts, and ends the server's loop.
abbrev pub store : {Db : Type 0} → Connection Db → Postgres Db
store conn = record {
  list_user_contacts = λ u db. or_else [] (list_user_contacts conn u db);
  list_user_contacts_throws = λ u db. is_none (list_user_contacts conn u db);
  list_user_chats = list_user_chats conn;
  search_user_by_token = search_user_by_token conn;
  search_user_by_id = λ term db. search_user_by conn term (codes "id") db;
  search_user_by_username = λ term db. search_user_by conn term (codes "username") db;
  search_user_by_address = λ term db. search_user_by conn term (codes "address") db;
  search_user_chat_by_id = λ term db. search_user_chat_by conn term (codes "id") db;
  user_contact_exists = user_contact_exists conn;
  add_user_chat = add_user_chat conn;
  add_user = add_user conn;
  add_user_contact = add_user_contact conn;
  add_user_token = add_user_token conn;
  remove_user_contact = remove_user_contact conn;
  remove_user_token = remove_user_token conn;
  update_user = update_user conn;
  set_user_chat_to_delivered = set_user_chat_to_delivered conn;
  logoff = logoff conn;
}
