-- ===== src/Server/Memory.antt =====
-- A database in memory for the tests of the server, with two users and their requests.
use skype.Common.{ℕ, Bool, true, false, List, [], ◌∷◌, Bytes, codes, same_text, if◌then◌else◌}
use skype.Common.Int.{ℤ, pos, ◌=ℤ◌}
use skype.Text.Number.{print_int}
use skype.User.{User}
use skype.Chat.{UserChat}
use skype.Awaiting.{no_users}
use skype.Server.{Request, Postgres, State}
use skype.Server.Chats.{no_user}

pub record Memory : Type 0 where
  pub people : List User
  pub sessions : List (Bytes × ℤ)
  pub chats : List UserChat

abbrev pub no_chat : UserChat
no_chat = record {
  id = pos 0;
  created_at = [];
  sender = pos 0;
  recipient = pos 0;
  text = [];
  delivered = false;
  empty = true;
}

abbrev pub first_user : (User → Bool) → List User → User
first_user test [] = no_user
first_user test (u ∷ us) = if test u then u else first_user test us

abbrev pub first_chat : Bytes → List UserChat → UserChat
first_chat id [] = no_chat
first_chat id (c ∷ cs) = if same_text (print_int c.id) id then c else first_chat id cs

abbrev pub session_user : Bytes → List (Bytes × ℤ) → List User → User
session_user token [] us = no_user
session_user token ((t, id) ∷ rest) us =
    if same_text t token then first_user (λ u. u.id =ℤ id) us else session_user token rest us

abbrev pub mark : ℤ → List UserChat → List UserChat
mark id [] = []
mark id (c ∷ cs) = if c.id =ℤ id then record c { delivered = true } ∷ mark id cs else c ∷ mark id cs

abbrev pub memory : Postgres Memory
memory = record {
  list_user_contacts = λ u db. db.people;
  list_user_contacts_throws = λ u db. false;
  list_user_chats = λ u waiting other db. db.chats;
  search_user_by_token = λ token db. session_user token db.sessions db.people;
  search_user_by_id = λ id db. first_user (λ u. same_text (print_int u.id) id) db.people;
  search_user_by_username = λ name db. first_user (λ u. same_text u.username name) db.people;
  search_user_by_address = λ place db. first_user (λ u. same_text u.address place) db.people;
  search_user_chat_by_id = λ id db. first_chat id db.chats;
  user_contact_exists = λ u v db. false;
  add_user_chat = λ c db. (true, record db { chats = c ∷ db.chats });
  add_user = λ u db. (true, record db { people = u ∷ db.people });
  add_user_contact = λ u v db. (true, db);
  add_user_token = λ u token db. (true, record db { sessions = (token, u.id) ∷ db.sessions });
  remove_user_contact = λ u v db. (true, db);
  remove_user_token = λ u db. (true, db);
  update_user = λ u db. (true, db);
  set_user_chat_to_delivered = λ c db. (true, record db { chats = mark c.id db.chats });
  logoff = λ u db. (true, db);
}

abbrev pub person : ℕ → Bytes → Bytes → Bool → User
person id name secret online = record {
  id = pos id;
  username = name;
  password = secret;
  online = online;
  address = codes "1.1.1.1:80";
  empty = false;
  updated_fields = [];
}

abbrev pub message : ℕ → Bool → UserChat
message id delivered = record {
  id = pos id;
  created_at = codes "2022-04-20 10:30:00.1";
  sender = pos 1;
  recipient = pos 2;
  text = codes "hi";
  delivered = delivered;
  empty = false;
}

abbrev pub two_users : State Memory
two_users = record {
  db = record {
    people =
        person 1 (codes "khalil") (codes "1234") true
        ∷ person 2 (codes "mario") (codes "5678") false
        ∷ [];
    sessions = (codes "A", pos 1) ∷ (codes "B", pos 2) ∷ [];
    chats = message 7 false ∷ message 8 true ∷ [];
  };
  awaiting = no_users;
}

abbrev pub request : Bytes → Bytes → Bytes → Request
request address token text = record {
  address = address;
  token = token;
  valid = true;
  exits = false;
  message = text;
}

abbrev pub from_khalil : Request
from_khalil = request (codes "9.9.9.9:50") (codes "A") []

abbrev pub from_mario : Request
from_mario = request (codes "8.8.8.8:60") (codes "B") []

abbrev pub sent : Bytes → Request
sent text = request (codes "9.9.9.9:50") [] text

abbrev pub local_a : Bytes
local_a = codes "10.0.0.2"

abbrev pub local_b : Bytes
local_b = codes "10.0.0.3"
