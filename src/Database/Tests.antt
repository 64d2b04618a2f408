-- ===== src/Database/Tests.antt =====
-- A database that gives the same rows for every query and keeps the statements that it executes.
use skype.Common.{
  Bool, true, false, ◌≡◌, ◌⊎◌, refl, List, [], ◌∷◌, ◌++◌, Bytes, codes, none, some, same_text,
  arith, if◌then◌else◌,
}
use skype.Common.Int.{pos}
use skype.Text.{split_first}
use skype.Text.Number.{print_int, stoi}
use skype.User.{User, online, address}
use skype.Reply.{get_message, r_200, r_300, r_501}
use skype.Awaiting.{no_users}
use skype.Server.{Request, State, set_reply}
use skype.Server.Users.{create, is_empty}
use skype.Server.Chats.{send, delivered}
use skype.Database.{
  Row, Connection, listed_user, user_chat, result_to_users, list_users, table_chat,
}
use skype.Database.Store.{store}
use skype.Database.Lookup.{search_user_contact, search_user_by_token, search_user_by}
use skype.Database.Writes.{
  update_user_query, assignment, add_user, add_user_statement, set_user_chat_to_delivered,
}
use skype.Database.Contacts.{aggregate, id_text, flag_text, result_to_users-aggregate}
use skype.Database.Effects.{create_inserts, send_loses, delivered_raw, inserted}
use skype.Database.Statements.{update_user_query-intercalate}

abbrev answering : List Row → Bool → Connection (List Bytes)
answering rows writable = record {
  quote = λ t. b'\'' ∷ (t ++ codes "'");
  int_of = stoi;
  bool_of = λ t. some (same_text t (codes "t"));
  select = λ query db. some rows;
  execute = λ statement db. if writable then some (statement ∷ db) else none;
}

abbrev khalil_row : Row
khalil_row =
    some (codes "1")
    ∷ some (codes "khalil")
    ∷ some (codes "1234")
    ∷ some (codes "t")
    ∷ some (codes "1.1.1.1:80")
    ∷ []

abbrev offline_row : Row
offline_row =
    some (codes "2") ∷ some (codes "mario") ∷ some (codes "5678") ∷ some (codes "f") ∷ none ∷ []

abbrev chat_row : Row
chat_row =
    some (codes "7")
    ∷ some (codes "2022-04-20 10:30:00.1")
    ∷ some (codes "1")
    ∷ some (codes "2")
    ∷ some (codes "f")
    ∷ some (codes "hi")
    ∷ []

abbrev khalil : User
khalil = listed_user (pos 1) (codes "khalil") [] true []

abbrev mario : User
mario = listed_user (pos 2) (codes "mario") [] false []

abbrev request : Request
request = record {
  address = codes "9.9.9.9:50";
  token = codes "A";
  valid = true;
  exits = false;
  message = [];
}

abbrev no_statements : State (List Bytes)
no_statements = record { db = []; awaiting = no_users }

-- The list ends at the first user without an address.
list_users_cut :
    list_users (answering (khalil_row ∷ offline_row ∷ khalil_row ∷ []) true) []
    ≡ record khalil { address = codes "1.1.1.1:80" } ∷ []
unfolding list_users stoi
list_users_cut = refl

-- A contact without an address is not found.
search_user_contact_offline :
    (search_user_contact (answering (offline_row ∷ []) true) khalil (codes "mario") []).empty ≡ true
unfolding search_user_contact stoi
search_user_contact_offline = refl

result_to_users-aggregate_example :
    result_to_users
      (aggregate id_text (khalil ∷ mario ∷ []))
      (aggregate (λ v. v.username) (khalil ∷ mario ∷ []))
      (aggregate flag_text (khalil ∷ mario ∷ []))
    ≡ some (khalil ∷ mario ∷ [])
result_to_users-aggregate_example = result_to_users-aggregate khalil (mario ∷ []) (omega arith)

abbrev two_names : User
two_names = record khalil { username = codes "a,b" }

abbrev writable : Connection (List Bytes)
writable = answering [] true

create_inserts_example :
    ((false ≡ true)
      × (create (store writable) (codes "ann pw") request no_statements
          ≡ (set_reply r_501 request, no_statements)))
    ⊎ ((false ≡ false)
        × ((db' : List Bytes) × (writable.execute (inserted writable (codes "ann pw") request) []
              ≡ some db')
            × (create (store writable) (codes "ann pw") request no_statements
                ≡ (set_reply r_200 request, record no_statements { db = db' }))))
    ⊎ ((false ≡ false)
        × (writable.execute (inserted writable (codes "ann pw") request) [] ≡ none)
        × (create (store writable) (codes "ann pw") request no_statements
            ≡ (set_reply r_300 request, no_statements)))
unfolding split_first
create_inserts_example = create_inserts writable (codes "ann pw") request no_statements

create_statement :
    (create (store writable) (codes "ann pw") request no_statements).1.db
    ≡ codes
        "INSERT INTO users (username, password, online, address) VALUES ('ann','pw',FALSE,'9.9.9.9:50');"
      ∷ []
unfolding create is_empty split_first add_user add_user_statement
create_statement = refl

abbrev full : Connection (List Bytes)
full = answering (khalil_row ∷ []) false

send_loses_example :
    ((send (store full) (codes "1 hello") request no_statements).0.message ≡ get_message r_200)
    × ((send (store full) (codes "1 hello") request no_statements).1 ≡ no_statements)
unfolding search_user_by_token search_user_by stoi
send_loses_example = send_loses full (codes "1 hello") request no_statements refl refl refl

abbrev with_chat : Connection (List Bytes)
with_chat = answering (chat_row ∷ []) true

delivered_raw_example : delivered (store with_chat) (codes "0 OR id = 7") request no_statements ≡ (
  set_reply r_200 request,
  record no_statements {
    db =
        (set_user_chat_to_delivered with_chat
          (user_chat (pos 7) (codes "2022-04-20 10:30:00.1") (pos 1) (pos 2) (codes "hi") false)
          []).1;
  },
)
unfolding table_chat stoi
delivered_raw_example =
    delivered_raw with_chat (codes "0 OR id = 7") request no_statements chat_row
      (user_chat (pos 7) (codes "2022-04-20 10:30:00.1") (pos 1) (pos 2) (codes "hi") false) refl
      refl refl refl (omega arith) refl

abbrev moved : User
moved = record khalil { address = codes "2.2.2.2:7"; updated_fields = online ∷ address ∷ [] }

update_user_query-intercalate_example :
    update_user_query writable moved
    ≡ codes "UPDATE users SET online = 'TRUE',address = '2.2.2.2:7' WHERE id = '1';"
unfolding assignment print_int
update_user_query-intercalate_example =
    update_user_query-intercalate writable moved online (address ∷ []) refl
