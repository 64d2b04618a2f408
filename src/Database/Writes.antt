-- ===== src/Database/Writes.antt =====
-- src/server/postgres.cpp: the operations that change the database. Each refuses an empty user or
-- message, sends one statement, and is false where that throws.
use skype.Common.{
  Bool, true, false, ◌||◌, none, some, List, [], ◌∷◌, ◌++◌, Bytes, codes, if◌then◌else◌,
}
use skype.Text.{pop_back}
use skype.Text.Number.{print_int}
use skype.User.{Field, User, username, password, online, address}
use skype.Chat.{UserChat}
use skype.Database.{Connection, or_else, sql_bool}

module _ {Db : Type 0} (conn : Connection Db) where
  -- `exec` and `commit` in the try block.
  unfoldable pub run : Bytes → Db → Bool × Db
  run statement db = elim (conn.execute statement db) [
    | none ↦ (false, db)
    | some db' ↦ (true, db')
  ]

  -- The guard of the operations.
  unfoldable pub run_unless : Bool → Bytes → Db → Bool × Db
  unfolding run
  run_unless refused statement db = if refused then (false, db) else run statement db

  unfoldable pub add_user_statement : User → Bytes
  add_user_statement u =
      codes "INSERT INTO users (username, password, online, address) VALUES ("
      ++ (conn.quote u.username
          ++ (codes ","
              ++ (conn.quote u.password
                  ++ (codes ","
                      ++ (sql_bool u.online
                          ++ (codes "," ++ (conn.quote u.address ++ codes ");")))))))

  unfoldable pub add_user : User → Db → Bool × Db
  unfolding run_unless
  add_user u db = run_unless u.empty (add_user_statement u) db

  unfoldable pub add_user_chat_statement : UserChat → Bytes
  add_user_chat_statement c =
      codes "INSERT INTO chats (sender_id, recipient_id, text, delivered) VALUES ("
      ++ (conn.quote (print_int c.sender)
          ++ (codes ","
              ++ (conn.quote (print_int c.recipient)
                  ++ (codes ","
                      ++ (conn.quote c.text
                          ++ (codes "," ++ (sql_bool c.delivered ++ codes ");")))))))

  unfoldable pub add_user_chat : UserChat → Db → Bool × Db
  unfolding run_unless
  add_user_chat c db = run_unless c.empty (add_user_chat_statement c) db

  unfoldable pub add_user_contact : User → User → Db → Bool × Db
  unfolding run_unless
  add_user_contact u v db =
      run_unless (u.empty || v.empty)
        (codes "INSERT INTO contacts (user_id, contact_id) VALUES ("
          ++ (conn.quote (print_int u.id)
              ++ (codes "," ++ (conn.quote (print_int v.id) ++ codes ");"))))
        db

  unfoldable pub add_user_token : User → Bytes → Db → Bool × Db
  unfolding run_unless
  add_user_token u token db =
      run_unless u.empty
        (codes "INSERT INTO tokens (user_id, token) VALUES ("
          ++ (conn.quote (print_int u.id) ++ (codes ", " ++ (conn.quote token ++ codes ");"))))
        db

  unfoldable pub remove_user : User → Db → Bool × Db
  unfolding run_unless
  remove_user u db =
      run_unless u.empty (codes "DELETE FROM users where id = " ++ conn.quote (print_int u.id)) db

  unfoldable pub remove_user_token : User → Db → Bool × Db
  unfolding run_unless
  remove_user_token u db =
      run_unless u.empty
        (codes "DELETE FROM tokens where user_id = " ++ conn.quote (print_int u.id)) db

  unfoldable pub remove_user_contact : User → User → Db → Bool × Db
  unfolding run_unless
  remove_user_contact u v db =
      run_unless (u.empty || v.empty)
        (codes "DELETE FROM contacts where user_id = "
          ++ (conn.quote (print_int u.id)
              ++ (codes " AND contact_id = " ++ (conn.quote (print_int v.id) ++ codes ";"))))
        db

  -- The assignment of a field.
  unfoldable pub assignment : User → Field → Bytes
  assignment u username = codes "username = " ++ conn.quote u.username
  assignment u password = codes "password = " ++ conn.quote u.password
  assignment u address = codes "address = " ++ conn.quote u.address
  assignment u online = codes "online = " ++ conn.quote (sql_bool u.online)

  -- The loop of `update_user_query`, a comma behind each assignment.
  unfoldable pub assignments : User → List Field → Bytes
  unfolding assignment
  assignments u [] = []
  assignments u (f ∷ fs) = assignment u f ++ (codes "," ++ assignments u fs)

  -- `pop_back` is called on a text that is not empty.
  unfoldable pub update_user_query : User → Bytes
  unfolding assignments pop_back
  update_user_query u =
      or_else [] (pop_back (codes "UPDATE users SET " ++ assignments u u.updated_fields))
      ++ (codes " WHERE id = " ++ (conn.quote (print_int u.id) ++ codes ";"))

  unfoldable pub update_user : User → Db → Bool × Db
  unfolding run_unless
  update_user u db = run_unless u.empty (update_user_query u) db

  unfoldable pub set_user_chat_to_delivered : UserChat → Db → Bool × Db
  unfolding run_unless
  set_user_chat_to_delivered c db =
      run_unless c.empty
        (codes "UPDATE chats set delivered = TRUE WHERE id = "
          ++ (conn.quote (print_int c.id) ++ codes ";"))
        db

  -- The one change without a guard.
  unfoldable pub logoff : User → Db → Bool × Db
  unfolding run
  logoff u db =
      run
        (codes "UPDATE users SET address = NULL, online = FALSE WHERE id = "
          ++ (conn.quote (print_int u.id) ++ codes ";"))
        db
