-- ===== src/Database.antt =====
-- src/server/postgres.cpp: the operations of the database, as the statements that they send and what
-- they make of the rows that come back. The library pqxx and the server behind it are the record
-- Connection: a select gives its rows, an execute the new database, and `none` is what throws, be it
-- the statement or its commit; the transaction is then given up and the database is as it was.
pub mod Lookup
pub mod Writes
pub mod Contacts
pub mod Store
pub mod Statements
pub mod Effects
mod Tests
use skype.Common.{
  Bool, true, false, not, ◌&&◌, ◌||◌, Option, none, some, List, [], ◌∷◌, ◌++◌, Bytes, codes,
  same_text, if◌then◌else◌, ◌>>=◌,
}
use skype.Common.Int.{ℤ}
use skype.Text.{split, to_int}
use skype.Text.Number.{print_int}
use skype.User.{User}
use skype.Chat.{UserChat}

-- The columns of a row as texts; `none` is NULL.
abbrev pub Row : Type 0
Row = List (Option Bytes)

-- `quote` is that of a transaction; `int_of` and `bool_of` are the conversions of a column.
pub record Connection (Db : Type 0) : Type 0 where
  pub quote : Bytes → Bytes
  pub int_of : Bytes → Option ℤ
  pub bool_of : Bytes → Option Bool
  pub select : Bytes → Db → Option (List Row)
  pub execute : Bytes → Db → Option Db

-- `exec1` throws unless there is one row.
unfoldable pub exec1 : Option (List Row) → Option Row
exec1 (some (row ∷ [])) = some row
exec1 _ = none

abbrev pub or_else {ℓ} : {A : Type ℓ} → A → Option A → A
or_else a none = a
or_else a (some b) = b

abbrev pub sql_bool : Bool → Bytes
sql_bool true = codes "TRUE"
sql_bool false = codes "FALSE"

-- A user with the fields that a query gives; the constructors of `User` leave the others empty.
abbrev pub listed_user : ℤ → Bytes → Bytes → Bool → Bytes → User
listed_user id name secret here place = record {
  id = id;
  username = name;
  password = secret;
  online = here;
  address = place;
  empty = false;
  updated_fields = [];
}

abbrev pub user_chat : ℤ → Bytes → ℤ → ℤ → Bytes → Bool → UserChat
user_chat id created_at sender recipient text delivered = record {
  id = id;
  created_at = created_at;
  sender = sender;
  recipient = recipient;
  text = text;
  delivered = delivered;
  empty = false;
}

-- The loop of `result_to_users`; `at` throws where the names or the flags are fewer than the numbers.
unfoldable pub users_at : List Bytes → List Bytes → List Bytes → Option (List User)
users_at [] ns os = some []
users_at (i ∷ ids) (n ∷ ns) (o ∷ os) = do
  rest ← users_at ids ns os
  some (listed_user (to_int i).1 n [] (same_text o (codes "true")) [] ∷ rest)
users_at (i ∷ ids) ns os = none

unfoldable pub result_to_users : Bytes → Bytes → Bytes → Option (List User)
unfolding users_at
result_to_users ids contacts onlines = do
  ids_vec ← split ids (codes ",")
  contacts_vec ← split contacts (codes ",")
  onlines_vec ← split onlines (codes ",")
  users_at ids_vec contacts_vec onlines_vec

module _ {Db : Type 0} (conn : Connection Db) where
  -- The conversion of a whole row: a NULL, a wrong column or a wrong number of them throws.
  unfoldable pub full_user : Row → Option User
  full_user (id ∷ name ∷ secret ∷ here ∷ place ∷ []) = do
    i ← id >>= conn.int_of
    n ← name
    s ← secret
    o ← here >>= conn.bool_of
    p ← place
    some (listed_user i n s o p)
  full_user _ = none

  -- The function that `list_users` calls for each row, which drops the password.
  unfoldable pub plain_user : Row → Option User
  unfolding full_user
  plain_user row = do u ← full_user row; some (record u { password = [] })

  -- A message as `list_user_chats` selects it.
  unfoldable pub listed_chat : Row → Option UserChat
  listed_chat (id ∷ created ∷ sender ∷ recipient ∷ text ∷ delivered ∷ []) = do
    i ← id >>= conn.int_of
    c ← created
    s ← sender >>= conn.int_of
    r ← recipient >>= conn.int_of
    t ← text
    d ← delivered >>= conn.bool_of
    some (user_chat i c s r t d)
  listed_chat _ = none

  -- A message in the order of the table, where the text stands last.
  unfoldable pub table_chat : Row → Option UserChat
  unfolding listed_chat
  table_chat (id ∷ created ∷ sender ∷ recipient ∷ delivered ∷ text ∷ []) =
      listed_chat (id ∷ created ∷ sender ∷ recipient ∷ text ∷ delivered ∷ [])
  table_chat _ = none

  -- `for_each` with a function that pushes: a row that throws ends it, and those before it are kept.
  unfoldable pub for_each : {A : Type 0} → (Row → Option A) → List Row → List A
  for_each read [] = []
  for_each read (row ∷ rows) = elim (read row) [ none ↦ [] | some a ↦ a ∷ for_each read rows ]

  unfoldable pub list_users : Db → List User
  unfolding for_each plain_user
  list_users db = elim (conn.select (codes "SELECT * FROM users;") db) [
    | none ↦ []
    | some rows ↦ for_each plain_user rows
  ]

  unfoldable pub chats_query : User → Bool → User → Bytes
  chats_query user pending sender =
      codes "SELECT DISTINCT id, created_at, sender_id, recipient_id, text, delivered"
      ++ (codes " FROM chats WHERE ( recipient_id = "
          ++ (print_int user.id
              ++ ((if not sender.empty
                    then codes " AND sender_id = " ++ print_int sender.id
                    else [])
                  ++ ((if pending then codes " AND delivered = FALSE" else [])
                      ++ (codes " ) "
                          ++ ((if not pending && sender.empty
                                then codes " OR sender_id = " ++ print_int user.id
                                else [])
                              ++ codes " ORDER BY created_at ASC;"))))))

  unfoldable pub list_user_chats : User → Bool → User → Db → List UserChat
  unfolding for_each listed_chat
  list_user_chats user pending sender db = elim (conn.select (chats_query user pending sender) db) [
    | none ↦ []
    | some rows ↦ for_each listed_chat rows
  ]

  unfoldable pub list_contacts_query : User → Bytes
  list_contacts_query user =
      codes
        "SELECT DISTINCT U.username, (SELECT STRING_AGG(U1.id::VARCHAR, ',') AS id FROM contacts C1 "
      ++ (codes "INNER JOIN users U1 ON C1.contact_id = U1.id WHERE U.id = C1.user_id ), "
          ++ (codes "( SELECT DISTINCT STRING_AGG(U2.username, ',') AS contacts FROM contacts C2 "
              ++ (codes "INNER JOIN users U2 ON C2.contact_id = U2.id WHERE U.id = C2.user_id ), "
                  ++ (codes "( SELECT DISTINCT STRING_AGG(U4.online::VARCHAR, ',') AS online "
                      ++ (codes "FROM contacts C4 INNER JOIN users U4 ON C4.contact_id = U4.id "
                          ++ (codes "WHERE U.id = C4.user_id ) FROM contacts C JOIN users U "
                              ++ (codes "ON C.user_id = U.id WHERE U.username = "
                                  ++ (conn.quote user.username ++ codes ";"))))))))

  -- The four texts of a row.
  unfoldable pub aggregates : Row → Option (Bytes × (Bytes × Bytes))
  aggregates (name ∷ ids ∷ contacts ∷ onlines ∷ []) = do
    n ← name
    i ← ids
    c ← contacts
    o ← onlines
    some (i, (c, o))
  aggregates _ = none

  -- No row, and what throws, gives no users; `result_to_users` stands outside of the handler.
  unfoldable pub list_user_contacts : User → Db → Option (List User)
  unfolding exec1 aggregates
  list_user_contacts user db =
      elim (exec1 (conn.select (list_contacts_query user) db) >>= aggregates) [
        | none ↦ some []
        | some (ids, (contacts, onlines)) ↦ result_to_users ids contacts onlines
      ]
