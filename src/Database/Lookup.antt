-- ===== src/Database/Lookup.antt =====
-- src/server/postgres.cpp: the searches for one row. What throws gives a user or a message that is
-- empty.
use skype.Common.{Bool, true, false, none, some, [], ◌∷◌, ◌++◌, Bytes, codes, ◌>>=◌}
use skype.Text.Number.{print_int}
use skype.User.{User}
use skype.Chat.{UserChat, new_chat}
use skype.Server.Chats.{no_user}
use skype.Database.{Row, Connection, exec1, or_else, full_user, table_chat}

module _ {Db : Type 0} (conn : Connection Db) where
  -- `exec1`, and the conversion of its row.
  unfoldable pub found_user : Bytes → Db → User
  unfolding exec1 full_user
  found_user query db = or_else no_user (exec1 (conn.select query db) >>= full_user conn)

  unfoldable pub token_query : Bytes → Bytes
  token_query token =
      codes "SELECT T.user_id, U.username, U.password, U.online, COALESCE(U.address, ' ')"
      ++ (codes " FROM tokens AS T JOIN users AS U ON T.user_id = U.id WHERE t.token = "
          ++ conn.quote token)

  unfoldable pub search_user_by_token : Bytes → Db → User
  unfolding found_user
  search_user_by_token token db = found_user (token_query token) db

  unfoldable pub user_query : Bytes → Bytes → Bytes
  user_query term field =
      codes "SELECT id, username, password, online, COALESCE(address, ' ') FROM users WHERE "
      ++ (field ++ (codes " = " ++ conn.quote term))

  unfoldable pub search_user_by : Bytes → Bytes → Db → User
  unfolding found_user
  search_user_by term field db = found_user (user_query term field) db

  unfoldable pub search_contact_query : User → Bytes → Bytes
  search_contact_query user contact =
      codes "SELECT U.id, U.username, U.password, U.online, U.address FROM contacts C "
      ++ (codes "INNER JOIN users U ON C.contact_id = U.id WHERE C.user_id = "
          ++ (conn.quote (print_int user.id)
              ++ (codes " AND U.username = " ++ (conn.quote contact ++ codes ";"))))

  unfoldable pub search_user_contact : User → Bytes → Db → User
  unfolding found_user
  search_user_contact user contact db = found_user (search_contact_query user contact) db

  -- The term is not quoted.
  unfoldable pub chat_query : Bytes → Bytes → Bytes
  chat_query term field = codes "SELECT * FROM chats WHERE " ++ (field ++ (codes " = " ++ term))

  unfoldable pub search_user_chat_by : Bytes → Bytes → Db → UserChat
  unfolding exec1
  search_user_chat_by term field db =
      or_else new_chat (exec1 (conn.select (chat_query term field) db) >>= table_chat conn)

  unfoldable pub contact_query : User → User → Bytes
  contact_query user contact =
      codes "SELECT id FROM contacts WHERE user_id = "
      ++ (conn.quote (print_int user.id)
          ++ (codes "AND contact_id = " ++ (conn.quote (print_int contact.id) ++ codes ";")))

  -- The size of a row is the number of its columns.
  unfoldable pub has_columns : Row → Bool
  has_columns [] = false
  has_columns (column ∷ row) = true

  unfoldable pub user_contact_exists : User → User → Db → Bool
  unfolding exec1 has_columns
  user_contact_exists user contact db = elim (exec1 (conn.select (contact_query user contact) db)) [
    | none ↦ false
    | some row ↦ has_columns row
  ]
