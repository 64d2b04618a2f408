-- ===== src/Database/Effects.antt =====
-- What the server's requests do to the database behind src/server/postgres.cpp.
use skype.Common.{
  true, false, ◌≡◌, ◌⊎◌, inl, inr, refl, [], ◌∷◌, ◌++◌, Bytes, codes, none, some, arith,
  Option-cases, Bool-cases, is_nil, Lacks, ◌||◌,
}
use skype.Text.{split_first}
use skype.Text.Split.{split-intercalate}
use skype.Chat.{UserChat}
use skype.Reply.{get_message, r_200, r_300, r_501}
use skype.Server.{Request, State, set_reply}
use skype.Server.Users.{create, new_user, is_empty}
use skype.Server.Chats.{send, delivered, sent_chat, find_chats, set_delivered}
use skype.Database.{Row, Connection, table_chat, exec1}
use skype.Database.Store.{store}
use skype.Database.Lookup.{search_user_chat_by, chat_query, search_user_by_token, search_user_by}
use skype.Database.Writes.{
  run, run_unless, add_user, add_user_statement, add_user_chat, add_user_chat_statement,
  set_user_chat_to_delivered,
}

module _ {Db : Type 0} (conn : Connection Db) where
  -- Only where its statement throws is a change false, and then it is none.
  pub run-cases :
      (statement : Bytes) (db : Db)
      → ((run conn statement db ≡ (false, db)) × (conn.execute statement db ≡ none))
        ⊎ ((db' : Db) × (run conn statement db ≡ (true, db'))
            × (conn.execute statement db ≡ some db'))
  unfolding run
  run-cases statement db = elim (Option-cases (conn.execute statement db)) [
    | inl e ↦ inl (rw (e, run) refl, e)
    | inr (db', e) ↦ inr (db', rw (e, run) refl, e)
  ]

  abbrev pub inserted : Bytes → Request → Bytes
  inserted arg req =
      let (name, secret) = split_first arg (codes " ") in
      add_user_statement conn (new_user name secret req.address)

  -- CREATE without a name or a password is answered with 501 and changes nothing. With both it
  -- runs one statement, which inserts the user that is named, with the address of the request and
  -- not online: where the database takes the statement, the answer is 200 and the database is the
  -- one behind the statement; where it refuses it, the answer is 300 and nothing has changed.
  pub create_inserts :
      (arg : Bytes) (req : Request) (s : State Db)
      → let (name, secret) = split_first arg (codes " ") in
        let missing = is_nil name || is_nil secret in
        let done = create (store conn) arg req s in
        ((missing ≡ true) × (done ≡ (set_reply r_501 req, s)))
        ⊎ ((missing ≡ false)
            × ((db' : Db) × (conn.execute (inserted arg req) s.db ≡ some db')
                × (done ≡ (set_reply r_200 req, record s { db = db' }))))
        ⊎ ((missing ≡ false)
            × (conn.execute (inserted arg req) s.db ≡ none)
            × (done ≡ (set_reply r_300 req, s)))
  unfolding create is_empty set_reply add_user run_unless
  create_inserts arg req s =
      elim (Bool-cases
        (is_nil (split_first arg (codes " ")).0 || is_nil (split_first arg (codes " ")).1)) [
          | inl bad ↦ inl (bad, rw (bad, create) refl)
          | inr good ↦ elim (run-cases (inserted arg req) s.db) [
            | inl (failed, e) ↦ inr (inr (good, e, rw good (rw failed refl)))
            | inr (db', done, e) ↦ inr (inl (good, (db', e, rw good (rw done refl))))
          ]
        ]

  -- SEND between two users that exist is answered with 200 where the database refuses the message,
  -- and nothing is stored.
  pub send_loses :
      (arg : Bytes) (req : Request) (s : State Db)
      → let sender = search_user_by_token conn req.token s.db in
        let recipient = search_user_by conn (split_first arg (codes " ")).0 (codes "id") s.db in
        sender.empty ≡ false
        → recipient.empty ≡ false
        → conn.execute
            (add_user_chat_statement conn
              (sent_chat sender recipient (split_first arg (codes " ")).1))
            s.db
          ≡ none
        → ((send (store conn) arg req s).0.message ≡ get_message r_200)
          × ((send (store conn) arg req s).1 ≡ s)
  unfolding send set_reply add_user_chat run_unless run
  send_loses arg req s h k e = (ground arith, ground arith)

  module _ (t : Bytes) (req : Request) (s : State Db) (row : Row) (c : UserChat)
      (selected : conn.select (codes "SELECT * FROM chats WHERE id = " ++ t) s.db ≡ some (row ∷ []))
      (read : table_chat conn row ≡ some c) (known : c.empty ≡ false) where
    found : search_user_chat_by conn t (codes "id") s.db ≡ c
    unfolding search_user_chat_by exec1 chat_query
    found = rw (selected, exec1) (rw read refl)

    -- A text without a comma that a user sends behind DELIVERED stands in the query as it is: the
    -- message that the query then gives, whoever it was sent to, is noted as delivered if it was
    -- not.
    pub delivered_raw :
        is_nil t ≡ false
        → Lacks b',' t
        → c.delivered ≡ false
        → delivered (store conn) t req s
          ≡ (set_reply r_200 req, record s { db = (set_user_chat_to_delivered conn c s.db).1 })
    unfolding delivered find_chats set_delivered
    delivered_raw filled plain fresh =
        rw (filled, delivered)
          (rw (split-intercalate b',' t [] (plain, tt)) (rw found (rw (known, fresh) refl)))
