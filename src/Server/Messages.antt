-- ===== src/Server/Messages.antt =====
-- SEND and DELIVERED against the database.
use skype.Common.{
  is_nil, if◌then◌else◌, Bool-cases, ◌≡◌, refl, true, false, inl, inr, List, [], ◌∷◌, ◌++◌, map,
  Bytes, codes, arith, All, Lacks,
}
use skype.Text.{split_first}
use skype.Text.Split.{intercalate, split-intercalate}
use skype.User.{User}
use skype.Reply.{r_200, r_305}
use skype.Chat.{UserChat}
use skype.Server.{Request, Postgres, State, set_reply, set_reply_message}
use skype.Server.Chats.{send, sent_chat, delivered, find_chats, set_delivered}

-- The messages that are not delivered yet, and the database once each of some messages is noted.
abbrev pub undelivered : List UserChat → List UserChat
undelivered [] = []
undelivered (c ∷ cs) = if c.delivered then undelivered cs else c ∷ undelivered cs

abbrev pub note_all : {Db : Type 0} → Postgres Db → List UserChat → Db → Db
note_all pg [] db = db
note_all pg (c ∷ cs) db = note_all pg cs (pg.set_user_chat_to_delivered c db).1

set_delivered_lem :
    {Db : Type 0} (pg : Postgres Db) (cs : List UserChat) (db : Db)
    → set_delivered pg cs db ≡ note_all pg (undelivered cs) db
unfolding set_delivered
set_delivered_lem pg [] db = refl
set_delivered_lem pg (c ∷ cs) db = elim (Bool-cases c.delivered) [
  | inl noted ↦ ground (arith, noted, set_delivered_lem pg cs db)
  | inr new ↦ ground (arith, new, set_delivered_lem pg cs (pg.set_user_chat_to_delivered c db).1)
]

module _ {Db : Type 0} (pg : Postgres Db) (req : Request) (s : State Db) where
  abbrev pub sender : User
  sender = pg.search_user_by_token req.token s.db

  -- SEND between two users that exist stores the message, from the one to the other, and answers
  -- 200, for an empty message too.
  pub send_stores :
      (arg : Bytes)
      → sender.empty ≡ false
      → (pg.search_user_by_id (split_first arg (codes " ")).0 s.db).empty ≡ false
      → ((send pg arg req s).0 ≡ set_reply r_200 req)
        × ((send pg arg req s).1.db
            ≡ (pg.add_user_chat
                (sent_chat sender
                  (pg.search_user_by_id (split_first arg (codes " ")).0 s.db)
                  (split_first arg (codes " ")).1)
                s.db).1)
  unfolding send set_reply
  send_stores arg known found = ground (arith, known, found)

  -- A message with the number is stored.
  abbrev pub IsStoredId : Bytes → Type 0
  IsStoredId id = (pg.search_user_chat_by_id id s.db).empty ≡ false

  find_chats_missing :
      (ids : List Bytes) (id : Bytes) (others : List Bytes)
      → All IsStoredId ids
      → (pg.search_user_chat_by_id id s.db).empty ≡ true
      → find_chats pg (ids ++ id ∷ others) s.db ≡ inl id
  unfolding find_chats
  find_chats_missing [] id others h e = ground (arith, e)
  find_chats_missing (i ∷ ids) id others (k, h) e =
      ground (arith, k, find_chats_missing ids id others h e)

  find_chats-All :
      (ids : List Bytes)
      → All IsStoredId ids
      → find_chats pg ids s.db ≡ inr (map (λ id. pg.search_user_chat_by_id id s.db) ids)
  unfolding find_chats
  find_chats-All [] h = refl
  find_chats-All (i ∷ ids) (k, h) = ground (arith, k, find_chats-All ids h)

  -- Where a number in the argument of DELIVERED has no message, behind at least one that has, no
  -- message is noted as delivered, and the answer 305 names the first such number.
  pub delivered_missing :
      (p id : Bytes) (ids others : List Bytes)
      → All (Lacks b',') (p ∷ ids ++ id ∷ others)
      → All IsStoredId (p ∷ ids)
      → (pg.search_user_chat_by_id id s.db).empty ≡ true
      → is_nil (intercalate (codes ",") (p ∷ ids ++ id ∷ others)) ≡ false
      → delivered pg (intercalate (codes ",") (p ∷ ids ++ id ∷ others)) req s
        ≡ (set_reply_message r_305 id req, s)
  unfolding delivered
  delivered_missing p id ids others plain stored missing named = ground (
    arith,
    named,
    split-intercalate b',' p (ids ++ id ∷ others) plain,
    find_chats_missing (p ∷ ids) id others stored missing,
  )

  -- Where every number in the argument of DELIVERED has a message, each of them that was not
  -- delivered is noted as delivered, in order, and the answer is 200.
  pub delivered-All :
      (p : Bytes) (ids : List Bytes)
      → All (Lacks b',') (p ∷ ids)
      → All IsStoredId (p ∷ ids)
      → is_nil (intercalate (codes ",") (p ∷ ids)) ≡ false
      → delivered pg (intercalate (codes ",") (p ∷ ids)) req s ≡ (
        set_reply r_200 req,
        record s {
          db =
              note_all pg
                (undelivered (map (λ id. pg.search_user_chat_by_id id s.db) (p ∷ ids)))
                s.db;
        },
      )
  unfolding delivered
  delivered-All p ids plain stored named = ground (
    arith,
    named,
    split-intercalate b',' p ids plain,
    find_chats-All (p ∷ ids) stored,
    set_delivered_lem pg (map (λ id. pg.search_user_chat_by_id id s.db) (p ∷ ids)) s.db,
  )
