-- ===== src/Server/Chats.antt =====
-- src/server/chat_controller.cpp: sending messages, listing them, and noting their delivery.
use skype.Common.{
  is_nil, Bool, true, false, not, ◌&&◌, ◌⊎◌, inl, inr, none, some, List, [], ◌∷◌, Bytes, codes,
  if◌then◌else◌,
}
use skype.Common.Int.{pos}
use skype.Text.{split_first, split}
use skype.User.{User}
use skype.Chat.{UserChat}
use skype.Chat.Response.{build_response}
use skype.Reply.{r_200, r_201, r_301, r_303, r_304, r_305, r_502}
use skype.Server.{Request, Postgres, State, Outcome, set_reply, set_reply_message}

-- The constructor without a number and a time, which the database gives.
abbrev pub sent_chat : User → User → Bytes → UserChat
sent_chat sender recipient text = record {
  id = pos 0;
  created_at = [];
  sender = sender.id;
  recipient = recipient.id;
  text = text;
  delivered = false;
  empty = false;
}

-- `User()`, of which only the flag is set.
abbrev pub no_user : User
no_user = record {
  id = pos 0;
  username = [];
  password = [];
  online = false;
  address = [];
  empty = true;
  updated_fields = [];
}

module _ {Db : Type 0} (pg : Postgres Db) where
  -- Nothing returns after the answer to an empty message.
  unfoldable pub send : Bytes → Request → State Db → Outcome Db
  send arg req s =
      let (recipient_id, message) = split_first arg (codes " ") in
      let req' = if is_nil message then set_reply r_502 req else req in
      let sender = pg.search_user_by_token req'.token s.db in
      let recipient = pg.search_user_by_id recipient_id s.db in
      if not sender.empty && not recipient.empty
      then (
        set_reply r_200 req',
        record s { db = (pg.add_user_chat (sent_chat sender recipient message) s.db).1 },
      )
      else (set_reply r_303 req', s)

  unfoldable pub get_chats : Bytes → Request → Bool → State Db → Outcome Db
  get_chats arg req pending s =
      let user = pg.search_user_by_token req.token s.db in
      if user.empty
      then (set_reply r_301 req, s)
      else if is_nil arg
      then (
        set_reply_message r_201 (build_response (pg.list_user_chats user pending no_user s.db)) req,
        s,
      )
      else (let chats_with = pg.search_user_by_id arg s.db in
          if chats_with.empty then (set_reply r_304 req, s) else (
            set_reply_message r_201
                (build_response (pg.list_user_chats user pending chats_with s.db)) req,
            s,
          ))

  unfoldable pub pending : Bytes → Request → State Db → Outcome Db
  unfolding get_chats
  pending arg req s = get_chats arg req true s

  unfoldable pub chat : Bytes → Request → State Db → Outcome Db
  unfolding get_chats
  chat arg req s = get_chats arg req false s

  -- The first loop of `delivered`: the messages, or the first number that has none.
  unfoldable pub find_chats : List Bytes → Db → Bytes ⊎ List UserChat
  find_chats [] db = inr []
  find_chats (id ∷ ids) db =
      let uc = pg.search_user_chat_by_id id db in
      let rest = find_chats ids db in
      if uc.empty
      then inl id
      else elim rest [ inl missing ↦ inl missing | inr ucs ↦ inr (uc ∷ ucs) ]

  -- The second loop.
  unfoldable pub set_delivered : List UserChat → Db → Db
  set_delivered [] db = db
  set_delivered (uc ∷ ucs) db =
      set_delivered ucs (if not uc.delivered then (pg.set_user_chat_to_delivered uc db).1 else db)

  -- `split` at a comma ends.
  unfoldable pub delivered : Bytes → Request → State Db → Outcome Db
  unfolding find_chats set_delivered
  delivered arg req s =
      if is_nil arg then (set_reply r_502 req, s) else elim (split arg (codes ",")) [
        | none ↦ (req, s)
        | some ids ↦ elim (find_chats ids s.db) [
          | inl id ↦ (set_reply_message r_305 id req, s)
          | inr ucs ↦ (set_reply r_200 req, record s { db = set_delivered ucs s.db })
        ]
      ]
