-- ===== src/Server/Users.antt =====
-- src/server/user_controllers.cpp: accounts, sessions and contacts.
use skype.Common.{
  is_nil, Bool, true, false, not, ◌&&◌, ◌||◌, none, some, List, [], ◌∷◌, ◌++◌, Bytes, codes,
  same_text, if◌then◌else◌,
}
use skype.Common.Int.{pos}
use skype.Text.{split_first, pop_back}
use skype.User.{User, remove_password, update, online, address, to_string}
use skype.Reply.{r_200, r_201, r_202, r_300, r_301, r_302, r_501}
use skype.Server.{
  Request, Postgres, State, Outcome, set_reply, set_reply_message, set_reply_if,
  set_reply_message_if,
}
use skype.Server.Calls.{call_awaits}

unfoldable pub is_empty : Bytes → Bytes → Request → Bool × Request
is_empty user password req =
    let res = is_nil user || is_nil password in (res, if res then set_reply r_501 req else req)

abbrev pub awaiting_text : Bool → Bytes
awaiting_text true = codes ",awaiting:true"
awaiting_text false = codes ",awaiting:false"

unfoldable pub contact_lines : {Db : Type 0} → List User → State Db → Bytes
contact_lines [] s = []
contact_lines (c ∷ cs) s =
    to_string c ++ (awaiting_text (call_awaits c.id s) ++ (codes " " ++ contact_lines cs s))

-- `pop_back` is called on a text that is not empty.
abbrev pub without_last : Bytes → Bytes
without_last text = elim (pop_back text) [ none ↦ [] | some t ↦ t ]

unfoldable pub list_contacts : {Db : Type 0} → List User → Request → State Db → Outcome Db
list_contacts [] req s = (set_reply r_301 req, s)
list_contacts (c ∷ cs) req s =
    (set_reply_message r_201 (without_last (contact_lines (c ∷ cs) s)) req, s)

abbrev pub new_user : Bytes → Bytes → Bytes → User
new_user name secret place = record {
  id = pos 0;
  username = name;
  password = secret;
  online = false;
  address = place;
  empty = false;
  updated_fields = [];
}

module _ {Db : Type 0} (pg : Postgres Db) where
  unfoldable pub list : Bytes → Request → State Db → Outcome Db
  list arg req s =
      let user = pg.search_user_by_token req.token s.db in
      if not user.empty
      then list_contacts (pg.list_user_contacts user s.db) req s
      else (set_reply r_301 req, s)

  -- Whether `list` throws, as `list_user_contacts` does where it cannot read the contacts.
  unfoldable pub list_throws : Request → State Db → Bool
  list_throws req s =
      let user = pg.search_user_by_token req.token s.db in
      if not user.empty then pg.list_user_contacts_throws user s.db else false

  unfoldable pub create : Bytes → Request → State Db → Outcome Db
  create arg req s =
      let (name, secret) = split_first arg (codes " ") in
      let (refused, req') = is_empty name secret req in
      if refused
      then (req', s)
      else let (added, db') = pg.add_user (new_user name secret req'.address) s.db in
        (if added then set_reply r_200 req' else set_reply r_300 req', record s { db = db' })

  -- The token that is generated is an argument.
  unfoldable pub login_user : Bytes → User → Request → State Db → Outcome Db
  login_user token user req s =
      let user' = (update req.address address (update (codes "true") online user).1).1 in
      let (token_res, db') = pg.add_user_token user' token s.db in
      let (user_res, db'') = pg.update_user user' db' in
      (set_reply_message_if (token_res && user_res) token req, record s { db = db'' })

  unfoldable pub login : Bytes → Bytes → Request → State Db → Outcome Db
  login token arg req s =
      let (name, secret) = split_first arg (codes " ") in
      let (refused, req') = is_empty name secret req in
      if refused
      then (req', s)
      else let user = pg.search_user_by_username name s.db in
        if not user.empty && same_text user.password secret
        then login_user token user req' s
        else (set_reply r_300 req', s)

  unfoldable pub search : Bytes → Request → State Db → Outcome Db
  search username req s =
      let user = pg.search_user_by_username username s.db in
      if not user.empty
      then (set_reply_message r_201 (to_string (remove_password user)) req, s)
      else (set_reply r_301 req, s)

  unfoldable pub add : Bytes → Request → State Db → Outcome Db
  add contact_username req s =
      let user = pg.search_user_by_token req.token s.db in
      let contact = pg.search_user_by_username contact_username s.db in
      if same_text user.username contact.username
      then (set_reply r_300 req, s)
      else if pg.user_contact_exists user contact s.db
      then (set_reply r_302 req, s)
      else if not user.empty && not contact.empty
      then (let (res, db') = pg.add_user_contact user contact s.db in
          (set_reply_if res req, record s { db = db' }))
      else (set_reply r_301 req, s)

  unfoldable pub remove : Bytes → Request → State Db → Outcome Db
  remove contact_username req s =
      let user = pg.search_user_by_token req.token s.db in
      let contact = pg.search_user_by_username contact_username s.db in
      if not user.empty && not contact.empty
      then (let (res, db') = pg.remove_user_contact user contact s.db in
          (set_reply_if res req, record s { db = db' }))
      else (set_reply r_301 req, s)

  unfoldable pub available : Bytes → Request → State Db → Outcome Db
  available username req s =
      let user = pg.search_user_by_username username s.db in
      if user.empty
      then (set_reply r_301 req, s)
      else if not user.online
      then (set_reply r_300 req, s)
      else (set_reply_message r_201 (to_string user) req, s)

  -- The user of the token, or of the address where there is none.
  unfoldable pub leaving : Request → State Db → User
  leaving req s =
      let user = pg.search_user_by_token req.token s.db in
      if user.empty then pg.search_user_by_address req.address s.db else user

  unfoldable pub exit : Bytes → Request → State Db → Outcome Db
  exit arg req s =
      let user = leaving req s in
      let s' =
        if not user.empty
        then record s { db = (pg.remove_user_token user (pg.logoff user s.db).1).1 }
        else s in
      (set_reply_message r_201 (codes "Goodbye") (record req { exits = true }), s')

  unfoldable pub none_command : Bytes → Request → State Db → Outcome Db
  none_command arg req s = (set_reply r_501 req, s)

  unfoldable pub is_valid_token : Bytes → Request → State Db → Bool × Request
  is_valid_token token req s =
      let user = pg.search_user_by_token token s.db in
      if user.empty then (false, set_reply r_202 req) else (true, req)

  unfoldable pub ip_exists : Request → State Db → Bool × Request
  ip_exists req s =
      let user = pg.search_user_by_address req.address s.db in
      (not user.empty, if user.empty then set_reply r_202 req else req)
