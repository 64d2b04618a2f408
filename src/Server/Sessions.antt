-- ===== src/Server/Sessions.antt =====
-- Passwords in LOGIN, SEARCH and AVAILABLE.
use skype.Common.{
  is_nil, ◌≡◌, refl, ap, ◌∙◌, true, false, ◌++◌, append_assoc, Bytes, codes, arith, eq_of_same_text,
}
use skype.Text.{split_first}
use skype.Text.Number.{print_int}
use skype.User.{User, remove_password, to_string, online_text}
use skype.Reply.{r_201, append_message}
use skype.Server.{Request, Postgres, State, set_reply_message}
use skype.Server.Users.{search, available, login, is_empty}
use skype.Server.Answers.{answer_code, set_reply_code}

abbrev pub found : {Db : Type 0} → Postgres Db → Bytes → State Db → User
found pg name s = pg.search_user_by_username name s.db

-- The answer to SEARCH is the same in two states that differ for the user found in the password
-- alone.
pub search_hides :
    {Db : Type 0} (pg : Postgres Db) (name secret : Bytes) (req : Request) (s t : State Db)
    → found pg name t ≡ record (found pg name s) { password = secret }
    → (search pg name req t).0 ≡ (search pg name req s).0
unfolding search remove_password
search_hides pg name secret req s t h = ground (arith, h)

-- The text of a user with a password holds it.
shows_password :
    (u : User)
    → is_nil u.password ≡ false
    → (before after : Bytes) × (to_string u ≡ before ++ (u.password ++ after))
unfolding to_string
shows_password u h = (
  codes "id:" ++ (print_int u.id ++ (codes ",username:" ++ (u.username ++ codes ",password:"))),
  codes ",online:" ++ (online_text u.online ++ (codes ",address:" ++ u.address)),
  rw h (simp append_assoc),
)

available_online :
    {Db : Type 0} (pg : Postgres Db) (name : Bytes) (req : Request) (s : State Db)
    → (found pg name s).empty ≡ false
    → (found pg name s).online ≡ true
    → (available pg name req s).0 ≡ set_reply_message r_201 (to_string (found pg name s)) req
unfolding available
available_online pg name req s e o = ground (arith, e, o)

message_201 :
    (t : Bytes) (req : Request) → (set_reply_message r_201 t req).message ≡ codes "201 " ++ t
unfolding set_reply_message append_message
message_201 t req = refl

-- AVAILABLE for a user that is online and has a password gives an answer that holds that password.
pub available_shows :
    {Db : Type 0} (pg : Postgres Db) (name : Bytes) (req : Request) (s : State Db)
    → (found pg name s).empty ≡ false
    → (found pg name s).online ≡ true
    → is_nil (found pg name s).password ≡ false
    → (before after : Bytes) × ((available pg name req s).0.message
        ≡ before ++ ((found pg name s).password ++ after))
available_shows pg name req s e o h =
    let (before, after, shown) = shows_password (found pg name s) h in
    (
      codes "201 " ++ before,
      after,
      ap (λ (r : Request). r.message) (available_online pg name req s e o)
          ∙ message_201 (to_string (found pg name s)) req
          ∙ ap (λ (t : Bytes). codes "201 " ++ t) shown,
    )

-- LOGIN is answered with 201 only where the user exists and its stored password is the one in the
-- argument.
pub login_checks :
    {Db : Type 0} (pg : Postgres Db) (fresh arg : Bytes) (req : Request) (s : State Db)
    → answer_code (login pg fresh arg req s).0.message ≡ r_201
    → ((found pg (split_first arg (codes " ")).0 s).empty ≡ false)
      × ((found pg (split_first arg (codes " ")).0 s).password ≡ (split_first arg (codes " ")).1)
unfolding login is_empty
login_checks pg fresh arg req s h = grind (arith, h, set_reply_code, eq_of_same_text)
