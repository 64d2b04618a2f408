-- ===== src/Client/Served.antt =====
-- The client of src/client in front of the server of src/server: what a command of the client does.
use skype.Common.{true, false, ◌≡◌, refl, Option, some, ◌∷◌, ◌++◌, Bytes, codes, [], Lacks}
use skype.Text.{split_first}
use skype.Text.Split.{split_first-append}
use skype.Command.{Name, get}
use skype.Server.{Request, Postgres, State, set_reply}
use skype.Reply.{r_202}
use skype.Server.Users.{is_valid_token}
use skype.Server.Router.{route, parse, require_login, validate_argument, is_loggedin, controller}

-- What the server has received from a client.
abbrev pub received : Bytes → Bytes → Request
received address text = record {
  address = address;
  token = [];
  valid = true;
  exits = false;
  message = text;
}

-- The server as its client sees it: `address` is the client's, `fresh` the token that a login draws.
unfoldable pub serve :
    {Db : Type 0} → Postgres Db → Bytes → Bytes → Bytes → State Db → Option Bytes × State Db
serve pg fresh address text s =
    let (req, s') = route pg fresh (received address text) s in (some req.message, s')

module _ {Db : Type 0} (pg : Postgres Db) (fresh address : Bytes) where
  -- A command with a token that is known goes to its controller.
  pub route_known :
      (cmd : Name) (word body token arg : Bytes) (s : State Db)
      → Lacks b' ' word
      → get word ≡ cmd
      → require_login cmd ≡ true
      → split_first body (codes " ") ≡ (token, arg)
      → (pg.search_user_by_token token s.db).empty ≡ false
      → validate_argument cmd arg ≡ true
      → route pg fresh (received address (word ++ b' ' ∷ body)) s
        ≡ controller pg fresh cmd arg
            (record (received address (word ++ b' ' ∷ body)) { token = token })
            s
  unfolding route parse is_loggedin is_valid_token
  route_known cmd word body token arg s bare named locked cut known valid =
      rw (split_first-append b' ' word body bare, named, locked, cut, known, valid) (rw locked refl)

  -- One without is refused.
  pub route_unknown :
      (cmd : Name) (word body token arg : Bytes) (s : State Db)
      → Lacks b' ' word
      → get word ≡ cmd
      → require_login cmd ≡ true
      → split_first body (codes " ") ≡ (token, arg)
      → (pg.search_user_by_token token s.db).empty ≡ true
      → route pg fresh (received address (word ++ b' ' ∷ body)) s
        ≡ (set_reply r_202 (received address (word ++ b' ' ∷ body)), s)
  unfolding route parse is_loggedin is_valid_token
  route_unknown cmd word body token arg s bare named locked cut known =
      rw (split_first-append b' ' word body bare, named, locked, cut, known) (rw locked refl)
