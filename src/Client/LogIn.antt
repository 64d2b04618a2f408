-- ===== src/Client/LogIn.antt =====
-- LOGIN from src/client/user/accounts.cpp to src/server/user_controllers.cpp and back.
use skype.Common.{true, false, ◌≡◌, Bytes, codes, [], Lacks, is_nil}
use skype.User.{User, update, online, address}
use skype.Command
use skype.Server.{Postgres, State}
use skype.Server.Users
use skype.Client.Accounts.{Accounts}

-- The client's side of a login: what it holds once the server has answered twice.
abbrev in_session : Accounts → Bytes → Accounts
in_session a token = record a { logged_in = true; password = []; token = token }

-- The user with the address and the state that a login writes.
abbrev pub logged_in : User → Bytes → User
logged_in u place = (update place address (update (codes "true") online u).1).1

module _ {Db : Type 0} (pg : Postgres Db) (fresh place name secret : Bytes) (s : State Db)
    (db1 db2 : Db) (bare : Lacks b' ' name) (named : is_nil name ≡ false)
    (guarded : is_nil secret ≡ false) where
  abbrev user : User
  user = pg.search_user_by_username name s.db

  module _ (plain : Lacks b' ' fresh)
      (drawn : (pg.search_user_by_token fresh db2).empty ≡ false) where
    abbrev again : User
    again = pg.search_user_by_username name db2
