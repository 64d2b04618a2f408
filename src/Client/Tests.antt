-- ===== src/Client/Tests.antt =====
-- The client in front of the server with the database in memory.
use mathlib.Core.List.{map}
use skype.Common.{ℕ, Bool, true, false, ◌≡◌, refl, [], ◌∷◌, Bytes, codes, arith}
use skype.Common.Int.{pos, negsuc}
use skype.Text.{split_first}
use skype.Command.{get}
use skype.User.{User}
use skype.Reply.{get_message, r_202}
use skype.Server.{State, set_reply, set_reply_if}
use skype.Server.Users
use skype.Server.Users.{is_valid_token}
use skype.Server.Router.{route, is_loggedin, require_login, parse, validate_argument}
use skype.Server.Memory.{Memory, memory, person, two_users}
use skype.Client.{Details, Job, JobType, search, disp_contacts, new_job}
use skype.Client.Contacts
use skype.Client.Accounts.{Accounts}
use skype.Client.Contacts.{ContactMap, list, change, contacts_of, jobs_of_change}
use skype.Client.Lines.{IsShown, entry}
use skype.Client.Jobs.{Client, Called}
use skype.Client.Bus.{Loop}
use skype.Client.Served.{serve}
use skype.Client.Sync.{asking, list_shows, change_forgets}

abbrev place : Bytes
place = codes "9.9.9.9:50"

abbrev blank : Details
blank = record { username = []; id = pos 0; online = false; awaiting = false }

-- A user as the list of contacts gives it.
abbrev contact : ℕ → Bytes → Bool → User
contact id name here = record (person id name [] here) { address = [] }

abbrev mario : User
mario = contact 2 (codes "mario") true

abbrev shakira : User
shakira = contact 3 (codes "shakira") false

abbrev with_contacts : State Memory
with_contacts = record two_users {
  db = record two_users.db { people = mario ∷ shakira ∷ []; sessions = (codes "B", pos 2) ∷ [] };
}

mario-IsShown : IsShown mario
mario-IsShown = record {
  fits = omega arith;
  nonzero = refl;
  no_password = refl;
  no_address = refl;
  no_comma = omega arith;
  no_blank = omega arith;
}

shakira-IsShown : IsShown shakira
shakira-IsShown = record {
  fits = omega arith;
  nonzero = refl;
  no_password = refl;
  no_address = refl;
  no_comma = omega arith;
  no_blank = omega arith;
}

abbrev both : ContactMap
both = map (entry with_contacts) (mario ∷ shakira ∷ [])

list_shows_example :
    (list (serve memory (codes "C") place) blank [] (asking (codes "B")) with_contacts).0 ≡ true
    × (list (serve memory (codes "C") place) blank [] (asking (codes "B")) with_contacts).1.0
      ≡ (both, jobs_of_change [] both)
    × (list (serve memory (codes "C") place) blank [] (asking (codes "B")) with_contacts).1.1.1
      ≡ with_contacts
list_shows_example =
    list_shows memory (codes "C") place blank [] (codes "B") mario (shakira ∷ []) with_contacts
      (omega arith) refl refl (mario-IsShown, (shakira-IsShown, tt)) ((refl, tt), (tt, tt))

change_forgets_example :
    change
      (serve memory (codes "C") place)
      (codes "ADD ")
      blank
      both
      (asking (codes "A mario"))
      two_users
    ≡ (true, (([], new_job disp_contacts ∷ []), (asking (get_message r_202), two_users)))
unfolding serve get_message route is_loggedin require_login parse get split_first is_valid_token
    validate_argument Users.add set_reply_if set_reply
change_forgets_example =
    change_forgets memory (codes "C") place (codes "ADD ") blank both (codes "A") (codes "mario")
      two_users two_users refl refl

abbrev credentials : Accounts
credentials = record {
  username = codes "khalil";
  password = codes "1234";
  token = [];
  id = negsuc 0;
  logged_in = false;
}

abbrev after_login : Memory
after_login = record two_users.db { sessions = (codes "C", pos 1) ∷ two_users.db.sessions }

abbrev no_call : {S : Type 0} → JobType → Job → S → Called S
no_call t j s = record { job = j; server = s; posted = [] }

abbrev cut_off : Client
cut_off = record {
  accounts = credentials;
  contacts = both;
  link = record { valid = false; message = [] };
}

abbrev searching : Job
searching = record (new_job search) { argument = codes "mario" }

abbrev before : Loop (serve memory (codes "C") place) blank no_call
before = record {
  bus = record { jobs = searching ∷ []; responses = [] };
  client = cut_off;
  state = two_users;
}

abbrev after : Loop (serve memory (codes "C") place) blank no_call
after = record {
  bus = record { jobs = []; responses = searching ∷ [] };
  client = record cut_off { link = record { valid = false; message = codes "SEARCH  mario" } };
  state = two_users;
}
