-- ===== src/User.antt =====
-- src/shared/user.cpp: a user and the text that the server sends of one.
pub mod Online
mod Tests
use skype.Common.{
  is_nil, ℕ, Bool, true, false, ◌&&◌, ◌||◌, List, [], ◌∷◌, ◌++◌, Bytes, codes, ◌==◌, if◌then◌else◌,
  same_text,
}
use skype.Common.Int.{ℤ}
use skype.Text.Number.{print_int}

pub data Field : Type 0 where
  username password online address : Field

pub record User : Type 0 where
  pub id : ℤ
  pub username : Bytes
  pub password : Bytes
  pub online : Bool
  pub address : Bytes
  pub empty : Bool
  pub updated_fields : List Field

unfoldable pub remove_password : User → User
remove_password u = record u { password = [] }

-- Both branches set the flag to true.
unfoldable pub set_online : Bytes → User → Bool × User
set_online value u =
    if same_text value (codes "true") || same_text value (codes "t")
    then (true, record u { online = true; updated_fields = u.updated_fields ++ online ∷ [] })
    else if same_text value (codes "false") || same_text value (codes "f")
    then (true, record u { online = true; updated_fields = u.updated_fields ++ online ∷ [] })
    else (false, u)

unfoldable pub update : Bytes → Field → User → Bool × User
unfolding set_online
update value online u = set_online value u
update value username u =
    (true, record u { username = value; updated_fields = u.updated_fields ++ username ∷ [] })
update value password u =
    (true, record u { password = value; updated_fields = u.updated_fields ++ password ∷ [] })
update value address u =
    (true, record u { address = value; updated_fields = u.updated_fields ++ address ∷ [] })

abbrev pub online_text : Bool → Bytes
online_text true = codes "true"
online_text false = codes "false"

unfoldable pub to_string : User → Bytes
to_string u =
    let head = codes "id:" ++ (print_int u.id ++ (codes ",username:" ++ u.username)) in
    let state = codes ",online:" ++ online_text u.online in
    let place = codes ",address:" ++ u.address in
    if is_nil u.password && is_nil u.address
    then head ++ state
    else if is_nil u.password
    then head ++ (state ++ place)
    else head ++ (codes ",password:" ++ (u.password ++ (state ++ place)))
