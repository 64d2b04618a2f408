-- ===== src/Client/Accounts.antt =====
-- src/client/user/accounts.cpp: the user that is logged in.
use skype.Common.{Bool, true, false, Option, none, some, ◌++◌, [], Bytes, codes, if◌then◌else◌}
use skype.Common.Int.{ℤ}
use skype.Text.{split_first}
use skype.Text.Number.{stoi}
use skype.Reply.{r_200, r_201}
use skype.Client.{Link, exchange, succeeded}

pub record Accounts : Type 0 where
  pub username : Bytes
  pub password : Bytes
  pub token : Bytes
  pub id : ℤ
  pub logged_in : Bool

unfoldable pub set_username : Bytes → Accounts → Bool × Accounts
set_username name a = (true, record a { username = name })

unfoldable pub set_password : Bytes → Accounts → Bool × Accounts
set_password secret a = (true, record a { password = secret })

-- What `stoi` throws is ignored.
abbrev pub assign_id : Accounts → Option ℤ → Accounts
assign_id a none = a
assign_id a (some id) = record a { id = id }

-- The number behind the first colon of the part before the first comma.
unfoldable pub read_id : Bytes → Accounts → Accounts
read_id response a =
    let (user_id, rest) = split_first response (codes ",") in
    let (key, pair) = split_first user_id (codes ":") in assign_id a (stoi pair)

module _ {S : Type 0} (server : Bytes → S → Option Bytes × S) where
  unfoldable pub register_user : Accounts → Link → S → Bool × (Link × S)
  register_user a l s =
      let (l', s') =
        exchange server (codes "CREATE " ++ (a.username ++ (codes " " ++ a.password))) l s in
      (succeeded server r_200 l', (l', s'))

  -- What it returns is not looked at.
  unfoldable pub set_id : Accounts → Link → S → Accounts × (Link × S)
  set_id a l s =
      let (l', s') =
        exchange server (codes "SEARCH " ++ (a.token ++ (codes " " ++ a.username))) l s in
      (if succeeded server r_201 l' then read_id l'.message a else a, (l', s'))

  -- The state after an answer 201.
  unfoldable pub log_in : Bytes → Accounts → Accounts
  log_in response a = record a {
    logged_in = true;
    password = [];
    token = (split_first response (codes " ")).1;
  }

  unfoldable pub login : Accounts → Link → S → Bool × (Accounts × (Link × S))
  login a l s =
      let (l', s') =
        exchange server (codes "LOGIN " ++ (a.username ++ (codes " " ++ a.password))) l s in
      if succeeded server r_201 l'
      then (let (a', (l'', s'')) = set_id (log_in l'.message a) l' s' in
          (l''.valid, (a', (l'', s''))))
      else (false, (a, (l', s')))
