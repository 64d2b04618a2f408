-- ===== src/Awaiting.antt =====
-- src/shared/user_awaiting.cpp: the users that wait for their call to be accepted, and the worker
-- that drops those that stop asking. One thread at a time runs, so the mutex is left out.
pub mod Address
pub mod Registry
pub mod Timeout
pub mod Statuses
mod Tests
use skype.Common.{
  ℕ, zero, suc, Bool, true, false, Option, none, some, List, [], ◌∷◌, ◌++◌, Bytes, codes, length,
  get_elem?, drop, if◌then◌else◌, same_text,
}
use skype.Common.Int.{ℤ, ◌=ℤ◌}
use skype.Common.Dict.{lookup, erase, replace}
use skype.Text.{split_first}

pub record AwaitingUser : Type 0 where
  pub id : ℤ
  pub peer_id : ℤ
  pub address : Bytes
  pub local_address : Bytes
  pub peer_address : Bytes
  pub peer_local_address : Bytes

abbrev pub host : Bytes → Bytes
host a = (split_first a (codes ":")).0

abbrev pub port : Bytes → Bytes
port a = (split_first a (codes ":")).1

-- The constructor without a local address.
unfoldable pub remote_user : ℤ → ℤ → Bytes → AwaitingUser
remote_user user_id peer_id address = record {
  id = user_id;
  peer_id = peer_id;
  address = address;
  local_address = [];
  peer_address = [];
  peer_local_address = [];
}

-- The constructor with one: it appends the public port, and it stores the user's own number as the
-- peer's.
unfoldable pub awaiting_user : ℤ → ℤ → Bytes → Bytes → AwaitingUser
awaiting_user user_id peer_id address local_address = record {
  id = user_id;
  peer_id = user_id;
  address = address;
  local_address = local_address ++ (codes ":" ++ port address);
  peer_address = [];
  peer_local_address = [];
}

unfoldable pub has_same_address : AwaitingUser → Bool
has_same_address u = same_text (host u.address) (host u.peer_address)

unfoldable pub own_address : AwaitingUser → Bytes
own_address u = if has_same_address u then u.local_address else u.address

unfoldable pub peers_address : AwaitingUser → Bytes
peers_address u = if has_same_address u then u.peer_local_address else u.peer_address

unfoldable pub address_type : AwaitingUser → Bytes
address_type u = if has_same_address u then codes "LOCAL" else codes "WEB"

unfoldable pub set_peer_address : Bytes → AwaitingUser → AwaitingUser
set_peer_address a u = record u { peer_address = a }

-- The port is the one of the peer's public address.
unfoldable pub set_peer_local_address : Bytes → AwaitingUser → AwaitingUser
set_peer_local_address a u = record u {
  peer_local_address = a ++ (codes ":" ++ port u.peer_address);
}

pub data TimeoutStatus : Type 0 where
  created pinged detached : TimeoutStatus

pub record AwaitingUsers : Type 0 where
  pub users : List (ℤ × AwaitingUser)
  pub timeouts : List (ℤ × TimeoutStatus)

abbrev pub no_users : AwaitingUsers
no_users = record { users = []; timeouts = [] }

unfoldable pub get : ℤ → AwaitingUsers → Option AwaitingUser
get id r = lookup id r.users

unfoldable pub exists : ℤ → AwaitingUsers → Bool
exists id r = elim (lookup id r.users) [ none ↦ false | some u ↦ true ]

unfoldable pub insert : AwaitingUser → AwaitingUsers → Bool × AwaitingUsers
insert u r = elim (lookup u.id r.users) [
  | none ↦ (
    true,
    record r { users = (u.id, u) ∷ r.users; timeouts = r.timeouts ++ (u.id, created) ∷ [] },
  )
  | some other ↦ (false, r)
]

-- The user's entry among the timeouts stays.
unfoldable pub destroy : ℤ → AwaitingUsers → Bool × AwaitingUsers
destroy id r = elim (lookup id r.users) [
  | none ↦ (false, r)
  | some u ↦ (true, record r { users = erase id r.users })
]

-- What a caller of `get` writes through the reference.
unfoldable pub put : ℤ → AwaitingUser → AwaitingUsers → AwaitingUsers
put id u r = record r { users = replace id u r.users }

unfoldable pub set_status : ℤ → TimeoutStatus → List (ℤ × TimeoutStatus) → List (ℤ × TimeoutStatus)
set_status id status [] = []
set_status id status ((j, s) ∷ rest) =
    let later = set_status id status rest in if j =ℤ id then (j, status) ∷ later else (j, s) ∷ later

unfoldable pub update_timeout_status : ℤ → TimeoutStatus → AwaitingUsers → AwaitingUsers
update_timeout_status id status r = record r { timeouts = set_status id status r.timeouts }

unfoldable pub ping : ℤ → AwaitingUsers → AwaitingUsers
ping id r = update_timeout_status id pinged r

-- One round of the worker. `m_timeouts.erase` invalidates the iterator that the loop goes on with,
-- so that what follows is undefined: the round is then `invalidated`, with the state so far.
pub data Round : Type 0 where
  finished invalidated : AwaitingUsers → Round

-- `index` stays 0, so that the first entry is erased, whichever entry was met.
unfoldable pub drop_detached : ℤ → AwaitingUsers → AwaitingUsers
drop_detached id r = let r' = (destroy id r).1 in record r' { timeouts = drop 1 r'.timeouts }

abbrev pub is_detached : TimeoutStatus → Bool
is_detached detached = true
is_detached _ = false

-- The visit of `n` entries from position `i` on.
unfoldable pub visit : ℕ → ℕ → AwaitingUsers → Round
visit zero i r = finished r
visit (suc n) i r = elim (get_elem? r.timeouts i) [
  | none ↦ finished r
  | some (id, status) ↦ elim (is_detached status) [
    | true ↦ invalidated (drop_detached id r)
    | false ↦ visit n (suc i) (update_timeout_status id detached r)
  ]
]

unfoldable pub timeout_round : AwaitingUsers → Round
timeout_round r = visit (length r.timeouts) 0 r
