-- ===== src/Database/Contacts.antt =====
-- src/server/postgres.cpp: the contacts that are read from the texts that the database joins.
use mathlib.Core.List.{map}
use skype.Common.{
  append_assoc, ◌≡◌, refl, Bool, true, false, some, List, [], ◌∷◌, ◌++◌, Bytes, codes, All, Lacks,
  arith, same_text,
}
use skype.Common.Int.{ℤ, IsInt}
use skype.Text.{split, to_int}
use skype.Text.Split.{intercalate, split-intercalate}
use skype.Text.Number.{print_int}
use skype.Text.Number.Print.{print_int-Lacks}
use skype.Text.Number.Read.{stoi-print_int}
use skype.User.{User, online_text}
use skype.Database.{listed_user, users_at, result_to_users}

-- The texts that `STRING_AGG` gives for one column.
abbrev pub aggregate : (User → Bytes) → List User → Bytes
aggregate field us = intercalate (codes ",") (map field us)

abbrev pub id_text : User → Bytes
id_text u = print_int u.id

abbrev pub flag_text : User → Bytes
flag_text u = online_text u.online

-- What the list of contacts keeps of a user.
abbrev pub as_contact : User → User
as_contact u = listed_user u.id u.username [] u.online []

-- The number is an `int`, and no comma stands in the name.
abbrev pub IsPlain : User → Type 0
IsPlain u = IsInt u.id × Lacks b',' u.username

id_text-Lacks : (u : User) → Lacks b',' (id_text u)
id_text-Lacks u = print_int-Lacks b',' u.id (λ d. omega arith) (omega arith)

flag_text-Lacks : (b : Bool) → Lacks b',' (online_text b)
flag_text-Lacks true = omega arith
flag_text-Lacks false = omega arith

map-All :
    (field : User → Bytes) (us : List User)
    → ((u : User) → IsPlain u → Lacks b',' (field u))
    → All IsPlain us
    → All (Lacks b',') (map field us)
map-All field [] f h = tt
map-All field (u ∷ us) f (p, h) = (f u p, map-All field us f h)

split-aggregate :
    (field : User → Bytes) (u : User) (us : List User)
    → ((v : User) → IsPlain v → Lacks b',' (field v))
    → All IsPlain (u ∷ us)
    → split (aggregate field (u ∷ us)) (codes ",") ≡ some (map field (u ∷ us))
split-aggregate field u us f h =
    split-intercalate b',' (field u) (map field us) (map-All field (u ∷ us) f h)

read_flag : (b : Bool) → same_text (online_text b) (codes "true") ≡ b
read_flag true = refl
read_flag false = refl

read_id : (z : ℤ) → IsInt z → (to_int (print_int z)).1 ≡ z
unfolding to_int
read_id z h = rw (stoi-print_int z h, to_int) refl

users_at-map :
    (us : List User)
    → All IsPlain us
    → users_at (map id_text us) (map (λ u. u.username) us) (map flag_text us)
      ≡ some (map as_contact us)
unfolding users_at
users_at-map [] h = refl
users_at-map (u ∷ us) (p, h) =
    rw (users_at-map us h) (rw (read_id u.id p.0, read_flag u.online) refl)

-- The contacts whose numbers, names and flags the database has joined with commas are read back in
-- their order, with number, name and flag, if there is at least one and no name holds a comma.
pub result_to_users-aggregate :
    (u : User) (us : List User)
    → All IsPlain (u ∷ us)
    → result_to_users
        (aggregate id_text (u ∷ us))
        (aggregate (λ v. v.username) (u ∷ us))
        (aggregate flag_text (u ∷ us))
      ≡ some (map as_contact (u ∷ us))
unfolding result_to_users
result_to_users-aggregate u us h =
    rw
      (
        split-aggregate id_text u us (λ v p. id_text-Lacks v) h,
        split-aggregate (λ v. v.username) u us (λ v p. p.1) h,
        split-aggregate flag_text u us (λ v p. flag_text-Lacks v.online) h,
      )
      (users_at-map (u ∷ us) h)

-- Of two contacts, one with a comma in its name, the first is read with the part of its name
-- before the comma and the second with the part behind it.
pub result_to_users_comma :
    (u v : User) (a b : Bytes)
    → u.username ≡ a ++ b',' ∷ b
    → IsPlain (record u { username = a })
    → IsPlain (record v { username = b })
    → Lacks b',' v.username
    → result_to_users
        (aggregate id_text (u ∷ v ∷ []))
        (aggregate (λ w. w.username) (u ∷ v ∷ []))
        (aggregate flag_text (u ∷ v ∷ []))
      ≡ some (map as_contact (record u { username = a } ∷ record v { username = b } ∷ []))
unfolding result_to_users
result_to_users_comma u v a b cut p q last =
    rw
      (
        split-aggregate id_text (record u { username = a }) (record v { username = b } ∷ [])
            (λ w h. id_text-Lacks w) (p, (q, tt)),
        cut,
        append_assoc a (b',' ∷ b) (b',' ∷ v.username),
        split-intercalate b',' a (b ∷ v.username ∷ []) (p.1, (q.1, (last, tt))),
        split-aggregate flag_text (record u { username = a }) (record v { username = b } ∷ [])
            (λ w h. flag_text-Lacks w.online) (p, (q, tt)),
      )
      (rw (read_id u.id p.0, read_id v.id q.0, read_flag u.online, read_flag v.online) refl)
