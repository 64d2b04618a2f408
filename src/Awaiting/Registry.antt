-- ===== src/Awaiting/Registry.antt =====
-- The users that wait and their entries among the timeouts.
use skype.Common.{
  All, All-map, ◌≡◌, refl, ◌∙◌, Bool, true, false, inl, inr, none, some, List, [], ◌∷◌, ◌++◌, arith,
  if◌then◌else◌, Option-cases,
}
use skype.Common.Int.{ℤ, ◌=ℤ◌, =ℤ_iff}
use skype.Common.Dict.{
  All-lookup, All-erase, All-replace, lookup, lookup-erase_self, lookup-replace_self,
}
use skype.Awaiting.{
  AwaitingUser, AwaitingUsers, TimeoutStatus, created, pinged, get, insert, destroy, put,
  set_status, update_timeout_status, ping,
}

-- Some entry is the user's.
abbrev pub has_entry : ℤ → List (ℤ × TimeoutStatus) → Bool
has_entry k [] = false
has_entry k ((j, s) ∷ rest) = if j =ℤ k then true else has_entry k rest

abbrev pub IsEntry : List (ℤ × TimeoutStatus) → ℤ × AwaitingUser → Type 0
IsEntry ts (k, u) = (u.id ≡ k) × (has_entry k ts ≡ true)

-- A user that waits stands under its own number, and the worker has an entry for it.
abbrev pub IsTracked : AwaitingUsers → Type 0
IsTracked r = All (IsEntry r.timeouts) r.users

pub get-id :
    (k : ℤ) (u : AwaitingUser) (r : AwaitingUsers) → IsTracked r → get k r ≡ some u → u.id ≡ k
unfolding get
get-id k u r h e = (All-lookup (IsEntry r.timeouts) k r.users u h e).0

has_entry-append_left :
    (k : ℤ) (xs ys : List (ℤ × TimeoutStatus))
    → has_entry k xs ≡ true
    → has_entry k (xs ++ ys) ≡ true
has_entry-append_left k [] ys h = cc
has_entry-append_left k ((j, s) ∷ xs) ys h = ground (arith, has_entry-append_left k xs ys)

has_entry-append_right :
    (k : ℤ) (s : TimeoutStatus) (xs : List (ℤ × TimeoutStatus))
    → has_entry k (xs ++ (k, s) ∷ []) ≡ true
has_entry-append_right k s [] = rw ((=ℤ_iff k k).1 refl) refl
has_entry-append_right k s ((j, t) ∷ xs) = ground (arith, has_entry-append_right k s xs)

has_entry-set_status :
    (k i : ℤ) (s : TimeoutStatus) (xs : List (ℤ × TimeoutStatus))
    → has_entry k (set_status i s xs) ≡ has_entry k xs
unfolding set_status
has_entry-set_status k i s [] = refl
has_entry-set_status k i s ((j, t) ∷ xs) = ground (arith, has_entry-set_status k i s xs)

pub ping-IsTracked : (id : ℤ) (r : AwaitingUsers) → IsTracked r → IsTracked (ping id r)
unfolding ping update_timeout_status
ping-IsTracked id r h =
    All-map (IsEntry r.timeouts) (IsEntry (set_status id pinged r.timeouts)) r.users
      (λ (k, u) (same, entry). (same, has_entry-set_status k id pinged r.timeouts ∙ entry)) h

=ℤ_refl : (a : ℤ) → (a =ℤ a) ≡ true
=ℤ_refl a = (=ℤ_iff a a).1 refl

pub insert_free :
    (v : AwaitingUser) (r : AwaitingUsers)
    → get v.id r ≡ none
    → insert v r ≡ (
      true,
      record r { users = (v.id, v) ∷ r.users; timeouts = r.timeouts ++ (v.id, created) ∷ [] },
    )
unfolding insert get
insert_free v r h = rw (h, insert) refl

pub insert_taken :
    (v w : AwaitingUser) (r : AwaitingUsers) → get v.id r ≡ some w → insert v r ≡ (false, r)
unfolding insert get
insert_taken v w r h = rw (h, insert) refl

inserted-IsTracked :
    (v : AwaitingUser) (r : AwaitingUsers)
    → IsTracked r
    → IsTracked
        (record r { users = (v.id, v) ∷ r.users; timeouts = r.timeouts ++ (v.id, created) ∷ [] })
inserted-IsTracked v r h =
    let later = (v.id, created) ∷ [] in
    (
      (refl, has_entry-append_right v.id created r.timeouts),
      All-map (IsEntry r.timeouts) (IsEntry (r.timeouts ++ later)) r.users
          (λ (k, u) (same, entry). (same, has_entry-append_left k r.timeouts later entry)) h,
    )

pub insert-IsTracked :
    (v : AwaitingUser) (r : AwaitingUsers) → IsTracked r → IsTracked (insert v r).1
insert-IsTracked v r h = elim (Option-cases (get v.id r)) [
  | inl free ↦ rw (insert_free v r free) (inserted-IsTracked v r h)
  | inr (w, waits) ↦ rw (insert_taken v w r waits) h
]

pub destroy-IsTracked : (id : ℤ) (r : AwaitingUsers) → IsTracked r → IsTracked (destroy id r).1
unfolding destroy
destroy-IsTracked id r h = ground (arith, h, All-erase (IsEntry r.timeouts) id r.users h)

-- Who is written to had an entry.
pub put-IsTracked :
    (id : ℤ) (u v : AwaitingUser) (r : AwaitingUsers)
    → v.id ≡ id
    → get id r ≡ some u
    → IsTracked r
    → IsTracked (put id v r)
unfolding put get
put-IsTracked id u v r a e h =
    let (_, entry) = All-lookup (IsEntry r.timeouts) id r.users u h e in
    All-replace (IsEntry r.timeouts) id v r.users (a, entry) h

-- A user that does not wait yet is found after it is inserted, and then no second time is inserted.
pub insert-get :
    (v : AwaitingUser) (r : AwaitingUsers)
    → get v.id r ≡ none
    → (get v.id (insert v r).1 ≡ some v) × (insert v (insert v r).1 ≡ (false, (insert v r).1))
insert-get v r h =
    let found : get v.id (insert v r).1 ≡ some v =
      rw (insert_free v r h) (unfold get lookup in rw (=ℤ_refl v.id) refl) in
    (found, insert_taken v v (insert v r).1 found)

pub get-put :
    (k : ℤ) (v w : AwaitingUser) (r : AwaitingUsers) → get k r ≡ some v → get k (put k w r) ≡ some w
unfolding get put
get-put k v w r h = lookup-replace_self k w v r.users h

pub get-ping : (k i : ℤ) (r : AwaitingUsers) → get k (ping i r) ≡ get k r
unfolding get ping update_timeout_status
get-ping k i r = refl

-- A user that is removed does not wait.
pub get-destroy : (k : ℤ) (r : AwaitingUsers) → get k (destroy k r).1 ≡ none
unfolding get destroy
get-destroy k r = ground (arith, lookup-erase_self k r.users)
