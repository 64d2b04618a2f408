-- ===== src/Server/Loop/Clients.antt =====
-- src/server/server.cpp: the clients that the loop listens to, turn after turn.
use skype.Common.{
  ◌≡◌, ◌≢◌, Bool, true, not, ◌==◌, refl, ◌≤◌, ◌<◌, false, List, [], ◌∷◌, ◌++◌, length,
  if◌then◌else◌, arith, All, All-map, All-append, All-parts, Bytes, Option, none, some, ◌⊎◌, inl,
  inr, Bool-cases,
}
use skype.Common.Int.{ℤ, ◌=ℤ◌, =ℤ_iff}
use skype.Common.Dict.{lookup}
use skype.Poll.{no_socket, select_socket_with_events}
use skype.Poll.Slots.{Other}
use skype.Poll.Packed.{
  Packed, add_socket-Packed, add_socket_full, remove_socket-Packed, remove_absent-Packed,
  select-cases,
}
use skype.User.{User}
use skype.Server.{Request, Postgres, State, Outcome}
use skype.Server.Users.{list_throws}
use skype.Server.Router.{route, route_throws, parse, is_loggedin, validate_argument}
use skype.Command.{value, list}
use skype.Server.Loop.{
  Connections, Turn, Turned, Sent, accept_connection, Received, no_text, a_text, too_long,
  receive_from, serve_received, serve_request, disconnect_client, disconnect_client_on_request,
  disconnect_client_on_failure, accept_client, finish, serve_socket, serve_selected, turn,
}

abbrev pub Distinct : List ℤ → Type 0
Distinct [] = Unit
Distinct (x ∷ xs) = All (Other x) xs × Distinct xs

abbrev pub HasAddress : List (ℤ × Bytes) → ℤ → Type 0
HasAddress m x = (a : Bytes) × (lookup x m ≡ some a)

-- The sockets `xs` are those that the server listens to: they differ, and the address of each is known.
pub record IsServed (own : ℤ) (xs : List ℤ) (c : Connections) : Type 0 where
  pub packed : Packed own xs c.poll
  pub distinct : Distinct xs
  pub known : All (HasAddress c.addresses) xs

-- A client that connects has a socket that is not in use.
abbrev pub Arrives : List ℤ → Option (ℤ × Bytes) → Type 0
Arrives xs none = Unit
Arrives xs (some (s, a)) = ((s =ℤ no_socket) ≡ false) × All (Other s) xs

pub Other-sym : (x y : ℤ) → (x =ℤ y) ≡ false → (y =ℤ x) ≡ false
Other-sym x y h = ground (arith, =ℤ_iff x y, =ℤ_iff y x)

Distinct-parts :
    (s : ℤ) (ys zs : List ℤ)
    → Distinct (ys ++ s ∷ zs)
    → All (Other s) ys × All (Other s) zs × Distinct (ys ++ zs)
Distinct-parts s [] zs (h, d) = (tt, h, d)
Distinct-parts s (y ∷ ys) zs (h, d) =
    let (before, behind, rest) = Distinct-parts s ys zs d in
    let (l, (p, r)) = All-parts (Other y) ys (s ∷ zs) h in
    ((Other-sym s y p, before), behind, (All-append (Other y) ys zs l r, rest))

Distinct-append : (s : ℤ) (xs : List ℤ) → Distinct xs → All (Other s) xs → Distinct (xs ++ s ∷ [])
Distinct-append s [] d h = (tt, tt)
Distinct-append s (x ∷ xs) (k, d) (p, h) =
    (All-append (Other x) xs (s ∷ []) k (Other-sym x s p, tt), Distinct-append s xs d h)

HasAddress-cons :
    (m : List (ℤ × Bytes)) (s : ℤ) (a : Bytes) (x : ℤ) → HasAddress m x → HasAddress ((s, a) ∷ m) x
unfolding lookup
HasAddress-cons m s a x (b, e) = elim (Bool-cases (s =ℤ x)) [
  | inl same ↦ (a, rw same refl)
  | inr other ↦ (b, rw other e)
]

HasAddress-self : (m : List (ℤ × Bytes)) (s : ℤ) (a : Bytes) → HasAddress ((s, a) ∷ m) s
unfolding lookup
HasAddress-self m s a = (a, rw ((=ℤ_iff s s).1 refl) refl)

-- The sockets after a client has connected: the tenth finds no room.
accept_connection-IsServed :
    (own : ℤ) (xs : List ℤ) (c : Connections) (arrival : Option (ℤ × Bytes))
    → IsServed own xs c
    → Arrives xs arrival
    → (ys : List ℤ) × IsServed own ys (accept_connection arrival c).0
unfolding accept_connection accept_client
accept_connection-IsServed own xs c none h new = (xs, h)
accept_connection-IsServed own xs c (some (s, a)) h (valid, new) =
    let known =
      All-map (HasAddress c.addresses) (HasAddress ((s, a) ∷ c.addresses)) xs
        (HasAddress-cons c.addresses s a) h.known in
    elim (full-cases xs h.packed.fits) [
      | inl full ↦ (
        xs,
        record {
          packed = rw (add_socket_full own s xs c.poll h.packed full) h.packed;
          distinct = h.distinct;
          known = known;
        },
      )
      | inr room ↦ (
        xs ++ s ∷ [],
        record {
          packed = (add_socket-Packed own s xs c.poll h.packed room valid).1;
          distinct = Distinct-append s xs h.distinct new;
          known =
              All-append (HasAddress ((s, a) ∷ c.addresses)) xs (s ∷ []) known
                (HasAddress-self c.addresses s a, tt);
        },
      )
    ]
  where
    full-cases : (l : List ℤ) → length l ≤ 9 → (length l ≡ 9) ⊎ (length l < 9)
    full-cases l h = ground arith

-- A socket that is listened to, or one that is not, is disconnected.
disconnect_client-IsServed :
    (own s : ℤ) (ys zs : List ℤ) (c : Connections)
    → IsServed own (ys ++ s ∷ zs) c
    → IsServed own (ys ++ zs) (disconnect_client s c)
unfolding disconnect_client
disconnect_client-IsServed own s ys zs c h =
    let (before, behind, rest) = Distinct-parts s ys zs h.distinct in
    let (l, (_, r)) = All-parts (HasAddress c.addresses) ys (s ∷ zs) h.known in
    record {
      packed = remove_socket-Packed own s ys zs c.poll h.packed before behind;
      distinct = rest;
      known = All-append (HasAddress c.addresses) ys zs l r;
    }

disconnect_absent-IsServed :
    (own s : ℤ) (xs : List ℤ) (c : Connections)
    → IsServed own xs c
    → All (Other s) xs
    → IsServed own xs (disconnect_client s c)
unfolding disconnect_client
disconnect_absent-IsServed own s xs c h absent = record {
  packed = remove_absent-Packed own s xs c.poll h.packed absent;
  distinct = h.distinct;
  known = h.known;
}

module _ {Db : Type 0} (pg : Postgres Db) (own : ℤ) where
  finish-IsServed :
      (t : Turn) (s : ℤ) (ys zs : List ℤ) (c : Connections) (sent : Sent) (o : Outcome Db)
      → IsServed own (ys ++ s ∷ zs) c
      → (xs : List ℤ) × IsServed own xs (finish pg t s c sent o).connections
  unfolding finish disconnect_client_on_request disconnect_client_on_failure
  finish-IsServed t s ys zs c sent (req, st) h =
      let (before, behind, _) = Distinct-parts s ys zs h.distinct in
      let gone = disconnect_client-IsServed own s ys zs c h in
      let absent = All-append (Other s) ys zs before behind in
      let twice = disconnect_absent-IsServed own s (ys ++ zs) (disconnect_client s c) gone absent in
      elim (Bool-cases req.exits) [
        | inl leaves ↦ elim (Bool-cases (if req.valid then t.answered else false)) [
          | inl ok ↦ (ys ++ zs, rw leaves (rw ok gone))
          | inr failed ↦ (ys ++ zs, rw leaves (rw failed twice))
        ]
        | inr stays ↦ elim (Bool-cases (if req.valid then t.answered else false)) [
          | inl ok ↦ (ys ++ s ∷ zs, rw stays (rw ok h))
          | inr failed ↦ (ys ++ zs, rw stays (rw failed gone))
        ]
      ]

  route_throws-never :
      (req : Request) (st : State Db)
      → ((u : User) → pg.list_user_contacts_throws u st.db ≡ false)
      → route_throws pg req st ≡ false
  unfolding route_throws list_throws
  route_throws-never req st readable =
      let (cmd, (token, arguments)) = parse req in
      let (allowed, req') = is_loggedin pg cmd token req st in
      let user = pg.search_user_by_token token st.db in
      rw (readable user) (
        calm (not req.valid) (
          calm (not allowed) (
            calm' (validate_argument cmd arguments)
              (calm' (value cmd == value list) (calm' (not user.empty) refl)))))
    where
      calm : (b : Bool) {x : Bool} → x ≡ false → (if b then false else x) ≡ false
      calm true h = refl
      calm false h = h

      calm' : (b : Bool) {x : Bool} → x ≡ false → (if b then x else false) ≡ false
      calm' true h = h
      calm' false h = refl

  serve_received-IsServed :
      (r : Received) (t : Turn) (s : ℤ) (a : Bytes) (ys zs : List ℤ) (c : Connections) (sent : Sent)
      (st : State Db)
      → IsServed own (ys ++ s ∷ zs) c
      → r ≢ too_long
      → ((u : User) → pg.list_user_contacts_throws u st.db ≡ false)
      → (o : Turned Db) × (serve_received pg r t s a c sent st ≡ some o)
        × (xs : List ℤ) × IsServed own xs o.connections
  unfolding serve_received serve_request
  serve_received-IsServed no_text t s a ys zs c sent st h short readable =
      let req = receive_from none a in
      let o = finish pg t s c sent (route pg t.fresh req st) in
      let (xs, k) = finish-IsServed t s ys zs c sent (route pg t.fresh req st) h in
      (o, rw (route_throws-never req st readable) refl, xs, k)
  serve_received-IsServed (a_text text) t s a ys zs c sent st h short readable =
      let req = receive_from (some text) a in
      let o = finish pg t s c sent (route pg t.fresh req st) in
      let (xs, k) = finish-IsServed t s ys zs c sent (route pg t.fresh req st) h in
      (o, rw (route_throws-never req st readable) refl, xs, k)
  serve_received-IsServed too_long t s a ys zs c sent st h short readable = absurd (short refl)

  serve_selected-IsServed :
      (t : Turn) (xs : List ℤ) (c : Connections) (sent : Sent) (st : State Db)
      → IsServed own xs c
      → t.text ≢ too_long
      → ((u : User) → pg.list_user_contacts_throws u st.db ≡ false)
      → (r : Turned Db) × (serve_selected pg t c sent st ≡ some r)
        × (ys : List ℤ) × IsServed own ys r.connections
  unfolding serve_selected serve_socket
  serve_selected-IsServed t xs c sent st h short readable =
      let s = select_socket_with_events t.ready c.poll in
      elim (Bool-cases (s =ℤ no_socket)) [
        | inl idle ↦ (record { connections = c; state = st; sent = sent }, rw idle refl, xs, h)
        | inr busy ↦ elim (select-cases own t.ready xs c.poll h.packed) [
          | inl free ↦ absurd (cc ((=ℤ_iff s no_socket).1 free, busy))
          | inr (ys, zs, e) ↦
              let h' : IsServed own (ys ++ s ∷ zs) c = rw (← e) h in
              let (_, ((a, known), _)) = All-parts (HasAddress c.addresses) ys (s ∷ zs) h'.known in
              let (o, done, xs', k) =
                serve_received-IsServed t.text t s a ys zs c sent st h' short readable in
              (o, rw busy (rw known done), xs', k)
        ]
      ]

  -- Where the poll holds the sockets that the server listens to without gaps, these differ, each
  -- has an address, a client that connects has a socket not in use, the buffer for a text that
  -- comes can be allocated, and the database throws for no list of contacts: a turn of the
  -- server's loop ends without an exception (the selected socket has an address, so that `at` does
  -- not throw), whether or not the answers can be sent, and the same holds of the sockets after
  -- it.
  pub turn-IsServed :
      (t : Turn) (xs : List ℤ) (c : Connections) (st : State Db)
      → IsServed own xs c
      → Arrives xs t.arrival
      → t.text ≢ too_long
      → ((u : User) → pg.list_user_contacts_throws u st.db ≡ false)
      → (r : Turned Db) × (turn pg t c st ≡ some r) × (ys : List ℤ) × IsServed own ys r.connections
  unfolding turn
  turn-IsServed t xs c st h new short readable =
      let (ys, k) = accept_connection-IsServed own xs c t.arrival h new in
      serve_selected-IsServed t ys (accept_connection t.arrival c).0
        (accept_connection t.arrival c).1 st k short readable
