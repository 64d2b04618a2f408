-- ===== src/Server/Flow.antt =====
-- A call from the first command to the last: one user connects, the other accepts, the first pings.
use skype.Common.{is_nil, ◌≡◌, refl, ap, true, false, none, some, ◌∷◌, ◌++◌, Bytes, codes, arith}
use skype.Common.Int.{ℤ, IsInt}
use skype.Text.{split_first, to_int}
use skype.Text.Split.{split_first-append}
use skype.Text.Number.{print_int}
use skype.Text.Number.Print.{print_int-Lacks}
use skype.Text.Number.Read.{stoi-print_int}
use skype.Awaiting
use skype.Awaiting.{
  AwaitingUser, AwaitingUsers, awaiting_user, get, insert, put, destroy, set_peer_address,
  set_peer_local_address, own_address, peers_address, address_type,
}
use skype.Awaiting.Address.{accepted, accepted_peer}
use skype.Awaiting.Registry.{insert_free, insert_taken, insert-get, get-put, get-destroy}
use skype.Reply.{r_200, r_201, r_306, r_307}
use skype.Server.{Request, Postgres, State, Outcome, set_reply, set_reply_message}
use skype.Server.Calls.{
  validate, validate_user_and_argument, validate_local_address, connect, accept, ping, answered,
  answer_ping,
}

-- What a client sends as the argument of CONNECT and ACCEPT.
abbrev pub call_argument : ℤ → Bytes → Bytes
call_argument id local_address = print_int id ++ b' ' ∷ local_address

to_int-print_int : (z : ℤ) → IsInt z → to_int (print_int z) ≡ (true, z)
unfolding to_int
to_int-print_int z h = rw (stoi-print_int z h, to_int) refl

split_first-call_argument :
    (z : ℤ) (l : Bytes) → split_first (call_argument z l) (codes " ") ≡ (print_int z, l)
split_first-call_argument z l =
    split_first-append b' ' (print_int z) l
      (print_int-Lacks b' ' z (λ d. omega arith) (omega arith))

module _ {Db : Type 0} (pg : Postgres Db) where
  validate-call_argument :
      (z : ℤ) (l : Bytes) (req : Request) (s : State Db)
      → IsInt z
      → is_nil l ≡ false
      → (pg.search_user_by_token req.token s.db).empty ≡ false
      → validate pg (call_argument z l) req s ≡ (req, some (z, l))
  unfolding validate validate_user_and_argument validate_local_address
  validate-call_argument z l req s h n e =
      ground (arith, split_first-call_argument z l, to_int-print_int z h, n, e)

module _ {Db : Type 0} (pg : Postgres Db) (req : Request) (s : State Db) (peer : ℤ)
    (l : Bytes) where
  abbrev user_id : ℤ
  user_id = (pg.search_user_by_token req.token s.db).id

  abbrev entry : AwaitingUser
  entry = awaiting_user user_id peer req.address l

  module _ (fits : IsInt peer) (named : is_nil l ≡ false)
      (known : (pg.search_user_by_token req.token s.db).empty ≡ false) where
    pub connect_lem :
        get user_id s.awaiting ≡ none
        → connect pg (call_argument peer l) req s
          ≡ (set_reply r_200 req, record s { awaiting = (insert entry s.awaiting).1 })
    unfolding connect awaiting_user
    connect_lem free = ground (
      arith,
      validate-call_argument pg peer l req s fits named known,
      insert_free entry s.awaiting free,
    )

    accept_lem :
        (u : AwaitingUser)
        → get peer s.awaiting ≡ some u
        → accept pg (call_argument peer l) req s ≡ (
          set_reply_message r_201
              (own_address (answered req.address l u)
                ++ (codes " " ++ address_type (answered req.address l u)))
              req,
          record s { awaiting = put peer (answered req.address l u) s.awaiting },
        )
    unfolding accept
    accept_lem u waits =
        ground (arith, validate-call_argument pg peer l req s fits named known, waits)

    -- Whoever waits already is not put there again, and its call stays as it is.
    pub connect_again :
        (u : AwaitingUser)
        → get user_id s.awaiting ≡ some u
        → connect pg (call_argument peer l) req s ≡ (set_reply r_306 req, s)
    unfolding connect awaiting_user
    connect_again u waits = ground (
      arith,
      validate-call_argument pg peer l req s fits named known,
      insert_taken entry u s.awaiting waits,
    )

    -- Nobody waits under the number: the answer is 307 and nothing changes.
    pub accept_missing :
        get peer s.awaiting ≡ none
        → accept pg (call_argument peer l) req s ≡ (set_reply r_307 req, s)
    unfolding accept
    accept_missing free =
        ground (arith, validate-call_argument pg peer l req s fits named known, free)

module _ {Db : Type 0} (pg : Postgres Db) (req : Request) (s : State Db) (w : AwaitingUser) where
  pub ping_lem :
      (arg : Bytes)
      → (pg.search_user_by_token req.token s.db).empty ≡ false
      → get (pg.search_user_by_token req.token s.db).id s.awaiting ≡ some w
      → is_nil (peers_address w) ≡ false
      → ping pg arg req s ≡ (
        set_reply_message r_201 (peers_address w ++ (codes " " ++ address_type w)) req,
        record s { awaiting = (destroy w.id (Awaiting.ping w.id s.awaiting)).1 },
      )
  unfolding ping answer_ping
  ping_lem arg known waits named = ground (arith, known, waits, named)

module _ {Db : Type 0} (pg : Postgres Db) (req_a req_b : Request) (s : State Db) (b : ℤ)
    (la lb : Bytes) where
  abbrev pub caller : ℤ
  caller = (pg.search_user_by_token req_a.token s.db).id

  -- The states after the caller connected and after the peer accepted.
  abbrev pub connected : State Db
  connected = (connect pg (call_argument b la) req_a s).1

  abbrev pub agreed : State Db
  agreed = (accept pg (call_argument caller lb) req_b connected).1

  abbrev pub agreement : AwaitingUser
  agreement = accepted caller b req_a.address la req_b.address lb

  abbrev pub waiting : AwaitingUser
  waiting = awaiting_user caller b req_a.address la

  module _ (fits_a : IsInt caller) (fits_b : IsInt b)
      (known_a : (pg.search_user_by_token req_a.token s.db).empty ≡ false)
      (known_b : (pg.search_user_by_token req_b.token s.db).empty ≡ false)
      (named_a : is_nil la ≡ false) (named_b : is_nil lb ≡ false)
      (free : get caller s.awaiting ≡ none) where
    connected_lem : connected ≡ record s { awaiting = (insert waiting s.awaiting).1 }
    connected_lem =
        ap (λ (o : Outcome Db). o.1) (connect_lem pg req_a s b la fits_b named_a known_a free)

    waiting_found : get caller (insert waiting s.awaiting).1 ≡ some waiting
    unfolding awaiting_user
    waiting_found = (insert-get waiting s.awaiting free).0

    pub accept_outcome : accept pg (call_argument caller lb) req_b connected ≡ (
      set_reply_message r_201
          (own_address agreement ++ (codes " " ++ address_type agreement))
          req_b,
      record s { awaiting = put caller agreement (insert waiting s.awaiting).1 },
    )
    unfolding answered
    accept_outcome = rw connected_lem (
        accept_lem pg req_b (record s { awaiting = (insert waiting s.awaiting).1 }) caller lb fits_a
          named_b known_b waiting waiting_found)

    agreed_lem : agreed ≡ record s { awaiting = put caller agreement (insert waiting s.awaiting).1 }
    agreed_lem = ap (λ (o : Outcome Db). o.1) accept_outcome

    pub agreement_found :
        get caller (put caller agreement (insert waiting s.awaiting).1) ≡ some agreement
    agreement_found = get-put caller waiting agreement (insert waiting s.awaiting).1 waiting_found

    -- After CONNECT by one user, ACCEPT by the other is answered with the first one's address and
    -- its type, and the entry of the first then holds the addresses of both.
    pub accept_flow :
        ((accept pg (call_argument caller lb) req_b connected).0
          ≡ set_reply_message r_201
              (own_address agreement ++ (codes " " ++ address_type agreement))
              req_b)
        × (get caller agreed.awaiting ≡ some agreement)
    accept_flow = (ap (λ (o : Outcome Db). o.0) accept_outcome, rw agreed_lem agreement_found)

    -- After CONNECT by one user and ACCEPT by the other, the next PING of the first is answered
    -- with the second one's address and its type, and the first one waits no more.
    pub ping_flow :
        (arg : Bytes)
        → is_nil req_b.address ≡ false
        → ((ping pg arg req_a agreed).0
            ≡ set_reply_message r_201
                (peers_address agreement ++ (codes " " ++ address_type agreement))
                req_a)
          × (get caller (ping pg arg req_a agreed).1.awaiting ≡ none)
    unfolding awaiting_user set_peer_address set_peer_local_address
    ping_flow arg named =
        let after = put caller agreement (insert waiting s.awaiting).1 in
        let pinged : ping pg arg req_a agreed ≡ (
          set_reply_message r_201 (peers_address agreement ++ (codes " " ++ address_type agreement))
              req_a,
          record s { awaiting = (destroy agreement.id (Awaiting.ping agreement.id after)).1 },
        ) =
          rw agreed_lem (
            ping_lem pg req_a (record s { awaiting = after }) agreement arg known_a agreement_found
              (accepted_peer caller b req_a.address la req_b.address lb named)) in
        (
          ap (λ (o : Outcome Db). o.0) pinged,
          rw pinged (get-destroy caller (Awaiting.ping caller after)),
        )
