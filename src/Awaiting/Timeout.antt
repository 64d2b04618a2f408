-- ===== src/Awaiting/Timeout.antt =====
-- The rounds of the worker that drops silent users.
use skype.Common.{
  ℕ, zero, suc, ◌≡◌, ◌≢◌, refl, sym, ap, ◌∙◌, Bool, true, false, inl, inr, some, List, [], ◌∷◌,
  ◌++◌, append_assoc, arith, length, get_elem?, length-append, Bool-cases, Option-cases,
  if◌then◌else◌,
}
use skype.Common.Int.{ℤ, ◌=ℤ◌, =ℤ_iff}
use skype.Awaiting.{
  AwaitingUsers, TimeoutStatus, detached, is_detached, set_status, update_timeout_status, finished,
  invalidated, drop_detached, visit, timeout_round,
}

abbrev pub Entries : Type 0
Entries = List (ℤ × TimeoutStatus)

-- Some entry is detached.
abbrev pub has_detached : Entries → Bool
has_detached [] = false
has_detached ((id, s) ∷ rest) = if is_detached s then true else has_detached rest

get_elem?-append :
    (xs ys : Entries) (e : ℤ × TimeoutStatus) → get_elem? (xs ++ e ∷ ys) (length xs) ≡ some e
get_elem?-append [] ys e = refl
get_elem?-append (x ∷ xs) ys e = get_elem?-append xs ys e

length-set_status :
    (id : ℤ) (s : TimeoutStatus) (ts : Entries) → length (set_status id s ts) ≡ length ts
unfolding set_status
length-set_status id s [] = refl
length-set_status id s ((j, t) ∷ ts) = ground (arith, length-set_status id s ts)

set_status-append :
    (id : ℤ) (s : TimeoutStatus) (xs ys : Entries)
    → set_status id s (xs ++ ys) ≡ set_status id s xs ++ set_status id s ys
unfolding set_status
set_status-append id s [] ys = refl
set_status-append id s ((j, t) ∷ xs) ys = ground (arith, set_status-append id s xs ys)

has_detached-set_status :
    (id : ℤ) (ts : Entries)
    → has_detached ts ≡ true
    → has_detached (set_status id detached ts) ≡ true
unfolding set_status
has_detached-set_status id [] h = cc
has_detached-set_status id ((j, t) ∷ ts) h = ground (arith, has_detached-set_status id ts)

pub visit_live :
    (n : ℕ) (r : AwaitingUsers) (done : Entries) (id : ℤ) (s : TimeoutStatus) (todo : Entries)
    → r.timeouts ≡ done ++ (id, s) ∷ todo
    → is_detached s ≡ false
    → visit (suc n) (length done) r
      ≡ visit n (suc (length done)) (update_timeout_status id detached r)
unfolding visit
visit_live n r done id s todo e h =
    let found : get_elem? r.timeouts (length done) ≡ some (id, s) =
      ap (λ (ts : Entries). get_elem? ts (length done)) e ∙ get_elem?-append done todo (id, s) in
    rw (found, visit) (rw h)

pub visit_detached :
    (n : ℕ) (r : AwaitingUsers) (done : Entries) (id : ℤ) (s : TimeoutStatus) (todo : Entries)
    → r.timeouts ≡ done ++ (id, s) ∷ todo
    → is_detached s ≡ true
    → visit (suc n) (length done) r ≡ invalidated (drop_detached id r)
unfolding visit
visit_detached n r done id s todo e h =
    let found : get_elem? r.timeouts (length done) ≡ some (id, s) =
      ap (λ (ts : Entries). get_elem? ts (length done)) e ∙ get_elem?-append done todo (id, s) in
    rw (found, visit) (rw h)

=ℤ_refl : (a : ℤ) → (a =ℤ a) ≡ true
=ℤ_refl a = (=ℤ_iff a a).1 refl

module _ (r : AwaitingUsers) (done : Entries) (id : ℤ) (s : TimeoutStatus) (todo : Entries) where
  abbrev marked : Entries
  marked = set_status id detached done ++ (id, detached) ∷ []

  pub timeouts_after :
      r.timeouts ≡ done ++ (id, s) ∷ todo
      → (update_timeout_status id detached r).timeouts ≡ marked ++ set_status id detached todo
  unfolding update_timeout_status set_status
  timeouts_after e =
      ap (set_status id detached) e
      ∙ set_status-append id detached done ((id, s) ∷ todo)
      ∙ rw (=ℤ_refl id) (rw append_assoc)

  length-marked : length marked ≡ suc (length done)
  length-marked = omega (
    arith,
    length-append (set_status id detached done) ((id, detached) ∷ []),
    length-set_status id detached done,
  )

visit_meets :
    (n : ℕ) (r : AwaitingUsers) (done todo : Entries)
    → length todo ≡ n
    → r.timeouts ≡ done ++ todo
    → has_detached todo ≡ true
    → (q : AwaitingUsers) × (visit n (length done) r ≡ invalidated q)
visit_meets zero r done [] l e h = cc
visit_meets zero r done (t ∷ todo) l e h = absurd (omega arith)
visit_meets (suc n) r done [] l e h = cc
visit_meets (suc n) r done ((id, s) ∷ todo) l e h = elim (Bool-cases (is_detached s)) [
  | inl d ↦ (drop_detached id r, visit_detached n r done id s todo e d)
  | inr live ↦
      let (q, met) =
        visit_meets n (update_timeout_status id detached r) (marked r done id s todo)
          (set_status id detached todo) (omega (arith, length-set_status id detached todo))
          (timeouts_after r done id s todo e) (has_detached-set_status id todo (rw live at h)) in
      (
        q,
        visit_live n r done id s todo e live
            ∙ ap (λ (i : ℕ). visit n i (update_timeout_status id detached r))
                (sym (length-marked r done id s todo))
            ∙ met,
      )
]

-- A round of the timeout worker in which some entry is detached goes on with an iterator that its
-- own erase has invalidated.
pub timeout_round_invalidated :
    (r : AwaitingUsers)
    → has_detached r.timeouts ≡ true
    → (q : AwaitingUsers) × (timeout_round r ≡ invalidated q)
unfolding timeout_round
timeout_round_invalidated r h = visit_meets (length r.timeouts) r [] r.timeouts refl refl h

finished_inj : {a b : AwaitingUsers} → finished a ≡ finished b → a ≡ b
finished_inj h = cc

invalidated-ne-finished : {a b : AwaitingUsers} → invalidated a ≢ finished b
invalidated-ne-finished h = cc

has_detached-updated :
    (id : ℤ) (r : AwaitingUsers)
    → has_detached r.timeouts ≡ true
    → has_detached (update_timeout_status id detached r).timeouts ≡ true
unfolding update_timeout_status
has_detached-updated id r h = has_detached-set_status id r.timeouts h

visit_keeps :
    (n i : ℕ) (r q : AwaitingUsers)
    → has_detached r.timeouts ≡ true
    → visit n i r ≡ finished q
    → has_detached q.timeouts ≡ true
unfolding visit
visit_keeps zero i r q h e = rw (← finished_inj e) h
visit_keeps (suc n) i r q h e = elim (Option-cases (get_elem? r.timeouts i)) [
  | inl past ↦ rw (← finished_inj (rw (past, visit) at e)) h
  | inr ((id, s), found) ↦ elim (Bool-cases (is_detached s)) [
    | inl d ↦ absurd (invalidated-ne-finished (rw d at (rw (found, visit) at e)))
    | inr live ↦
        visit_keeps n (suc i) (update_timeout_status id detached r) q (has_detached-updated id r h)
          (rw live at (rw (found, visit) at e))
  ]
]

first_round :
    (r q : AwaitingUsers) (ts : Entries)
    → r.timeouts ≡ ts
    → ts ≢ []
    → visit (length ts) 0 r ≡ finished q
    → has_detached q.timeouts ≡ true
first_round r q [] l h e = absurd (h refl)
first_round r q ((id, s) ∷ ts) l h e = elim (Bool-cases (is_detached s)) [
  | inl d ↦ absurd (cc (visit_detached (length ts) r [] id s ts l d))
  | inr live ↦
      visit_keeps (length ts) 1 (update_timeout_status id detached r) q
        (rw (timeouts_after r [] id s ts l) (unfold set_status in refl))
        (sym (visit_live (length ts) r [] id s ts l live) ∙ e)
]

-- Of two rounds of the worker with nothing in between and some entry at all, the second is
-- undefined where the first finishes.
pub timeout_round_twice :
    (r q : AwaitingUsers)
    → r.timeouts ≢ []
    → timeout_round r ≡ finished q
    → (p : AwaitingUsers) × (timeout_round q ≡ invalidated p)
timeout_round_twice r q h e =
    timeout_round_invalidated q (first_round r q r.timeouts refl h (unfold timeout_round in e))
