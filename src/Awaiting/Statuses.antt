-- ===== src/Awaiting/Statuses.antt =====
-- One round of the worker over entries of known status.
use skype.Common.{
  ℕ, suc, ◌≡◌, refl, sym, ap, ◌∙◌, false, map, [], ◌∷◌, ◌++◌, append_assoc, append-nil, arith,
  length, length-append, All,
}
use skype.Common.Int.{ℤ, ◌=ℤ◌}
use mathlib.Core.List.{map-append}
use skype.Awaiting.{
  AwaitingUsers, TimeoutStatus, detached, is_detached, set_status, update_timeout_status, finished,
  invalidated, drop_detached, destroy, visit, timeout_round,
}
use skype.Awaiting.Timeout.{Entries, visit_live, visit_detached, timeouts_after}

abbrev pub detach : ℤ × TimeoutStatus → ℤ × TimeoutStatus
detach (id, s) = (id, detached)

abbrev pub Absent : ℤ → Entries → Type 0
Absent id = All (λ e. (e.0 =ℤ id) ≡ false)

-- No entry is detached, and no user has two.
abbrev pub IsFresh : Entries → Type 0
IsFresh [] = Unit
IsFresh ((id, s) ∷ rest) = (is_detached s ≡ false) × (Absent id rest × IsFresh rest)

set_status-Absent : (id : ℤ) (ts : Entries) → Absent id ts → set_status id detached ts ≡ ts
unfolding set_status
set_status-Absent id [] h = refl
set_status-Absent id ((j, t) ∷ ts) (h, hs) =
    rw h (ap (λ (l : Entries). (j, t) ∷ l) (set_status-Absent id ts hs))

set_status_detached :
    (id : ℤ) (ts : Entries) → set_status id detached (map detach ts) ≡ map detach ts
unfolding set_status
set_status_detached id [] = refl
set_status_detached id ((j, t) ∷ ts) = ground (arith, set_status_detached id ts)

same_result :
    (r : AwaitingUsers) (id : ℤ) (s : TimeoutStatus) (done todo : Entries)
    → finished (record (update_timeout_status id detached r) {
      timeouts = map detach ((done ++ (id, detached) ∷ []) ++ todo);
    })
      ≡ finished (record r { timeouts = map detach (done ++ (id, s) ∷ todo) })
unfolding update_timeout_status
same_result r id s done todo = simp (append_assoc, map-append)

visit_all :
    (r : AwaitingUsers) (done todo : Entries)
    → r.timeouts ≡ map detach done ++ todo
    → IsFresh todo
    → visit (length todo) (length (map detach done)) r
      ≡ finished (record r { timeouts = map detach (done ++ todo) })
unfolding visit
visit_all r done [] e h =
    let same : r.timeouts ≡ map detach (done ++ []) =
      e ∙ append-nil (map detach done) ∙ ap (map detach) (sym (append-nil done)) in
    cc
visit_all r done ((id, s) ∷ todo) e (live, (absent, fresh)) =
    let r' = update_timeout_status id detached r in
    let done' = done ++ (id, detached) ∷ [] in
    let moved : map detach done' ≡ map detach done ++ (id, detached) ∷ [] =
      map-append detach done ((id, detached) ∷ []) in
    visit_live (length todo) r (map detach done) id s todo e live
    ∙ ap (λ (i : ℕ). visit (length todo) i r')
        (omega (arith, ap length moved, length-append (map detach done) ((id, detached) ∷ [])))
    ∙ visit_all r' done' todo
        (timeouts_after r (map detach done) id s todo e
          ∙ cc (set_status_detached id done, set_status-Absent id todo absent, moved))
        fresh
    ∙ same_result r id s done todo

-- A round over entries of different users none of which is detached detaches them all, in order,
-- and drops no user.
pub timeout_round_fresh :
    (r : AwaitingUsers)
    → IsFresh r.timeouts
    → timeout_round r ≡ finished (record r { timeouts = map detach r.timeouts })
unfolding timeout_round
timeout_round_fresh r h = visit_all r [] r.timeouts refl h

set_status_cons :
    (a b : ℤ) (rest : Entries)
    → (b =ℤ a) ≡ false
    → set_status a detached ((b, detached) ∷ rest) ≡ (b, detached) ∷ set_status a detached rest
unfolding set_status
set_status_cons a b rest h = rw h

drop_detached_lem :
    (a b : ℤ) (r : AwaitingUsers) (rest : Entries)
    → (update_timeout_status a detached r).timeouts ≡ (a, detached) ∷ rest
    → drop_detached b (update_timeout_status a detached r)
      ≡ record (destroy b r).1 { timeouts = rest }
unfolding drop_detached destroy update_timeout_status
drop_detached_lem a b r rest e = ground (arith, e)

-- Where an entry that is not detached stands first and a detached one of another user second, the
-- round destroys the second user but erases the first one's entry, and then goes on with an
-- invalid iterator.
pub timeout_round_wrong_entry :
    (r : AwaitingUsers) (a b : ℤ) (s : TimeoutStatus) (rest : Entries)
    → r.timeouts ≡ (a, s) ∷ (b, detached) ∷ rest
    → is_detached s ≡ false
    → (b =ℤ a) ≡ false
    → timeout_round r
      ≡ invalidated
          (record (destroy b r).1 { timeouts = (b, detached) ∷ set_status a detached rest })
unfolding timeout_round set_status
timeout_round_wrong_entry r a b s rest e h k =
    let r' = update_timeout_status a detached r in
    let others = set_status a detached rest in
    let next : r'.timeouts ≡ (a, detached) ∷ (b, detached) ∷ others =
      timeouts_after r [] a s ((b, detached) ∷ rest) e
      ∙ ap (λ (l : Entries). (a, detached) ∷ l) (set_status_cons a b rest k) in
    ap (λ (n : ℕ). visit n 0 r) (ap length e)
    ∙ visit_live (suc (length rest)) r [] a s ((b, detached) ∷ rest) e h
    ∙ visit_detached (length rest) r' ((a, detached) ∷ []) b detached others next refl
    ∙ ap invalidated (drop_detached_lem a b r ((b, detached) ∷ others) next)
