-- ===== src/Call/Callers.antt =====
-- The callers that a client knows of, src/client/user/call.cpp.
use skype.Common.{true, false, ◌≡◌, refl, List, [], ◌∷◌, ◌++◌, arith, Bool-cases, inl, inr, ◌||◌}
use skype.Common.Int.{ℤ, negsuc, ◌=ℤ◌, =ℤ_iff}
use skype.Client.{Job}
use skype.Call.{Call, remove_one, contains, remove_caller, await_call, hangup}

-- No caller stands twice in the list.
abbrev pub Unique : List ℤ → Type 0
Unique [] = Unit
Unique (j ∷ js) = (contains j js ≡ false) × Unique js

contains-append : (k i : ℤ) (js : List ℤ) → contains k (js ++ i ∷ []) ≡ (contains k js || (i =ℤ k))
unfolding contains
contains-append k i [] = ground arith
contains-append k i (j ∷ js) = ground (arith, contains-append k i js)

contains-remove_one :
    (k i : ℤ) (js : List ℤ) → contains k js ≡ false → contains k (remove_one i js) ≡ false
unfolding contains remove_one
contains-remove_one k i [] h = refl
contains-remove_one k i (j ∷ js) h = ground (arith, contains-remove_one k i js)

Unique-remove_one : (k : ℤ) (js : List ℤ) → Unique js → Unique (remove_one k js)
unfolding remove_one
Unique-remove_one k [] h = tt
Unique-remove_one k (j ∷ js) (p, h) = elim (Bool-cases (j =ℤ k)) [
  | inl e ↦ rw e h
  | inr e ↦ rw e (contains-remove_one j k js p, Unique-remove_one k js h)
]

contains-remove_one_self : (k : ℤ) (js : List ℤ) → Unique js → contains k (remove_one k js) ≡ false
unfolding contains remove_one
contains-remove_one_self k [] h = refl
contains-remove_one_self k (j ∷ js) (p, h) = elim (Bool-cases (j =ℤ k)) [
  | inl e ↦ rw e (rw (← (=ℤ_iff j k).0 e) p)
  | inr e ↦ rw e (rw (e, contains) (contains-remove_one_self k js h))
]

Unique-append : (k : ℤ) (js : List ℤ) → Unique js → contains k js ≡ false → Unique (js ++ k ∷ [])
unfolding contains
Unique-append k [] h p = (refl, tt)
Unique-append k (j ∷ js) (q, h) p = (
  ground (arith, contains-append j k js, =ℤ_iff j k, =ℤ_iff k j),
  Unique-append k js h (ground arith),
)

-- A job AWAITING keeps the callers distinct; behind it the caller that it names is in the list
-- exactly where the job says that it waits.
pub await_call-Unique :
    (job : Job) (c : Call)
    → Unique c.callers
    → Unique (await_call job c).1.callers
      × contains job.int_value (await_call job c).1.callers ≡ job.bool_value
unfolding await_call remove_caller
await_call-Unique job c h = elim (Bool-cases job.bool_value) [
  | inl rings ↦ elim (Bool-cases (contains job.int_value c.callers)) [
    | inl old ↦ rw (rings, old) (h, old)
    | inr new ↦
        rw (rings, new)
          (
            Unique-append job.int_value c.callers h new,
            ground (
              arith,
              contains-append job.int_value job.int_value c.callers,
              =ℤ_iff job.int_value job.int_value,
            ),
          )
  ]
  | inr ended ↦ rw ended (
    Unique-remove_one job.int_value c.callers h,
    contains-remove_one_self job.int_value c.callers h,
  )
]

remove_one_absent : (k : ℤ) (js : List ℤ) → contains k js ≡ false → remove_one k js ≡ js
unfolding remove_one contains
remove_one_absent k [] h = refl
remove_one_absent k (j ∷ js) h = ground (arith, remove_one_absent k js)

-- Where `m_current` is -1, as behind any hangup, and no caller has that number, a hangup removes
-- no caller, and the job of one in the list who rings again behind the hangup is marked not valid.
pub hangup_keeps_callers :
    (job : Job) (c : Call)
    → c.current ≡ negsuc 0
    → contains (negsuc 0) c.callers ≡ false
    → contains job.int_value c.callers ≡ true
    → job.bool_value ≡ true
    → ((hangup c).callers ≡ c.callers) × ((await_call job (hangup c)).0.valid ≡ false)
unfolding hangup remove_caller await_call
hangup_keeps_callers job c unset none_such known rings =
    let same : remove_one c.current c.callers ≡ c.callers =
      rw unset (remove_one_absent (negsuc 0) c.callers none_such) in
    (same, ground (arith, same, known, rings))
