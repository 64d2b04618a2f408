-- ===== src/Client/Bus.antt =====
-- src/client/job/job_bus.cpp: the two queues of jobs and the loop that handles them.
use skype.Common.{ℕ, zero, suc, Option, none, some, List, [], ◌∷◌, ◌++◌, Bytes}
use skype.Client.{Details, Job, JobType, discard, pending, list, new_job}
use skype.Client.Jobs.{Client, Called, Handled, handle_job}

-- `m_jobQ` and `m_resQ`, the oldest job first.
pub record Bus : Type 0 where
  pub jobs : List Job
  pub responses : List Job

unfoldable pub create : Job → Bus → Bus
create j bus = record bus { jobs = bus.jobs ++ j ∷ [] }

unfoldable pub create_response : Job → Bus → Bus
create_response j bus = record bus { responses = bus.responses ++ j ∷ [] }

unfoldable pub get_response : Bus → Option Job × Bus
get_response bus = elim bus.responses [
  | [] ↦ (none, bus)
  | j ∷ js ↦ (some j, record bus { responses = js })
]

unfoldable pub repeated_tasks : Bus → Bus
unfolding create
repeated_tasks bus = create (new_job list) (create (new_job pending) bus)

-- A job of the type DISCARD has no response; the test for AWAITING in the loop adds nothing to this.
abbrev pub answered : JobType → Job → Bus → Bus
answered discard j bus = bus
answered _ j bus = create_response j bus

module _ {S : Type 0} (server : Bytes → S → Option Bytes × S) (blank : Details)
    (call : JobType → Job → S → Called S) where
  -- The state of the loop.
  pub record Loop : Type 0 where
    pub bus : Bus
    pub client : Client
    pub state : S

  abbrev pub settle : Bus → Handled S → Loop
  settle bus h = record {
    bus = answered h.job.command h.job (record bus { jobs = bus.jobs ++ h.posted });
    client = h.client;
    state = h.server;
  }

  -- One round of `handle` with what the queue holds; `none` is a job that throws.
  unfoldable pub handle_next : List Job → Loop → Option Loop
  handle_next [] loop = some loop
  handle_next (j ∷ js) loop =
      elim (handle_job server blank call j.command j loop.client loop.state) [
        | none ↦ none
        | some h ↦ some (settle (record loop.bus { jobs = js }) h)
      ]

  unfoldable pub handle_round : Loop → Option Loop
  unfolding handle_next
  handle_round loop = handle_next loop.bus.jobs loop

  unfoldable pub handle_rounds : ℕ → Loop → Option Loop
  unfolding handle_round
  handle_rounds zero loop = some loop
  handle_rounds (suc n) loop = elim (handle_round loop) [
    | none ↦ none
    | some loop' ↦ handle_rounds n loop'
  ]
