-- ===== src/Jobs/Dynamo/Tests.antt =====
-- A database that cancels a transaction only where a condition fails, and two clients of it.
use auto_correlation.Prelude.{
  String, ◌≡◌, ◌≤◌, ◌⊎◌, inl, inr, refl, true, false, none, some, List, [], ◌∷◌, if◌then◌else◌,
  Bool-cases, arith,
}
use auto_correlation.Jobs.Model.{ExecutionJob, queued}
use auto_correlation.Jobs.Changes.{claim}
use auto_correlation.Jobs.Dynamo.{
  Table, Write, Database, Outcome, committed, cancelled, all_hold, all_written, active_count,
}
use auto_correlation.Jobs.Dynamo.Requests.{
  Request, insert, change, remove, expire, Client, serve, serve_all,
}
use auto_correlation.Jobs.Dynamo.Operations.{mutate}
use auto_correlation.Jobs.Dynamo.Slots.{IsHonest, counting}
use auto_correlation.Jobs.Dynamo.Steps.{empty, empty-IsKeyed, serve-IsKeyed, slots_exact}
use auto_correlation.Jobs.Dynamo.Cap.{StartsNone, run_turns, row_cap}
use auto_correlation.Jobs.Dynamo.Mutate.{Linearised, IsFair, mutate_linearised}

abbrev strict : List Write → Table → Outcome × Table
strict l t = if all_hold l t then (committed, all_written l t) else (cancelled [], t)

strict_atomic :
    (l : List Write) (t : Table)
    → ((all_hold l t ≡ true) × (strict l t ≡ (committed, all_written l t)))
      ⊎ ((codes : List String) × (strict l t ≡ (cancelled codes, t)))
strict_atomic l t = elim (Bool-cases (all_hold l t)) [
  | inl e ↦ inl (e, rw e refl)
  | inr e ↦ inr ([], rw e refl)
]

abbrev db : Database
db = record { transact = strict; atomic = strict_atomic }

abbrev job_of : String → ExecutionJob
job_of id = record {
  id = id;
  owner_key = "user:1";
  collection_name = "Booking";
  created_at = 100;
  expires_at = 1900;
  idempotency_key = some "key";
  state = queued;
  analysis_id = none;
  error_code = none;
  error_detail = none;
  stage_history = [];
  warnings = [];
  cancel_requested = false;
  worker_active = false;
  reports_ready = false;
  finalizing_since = none;
}

-- The worker's claim.
abbrev started : ExecutionJob → ExecutionJob
started j = (claim j).1

started-IsHonest : IsHonest started
unfolding claim
started-IsHonest = record { same_id = λ j. ground arith; same_owner = λ j. ground arith }

started-StartsNone : StartsNone started
unfolding claim
started-StartsNone j e = ground arith

abbrev requests : List Request
requests =
    insert (job_of "j1") 50 2 ∷ insert (job_of "j2") 0 2 ∷ change "j1" started ∷ remove "j2" ∷ []

slots_exact_example :
    active_count "user:1" (serve_all db 200 requests empty)
    ≡ counting "user:1" (serve_all db 200 requests empty)
slots_exact_example =
    slots_exact db 200 requests "user:1"
      ((refl, refl), ((refl, refl), ((started-IsHonest, refl), ((tt, refl), tt))))

row_cap_example :
    counting "user:1" (
      run_turns db 0
        (record { elapsed = 200; requests = requests }
          ∷ record { elapsed = 999999; requests = expire "j1" ∷ [] }
          ∷ [])
        empty)
    ≤ 2
row_cap_example =
    row_cap db 2 0
      (record { elapsed = 200; requests = requests }
        ∷ record { elapsed = 999999; requests = expire "j1" ∷ [] }
        ∷ [])
      "user:1" (ground arith)
      (
        ((refl, refl), ((refl, refl), ((started-IsHonest, started-StartsNone), ((tt, tt), tt)))),
        (((tt, tt), tt), tt),
      )

-- While one client changes the first job, another submits a second one and changes the first.
abbrev client : Client
client = record {
  table = serve_all db 200 (insert (job_of "j1") 50 2 ∷ []) empty;
  clock = 200;
  others =
      record { elapsed = 1; requests = [] }
      ∷ record { elapsed = 1; requests = insert (job_of "j2") 0 2 ∷ change "j1" started ∷ [] }
      ∷ [];
}

client-IsFair : IsFair "j1" client
unfolding serve_all serve
client-IsFair = record {
  keys = serve-IsKeyed db 200 (insert (job_of "j1") 50 2) empty refl empty-IsKeyed;
  fair = (tt, (((refl, refl), ((tt, started-IsHonest), tt)), tt));
}

mutate_linearised_example : Linearised db "j1" started client (mutate db "j1" started client)
mutate_linearised_example =
    mutate_linearised db "j1" started started-IsHonest.same_id client client-IsFair
