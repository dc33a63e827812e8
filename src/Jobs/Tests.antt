-- ===== src/Jobs/Tests.antt =====
-- One job run on concrete input, with an owner who polls and then cancels; and submissions under
-- a cap.
use auto_correlation.Prelude.{
  ◌≡◌, ◌≤◌, ◌⊎◌, refl, String, true, false, none, some, List, [], ◌∷◌, arith, if◌then◌else◌, subst,
  eq_iff,
}
use auto_correlation.Prelude.Dict.{lookup, put, pop, pop_where}
use auto_correlation.Errors.{ok}
use auto_correlation.Jobs.Model.{
  ExecutionJob, queued, validating, running_baseline, running_comparison, analyzing, ready,
  RunnerCall, returns, polls,
}
use auto_correlation.Jobs.Changes.{apply_state, claim, release_worker, cancel_if_active}
use auto_correlation.Jobs.Store.{new, cleanup, get, mutate, count_active_locked, create_if_allowed}
use auto_correlation.Jobs.Store.Laws.{job_at, IsWellFormed}
use auto_correlation.Jobs.Store.Admission.{Repeated, Refused, Admitted, create_if_allowed_cases}
use auto_correlation.Jobs.World.Cap.{run_batches, owner_cap}
use auto_correlation.Jobs.World.{
  World, Interlude, poll, cancel, submit, start, pause, access, act_all, delete_execution_job,
}
use auto_correlation.Jobs.Lifecycle.{IsSound, created}
use auto_correlation.Jobs.Service.{
  Settings, Calls, Material, run_job, claim_job, write_state, run_safely, run_stage, drive_job,
  outcome_error, should_cancel,
}
use auto_correlation.Jobs.Service.Stages.{Settled}
use auto_correlation.Jobs.Service.RunJob.{SoundAt, run_job_settles}

abbrev job : ExecutionJob
job = record {
  id = "j1";
  owner_key = "user:1";
  collection_name = "Booking";
  created_at = 100;
  expires_at = 1900;
  idempotency_key = none;
  state = queued;
  analysis_id = none;
  error_code = none;
  error_detail = none;
  stage_history = [];
  warnings = [];
  cancel_requested = false;
  worker_active = false;
  reports_ready = false;
  finalizing_since = none;
}

abbrev settings : Settings
settings = record { max_report_bytes = 1000; job_run_timeout_seconds = 300 }

abbrev good_run : RunnerCall
good_run = polls (λ stop. returns (record {
  success = if stop then false else true;
  report_bytes = some (123 ∷ 125 ∷ []);
  error_code = some "run_cancelled";
  error_detail = none;
}))

abbrev calls : Calls
calls = record {
  runner = λ input. good_run;
  extract_target_domains = λ c v. ok (record { warnings = []; pinned_addresses = [] });
  redact_variable_values = λ t v. t;
  build_analysis = λ b c. ok (record { id = "a1"; owner_key = none });
  hand_off_reports = none;
}

abbrev material : Material
material = record {
  collection_data = "{}";
  environment_data = none;
  variable_values = [];
  supplied_values = [];
  folder_id = none;
}

abbrev world : List Interlude → World
world others = record {
  store = record { ttl = 1800; jobs = ("j1", job) ∷ [] };
  clock = 101;
  others = others;
  completions = [];
  runs = [];
  analyses = [];
  objects = [];
  queue = [];
}

abbrev cancelling : List Interlude
cancelling =
    record { elapsed = 1; actions = poll "j1" ∷ [] }
    ∷ record { elapsed = 1; actions = [] }
    ∷ record { elapsed = 1; actions = submit (record job { id = "j2" }) 600 2 ∷ cancel "j1" ∷ [] }
    ∷ []

program : Unit {0}
unfolding run_job claim_job write_state run_safely run_stage drive_job outcome_error should_cancel
    access pause act_all delete_execution_job get mutate cleanup create_if_allowed lookup put pop
    pop_where apply_state claim release_worker cancel_if_active
program = tt

runs_to_ready :
    (lookup "j1" (run_job settings calls material "j1" (world [])).store.jobs)
    ≡ some (record job {
      state = ready;
      analysis_id = some "a1";
      stage_history = validating ∷ running_baseline ∷ running_comparison ∷ analyzing ∷ ready ∷ [];
    })
unfolding program
runs_to_ready = refl

job-IsSound : IsSound job
job-IsSound = record {
  traced = created;
  cancel_final = λ p. cc;
  ready_analysed = λ p. cc;
  analysed_ready = λ p. cc;
  failed_coded = λ p. cc;
}

world-IsWellFormed : (others : List Interlude) → IsWellFormed (world others).store
unfolding lookup
world-IsWellFormed others = record {
  unique = (tt, tt);
  keyed = λ k j e. ground (arith, eq_iff "j1" k);
}

world-SoundAt : (others : List Interlude) → SoundAt "j1" (world others).store
unfolding lookup
world-SoundAt others j e = let p : job ≡ j = ground arith in subst IsSound p job-IsSound

run_job_settles_example :
    (j : ExecutionJob) × (job_at "j1"
        (run_job settings calls material "j1" (world cancelling)).store
      ≡ some j)
    × (j.worker_active ≡ false)
    × Settled none j
    × IsSound j
unfolding program
run_job_settles_example =
    run_job_settles settings calls material "j1" (world cancelling) tt
      (world-IsWellFormed cancelling) (world-SoundAt cancelling)
      ((tt, tt), (tt, ((refl, (tt, tt)), tt))) refl

-- Three submissions under a cap of 2, a repeat of a key and a cancellation among them.
abbrev keyed_job : String → String → ExecutionJob
keyed_job id key = record job { id = id; idempotency_key = some key }

abbrev submissions : List Interlude
submissions =
    record { elapsed = 100; actions = submit (keyed_job "j1" "a") 600 2 ∷ start "j1" ∷ [] }
    ∷ record { elapsed = 1; actions = submit (keyed_job "j2" "a") 600 2 ∷ cancel "j1" ∷ [] }
    ∷ record { elapsed = 1; actions = submit (keyed_job "j3" "b") 600 2 ∷ poll "j3" ∷ [] }
    ∷ []

owner_cap_example : count_active_locked "user:1" (run_batches 0 submissions (new 1800)) ≤ 2
owner_cap_example =
    owner_cap 1800 0 2 "user:1" submissions
      ((refl, (tt, tt)), ((refl, (tt, tt)), ((refl, (tt, tt)), tt)))

create_if_allowed_cases_example :
    let r = create_if_allowed 101 (keyed_job "j2" "a") 600 2 (world []).store in
    Repeated 101 (keyed_job "j2" "a") 600 2 (world []).store r
    ⊎ (Refused 101 (keyed_job "j2" "a") 600 2 (world []).store r
        ⊎ Admitted 101 (keyed_job "j2" "a") 600 2 (world []).store r)
create_if_allowed_cases_example =
    create_if_allowed_cases 101 (keyed_job "j2" "a") 600 2 (world []).store
