-- ===== src/Jobs/World.antt =====
-- What one worker works in: the shared store, the clock, and what the other threads do between
-- two of its own steps. `others` lists these interludes in order, one before each access that
-- the worker makes to the store.
pub mod Effects
pub mod Driven
pub mod Soundness
pub mod Cap
use auto_correlation.Prelude.{
  ℕ, ◌+◌, String, Bool, false, not, ◌&&◌, Option, none, some, List, [], ◌∷◌, if◌then◌else◌,
}
use auto_correlation.Jobs.Model.{ExecutionJobState, ExecutionJob, RunInput, Bytes}
use auto_correlation.Jobs.Changes.{
  Notes, apply_state, claim, release_worker, cancel_if_active, mark_ready, claim_finalizing,
}
use auto_correlation.Jobs.Store.{
  JobStore, get, count_active, find_by_idempotency_key, delete, create_if_allowed, mutate,
}

-- The store operations of the other threads: every one that the application makes. `cancel` is the
-- whole DELETE with nothing between its two accesses to the store, `mark_cancelled` and `remove` are
-- these accesses apart. `create` and `update` are called by tests only.
pub data Action : Type 0 where
  submit : ExecutionJob → ℕ → ℕ → Action
  poll : String → Action
  count : String → Action
  find_repeat : String → Option String → ℕ → Action
  cancel : String → Action
  mark_cancelled : String → Action
  remove : String → Action
  report_ready : String → Action
  finalize : String → ℕ → Action
  start : String → Action
  write : String → ExecutionJobState → Notes → Action
  release : String → Action

-- The end of `delete_execution_job`: a job that was already terminal, and that no worker
-- drives, is removed.
finish_delete : String → Option (Bool × ExecutionJob) × JobStore → Bool × JobStore
finish_delete job_id (none, s) = (false, s)
finish_delete job_id (some (cancelled, job), s) =
    if not cancelled && not job.worker_active
    then (cancelled, (delete job_id s).1)
    else (cancelled, s)

-- `delete_execution_job`; whether it cancelled the job. `between` is what other threads do to the
-- store between its two accesses.
unfoldable pub delete_execution_job :
    (JobStore → JobStore) → ℕ → String → JobStore → Bool × JobStore
unfolding finish_delete
delete_execution_job between now job_id s =
    let (result, t) = mutate now job_id cancel_if_active s in
    finish_delete job_id (result, between t)

unfoldable pub act : ℕ → Action → JobStore → JobStore
act now (submit job window_seconds max_active) s =
    (create_if_allowed now job window_seconds max_active s).1
act now (poll job_id) s = (get now job_id s).1
act now (count owner_key) s = (count_active now owner_key s).1
act now (find_repeat owner_key idempotency_key window_seconds) s =
    (find_by_idempotency_key now owner_key idempotency_key window_seconds s).1
act now (cancel job_id) s = (delete_execution_job (λ t. t) now job_id s).1
act now (mark_cancelled job_id) s = (mutate now job_id cancel_if_active s).1
act now (remove job_id) s = (delete job_id s).1
act now (report_ready job_id) s = (mutate now job_id mark_ready s).1
act now (finalize job_id since) s = (mutate now job_id (claim_finalizing since) s).1
act now (start job_id) s = (mutate now job_id claim s).1
act now (write job_id state notes) s = (mutate now job_id (apply_state state notes) s).1
act now (release job_id) s = (mutate now job_id release_worker s).1

unfoldable pub act_all : ℕ → List Action → JobStore → JobStore
unfolding act
act_all now [] s = s
act_all now (a ∷ r) s = act_all now r (act now a s)

pub record Interlude : Type 0 where
  pub elapsed : ℕ
  pub actions : List Action

-- A `JobsCompleted` metric: its job, outcome and error code.
pub record Completion : Type 0 where
  pub job_id : String
  pub outcome : ExecutionJobState
  pub error_code : Option String

pub record Analysis : Type 0 where
  pub id : String
  pub owner_key : Option String

-- An object that S3 holds under a job's prefix.
pub data ObjectKind : Type 0 where
  material_object baseline_report comparison_report : ObjectKind

pub record StoredObject : Type 0 where
  pub job_id : String
  pub kind : ObjectKind
  pub content : Bytes

pub record QueueMessage : Type 0 where
  pub job_id : String
  pub receipt_handle : String

pub record World : Type 0 where
  pub store : JobStore
  pub clock : ℕ
  pub others : List Interlude
  -- What was emitted, run and stored so far, the newest first.
  pub completions : List Completion
  pub runs : List RunInput
  pub analyses : List Analysis
  -- What S3 and the queue hold: nothing where jobs run in the API process.
  pub objects : List StoredObject
  pub queue : List QueueMessage

-- The other threads' turn.
interlude : List Interlude → World → World
unfolding act_all
interlude [] w = w
interlude (i ∷ rest) w =
    let now = w.clock + i.elapsed in
    record w { clock = now; store = act_all now i.actions w.store; others = rest }

unfoldable pub pause : World → World
unfolding interlude
pause w = interlude w.others w

-- One access to the store, after the others' turn.
unfoldable pub access : {A : Type 0} → (ℕ → JobStore → A × JobStore) → World → A × World
unfolding pause
access op w = let w' = pause w in let (a, s) = op w'.clock w'.store in (a, record w' { store = s })
