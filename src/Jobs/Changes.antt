-- ===== src/Jobs/Changes.antt =====
-- The functions that callers hand to `store.mutate`: each changes the job in place, and returns
-- what it leaves in the caller's `nonlocal` variables.
use auto_correlation.Prelude.{
  ℕ, ◌-◌, String, Bool, true, false, not, ◌&&◌, Option, none, some, List, [], ◌∷◌, ◌++◌, ltb,
  if◌then◌else◌, is_none,
}
use auto_correlation.Errors.{Message, plain}
use auto_correlation.Jobs.Model.{
  ExecutionJobState, cancelled, ExecutionJob, is_active, is_queued, is_analyzing,
}

-- The keyword arguments of `_write_state`.
pub record Notes : Type 0 where
  pub error_code : Option String
  pub error_detail : Option Message
  pub extra_warnings : List String
  pub analysis_id : Option String

abbrev pub no_notes : Notes
no_notes = record {
  error_code = none;
  error_detail = none;
  extra_warnings = [];
  analysis_id = none;
}

abbrev pub failure : String → String → Notes
failure code detail = record no_notes { error_code = some code; error_detail = some (plain detail) }

-- `if new is not None: field = new`
abbrev pub given_or : {A : Type 0} → Option A → Option A → Option A
given_or none old = old
given_or (some new) old = some new

-- `written` and `finished`
pub record Written : Type 0 where
  pub written : Bool
  pub finished : Bool

-- `_apply` of `_write_state`
unfoldable pub apply_state : ExecutionJobState → Notes → ExecutionJob → Written × ExecutionJob
apply_state state notes fresh =
    if not (is_active fresh)
    then (record { written = false; finished = false }, fresh)
    else if fresh.cancel_requested
    then (
      record { written = false; finished = true },
      record fresh { state = cancelled; stage_history = fresh.stage_history ++ cancelled ∷ [] },
    )
    else let next = record fresh {
      state = state;
      stage_history = fresh.stage_history ++ state ∷ [];
      error_code = given_or notes.error_code fresh.error_code;
      error_detail = given_or notes.error_detail fresh.error_detail;
      warnings = fresh.warnings ++ notes.extra_warnings;
      analysis_id = given_or notes.analysis_id fresh.analysis_id;
    } in
      (record { written = true; finished = not (is_active next) }, next)

-- `_claim` of `run_job`
unfoldable pub claim : ExecutionJob → Bool × ExecutionJob
claim fresh =
    if is_queued fresh.state && not fresh.worker_active
    then (true, record fresh { worker_active = true })
    else (false, fresh)

-- `_release_worker`
unfoldable pub release_worker : ExecutionJob → Unit {0} × ExecutionJob
release_worker job = (tt, record job { worker_active = false })

-- `_cancel_if_active` of the DELETE endpoint
unfoldable pub cancel_if_active : ExecutionJob → Bool × ExecutionJob
cancel_if_active fresh =
    if is_active fresh
    then (
      true,
      record fresh {
        cancel_requested = true;
        state = cancelled;
        stage_history = fresh.stage_history ++ cancelled ∷ [];
      },
    )
    else (false, fresh)

-- `_ready` of the worker's hand-off
unfoldable pub mark_ready : ExecutionJob → Unit {0} × ExecutionJob
mark_ready job = (tt, record job { reports_ready = true })

unfoldable pub needs_finalizing : ExecutionJob → Bool
needs_finalizing job = is_analyzing job.state && (job.reports_ready && is_none job.analysis_id)

abbrev pub stale_claim_seconds : ℕ
stale_claim_seconds = 300

abbrev pub is_stale : ℕ → Option ℕ → Bool
is_stale now none = true
is_stale now (some since) = ltb stale_claim_seconds (now - since)

-- One call of `_claim` of `finalize_job`: whether it sets the flag.
unfoldable pub claim_finalizing : ℕ → ExecutionJob → Bool × ExecutionJob
unfolding needs_finalizing
claim_finalizing now fresh =
    if needs_finalizing fresh && is_stale now fresh.finalizing_since
    then (true, record fresh { finalizing_since = some now })
    else (false, fresh)
