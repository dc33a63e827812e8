-- ===== src/Jobs/Service.antt =====
-- backend/app/services/execution_job_service.py: driving a queued job through its states.
-- The runner, the destination check and the analysis are parameters: each is a function of
-- what the service hands to it.
pub mod Holding
pub mod Stages
pub mod Settle
pub mod RunJob
use auto_correlation.Prelude.{
  ℕ, String, Bool, true, false, not, Option, none, some, List, [], ◌∷◌, map, ltb, if◌then◌else◌,
  length, str_eq,
}
use auto_correlation.Prelude.Dict.{Dict}
use auto_correlation.Errors.{Message, plain, problem, other, Result, ok, err}
use auto_correlation.Jobs.Model.{
  ExecutionJobState, validating, running_baseline, running_comparison, analyzing, ready, failed,
  Document, Bytes, RunInput, RunOutcome, RunnerCall, returns, raises, polls, ExecutionJob,
}
use auto_correlation.Jobs.Changes.{
  Notes, no_notes, failure, Written, apply_state, claim, release_worker,
}
use auto_correlation.Jobs.Store.{get, mutate}
use auto_correlation.Jobs.World.{Completion, Analysis, World, access}

abbrev found_written : Option (Written × ExecutionJob) → Bool
found_written none = false
found_written (some (w, job)) = w.written

abbrev add_completion : String → Option (Written × ExecutionJob) → List Completion → List Completion
add_completion job_id none l = l
add_completion job_id (some (w, job)) l =
    if w.finished
    then record { job_id = job_id; outcome = job.state; error_code = job.error_code } ∷ l
    else l

unfoldable pub write_state : String → ExecutionJobState → Notes → World → Bool × World
write_state job_id state notes w =
    let (result, w') = access (λ now. mutate now job_id (apply_state state notes)) w in
    (found_written result, record w' { completions = add_completion job_id result w'.completions })

unfoldable pub fail_job : String → String → String → World → Bool × World
unfolding write_state
fail_job job_id code detail w = write_state job_id failed (failure code detail) w

abbrev stop_on : Option ExecutionJob → Bool
stop_on none = true
stop_on (some job) = job.cancel_requested

-- `_cancellation_probe`
unfoldable pub should_cancel : String → World → Bool × World
should_cancel job_id w = let (job, w') = access (λ now. get now job_id) w in (stop_on job, w')

-- `_run_safely`: `none` for an exception of the runner.
unfoldable pub run_safely : RunnerCall → String → World → Option RunOutcome × World
run_safely (returns outcome) job_id w = (some outcome, w)
run_safely raises job_id w = (none, w)
run_safely (polls next) job_id w =
    let (stop, w') = should_cancel job_id w in run_safely (next stop) job_id w'

report_error : ℕ → Option Bytes → Option (String × Option Message)
report_error max_report_bytes none =
    some ("missing_report", some (plain "The Newman run did not produce a report."))
report_error max_report_bytes (some []) =
    some ("missing_report", some (plain "The Newman run did not produce a report."))
report_error max_report_bytes (some (b ∷ r)) =
    if ltb max_report_bytes (length (b ∷ r))
    then some
        ("report_too_large", some (plain "The Newman report exceeded the maximum allowed size."))
    else none

-- `outcome.error_code or "run_failed"`
abbrev code_of : Option String → String
code_of none = "run_failed"
code_of (some code) = if str_eq code "" then "run_failed" else code

unfoldable pub outcome_error : ℕ → RunOutcome → Option (String × Option Message)
unfolding report_error
outcome_error max_report_bytes outcome =
    if not outcome.success
    then some (code_of outcome.error_code, outcome.error_detail)
    else report_error max_report_bytes outcome.report_bytes

pub record DomainReport : Type 0 where
  pub warnings : List String
  pub pinned_addresses : Dict (List String)

pub record Settings : Type 0 where
  pub max_report_bytes : ℕ
  pub job_run_timeout_seconds : ℕ

-- The arguments of `run_job`, but for the job and the store.
pub record Material : Type 0 where
  pub collection_data : Document
  pub environment_data : Option Document
  pub variable_values : Dict String
  pub supplied_values : Dict String
  pub folder_id : Option String

-- What the service calls.
pub record Calls : Type 0 where
  pub runner : RunInput → RunnerCall
  pub extract_target_domains : Document → Dict String → Result DomainReport
  pub redact_variable_values : String → Dict String → String
  pub build_analysis : Bytes → Bytes → Result Analysis
  -- Where there is one, it stores the reports and the service makes no analysis itself.
  pub hand_off_reports : Option (String → Bytes → Bytes → World → Result (Unit {0}) × World)

-- `if warnings:`
abbrev pub has_any : {A : Type 0} → List A → Bool
has_any [] = false
has_any (x ∷ r) = true

module _ (settings : Settings) (calls : Calls) (material : Material) (job_id : String) where
  unfoldable pub fresh_run_input : DomainReport → RunInput
  fresh_run_input report = record {
    collection_data = material.collection_data;
    environment_data = material.environment_data;
    supplied_values = material.supplied_values;
    folder_id = material.folder_id;
    timeout_seconds = settings.job_run_timeout_seconds;
    host_pins = report.pinned_addresses;
    job_id = job_id;
  }

  -- `_run_stage` past the check of the outcome.
  unfoldable pub stage_checked :
      RunOutcome → Option (String × Option Message) → World → Option RunOutcome × World
  stage_checked outcome none w = (some outcome, w)
  stage_checked outcome (some (code, detail)) w = (
    none,
    (write_state job_id failed (record no_notes { error_code = some code; error_detail = detail })
        w).1,
  )

  unfoldable pub stage_ran : Option RunOutcome → World → Option RunOutcome × World
  unfolding stage_checked
  stage_ran none w = (
    none,
    (write_state job_id failed (failure "runner_error" "The Newman runner failed unexpectedly.")
        w).1,
  )
  stage_ran (some outcome) w =
      stage_checked outcome (outcome_error settings.max_report_bytes outcome) w

  abbrev note_run : RunInput → World → World
  note_run input w = record w { runs = input ∷ w.runs }

  unfoldable pub stage_entered : RunInput → Bool × World → Option RunOutcome × World
  unfolding stage_ran
  stage_entered input (false, w) = (none, w)
  stage_entered input (true, w) =
      let (outcome, w') = run_safely (calls.runner input) job_id (note_run input w) in
      stage_ran outcome w'

  unfoldable pub run_stage : RunInput → ExecutionJobState → World → Option RunOutcome × World
  unfolding stage_entered
  run_stage input stage w = stage_entered input (write_state job_id stage no_notes w)

  -- The last part of `_drive_job`: the analysis is stored under the job's owner.
  analysis_stored : Analysis → Option ExecutionJob × World → World
  analysis_stored analysis (none, w) = w
  analysis_stored analysis (some job, w) =
      let owned = record analysis { owner_key = some job.owner_key } in
      (write_state job_id ready (record no_notes { analysis_id = some analysis.id })
        (record w { analyses = owned ∷ w.analyses })).1

  analysis_built : Result Analysis → World → World
  unfolding analysis_stored
  analysis_built (ok analysis) w = analysis_stored analysis (access (λ now. get now job_id) w)
  analysis_built (err (problem p)) w =
      (write_state job_id failed
        (record no_notes { error_code = some p.code; error_detail = p.detail }) w).1
  analysis_built (err other) w =
      (write_state job_id failed (failure "analysis_error" "Analysis failed unexpectedly.") w).1

  hand_off_or_analyse :
      Option (String → Bytes → Bytes → World → Result (Unit {0}) × World)
      → Bytes
      → Bytes
      → World
      → Result (Unit {0}) × World
  unfolding analysis_built
  hand_off_or_analyse none baseline comparison w =
      (ok tt, analysis_built (calls.build_analysis baseline comparison) w)
  hand_off_or_analyse (some hand_off) baseline comparison w = hand_off job_id baseline comparison w

  -- A report that is missing here fails the `assert`.
  reports_present : Option Bytes → Option Bytes → World → Result (Unit {0}) × World
  unfolding hand_off_or_analyse
  reports_present (some baseline) (some comparison) w =
      hand_off_or_analyse calls.hand_off_reports baseline comparison w
  reports_present _ _ w = (err other, w)

  analysing : RunOutcome → RunOutcome → Bool × World → Result (Unit {0}) × World
  unfolding reports_present
  analysing baseline comparison (false, w) = (ok tt, w)
  analysing baseline comparison (true, w) =
      reports_present baseline.report_bytes comparison.report_bytes w

  compared : RunOutcome → Option RunOutcome × World → Result (Unit {0}) × World
  unfolding analysing
  compared baseline (none, w) = (ok tt, w)
  compared baseline (some comparison, w) =
      analysing baseline comparison (write_state job_id analyzing no_notes w)

  baseline_done : RunInput → Option RunOutcome × World → Result (Unit {0}) × World
  unfolding compared
  baseline_done input (none, w) = (ok tt, w)
  baseline_done input (some baseline, w) = compared baseline (run_stage input running_comparison w)

  abbrev redacted : DomainReport → List String
  redacted report =
      map (λ w. calls.redact_variable_values w material.variable_values) report.warnings

  destinations_checked : Result DomainReport → World → Result (Unit {0}) × World
  unfolding baseline_done
  destinations_checked (err e) w = (err e, w)
  destinations_checked (ok report) w =
      if has_any report.warnings
      then (
        ok tt,
        (write_state job_id failed
            (record (failure "destination_validation_failed"
              "One or more request targets failed destination validation.") {
                extra_warnings = redacted report;
              })
            w).1,
      )
      else baseline_done (fresh_run_input report)
          (run_stage (fresh_run_input report) running_baseline w)

  validation_entered : Bool × World → Result (Unit {0}) × World
  unfolding destinations_checked
  validation_entered (false, w) = (ok tt, w)
  validation_entered (true, w) =
      destinations_checked
        (calls.extract_target_domains material.collection_data material.variable_values) w

  unfoldable pub drive_job : World → Result (Unit {0}) × World
  unfolding validation_entered
  drive_job w = validation_entered (write_state job_id validating no_notes w)

  -- `except Exception` of `run_job`: the state is re-read for the log, and the job fails.
  pub recover : Result (Unit {0}) × World → World
  recover (ok u, w) = w
  recover (err e, w) =
      (write_state job_id failed
        (failure "unexpected_error" "The execution job failed unexpectedly.")
        (access (λ now. get now job_id) w).1).1

  -- `finally`
  unfoldable pub release : World → World
  release w = (access (λ now. mutate now job_id release_worker) w).1

  abbrev was_claimed : Option (Bool × ExecutionJob) → Bool
  was_claimed none = false
  was_claimed (some (claimed, job)) = claimed

  unfoldable pub claim_job : World → Bool × World
  claim_job w =
      let (result, w') = access (λ now. mutate now job_id claim) w in (was_claimed result, w')

  job_claimed : Bool × World → World
  unfolding drive_job recover release
  job_claimed (false, w) = w
  job_claimed (true, w) = release (recover (drive_job w))

  unfoldable pub run_job : World → World
  unfolding claim_job job_claimed
  run_job w = job_claimed (claim_job w)
