-- ===== src/Jobs/Model.antt =====
-- backend/app/domain/execution_job.py: the states of a job, the job record, and what a runner
-- is given and gives back. Times are natural numbers of seconds, bytes are lists of codes.
use auto_correlation.Prelude.{ℕ, String, Bool, true, false, not, Option, List}
use auto_correlation.Prelude.Dict.{Dict}
use auto_correlation.Errors.{Message}

pub data ExecutionJobState : Type 0 where
  uploaded awaiting_variables queued validating running_baseline running_comparison :
      ExecutionJobState
  analyzing ready failed cancelled expired : ExecutionJobState

-- Membership in `_TERMINAL`.
abbrev pub is_terminal : ExecutionJobState → Bool
is_terminal ready = true
is_terminal failed = true
is_terminal cancelled = true
is_terminal expired = true
is_terminal _ = false

-- `state == ExecutionJobState.QUEUED` and the like.
abbrev pub is_queued : ExecutionJobState → Bool
is_queued queued = true
is_queued _ = false

abbrev pub is_analyzing : ExecutionJobState → Bool
is_analyzing analyzing = true
is_analyzing _ = false

-- A JSON document that the service passes on unread is known by its text.
abbrev pub Document : Type 0
Document = String

abbrev pub Bytes : Type 0
Bytes = List ℕ

pub record RunInput : Type 0 where
  pub collection_data : Document
  pub environment_data : Option Document
  pub supplied_values : Dict String
  pub folder_id : Option String
  pub timeout_seconds : ℕ
  pub host_pins : Dict (List String)
  pub job_id : String

pub record RunOutcome : Type 0 where
  pub success : Bool
  pub report_bytes : Option Bytes
  pub error_code : Option String
  pub error_detail : Option Message

-- `NewmanRunner.run`, with the polls of `should_cancel` that it makes: it returns an outcome,
-- raises, or polls and goes on by the answer.
pub data RunnerCall : Type 0 where
  returns : RunOutcome → RunnerCall
  raises : RunnerCall
  polls : (Bool → RunnerCall) → RunnerCall

pub record ExecutionJob : Type 0 where
  pub id : String
  pub owner_key : String
  pub collection_name : String
  pub created_at : ℕ
  pub expires_at : ℕ
  pub idempotency_key : Option String
  pub state : ExecutionJobState
  pub analysis_id : Option String
  pub error_code : Option String
  pub error_detail : Option Message
  -- Each entry is `state.value`: a member of the string enum is its value.
  pub stage_history : List ExecutionJobState
  pub warnings : List String
  pub cancel_requested : Bool
  pub worker_active : Bool
  pub reports_ready : Bool
  pub finalizing_since : Option ℕ

-- `ExecutionJob.is_active`
abbrev pub is_active : ExecutionJob → Bool
is_active j = not (is_terminal j.state)
