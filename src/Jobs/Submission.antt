-- ===== src/Jobs/Submission.antt =====
-- backend/app/services/execution_job_service.py: `create_job` and `prepare_run_material`. The
-- readers of collections and environments are an interface, `Readers`. The other threads act
-- before each access to the store.
pub mod Resolved
mod Tests
use auto_correlation.Prelude.{
  ℕ, ◌+◌, String, Bool, true, false, not, Option, none, some, List, [], ◌∷◌, map, leb,
  if◌then◌else◌, str_eq, truthy, or_else, is_some,
}
use auto_correlation.Prelude.Dict.{Dict}
use auto_correlation.Errors.{
  Message, plain, filled, ProblemException, validation_error, Result, ok, err, raise,
}
use auto_correlation.Jobs.Model.{ExecutionJob, queued, Document, Bytes}
use auto_correlation.Jobs.Store.{
  count_active, create_if_allowed, find_by_idempotency_key, too_many_active_jobs,
}
use auto_correlation.Jobs.World.{World, access}
use auto_correlation.Postman.Resolver.{
  VariableReference, KnownValues, resolve_variables, unresolved_names, merged_values, is_in,
}

pub record ParsedCollection : Type 0 where
  pub document : Document
  pub warnings : List String

pub record ParsedEnvironment : Type 0 where
  pub document : Document
  pub values : Dict String

-- What the service calls to read its input; a parser may raise. `ambiguous_folder` is the text of
-- the error that `folder_run_name` raises, if it does, and `info_name` is `info.name`.
pub record Readers : Type 0 where
  pub parse_collection : Bytes → String → Result ParsedCollection
  pub parse_environment : Bytes → String → Result ParsedEnvironment
  pub extract_folders : Document → List String
  pub ambiguous_folder : Document → String → Option String
  pub collection_variable_values : Document → Dict String
  pub extract_variable_references : Document → List VariableReference
  pub script_set_variable_names : Document → List String
  pub is_sensitive_key : String → Bool
  pub info_name : Document → Option String

pub record SubmissionSettings : Type 0 where
  pub idempotency_window_seconds : ℕ
  pub max_concurrent_jobs_per_owner : ℕ
  pub job_ttl_seconds : ℕ

-- The arguments of `create_job`.
pub record Submission : Type 0 where
  pub collection_raw : Bytes
  pub collection_filename : String
  pub environment_raw : Option Bytes
  pub environment_filename : Option String
  pub folder_id : Option String
  pub supplied_values : Dict String
  pub owner_key : String
  pub idempotency_key : Option String

-- `a or d` on an optional text.
abbrev text_or : Option String → String → String
text_or o d = if truthy o then or_else o d else d

unfoldable pub folder_problem : String → ProblemException
unfolding validation_error
folder_problem folder_id =
    let detail = filled "Unknown folder '{}'." (folder_id ∷ []) [] in
    validation_error detail (("$.folder_id", detail) ∷ [])

unfoldable pub ambiguous_problem : String → ProblemException
unfolding validation_error
ambiguous_problem name =
    let detail =
      filled
        "Folder '{}' is not uniquely named; Newman selects folders by name. Rename one of the folders to run it on its own."
        (name ∷ []) [] in
    validation_error detail (("$.folder_id", detail) ∷ [])

-- The names fill the template joined by commas.
unfoldable pub unresolved_problem : List String → ProblemException
unfolding validation_error
unresolved_problem names =
    validation_error (filled "Cannot start execution: unresolved variables {}." names [])
      (map (λ n. ("$.supplied_values", filled "Missing value for '{}'." (n ∷ []) [])) names)

module _ (readers : Readers) (settings : SubmissionSettings) (args : Submission) where
  abbrev ambiguity : Option String → Result (Unit {0})
  ambiguity none = ok tt
  ambiguity (some name) = raise (ambiguous_problem name)

  unfoldable pub check_folder : Document → Option String → Result (Unit {0})
  check_folder contents none = ok tt
  check_folder contents (some folder_id) =
      if is_in folder_id (readers.extract_folders contents)
      then ambiguity (readers.ambiguous_folder contents folder_id)
      else raise (folder_problem folder_id)

  unfoldable pub read_environment : Option Bytes → Result (Option ParsedEnvironment)
  read_environment none = ok none
  read_environment (some raw) =
      elim (readers.parse_environment raw (text_or args.environment_filename "environment.json")) [
        | ok parsed ↦ ok (some parsed)
        | err e ↦ err e
      ]

  abbrev pub values_of : Option ParsedEnvironment → Dict String
  values_of none = []
  values_of (some parsed) = parsed.values

  abbrev data_of : Option ParsedEnvironment → Option Document
  data_of none = none
  data_of (some parsed) = some parsed.document

  abbrev pub known_values : Document → Option ParsedEnvironment → KnownValues
  known_values contents environment = record {
    collection_variables = readers.collection_variable_values contents;
    environment_values = values_of environment;
    supplied_values = args.supplied_values;
    script_set = readers.script_set_variable_names contents;
  }

  abbrev pub missing : Document → Option ParsedEnvironment → List String
  missing contents environment = unresolved_names (
      resolve_variables readers.is_sensitive_key (readers.extract_variable_references contents)
        (known_values contents environment))

  abbrev pub new_job : String → ℕ → ParsedCollection → ExecutionJob
  new_job id now collection = record {
    id = id;
    owner_key = args.owner_key;
    collection_name = text_or (readers.info_name collection.document) "Untitled collection";
    created_at = now;
    expires_at = now + settings.job_ttl_seconds;
    idempotency_key = args.idempotency_key;
    state = queued;
    analysis_id = none;
    error_code = none;
    error_detail = none;
    stage_history = [];
    warnings = collection.warnings;
    cancel_requested = false;
    worker_active = false;
    reports_ready = false;
    finalizing_since = none;
  }

  -- The authoritative gate; `id` is fresh and `now` the clock just before.
  insert_job :
      String → ParsedCollection → List String → World → Result (ExecutionJob × Bool) × World
  insert_job id collection [] w =
      access
        (λ now.
          create_if_allowed now (new_job id w.clock collection) settings.idempotency_window_seconds
            settings.max_concurrent_jobs_per_owner)
        w
  insert_job id collection (n ∷ r) w = (raise (unresolved_problem (n ∷ r)), w)

  check_variables :
      String
      → ParsedCollection
      → Result (Option ParsedEnvironment)
      → World
      → Result (ExecutionJob × Bool) × World
  unfolding insert_job
  check_variables id collection (err e) w = (err e, w)
  check_variables id collection (ok environment) w =
      insert_job id collection (missing collection.document environment) w

  folder_checked :
      String → ParsedCollection → Result (Unit {0}) → World → Result (ExecutionJob × Bool) × World
  unfolding check_variables
  folder_checked id collection (err e) w = (err e, w)
  folder_checked id collection (ok u) w =
      check_variables id collection (read_environment args.environment_raw) w

  parsed : String → Result ParsedCollection → World → Result (ExecutionJob × Bool) × World
  unfolding folder_checked
  parsed id (err e) w = (err e, w)
  parsed id (ok collection) w =
      folder_checked id collection (check_folder collection.document args.folder_id) w

  counted : String → ℕ × World → Result (ExecutionJob × Bool) × World
  unfolding parsed
  counted id (active, w) =
      if leb settings.max_concurrent_jobs_per_owner active
      then (raise (too_many_active_jobs settings.max_concurrent_jobs_per_owner), w)
      else parsed id (readers.parse_collection args.collection_raw args.collection_filename) w

  searched : String → Option ExecutionJob × World → Result (ExecutionJob × Bool) × World
  unfolding counted
  searched id (some existing, w) = (ok (existing, false), w)
  searched id (none, w) = counted id (access (λ now. count_active now args.owner_key) w)

  unfoldable pub create_job : String → World → Result (ExecutionJob × Bool) × World
  unfolding searched
  create_job id w = searched id (
      if truthy args.idempotency_key
      then access
          (λ now.
            find_by_idempotency_key now args.owner_key args.idempotency_key
              settings.idempotency_window_seconds)
          w
      else (none, w))

  with_environment :
      Document
      → Result (Option ParsedEnvironment)
      → Result (Document × Option Document × Dict String)
  with_environment contents (err e) = err e
  with_environment contents (ok environment) =
      ok (contents, data_of environment, merged_values (known_values contents environment))

  with_collection : Result ParsedCollection → Result (Document × Option Document × Dict String)
  unfolding with_environment
  with_collection (err e) = err e
  with_collection (ok collection) =
      with_environment collection.document (read_environment args.environment_raw)

  unfoldable pub prepare_run_material : Result (Document × Option Document × Dict String)
  unfolding with_collection
  prepare_run_material =
      with_collection (readers.parse_collection args.collection_raw args.collection_filename)
