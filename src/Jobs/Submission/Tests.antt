-- ===== src/Jobs/Submission/Tests.antt =====
-- A submission on concrete input: one variable of each source.
use auto_correlation.Prelude.{String, ◌≡◌, refl, true, Option, none, some, [], ◌∷◌, All, str_eq}
use auto_correlation.Prelude.Dict.{Dict, lookup, put, pop_where}
use auto_correlation.Errors.{ok}
use auto_correlation.Jobs.Model.{Document}
use auto_correlation.Jobs.Store.{
  new, cleanup, find_by_idempotency_key, count_active, count_active_locked, create_if_allowed,
  find_by_idempotency_key_locked, latest,
}
use auto_correlation.Jobs.World.{World, access, pause}
use auto_correlation.Jobs.Submission.{
  ParsedCollection, Readers, SubmissionSettings, Submission, new_job, create_job, check_folder,
  read_environment, prepare_run_material,
}
use auto_correlation.Jobs.Submission.Resolved.{CanResolve, create_job-CanResolve}
use auto_correlation.Postman.Resolver.{resolve_variables, unresolved_names, source_of}

abbrev collection : ParsedCollection
collection = record { document = "{}"; warnings = [] }

abbrev readers : Readers
readers = record {
  parse_collection = λ raw name. ok collection;
  parse_environment = λ raw name. ok (record { document = "{}"; values = ("host", "h") ∷ [] });
  extract_folders = λ d. "f1" ∷ [];
  ambiguous_folder = λ d f. none;
  collection_variable_values = λ d. ("path", "p") ∷ ("host", "old") ∷ [];
  extract_variable_references = λ d.
      record { name = "host"; location = "url" }
      ∷ record { name = "token"; location = "header" }
      ∷ record { name = "host"; location = "body" }
      ∷ record { name = "$guid"; location = "body" }
      ∷ record { name = "path"; location = "url" }
      ∷ record { name = "seen"; location = "body" }
      ∷ [];
  script_set_variable_names = λ d. "seen" ∷ [];
  is_sensitive_key = λ n. str_eq n "token";
  info_name = λ d. some "Booking";
}

abbrev settings : SubmissionSettings
settings = record {
  idempotency_window_seconds = 600;
  max_concurrent_jobs_per_owner = 2;
  job_ttl_seconds = 1800;
}

abbrev submission : Submission
submission = record {
  collection_raw = 123 ∷ 125 ∷ [];
  collection_filename = "booking.json";
  environment_raw = some (123 ∷ 125 ∷ []);
  environment_filename = none;
  folder_id = some "f1";
  supplied_values = ("token", "t") ∷ [];
  owner_key = "user:1";
  idempotency_key = some "k1";
}

abbrev idle : World
idle = record {
  store = new 1800;
  clock = 100;
  others = [];
  completions = [];
  runs = [];
  analyses = [];
  objects = [];
  queue = [];
}

job_created :
    (create_job readers settings submission "j1" idle).0
    ≡ ok (new_job readers settings submission "j1" 100 collection, true)
unfolding create_job access pause find_by_idempotency_key find_by_idempotency_key_locked latest
    count_active count_active_locked cleanup new pop_where check_folder read_environment
    resolve_variables unresolved_names source_of create_if_allowed lookup put
job_created = refl

create_job-CanResolve_example :
    (contents : Document) × (environment : Option Document) × (values : Dict String)
    × (prepare_run_material readers settings submission ≡ ok (contents, environment, values))
    × All
        (CanResolve readers settings submission contents values)
        (readers.extract_variable_references contents)
create_job-CanResolve_example =
    create_job-CanResolve readers settings submission "j1" idle
      (new_job readers settings submission "j1" 100 collection) job_created
