-- ===== src/Jobs/Launcher/Tests.antt =====
-- A launch on concrete input: the queue is down, then up.
use auto_correlation.Prelude.{◌≡◌, ◌⊎◌, true, false, none, some, [], ◌∷◌, ◌++◌, eq_iff, arith}
use auto_correlation.Prelude.Dict.{lookup}
use auto_correlation.Jobs.Model.{ExecutionJob, queued}
use auto_correlation.Jobs.Store.Laws.{IsWellFormed}
use auto_correlation.Jobs.World.{material_object, World}
use auto_correlation.Jobs.Worker.{find_object}
use auto_correlation.Jobs.Launcher.{Outage, launch}
use auto_correlation.Jobs.Launcher.Cases.{HasFailed, launch_cases}
use auto_correlation.Errors.{ok}

abbrev job : ExecutionJob
job = record {
  id = "j1";
  owner_key = "user:1";
  collection_name = "Booking";
  created_at = 100;
  expires_at = 1900;
  idempotency_key = none;
  state = queued;
  analysis_id = none;
  error_code = none;
  error_detail = none;
  stage_history = [];
  warnings = [];
  cancel_requested = false;
  worker_active = false;
  reports_ready = false;
  finalizing_since = none;
}

abbrev world : World
world = record {
  store = record { ttl = 1800; jobs = ("j1", job) ∷ [] };
  clock = 101;
  others = [];
  completions = [];
  runs = [];
  analyses = [];
  objects = [];
  queue = [];
}

world-IsWellFormed : IsWellFormed world.store
unfolding lookup
world-IsWellFormed = record { unique = (tt, tt); keyed = λ k j e. ground (arith, eq_iff "j1" k) }

abbrev down : Outage
down = record {
  put_fails = λ w. false;
  enqueue_fails = λ w. true;
  delete_fails = λ w. false;
  write_raises = λ w. false;
}

launch_cases_example :
    ((launch down "j1" "r1" (123 ∷ []) world).0 ≡ ok tt)
      × ((launch down "j1" "r1" (123 ∷ []) world).1.queue
          ≡ [] ++ record { job_id = "j1"; receipt_handle = "r1" } ∷ [])
      × (find_object "j1" material_object (launch down "j1" "r1" (123 ∷ []) world).1.objects
          ≡ some (123 ∷ []))
      × ((launch down "j1" "r1" (123 ∷ []) world).1.store ≡ world.store)
    ⊎ HasFailed down "j1" world (launch down "j1" "r1" (123 ∷ []) world)
launch_cases_example = launch_cases down "j1" "r1" (123 ∷ []) world world-IsWellFormed
