-- ===== src/Jobs/Worker/Tests.antt =====
-- One queued job handled on concrete input, its reports handed off.
use auto_correlation.Prelude.{◌≡◌, refl, true, false, none, some, [], ◌∷◌}
use auto_correlation.Prelude.Dict.{lookup, pop_where}
use auto_correlation.Errors.{ok}
use auto_correlation.Jobs.Model.{ExecutionJob, queued, returns, Bytes}
use auto_correlation.Jobs.Store.{cleanup, get}
use auto_correlation.Jobs.World.{material_object, QueueMessage, World, pause, access, act_all}
use auto_correlation.Jobs.Service.{Settings, Calls, Material}
use auto_correlation.Jobs.Service.Stages.{IsHandOff}
use auto_correlation.Jobs.Worker.{find_object, hand_off, handle, is_ready, loaded, material_read}
use auto_correlation.Jobs.Worker.HandsOff.{hand_off-IsHandOff}
use auto_correlation.Jobs.Worker.Handles.{IsGone, NoObjects, decisive_read, handle-leaves}

abbrev job : ExecutionJob
job = record {
  id = "j1";
  owner_key = "user:1";
  collection_name = "Booking";
  created_at = 100;
  expires_at = 1900;
  idempotency_key = none;
  state = queued;
  analysis_id = none;
  error_code = none;
  error_detail = none;
  stage_history = [];
  warnings = [];
  cancel_requested = false;
  worker_active = false;
  reports_ready = false;
  finalizing_since = none;
}

abbrev settings : Settings
settings = record { max_report_bytes = 1000; job_run_timeout_seconds = 300 }

abbrev calls : Calls
calls = record {
  runner = λ input. returns (record {
    success = true;
    report_bytes = some (123 ∷ 125 ∷ []);
    error_code = none;
    error_detail = none;
  });
  extract_target_domains = λ c v. ok (record { warnings = []; pinned_addresses = [] });
  redact_variable_values = λ t v. t;
  build_analysis = λ b c. ok (record { id = "a1"; owner_key = none });
  hand_off_reports = some (hand_off (λ kind w. false));
}

abbrev read_material : Bytes → Material
read_material document = record {
  collection_data = "{}";
  environment_data = none;
  variable_values = [];
  supplied_values = [];
  folder_id = none;
}

abbrev message : QueueMessage
message = record { job_id = "j1"; receipt_handle = "r1" }

abbrev world : World
world = record {
  store = record { ttl = 1800; jobs = ("j1", job) ∷ [] };
  clock = 101;
  others = [];
  completions = [];
  runs = [];
  analyses = [];
  objects = record { job_id = "j1"; kind = material_object; content = 123 ∷ 125 ∷ [] } ∷ [];
  queue = message ∷ [];
}

hand_off-IsHandOff_example : IsHandOff "j1" (some (hand_off (λ kind w. false)))
hand_off-IsHandOff_example = hand_off-IsHandOff (λ kind w. false) "j1"

handled : (handle settings calls read_material message world).0 ≡ ok tt
unfolding handle loaded material_read find_object access pause act_all get cleanup pop_where lookup
handled = refl

handle-leaves_example :
    IsGone settings calls read_material message
      (handle settings calls read_material message world).1
    × (is_ready (decisive_read settings calls read_material message world) ≡ false
        → NoObjects settings calls read_material message
            (handle settings calls read_material message world).1)
handle-leaves_example = handle-leaves settings calls read_material message world handled
