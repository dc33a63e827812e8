-- ===== src/Jobs/Worker.antt =====
-- backend/app/worker.py: one message of the queue. What S3 refuses and the reading of a material
-- document are parameters. A `ClientError` other than on the upload of a report is not modelled,
-- and job ids are taken as valid in an object's key. A `mutate` of the store is one step here; that
-- DynamoDB's raises after 20 conflicts is not modelled.
pub mod HandsOff
pub mod Handles
mod Tests
use auto_correlation.Prelude.{
  ℕ, ◌*◌, String, Bool, true, false, not, ◌&&◌, Option, none, some, List, [], ◌∷◌, length, ltb,
  if◌then◌else◌, select, str_eq,
}
use auto_correlation.Errors.{other, Result, ok, err}
use auto_correlation.Jobs.Model.{ExecutionJob, Bytes, RunInput, RunnerCall, is_active, is_queued}
use auto_correlation.Jobs.Changes.{mark_ready, release_worker}
use auto_correlation.Jobs.Store.{get, mutate}
use auto_correlation.Jobs.World.{
  ObjectKind, material_object, baseline_report, comparison_report, StoredObject, QueueMessage,
  World, access,
}
use auto_correlation.Jobs.Service.{Settings, Calls, Material, fail_job, run_job}

abbrev pub max_material_bytes : ℕ
max_material_bytes = 64 * 1024 * 1024

abbrev pub kind_eq : ObjectKind → ObjectKind → Bool
kind_eq material_object material_object = true
kind_eq baseline_report baseline_report = true
kind_eq comparison_report comparison_report = true
kind_eq _ _ = false

abbrev pub is_object : String → ObjectKind → StoredObject → Bool
is_object job_id kind o = str_eq o.job_id job_id && kind_eq o.kind kind

-- `put_bytes`, `delete`, `delete_prefix` and the look-up of `get_bytes`.
unfoldable pub put_object : String → ObjectKind → Bytes → World → World
put_object job_id kind content w = record w {
  objects =
      record { job_id = job_id; kind = kind; content = content }
      ∷ select (λ o. not (is_object job_id kind o)) w.objects;
}

unfoldable pub delete_object : String → ObjectKind → World → World
delete_object job_id kind w = record w {
  objects = select (λ o. not (is_object job_id kind o)) w.objects;
}

unfoldable pub delete_prefix : String → World → World
delete_prefix job_id w = record w { objects = select (λ o. not (str_eq o.job_id job_id)) w.objects }

unfoldable pub find_object : String → ObjectKind → List StoredObject → Option Bytes
find_object job_id kind [] = none
find_object job_id kind (o ∷ r) =
    if is_object job_id kind o then some o.content else find_object job_id kind r

-- `queue.delete`
unfoldable pub delete_message : QueueMessage → World → World
delete_message message w = record w {
  queue = select (λ m. not (str_eq m.receipt_handle message.receipt_handle)) w.queue;
}

module _ (refuses : ObjectKind → World → Bool) where
  mark_reports : String → World → Result (Unit {0}) × World
  mark_reports job_id w = (ok tt, (access (λ now. mutate now job_id mark_ready) w).1)

  unfoldable pub hand_off : String → Bytes → Bytes → World → Result (Unit {0}) × World
  unfolding mark_reports put_object
  hand_off job_id baseline comparison w =
      let w' = put_object job_id baseline_report baseline w in
      if refuses baseline_report w
      then (err other, w)
      else if refuses comparison_report w'
      then (err other, w')
      else mark_reports job_id (put_object job_id comparison_report comparison w')

unfoldable pub discard : QueueMessage → World → World
unfolding delete_message delete_prefix
discard message w = delete_prefix message.job_id (delete_message message w)

abbrev pub is_ready : Option ExecutionJob → Bool
is_ready none = false
is_ready (some job) = job.reports_ready

module _ (settings : Settings) (calls : Calls) (read_material : Bytes → Material)
    (message : QueueMessage) where
  abbrev fail : String → String → World → World
  fail code detail w = (fail_job message.job_id code detail w).1

  -- After `run_job`.
  finished : Option ExecutionJob × World → World
  unfolding delete_message delete_prefix
  finished (final, w) =
      delete_message message (if is_ready final then w else delete_prefix message.job_id w)

  abbrev pub without_material : World → World
  without_material w =
      fail "runner_unavailable" "The job's input is no longer available. Run it again." w

  -- The document of the job's material, once fetched.
  unfoldable pub material_read : Option Bytes → World → Result (Unit {0}) × World
  unfolding finished discard delete_object
  material_read none w = (ok tt, discard message (without_material w))
  material_read (some document) w =
      if ltb max_material_bytes (length document) then (err other, w) else (
        ok tt,
        finished (
            access (λ now. get now message.job_id)
              (delete_object message.job_id material_object
                (run_job settings calls (read_material document) message.job_id w))),
      )

  -- The job of a lost worker fails and is released.
  unfoldable pub worker_lost : ExecutionJob → World → World
  worker_lost job w =
      let failed =
        (access (λ now. mutate now message.job_id release_worker)
          (fail "worker_lost" "The execution worker stopped unexpectedly. Run the job again."
            w)).1 in
      if is_active job && not job.reports_ready then failed else w

  -- The API still needs reports that are ready.
  unfoldable pub put_away : Bool → World → World
  unfolding discard delete_message
  put_away ready w = if not ready then discard message w else delete_message message w

  -- A job that was started before.
  unfoldable pub redelivered : ExecutionJob → World → World
  unfolding put_away
  redelivered job w = put_away job.reports_ready (worker_lost job w)

  unfoldable pub loaded : Option ExecutionJob × World → Result (Unit {0}) × World
  unfolding material_read redelivered discard find_object
  loaded (none, w) = (ok tt, discard message w)
  loaded (some job, w) =
      if not (is_queued job.state)
      then (ok tt, redelivered job w)
      else material_read (find_object message.job_id material_object w.objects) w

  unfoldable pub handle : World → Result (Unit {0}) × World
  unfolding loaded
  handle w = loaded (access (λ now. get now message.job_id) w)

module _ (settings : Settings) (calls : Calls) (read_material : Bytes → Material) where
  -- An exception of one message leaves the loop.
  unfoldable pub handle_all : List QueueMessage → World → Result (Unit {0}) × World
  handle_all [] w = (ok tt, w)
  handle_all (m ∷ r) w =
      let (result, w') = handle settings calls read_material m w in
      elim result [ ok u ↦ handle_all r w' | err e ↦ (err e, w') ]

  abbrev received : Result (Unit {0}) × World → Result Bool × World
  received (ok u, w) = (ok true, w)
  received (err e, w) = (err e, w)

  -- `messages` is what the queue delivers.
  unfoldable pub process_one : List QueueMessage → World → Result Bool × World
  unfolding handle_all
  process_one [] w = (ok false, w)
  process_one (m ∷ r) w = received (handle_all (m ∷ r) w)
