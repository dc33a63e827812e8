-- ===== src/Jobs/Worker/Handles.antt =====
-- What a handled message leaves in the queue and in S3.
use auto_correlation.Prelude.{
  ◌≡◌, inl, inr, refl, Bool, false, not, Option, none, some, List, [], ◌∷◌, All, select, Bool-cases,
  ltb, if◌then◌else◌, length, arith, str_eq,
}
use auto_correlation.Errors.{ok}
use auto_correlation.Jobs.Model.{ExecutionJob, Bytes, is_queued}
use auto_correlation.Jobs.Store.{get}
use auto_correlation.Jobs.World.{StoredObject, QueueMessage, material_object, World, access}
use auto_correlation.Jobs.Service.{Settings, Calls, Material, run_job}
use auto_correlation.Jobs.Worker.{
  max_material_bytes, delete_prefix, delete_object, find_object, delete_message, discard, finished,
  material_read, put_away, redelivered, worker_lost, is_ready, without_material, loaded, handle,
}

removed :
    {A : Type 0} (p : A → Bool) (l : List A) → All (λ x. p x ≡ false) (select (λ x. not (p x)) l)
removed p [] = tt
removed p (x ∷ l) = elim (Bool-cases (p x)) [
  | inl e ↦ rw e (removed p l)
  | inr e ↦ rw e (e, removed p l)
]

module _ (settings : Settings) (calls : Calls) (read_material : Bytes → Material)
    (message : QueueMessage) where
  abbrev pub IsGone : World → Type 0
  IsGone w = All (λ m. str_eq m.receipt_handle message.receipt_handle ≡ false) w.queue

  abbrev pub NoObjects : World → Type 0
  NoObjects w = All (λ (o : StoredObject). str_eq o.job_id message.job_id ≡ false) w.objects

  -- The job as the handling last reads it before it decides about the objects: after the run, where
  -- the job was queued with its material, and else as it was loaded.
  abbrev pub read_after : Option Bytes → World → Option ExecutionJob
  read_after none w = none
  read_after (some document) w =
      (access (λ now. get now message.job_id)
        (delete_object message.job_id material_object
          (run_job settings calls (read_material document) message.job_id w))).0

  abbrev pub read_last : Option ExecutionJob × World → Option ExecutionJob
  read_last (none, w) = none
  read_last (some job, w) =
      if is_queued job.state
      then read_after (find_object message.job_id material_object w.objects) w
      else some job

  abbrev pub decisive_read : World → Option ExecutionJob
  decisive_read w = read_last (access (λ now. get now message.job_id) w)

  abbrev Left : Option ExecutionJob → World → Type 0
  Left read w = IsGone w × (is_ready read ≡ false → NoObjects w)

  discarded : (read : Option ExecutionJob) (w : World) → Left read (discard message w)
  unfolding discard delete_prefix delete_message
  discarded read w = (removed _ w.queue, λ _. removed _ w.objects)

  finished-Left :
      (read : Option ExecutionJob) (w : World)
      → Left read (finished settings calls read_material message (read, w))
  unfolding finished delete_message delete_prefix
  finished-Left read w = elim (Bool-cases (is_ready read)) [
    | inl r ↦ rw r (removed _ w.queue, λ h. absurd (cc))
    | inr r ↦ rw r (removed _ w.queue, λ _. removed _ w.objects)
  ]

  read-Left :
      (o : Option Bytes) (w : World)
      → (material_read settings calls read_material message o w).0 ≡ ok tt
      → Left (read_after o w) (material_read settings calls read_material message o w).1
  unfolding material_read
  read-Left none w h = discarded none (without_material settings calls read_material message w)
  read-Left (some document) w h = elim (Bool-cases (ltb max_material_bytes (length document))) [
    | inl e ↦ absurd (ground arith)
    | inr e ↦ rw e (
        finished-Left (read_after (some document) w)
          (access (λ now. get now message.job_id)
            (delete_object message.job_id material_object
              (run_job settings calls (read_material document) message.job_id w))).1)
  ]

  put_away-Left :
      (job : ExecutionJob) (w : World)
      → Left (some job) (put_away settings calls read_material message job.reports_ready w)
  unfolding put_away delete_message
  put_away-Left job w = elim (Bool-cases job.reports_ready) [
    | inl r ↦ rw r (removed _ w.queue, λ h. absurd (cc))
    | inr r ↦ rw r ((discarded none w).0, λ _. (discarded none w).1 refl)
  ]

  again-Left :
      (job : ExecutionJob) (w : World)
      → Left (some job) (redelivered settings calls read_material message job w)
  unfolding redelivered
  again-Left job w = put_away-Left job (worker_lost settings calls read_material message job w)

  -- A handling that returns has taken its message off the queue. It has left no object of the job
  -- in S3 unless the job's reports were ready when it last read the job: after the run, where the
  -- job was queued and had its material, and as it was loaded, where the job was started before. A
  -- job that is gone or has lost its material counts as not ready.
  pub handle-leaves :
      (w : World)
      → (handle settings calls read_material message w).0 ≡ ok tt
      → IsGone (handle settings calls read_material message w).1
        × (is_ready (decisive_read w) ≡ false
            → NoObjects (handle settings calls read_material message w).1)
  unfolding handle loaded
  handle-leaves w h =
      by_job (access (λ now. get now message.job_id) w).1
        (access (λ now. get now message.job_id) w).0 h
    where
      by_job :
          (v : World) (o : Option ExecutionJob)
          → (loaded settings calls read_material message (o, v)).0 ≡ ok tt
          → Left (read_last (o, v)) (loaded settings calls read_material message (o, v)).1
      by_job v none k = discarded none v
      by_job v (some j) k = elim (Bool-cases (is_queued j.state)) [
        | inl q ↦
            rw q (read-Left (find_object message.job_id material_object v.objects) v (rw q at k))
        | inr q ↦ rw q (again-Left j v)
      ]
