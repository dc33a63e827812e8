-- ===== src/Jobs/Launcher/Cases.antt =====
-- A launch queues the job with its material, or ends it.
use auto_correlation.Prelude.{
  ◌≡◌, refl, ◌⊎◌, inl, inr, String, Bool, true, false, some, [], ◌∷◌, ◌++◌, if◌then◌else◌,
  Bool-cases, eq_refl,
}
use auto_correlation.Errors.{other, Result, ok, err}
use auto_correlation.Jobs.Model.{failed, Bytes}
use auto_correlation.Jobs.Store.Laws.{IsWellFormed}
use auto_correlation.Jobs.Changes.{failure}
use auto_correlation.Jobs.World.Soundness.{pause_queue}
use auto_correlation.Jobs.World.{access, material_object, World}
use auto_correlation.Jobs.Service.{fail_job, write_state}
use auto_correlation.Jobs.Finalizer.Ends.{NoneActive, write_state-NoneActive}
use auto_correlation.Jobs.Worker.{put_object, delete_object, find_object}
use auto_correlation.Jobs.Launcher.{Outage, enqueue, launch_failed, launch}

fail_job_queue : (k code detail : String) (w : World) → (fail_job k code detail w).1.queue ≡ w.queue
unfolding fail_job write_state access
fail_job_queue k code detail w = pause_queue w

fail_job-NoneActive :
    (k code detail : String) (w : World)
    → IsWellFormed w.store
    → NoneActive k (fail_job k code detail w).1.store
unfolding fail_job
fail_job-NoneActive k code detail w wf =
    write_state-NoneActive k failed (failure code detail) w refl wf

-- How a launch fails: the job is ended, or the store raised, which the caller sees. Nothing is
-- queued.
abbrev pub HasFailed : Outage → String → World → Result (Unit {0}) × World → Type 0
HasFailed outage k w r =
    (r.1.queue ≡ w.queue)
    × ((r.0 ≡ ok tt) × NoneActive k r.1.store
        ⊎ (r.0 ≡ err other) × ((v : World) × (outage.write_raises v ≡ true)))

launch_failed-HasFailed :
    (outage : Outage) (k : String) (w : World)
    → IsWellFormed w.store
    → HasFailed outage k w (launch_failed outage k w)
unfolding launch_failed delete_object
launch_failed-HasFailed outage k w wf = elim (Bool-cases (outage.write_raises w)) [
  | inl e ↦ rw e (pause_queue w, inr (refl, (w, e)))
  | inr e ↦
      let code : String = "runner_unavailable" in
      let detail : String = "The execution queue is unavailable. Try again shortly." in
      let v = (fail_job k code detail w).1 in
      rw e (
        by_delete (outage.delete_fails v) v (fail_job-NoneActive k code detail w wf)
          (fail_job_queue k code detail w))
]
  where
    by_delete :
        (b : Bool) (v : World)
        → NoneActive k v.store
        → v.queue ≡ w.queue
        → HasFailed outage k w (ok tt, if b then v else delete_object k material_object v)
    by_delete true v n q = (q, inl (refl, n))
    by_delete false v n q = (q, inl (refl, n))

-- A launch either returns having put the job's message at the end of the queue, with its material in
-- S3 for the worker to find and its job untouched, or it leaves the queue as it was. Then it returns
-- having left no active job under the id, or the store has raised when the job was to fail, and the
-- launch raises too.
pub launch_cases :
    (outage : Outage) (k receipt : String) (document : Bytes) (w : World)
    → IsWellFormed w.store
    → ((launch outage k receipt document w).0 ≡ ok tt)
        × ((launch outage k receipt document w).1.queue
            ≡ w.queue ++ record { job_id = k; receipt_handle = receipt } ∷ [])
        × (find_object k material_object (launch outage k receipt document w).1.objects
            ≡ some document)
        × ((launch outage k receipt document w).1.store ≡ w.store)
      ⊎ HasFailed outage k w (launch outage k receipt document w)
unfolding launch enqueue put_object find_object
launch_cases outage k receipt document w wf =
    let w' = put_object k material_object document w in
    elim (Bool-cases (outage.put_fails w)) [
      | inl e ↦ inr (rw e (launch_failed-HasFailed outage k w wf))
      | inr e ↦ elim (Bool-cases (outage.enqueue_fails w')) [
        | inl f ↦ inr (rw (e, f) (launch_failed-HasFailed outage k w' wf))
        | inr f ↦ inl (rw (e, f) (refl, refl, rw (eq_refl) refl, refl))
      ]
    ]
