-- ===== src/Jobs/Service/RunJob.antt =====
-- `run_job` from the claim to the release.
use auto_correlation.Prelude.{
  ◌≡◌, refl, ◌∙◌, inl, String, true, false, Option, none, some, arith, eq_refl, ap,
}
use auto_correlation.Prelude.Dict.{survivor}
use auto_correlation.Jobs.Model.{queued, ExecutionJob}
use auto_correlation.Jobs.Changes.{claim, release_worker}
use auto_correlation.Jobs.Store.{is_evictable, mutate}
use auto_correlation.Jobs.Store.Laws.{
  job_at, IsWellFormed, live, mutate_lem, mutate-at, mutate-IsWellFormed,
}
use auto_correlation.Jobs.World.{World, pause, access}
use auto_correlation.Jobs.World.Effects.{claim-KeepsId, release_worker-KeepsId}
use auto_correlation.Jobs.World.Driven.{AllForeign, live_driven}
use auto_correlation.Jobs.Lifecycle.{IsSound, claim-IsSound, release_worker-IsSound}
use auto_correlation.Jobs.Service.{
  Settings, Calls, Material, drive_job, recover, claim_job, was_claimed, job_claimed, run_job,
  release as let_go,
}
use auto_correlation.Jobs.Service.Holding.{Holds, Stage, pause-Holds}
use auto_correlation.Jobs.Service.Stages.{HandOff, Settled, IsHandOff}
use auto_correlation.Jobs.Service.Settle.{
  drive_job-Holds, recover-Holds, Settled-IsStable, Settled-release,
}
pub use auto_correlation.Jobs.World.Soundness.{SoundAt}
use auto_correlation.Jobs.World.Soundness.{pause-SoundAt}

claim_took :
    (j : ExecutionJob)
    → (claim j).0 ≡ true
    → ((claim j).1.worker_active ≡ true) × ((claim j).1.state ≡ queued)
unfolding claim
claim_took j h = (ground arith, ground arith)

module _ (settings : Settings) (calls : Calls) (material : Material) (k : String) where
  -- A worker whose claim succeeds drives a sound, QUEUED job.
  claimed-Holds :
      (w : World)
      → IsWellFormed w.store
      → SoundAt k w.store
      → AllForeign k w.others
      → (claim_job settings calls material k w).0 ≡ true
      → Holds k (Stage queued) (claim_job settings calls material k w).1
  unfolding claim_job access
  claimed-Holds w wf sound foreign took =
      let (wf', sound', foreign') = pause-SoundAt k w foreign wf sound in
      let v = pause w in by_found v wf' sound' foreign' took (live v.clock k v.store) refl
    where
      by_found :
          (v : World)
          → IsWellFormed v.store
          → SoundAt k v.store
          → AllForeign k v.others
          → was_claimed settings calls material k (mutate v.clock k claim v.store).0 ≡ true
          → (o : Option ExecutionJob) → live v.clock k v.store ≡ o
          → Holds k (Stage queued) (record v { store = (mutate v.clock k claim v.store).1 })
      by_found v wf' sound' foreign' took none e =
          absurd (ground (arith, mutate_lem claim v.clock k v.store wf'))
      by_found v wf' sound' foreign' took (some j) e =
          let at_mutate : mutate v.clock k claim v.store
              ≡ (some (claim j), (mutate v.clock k claim v.store).1) =
            ground (arith, mutate_lem claim v.clock k v.store wf') in
          let t : (claim j).0 ≡ true = ground arith in
          record {
            job = (claim j).1;
            drives = record {
              well_formed = mutate-IsWellFormed claim v.clock k v.store wf';
              present =
                  mutate-at claim v.clock k k v.store wf' claim-KeepsId ∙ rw (eq_refl, e) refl;
              live_worker = (claim_took j t).0;
            };
            foreign = foreign';
            sound = claim-IsSound j (sound' j (ground arith));
            here = inl (claim_took j t).1;
          }

  -- The release finds the job that the worker drove.
  released :
      (o : Option HandOff) (w : World)
      → Holds k (Settled o) w
      → (j : ExecutionJob) × (job_at k (let_go settings calls material k w).store ≡ some j)
        × (j.worker_active ≡ false)
        × Settled o j
        × IsSound j
  unfolding let_go access release_worker
  released o w h =
      let p = pause-Holds (Settled-IsStable o) h in
      let e : live (pause w).clock k (pause w).store ≡ some p.job =
        ap (survivor (is_evictable (pause w).clock)) p.drives.present
        ∙ live_driven (pause w).clock p.job p.drives.live_worker in
      (
        (release_worker p.job).1,
        mutate-at release_worker (pause w).clock k k (pause w).store p.drives.well_formed
              release_worker-KeepsId
            ∙ rw (eq_refl, e) refl,
        refl,
        Settled-release o p.job p.here,
        release_worker-IsSound p.job p.sound,
      )

  -- Once the worker's claim succeeds, `run_job` ends with the job still in the store, released
  -- and settled, and sound: its history is a path of the lifecycle. This holds for every runner,
  -- destination check and analysis, raising or not, and for every interlude of the other threads
  -- that is foreign to the job, its cancellation included. Settled means terminal or, where the
  -- reports are handed off, ANALYZING with the reports ready.
  pub run_job_settles :
      (w : World)
      → IsHandOff k calls.hand_off_reports
      → IsWellFormed w.store
      → SoundAt k w.store
      → AllForeign k w.others
      → (claim_job settings calls material k w).0 ≡ true
      → (j : ExecutionJob) × (job_at k (run_job settings calls material k w).store ≡ some j)
        × (j.worker_active ≡ false)
        × Settled calls.hand_off_reports j
        × IsSound j
  unfolding run_job job_claimed
  run_job_settles w hands wf sound foreign took =
      let claimed = claimed-Holds w wf sound foreign took in
      let v = (claim_job settings calls material k w).1 in
      let r = drive_job settings calls material k v in
      rw took (
        released calls.hand_off_reports (recover settings calls material k r) (
          recover-Holds settings calls material k hands r.0 r.1
            (drive_job-Holds settings calls material k hands v claimed)))
