-- ===== src/Jobs/Launcher.antt =====
-- backend/app/services/job_launcher.py: `QueueJobLauncher`. What S3 and SQS refuse is a parameter, and
-- so is whether the `mutate` of the DynamoDB store that it works on raises; one that returns takes
-- effect at one moment. The document is the encoded material, and the receipt of the new message is
-- fresh.
pub mod Cases
mod Tests
use auto_correlation.Prelude.{String, Bool, List, [], ◌∷◌, ◌++◌, if◌then◌else◌}
use auto_correlation.Jobs.Model.{Bytes}
use auto_correlation.Jobs.World.{ObjectKind, material_object, QueueMessage, World, pause}
use auto_correlation.Errors.{other, Result, ok, err}
use auto_correlation.Jobs.Service.{fail_job}
use auto_correlation.Jobs.Worker.{put_object, delete_object}

pub record Outage : Type 0 where
  pub put_fails : World → Bool
  pub enqueue_fails : World → Bool
  pub delete_fails : World → Bool
  -- Whether `fail_job` raises.
  pub write_raises : World → Bool

unfoldable pub enqueue : String → String → World → World
enqueue job_id receipt w = record w {
  queue = w.queue ++ record { job_id = job_id; receipt_handle = receipt } ∷ [];
}

-- The `except` branch: the material is removed if S3 lets it. An exception of `fail_job` leaves
-- `launch`.
unfoldable pub launch_failed : Outage → String → World → Result (Unit {0}) × World
unfolding delete_object
launch_failed outage job_id w =
    let w' =
      (fail_job job_id "runner_unavailable" "The execution queue is unavailable. Try again shortly."
        w).1 in
    if outage.write_raises w
    then (err other, pause w)
    else (ok tt, if outage.delete_fails w' then w' else delete_object job_id material_object w')

unfoldable pub launch : Outage → String → String → Bytes → World → Result (Unit {0}) × World
unfolding put_object enqueue launch_failed
launch outage job_id receipt document w =
    let w' = put_object job_id material_object document w in
    if outage.put_fails w
    then launch_failed outage job_id w
    else if outage.enqueue_fails w'
    then launch_failed outage job_id w'
    else (ok tt, enqueue job_id receipt w')
