-- ===== src/Jobs/Worker/HandsOff.antt =====
-- The worker's hand-off keeps what `run_job` asks of one.
use auto_correlation.Prelude.{◌≡◌, refl, inl, inr, String, Bool, true, some, Bool-cases}
use auto_correlation.Jobs.Model.{ExecutionJob, Bytes, analyzing}
use auto_correlation.Jobs.Changes.{mark_ready}
use auto_correlation.Jobs.Store.Laws.{KeepsId}
use auto_correlation.Jobs.World.{
  ObjectKind, baseline_report, comparison_report, World, pause, access,
}
use auto_correlation.Jobs.World.Driven.{mutate-Drives}
use auto_correlation.Jobs.Lifecycle.{mark_ready-IsSound}
use auto_correlation.Jobs.Service.Holding.{Holds, Stage, Stage-IsStable, pause-Holds}
use auto_correlation.Jobs.Service.Stages.{Settled, IsHandOff}
use auto_correlation.Jobs.Worker.{put_object, mark_reports, hand_off}

-- A change of S3 alone.
put-Holds :
    (k i : String) (kind : ObjectKind) (content : Bytes) (P : ExecutionJob → Type 0) (w : World)
    → Holds k P w
    → Holds k P (put_object i kind content w)
unfolding put_object
put-Holds k i kind content P w h = record {
  job = h.job;
  drives = h.drives;
  foreign = h.foreign;
  sound = h.sound;
  here = h.here;
}

forget :
    {k : String} {P : ExecutionJob → Type 0} {w : World} → Holds k P w → Holds k (λ j. Unit {0}) w
forget h = record {
  job = h.job;
  drives = h.drives;
  foreign = h.foreign;
  sound = h.sound;
  here = tt;
}

mark_ready-KeepsId : KeepsId mark_ready
unfolding mark_ready
mark_ready-KeepsId j = refl

ready_worker : (j : ExecutionJob) → j.worker_active ≡ true → (mark_ready j).1.worker_active ≡ true
unfolding mark_ready
ready_worker j h = h

module _ (refuses : ObjectKind → World → Bool) where
  ready_Settled :
      (j : ExecutionJob) → Stage analyzing j → Settled (some (hand_off refuses)) (mark_ready j).1
  unfolding mark_ready
  ready_Settled j (inl e) = inr (e, refl)
  ready_Settled j (inr e) = inl e

  mark_reports-Holds :
      (k : String) (w : World)
      → Holds k (Stage analyzing) w
      → Holds k (Settled (some (hand_off refuses))) (mark_reports refuses k w).1
  unfolding mark_reports access
  mark_reports-Holds k w h =
      let p = pause-Holds (Stage-IsStable analyzing) h in
      let (found, d) =
        mutate-Drives mark_ready (pause w).clock k p.job (pause w).store mark_ready-KeepsId
          (ready_worker p.job p.drives.live_worker) p.drives in
      record {
        job = (mark_ready p.job).1;
        drives = d;
        foreign = p.foreign;
        sound = mark_ready-IsSound p.job p.sound;
        here = ready_Settled p.job p.here;
      }

  -- The worker's hand-off keeps the contract that `run_job` relies on: unless an upload raises,
  -- it leaves the driven job terminal, or ANALYZING with its reports ready, and in every case the
  -- worker still drives it.
  pub hand_off-IsHandOff : (k : String) → IsHandOff k (some (hand_off refuses))
  unfolding hand_off mark_reports
  hand_off-IsHandOff k b c w h =
      let w' = put_object k baseline_report b w in
      let first = put-Holds k k baseline_report b (Stage analyzing) w h in
      let second = put-Holds k k comparison_report c (Stage analyzing) w' first in
      elim (Bool-cases (refuses baseline_report w)) [
        | inl e ↦ rw e (forget h)
        | inr e ↦ elim (Bool-cases (refuses comparison_report w')) [
          | inl f ↦ rw (e, f) (forget first)
          | inr f ↦ rw (e, f) (mark_reports-Holds k (put_object k comparison_report c w') second)
        ]
      ]
