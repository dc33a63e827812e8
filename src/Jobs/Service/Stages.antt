-- ===== src/Jobs/Service/Stages.antt =====
-- One stage of the drive: a run of Newman leaves the worker on its job, in the stage or with a
-- terminal state written.
use auto_correlation.Prelude.{
  ◌≡◌, ◌≢◌, refl, ◌⊎◌, inl, inr, String, Bool, true, false, Option, none, some, ◌∷◌, arith,
}
use auto_correlation.Errors.{Message, Result, ok, err}
use auto_correlation.Jobs.Model.{
  ExecutionJobState, analyzing, failed, ready, Bytes, RunInput, RunOutcome, ExecutionJob,
}
use auto_correlation.Jobs.Changes.{Notes, no_notes}
use auto_correlation.Jobs.World.{World}
use auto_correlation.Jobs.Lifecycle.{◌⟶◌, Fits}
use auto_correlation.Jobs.Service.{
  Settings, Calls, Material, write_state, run_safely, outcome_error, stage_checked, stage_ran,
  stage_entered, run_stage,
}
use auto_correlation.Jobs.Service.Holding.{
  Holds, IsStable, Stage, Over, Stage-IsStable, Stage-MayEnter, any-MayEnter-failed, After,
  write_state-Holds, run_safely-Holds,
}

-- What a drive may leave: a terminal job or, where the reports are handed off, an ANALYZING one
-- whose reports are ready.
abbrev pub HandOff : Type 0
HandOff = String → Bytes → Bytes → World → Result (Unit {0}) × World

abbrev pub Settled : Option HandOff → ExecutionJob → Type 0
Settled none j = Over j
Settled (some h) j = Over j ⊎ ((j.state ≡ analyzing) × (j.reports_ready ≡ true))

-- What the drive leaves when it returns; after an exception the job is still to be failed.
abbrev pub AfterDrive : Option HandOff → Result (Unit {0}) → ExecutionJob → Type 0
AfterDrive hand_off (ok u) j = Settled hand_off j
AfterDrive hand_off (err e) j = Unit {0}

-- A hand-off keeps the worker on its job, and marks the reports ready unless it raises.
abbrev pub HandsOff : String → HandOff → Type 0
HandsOff k h =
    (b c : Bytes) (w : World)
    → Holds k (Stage analyzing) w
    → Holds k (AfterDrive (some h) (h k b c w).0) (h k b c w).1

abbrev pub IsHandOff : String → Option HandOff → Type 0
IsHandOff k none = Unit
IsHandOff k (some h) = HandsOff k h

pub weaken :
    {k : String} {P : ExecutionJob → Type 0} (Q : ExecutionJob → Type 0) {w : World}
    → ((j : ExecutionJob) → P j → Q j)
    → Holds k P w
    → Holds k Q w
weaken Q imp h = record {
  job = h.job;
  drives = h.drives;
  foreign = h.foreign;
  sound = h.sound;
  here = imp h.job h.here;
}

pub plain-Fits : (t : ExecutionJobState) → t ≢ ready → t ≢ failed → Fits t no_notes
plain-Fits t r f = record {
  ready_id = λ p. absurd (r p);
  id_ready = λ p. cc;
  failed_code = λ p. absurd (f p);
}

failed-Fits :
    (notes : Notes) (code : String)
    → notes.error_code ≡ some code
    → notes.analysis_id ≡ none
    → Fits failed notes
failed-Fits notes code p q = record {
  ready_id = λ e. cc;
  id_ready = λ e. ground arith;
  failed_code = λ e. ground arith;
}

pub Over-Settled : (o : Option HandOff) (j : ExecutionJob) → Over j → Settled o j
Over-Settled none j h = h
Over-Settled (some f) j h = inl h

-- A write of FAILED leaves the job terminal, written or not.
After-failed-Over : (b : Bool) (j : ExecutionJob) → After failed b j → Over j
After-failed-Over true j h = ground arith
After-failed-Over false j h = h

After-Stage : (t : ExecutionJobState) (b : Bool) (j : ExecutionJob) → After t b j → Stage t j
After-Stage t true j h = inl h
After-Stage t false j h = inr h

pub fails-Over :
    (k : String) (P : ExecutionJob → Type 0) (notes : Notes) (code : String) (w : World)
    → IsStable P
    → notes.error_code ≡ some code
    → notes.analysis_id ≡ none
    → Holds k P w
    → Holds k Over (write_state k failed notes w).1
fails-Over k P notes code w stable p q h =
    weaken Over (After-failed-Over (write_state k failed notes w).0) (
      write_state-Holds k P failed notes w stable (any-MayEnter-failed P)
        (failed-Fits notes code p q) h)

module _ (settings : Settings) (calls : Calls) (material : Material) (k : String) where
  -- The stage went through, or the job is terminal.
  abbrev pub AfterStage : ExecutionJobState → Option RunOutcome → ExecutionJob → Type 0
  AfterStage t none j = Over j
  AfterStage t (some o) j = Stage t j

  stage_checked-Holds :
      (t : ExecutionJobState) (o : RunOutcome) (e : Option (String × Option Message)) (w : World)
      → Holds k (Stage t) w
      → Holds k
          (AfterStage t (stage_checked settings calls material k o e w).0)
          (stage_checked settings calls material k o e w).1
  unfolding stage_checked
  stage_checked-Holds t o none w h = h
  stage_checked-Holds t o (some (code, detail)) w h =
      fails-Over k (Stage t) _ code w (Stage-IsStable t) refl refl h

  stage_ran-Holds :
      (t : ExecutionJobState) (o : Option RunOutcome) (w : World)
      → Holds k (Stage t) w
      → Holds k
          (AfterStage t (stage_ran settings calls material k o w).0)
          (stage_ran settings calls material k o w).1
  unfolding stage_ran
  stage_ran-Holds t none w h =
      fails-Over k (Stage t) _ "runner_error" w (Stage-IsStable t) refl refl h
  stage_ran-Holds t (some o) w h =
      stage_checked-Holds t o (outcome_error settings.max_report_bytes o) w h

  stage_entered-Holds :
      (t : ExecutionJobState) (input : RunInput) (b : Bool) (w : World)
      → Holds k (After t b) w
      → Holds k
          (AfterStage t (stage_entered settings calls material k input (b, w)).0)
          (stage_entered settings calls material k input (b, w)).1
  unfolding stage_entered
  stage_entered-Holds t input false w h = h
  stage_entered-Holds t input true w h =
      let started = record w { runs = input ∷ w.runs } in
      let held : Holds k (Stage t) started = record {
        job = h.job;
        drives = h.drives;
        foreign = h.foreign;
        sound = h.sound;
        here = inl h.here;
      } in
      stage_ran-Holds t (run_safely (calls.runner input) k started).0
        (run_safely (calls.runner input) k started).1
        (run_safely-Holds (calls.runner input) k (Stage t) started (Stage-IsStable t) held)

  pub run_stage-Holds :
      (s t : ExecutionJobState) (input : RunInput) (w : World)
      → s ⟶ t
      → Fits t no_notes
      → Holds k (Stage s) w
      → Holds k
          (AfterStage t (run_stage settings calls material k input t w).0)
          (run_stage settings calls material k input t w).1
  unfolding run_stage
  run_stage-Holds s t input w e fits h =
      stage_entered-Holds t input (write_state k t no_notes w).0 (write_state k t no_notes w).1
        (write_state-Holds k (Stage s) t no_notes w (Stage-IsStable s) (Stage-MayEnter e) fits h)
