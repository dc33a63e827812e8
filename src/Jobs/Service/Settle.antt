-- ===== src/Jobs/Service/Settle.antt =====
-- `run_job` leaves its job settled, whatever the runner, the destination check and the analysis
-- do and whatever the other threads do meanwhile.
use auto_correlation.Prelude.{
  ◌≡◌, refl, inl, inr, String, Bool, true, false, Option, none, some, Bool-cases, arith,
}
use auto_correlation.Errors.{problem, other, Result, ok, err}
use auto_correlation.Jobs.Model.{
  queued, validating, running_baseline, running_comparison, analyzing, ready, Bytes, RunInput,
  RunOutcome, ExecutionJob,
}
use auto_correlation.Jobs.Changes.{no_notes, release_worker}
use auto_correlation.Jobs.Store.{get}
use auto_correlation.Jobs.World.{Analysis, World, access}
use auto_correlation.Jobs.World.Driven.{cancel_once}
use auto_correlation.Jobs.Lifecycle.{validate, run_first, run_second, analyse, finish}
use auto_correlation.Jobs.Service.{
  Settings, Calls, Material, DomainReport, write_state, analysis_stored, analysis_built,
  hand_off_or_analyse, reports_present, analysing, compared, baseline_done, destinations_checked,
  validation_entered, drive_job, recover, has_any, fresh_run_input,
}
use auto_correlation.Jobs.Service.Holding.{
  Holds, IsStable, Stage, Over, Stage-IsStable, Over-IsStable, Always, Stage-MayEnter, After,
  write_state-Holds, get-Holds, get-finds,
}
use auto_correlation.Jobs.Service.Stages.{
  HandOff, Settled, AfterDrive, IsHandOff, weaken, plain-Fits, Over-Settled, fails-Over, AfterStage,
  run_stage-Holds,
}

module _ (settings : Settings) (calls : Calls) (material : Material) (k : String) where
  After-ready-Over : (b : Bool) (j : ExecutionJob) → After ready b j → Over j
  After-ready-Over true j h = ground arith
  After-ready-Over false j h = h

  stored-Over :
      (a : Analysis) (w : World)
      → Holds k (Stage analyzing) w
      → Holds k Over (analysis_stored settings calls material k a (access (λ now. get now k) w))
  unfolding analysis_stored
  stored-Over a w h =
      let (j, found) = get-finds k (Stage analyzing) w (Stage-IsStable analyzing) h in
      let read = get-Holds k (Stage analyzing) w (Stage-IsStable analyzing) h in
      by_found (access (λ now. get now k) w).0 found read
    where
      by_found :
          (o : Option ExecutionJob) {j : ExecutionJob}
          → o ≡ some j
          → Holds k (Stage analyzing) (access (λ now. get now k) w).1
          → Holds k Over
              (analysis_stored settings calls material k a (o, (access (λ now. get now k) w).1))
      by_found none e r = absurd (cc)
      by_found (some j) e r = weaken Over (After-ready-Over _) (
          write_state-Holds k (Stage analyzing) ready (record no_notes { analysis_id = some a.id })
            _ (Stage-IsStable analyzing) (Stage-MayEnter finish)
            (record { ready_id = λ p. refl; id_ready = λ p. refl; failed_code = λ p. cc })
            (record {
              job = r.job;
              drives = r.drives;
              foreign = r.foreign;
              sound = r.sound;
              here = r.here;
            }))

  built-Over :
      (r : Result Analysis) (w : World)
      → Holds k (Stage analyzing) w
      → Holds k Over (analysis_built settings calls material k r w)
  unfolding analysis_built
  built-Over (ok a) w h = stored-Over a w h
  built-Over (err (problem p)) w h =
      fails-Over k (Stage analyzing) _ p.code w (Stage-IsStable analyzing) refl refl h
  built-Over (err other) w h =
      fails-Over k (Stage analyzing) _ "analysis_error" w (Stage-IsStable analyzing) refl refl h

  finished-Holds :
      (o : Option HandOff) (b c : Bytes) (w : World)
      → IsHandOff k o
      → Holds k (Stage analyzing) w
      → Holds k
          (AfterDrive o (hand_off_or_analyse settings calls material k o b c w).0)
          (hand_off_or_analyse settings calls material k o b c w).1
  unfolding hand_off_or_analyse
  finished-Holds none b c w i h = built-Over (calls.build_analysis b c) w h
  finished-Holds (some f) b c w i h = i b c w h

  module _ (hands : IsHandOff k calls.hand_off_reports) where
    present-Holds :
        (b c : Option Bytes) (w : World)
        → Holds k (Stage analyzing) w
        → Holds k
            (AfterDrive calls.hand_off_reports (reports_present settings calls material k b c w).0)
            (reports_present settings calls material k b c w).1
    unfolding reports_present
    present-Holds (some b) (some c) w h = finished-Holds calls.hand_off_reports b c w hands h
    present-Holds (some b) none w h = weaken _ (λ j p. tt) h
    present-Holds none c w h = weaken _ (λ j p. tt) h

    analysing-Holds :
        (b c : RunOutcome) (r : Bool) (w : World)
        → Holds k (After analyzing r) w
        → Holds k
            (AfterDrive calls.hand_off_reports (analysing settings calls material k b c (r, w)).0)
            (analysing settings calls material k b c (r, w)).1
    unfolding analysing
    analysing-Holds b c false w h = weaken _ (Over-Settled calls.hand_off_reports) h
    analysing-Holds b c true w h =
        present-Holds b.report_bytes c.report_bytes w (weaken (Stage analyzing) (λ j p. inl p) h)

    compared-Holds :
        (b : RunOutcome) (o : Option RunOutcome) (w : World)
        → Holds k (AfterStage settings calls material k running_comparison o) w
        → Holds k
            (AfterDrive calls.hand_off_reports (compared settings calls material k b (o, w)).0)
            (compared settings calls material k b (o, w)).1
    unfolding compared
    compared-Holds b none w h = weaken _ (Over-Settled calls.hand_off_reports) h
    compared-Holds b (some c) w h =
        analysing-Holds b c (write_state k analyzing no_notes w).0
          (write_state k analyzing no_notes w).1
          (write_state-Holds k (Stage running_comparison) analyzing no_notes w
            (Stage-IsStable running_comparison) (Stage-MayEnter analyse)
            (plain-Fits analyzing (λ p. cc) (λ p. cc)) h)

    baseline_done-Holds :
        (input : RunInput) (o : Option RunOutcome) (w : World)
        → Holds k (AfterStage settings calls material k running_baseline o) w
        → Holds k
            (AfterDrive calls.hand_off_reports
              (baseline_done settings calls material k input (o, w)).0)
            (baseline_done settings calls material k input (o, w)).1
    unfolding baseline_done
    baseline_done-Holds input none w h = weaken _ (Over-Settled calls.hand_off_reports) h
    baseline_done-Holds input (some b) w h = compared-Holds b _ _ (
        run_stage-Holds settings calls material k running_baseline running_comparison input w
          run_second (plain-Fits running_comparison (λ p. cc) (λ p. cc)) h)

    checked-Holds :
        (r : Result DomainReport) (w : World)
        → Holds k (Stage validating) w
        → Holds k
            (AfterDrive calls.hand_off_reports
              (destinations_checked settings calls material k r w).0)
            (destinations_checked settings calls material k r w).1
    unfolding destinations_checked
    checked-Holds (err e) w h = weaken _ (λ j p. tt) h
    checked-Holds (ok report) w h = elim (Bool-cases (has_any report.warnings)) [
      | inl e ↦ rw e (
          weaken _ (Over-Settled calls.hand_off_reports) (
            fails-Over k (Stage validating) _ "destination_validation_failed" w
              (Stage-IsStable validating) refl refl h))
      | inr e ↦ rw e (
          baseline_done-Holds (fresh_run_input settings calls material k report) _ _ (
            run_stage-Holds settings calls material k validating running_baseline
              (fresh_run_input settings calls material k report) w run_first
              (plain-Fits running_baseline (λ p. cc) (λ p. cc)) h))
    ]

    entered-Holds :
        (b : Bool) (w : World)
        → Holds k (After validating b) w
        → Holds k
            (AfterDrive calls.hand_off_reports
              (validation_entered settings calls material k (b, w)).0)
            (validation_entered settings calls material k (b, w)).1
    unfolding validation_entered
    entered-Holds false w h = weaken _ (Over-Settled calls.hand_off_reports) h
    entered-Holds true w h =
        checked-Holds
          (calls.extract_target_domains material.collection_data material.variable_values) w
          (weaken (Stage validating) (λ j p. inl p) h)

    -- A drive from QUEUED keeps the worker on its sound job, and settles it unless it raises.
    pub drive_job-Holds :
        (w : World)
        → Holds k (Stage queued) w
        → Holds k
            (AfterDrive calls.hand_off_reports (drive_job settings calls material k w).0)
            (drive_job settings calls material k w).1
    unfolding drive_job
    drive_job-Holds w h =
        entered-Holds (write_state k validating no_notes w).0
          (write_state k validating no_notes w).1
          (write_state-Holds k (Stage queued) validating no_notes w (Stage-IsStable queued)
            (Stage-MayEnter validate) (plain-Fits validating (λ p. cc) (λ p. cc)) h)

    -- After the exception handler the job is settled in any case.
    pub recover-Holds :
        (r : Result (Unit {0})) (w : World)
        → Holds k (AfterDrive calls.hand_off_reports r) w
        → Holds k (Settled calls.hand_off_reports) (recover settings calls material k (r, w))
    unfolding recover
    recover-Holds (ok u) w h = h
    recover-Holds (err e) w h = weaken _ (Over-Settled calls.hand_off_reports) (
        fails-Over k Always _ "unexpected_error" _ (λ j j' m p. tt) refl refl
          (get-Holds k Always w (λ j j' m p. tt) (weaken Always (λ j p. tt) h)))

pub Settled-IsStable : (o : Option HandOff) → IsStable (Settled o)
Settled-IsStable none j j' m h = Over-IsStable j j' m h
Settled-IsStable (some f) j j' (inl e) h = rw e h
Settled-IsStable (some f) j j' (inr (a, e)) h = inl (rw e (cancel_once j))

pub Settled-release :
    (o : Option HandOff) (j : ExecutionJob) → Settled o j → Settled o (release_worker j).1
unfolding release_worker
Settled-release none j h = h
Settled-release (some f) j h = h
