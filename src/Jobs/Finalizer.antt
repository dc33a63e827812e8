-- ===== src/Jobs/Finalizer.antt =====
-- backend/app/services/job_finalizer.py: the API builds the analysis of a job whose worker handed
-- its two reports off. What S3 answers and the analysis are parameters; the removal of the job's
-- objects touches nothing else and is left out. The finalizer works on the DynamoDB store, whose
-- `mutate` may call its function again after a conflicting write, and raises after 20 of them: how
-- often the claim meets a conflict, and which writes raise, are parameters. A `mutate` that returns
-- takes effect at one moment, as Jobs.Dynamo.Mutate shows, so it is one step of the shared store.
pub mod Ends
mod Tests
use auto_correlation.Prelude.{
  ℕ, zero, suc, String, Bool, true, false, ◌||◌, Option, none, some, List, [], ◌∷◌, if◌then◌else◌,
}
use auto_correlation.Errors.{Message, plain, problem, other, Result, ok, err}
use auto_correlation.Jobs.Model.{ExecutionJobState, ready, failed, Bytes, ExecutionJob}
use auto_correlation.Jobs.Changes.{Notes, no_notes, failure, claim_finalizing}
use auto_correlation.Jobs.Store.{get, mutate}
use auto_correlation.Jobs.World.{Analysis, World, pause, access}
use auto_correlation.Jobs.Service.{write_state}

-- The answers of `objects.get_bytes`: the bytes, `None`, `ObjectTooLarge`, or another exception.
pub data Fetched : Type 0 where
  bytes : Bytes → Fetched
  absent too_large broken : Fetched

pub record Sources : Type 0 where
  -- By job id and stage.
  pub get_report : String → String → Fetched
  pub build_analysis : Bytes → Bytes → Result Analysis
  -- How many writes of the claim fail, `none` where `mutate` raises.
  pub claim_conflicts : World → Option ℕ
  -- Whether the `mutate` of a write of the job's state raises.
  pub write_raises : World → Bool

-- `exc.detail or ...`
abbrev detail_or : Option Message → Message → Message
detail_or none d = d
detail_or (some m) d = m

module _ (sources : Sources) (job_id : String) where
  -- `_write_state`, with the exception of the store.
  unfoldable pub write : ExecutionJobState → Notes → World → Result (Unit {0}) × World
  write state notes w =
      if sources.write_raises w
      then (err other, pause w)
      else (ok tt, (write_state job_id state notes w).1)

  abbrev pub fail : String → String → World → Result (Unit {0}) × World
  fail code detail = write failed (failure code detail)

  abbrev pub unexpected : World → Result (Unit {0}) × World
  unexpected = fail "analysis_error" "Analysis failed unexpectedly."

  -- `except Exception` around a write in the body of the `try`.
  guarded : Result (Unit {0}) × World → Result (Unit {0}) × World
  unfolding write
  guarded (ok u, w) = (ok u, w)
  guarded (err e, w) = unexpected w

  -- The owner is that of the job as the claim returned it.
  analysed : ExecutionJob → Result Analysis → World → Result (Unit {0}) × World
  unfolding guarded write
  analysed job (ok analysis) w =
      let owned = record analysis { owner_key = some job.owner_key } in
      guarded (
        write ready (record no_notes { analysis_id = some analysis.id })
          (record w { analyses = owned ∷ w.analyses }))
  analysed job (err (problem p)) w =
      write failed
        (record no_notes {
          error_code = some p.code;
          error_detail =
              some (detail_or p.detail (plain "The Newman reports could not be analysed."));
        })
        w
  analysed job (err other) w = unexpected w

  -- What follows a fetch: the rest of the loop, or the end.
  fetched :
      Fetched → (Bytes → World → Result (Unit {0}) × World) → World → Result (Unit {0}) × World
  unfolding guarded write
  fetched (bytes b) next w = next b w
  fetched absent next w =
      guarded (fail "missing_report" "A Newman report was not found for analysis." w)
  fetched too_large next w =
      fail "report_too_large" "The Newman report exceeded the maximum allowed size." w
  fetched broken next w = unexpected w

  unfoldable pub build : ExecutionJob → World → Result (Unit {0}) × World
  unfolding fetched analysed
  build job w =
      fetched (sources.get_report job_id "baseline")
        (λ baseline.
          fetched (sources.get_report job_id "comparison")
            (λ comparison. analysed job (sources.build_analysis baseline comparison)))
        w

  -- `claimed` is set by any call of `_claim` and never reset.
  abbrev marked : Bool → Option (Bool × ExecutionJob) × World → Option (Bool × ExecutionJob) × World
  marked claimed (none, w) = (none, w)
  marked claimed (some (took, job), w) = (some (claimed || took, job), w)

  -- An attempt whose write fails: `_claim` has been called on the job that was read.
  abbrev again :
      (Bool → World → Option (Bool × ExecutionJob) × World)
      → Bool
      → ℕ
      → Option ExecutionJob × World
      → Option (Bool × ExecutionJob) × World
  again retry claimed now (none, w) = (none, w)
  again retry claimed now (some job, w) = retry (claimed || (claim_finalizing now job).0) w

  -- `store.mutate(job_id, _claim)`, by recursion on the conflicts that are to come.
  unfoldable pub claim_within : ℕ → ℕ → Bool → World → Option (Bool × ExecutionJob) × World
  claim_within zero now claimed w =
      marked claimed (access (λ clock. mutate clock job_id (claim_finalizing now)) w)
  claim_within (suc n) now claimed w =
      again (claim_within n now) claimed now (access (λ clock. get clock job_id) w)

  -- The claim: `none` where the store raises, else whether it was made, with the job, if there.
  unfoldable pub claim : Option ℕ → World → Option (Option (Bool × ExecutionJob)) × World
  unfolding claim_within
  claim none w = (none, pause w)
  claim (some n) w = let (found, w') = claim_within n w.clock false w in (some found, w')

  finalizing : Option (Option (Bool × ExecutionJob)) × World → Result (Unit {0}) × World
  unfolding build
  finalizing (none, w) = (err other, w)
  finalizing (some none, w) = (ok tt, w)
  finalizing (some (some (claimed, job)), w) = if claimed then build job w else (ok tt, w)

  unfoldable pub finalize_job : World → Result (Unit {0}) × World
  unfolding finalizing claim
  finalize_job w = finalizing (claim (sources.claim_conflicts w) w)
