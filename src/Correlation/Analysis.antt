-- ===== src/Correlation/Analysis.antt =====
-- backend/app/services/correlation_engine.py, `analyze_two_run` and `analyze_single_run`.
use auto_correlation.Prelude.{ℕ, String, List, [], All}
use auto_correlation.Runs.Signature.{NormalizedExecution}
use auto_correlation.Runs.Aligner.{AlignmentPair}
use auto_correlation.Correlation.Model.{CorrelationCandidate}
use auto_correlation.Correlation.Score.{Texts}
use auto_correlation.Correlation.Match.{Words}
use auto_correlation.Correlation.Engine.{
  Index, aligned_from, two_run_candidates, single_run_candidates,
}
use auto_correlation.Correlation.Engine.Proven.{IsProven, two_run_candidates-AreProven}
use auto_correlation.Correlation.Engine.Named.{candidates-HasDistinctNames}
use auto_correlation.Correlation.Conflicts.{flagged, dedupe_and_flag_conflicts}
use auto_correlation.Correlation.Conflicts.Kept.{dedupe-All}

module _ (x : Index) (w : Words) (t : Texts) (new_id : ℕ → String) where
  unfoldable pub analyze_two_run :
      List NormalizedExecution
      → List NormalizedExecution
      → List AlignmentPair
      → List CorrelationCandidate
  unfolding two_run_candidates dedupe_and_flag_conflicts
  analyze_two_run baseline comparison pairs =
      dedupe_and_flag_conflicts (two_run_candidates x w t new_id baseline comparison pairs)

  unfoldable pub analyze_single_run : List NormalizedExecution → List CorrelationCandidate
  unfolding single_run_candidates dedupe_and_flag_conflicts
  analyze_single_run run = dedupe_and_flag_conflicts (single_run_candidates x w t new_id run)

  -- Every candidate that `analyze_two_run` returns is proven by both captures. Its source stands in a
  -- response of the baseline and has another value at the same place of the aligned response; it has
  -- a consumer; and each consumer is a later sink of the baseline that holds its value, whose aligned
  -- sink at the same place of the comparison holds the other value.
  pub analyze_two_run-AreProven :
      (baseline comparison : List NormalizedExecution) (pairs : List AlignmentPair)
      → All
          (IsProven x w t new_id baseline comparison (aligned_from [] pairs))
          (analyze_two_run baseline comparison pairs)
  unfolding analyze_two_run
  analyze_two_run-AreProven baseline comparison pairs =
      dedupe-All (IsProven x w t new_id baseline comparison (aligned_from [] pairs))
        (λ c all p.
          unfold flagged in
          (record {
            producer_run = p.producer_run;
            present = p.present;
            answered = p.answered;
            is_source = p.is_source;
            may_vary = p.may_vary;
            other_source = p.other_source;
            there = p.there;
            differs = p.differs;
            consumed = p.consumed;
            flows = p.flows;
          }))
        (two_run_candidates x w t new_id baseline comparison pairs)
        (candidates-HasDistinctNames x w t new_id baseline comparison pairs).0
        (two_run_candidates-AreProven x w t new_id baseline comparison pairs)
