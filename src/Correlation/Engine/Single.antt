-- ===== src/Correlation/Engine/Single.antt =====
-- What one run alone can show: no candidate of it is of high or medium confidence.
use auto_correlation.Prelude.{
  ℕ, ◌≤◌, String, ◌≡◌, ◌⊎◌, inl, inr, refl, false, Option, none, List, [], ◌∷◌, if◌then◌else◌, All,
  All-append, Bool-cases, is_some, length, ◌||◌,
}
use auto_correlation.Runs.Signature.{NormalizedExecution}
use auto_correlation.Correlation.Model.{ValueOccurrence, low, rejected, CorrelationCandidate}
use auto_correlation.Correlation.Match.{
  Words, is_excluded, has_usable_response, is_usable, extractor_for,
}
use auto_correlation.Correlation.Score.{Texts, Scored, score-le, classify-single}
use auto_correlation.Correlation.Engine.{
  Index, is_structured, is_text_method, Scan, Supply, no_names, is_empty, candidate, offered,
  over_sources, over_executions, single_source, single_run_candidates,
}

-- A candidate with at most 20 points, of low confidence or rejected.
abbrev pub IsUnproven : CorrelationCandidate → Type 0
IsUnproven c = (c.evidence.score ≤ 20) × ((c.confidence ≡ low) ⊎ (c.confidence ≡ rejected))

module _ (x : Index) (w : Words) (t : Texts) (new_id : ℕ → String) where
  candidate-IsUnproven :
      (warnings : List String) (e : NormalizedExecution) (src : ValueOccurrence)
      (value_b : Option String) (s : Scan) (n : Supply)
      → IsUnproven (candidate x w t new_id false warnings e src value_b s n).0
  unfolding candidate
  candidate-IsUnproven warnings e src value_b s n =
      let method = (extractor_for w src).0 in
      let scored : Scored = record {
        two_run = false;
        value = src.raw_value;
        structured = is_structured method;
        consumer_count = length s.consumers;
        text_extraction = s.text_extraction || is_text_method method;
        schema_changed = s.schema_changed;
        producer_usable = is_usable e;
        value_b = value_b;
      } in
      (score-le t scored, classify-single t scored refl)

  offered-AreUnproven :
      (warnings : List String) (e : NormalizedExecution) (src : ValueOccurrence)
      (value_b : Option String) (s : Scan) (n : Supply)
      → All IsUnproven (offered x w t new_id false warnings e src value_b s n).0
  offered-AreUnproven warnings e src value_b s n = elim (Bool-cases (is_empty s.consumers)) [
    | inl none_left ↦ rw none_left tt
    | inr some_left ↦ rw some_left (candidate-IsUnproven warnings e src value_b s n, tt)
  ]

  single_source-AreUnproven :
      (run : List NormalizedExecution) (e : NormalizedExecution) (src : ValueOccurrence)
      (n : Supply)
      → All IsUnproven (single_source x w t new_id run e src n).0
  unfolding single_source
  single_source-AreUnproven run e src n = elim (Bool-cases (is_some (is_excluded w src))) [
    | inl out ↦ rw out tt
    | inr may ↦ rw may (offered-AreUnproven _ e src none _ n)
  ]

  module _ (f : NormalizedExecution → ValueOccurrence → Supply → List CorrelationCandidate × Supply)
      (each : (e : NormalizedExecution) (src : ValueOccurrence) (n : Supply)
        → All IsUnproven (f e src n).0) where
    over_sources-AreUnproven :
        (e : NormalizedExecution) (l : List ValueOccurrence) (n : Supply)
        → All IsUnproven (over_sources x w t new_id f e l n).0
    unfolding over_sources
    over_sources-AreUnproven e [] n = tt
    over_sources-AreUnproven e (src ∷ r) n =
        All-append IsUnproven (f e src n).0 (over_sources x w t new_id f e r (f e src n).1).0
          (each e src n) (over_sources-AreUnproven e r (f e src n).1)

    over_executions-AreUnproven :
        (l : List NormalizedExecution) (n : Supply)
        → All IsUnproven (over_executions x w t new_id f l n).0
    unfolding over_executions
    over_executions-AreUnproven [] n = tt
    over_executions-AreUnproven (e ∷ r) n =
        let l = if has_usable_response e then x.response_sources e else [] in
        let a = over_sources x w t new_id f e l n in
        All-append IsUnproven a.0 (over_executions x w t new_id f r a.1).0
          (over_sources-AreUnproven e l n) (over_executions-AreUnproven r a.1)

  -- Every candidate that the loops over a single run make has at most 20 points, and is of low
  -- confidence or rejected.
  pub single_run_candidates-AreUnproven :
      (run : List NormalizedExecution) → All IsUnproven (single_run_candidates x w t new_id run)
  unfolding single_run_candidates
  single_run_candidates-AreUnproven run =
      over_executions-AreUnproven (single_source x w t new_id run) (single_source-AreUnproven run)
        run no_names
