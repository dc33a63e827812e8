-- ===== src/Correlation/Classification/Buckets.antt =====
-- backend/app/services/classification.py, `classify`: the loop over the candidates and the one over the
-- request sinks. The classification that is written into a candidate is that of the list it is in.
use auto_correlation.Prelude.{
  ℕ, suc, ◌+◌, String, Bool, true, false, ◌||◌, Option, none, some, List, [], ◌∷◌, ◌++◌,
  if◌then◌else◌, str_eq, length,
}
use auto_correlation.Prelude.Dict.{Dict, lookup}
use auto_correlation.Runs.Signature.{NormalizedExecution}
use auto_correlation.Runs.Aligner.{AlignmentPair}
use auto_correlation.Correlation.Model.{ValueOccurrence, CorrelationCandidate}
use auto_correlation.Correlation.Match.{has_usable_response}
use auto_correlation.Correlation.Conflicts.{place_of, uses_place}
use auto_correlation.Correlation.Engine.{Index, aligned_from, at_place}
use auto_correlation.Correlation.Classification.{
  Classification, correlation, parameterization, external_credential, cookie_managed, noise,
  review_required, ValueInsight, Summary, ClassificationResult, Patterns, FieldKey, field_key_eq,
  insight_key, sink_key, Ruling, is_cookie_managed, rule_on, insight_of, cookie_insight,
}

-- `_producer_values`, as a list.
unfoldable pub values_of : List ValueOccurrence → List String
values_of [] = []
values_of (o ∷ r) =
    let rest = values_of r in if str_eq o.raw_value "" then rest else o.raw_value ∷ rest

unfoldable pub producer_values : Index → List NormalizedExecution → List String
unfolding values_of
producer_values x [] = []
producer_values x (e ∷ r) =
    let rest = producer_values x r in
    if has_usable_response e then values_of (x.response_sources e) ++ rest else rest

unfoldable pub is_seen : FieldKey → List FieldKey → Bool
unfolding field_key_eq
is_seen k [] = false
is_seen k (j ∷ r) = field_key_eq j k || is_seen k r

-- `_merge_occurrence`
unfoldable pub merge_occurrence : FieldKey → ValueOccurrence → List ValueInsight → List ValueInsight
unfolding field_key_eq
merge_occurrence k sink [] = []
merge_occurrence k sink (i ∷ r) =
    let rest = merge_occurrence k sink r in
    if field_key_eq (insight_key i) k
    then record i { occurrences = i.occurrences ++ sink ∷ [] } ∷ r
    else i ∷ rest

pub record Gathered : Type 0 where
  pub insights : List ValueInsight
  pub field_seen : List FieldKey
  pub used : ℕ

-- `correlated_consumers`
unfoldable pub is_correlated : ValueOccurrence → List CorrelationCandidate → Bool
unfolding uses_place
is_correlated sink [] = false
is_correlated sink (c ∷ r) = uses_place (place_of sink) c.consumers || is_correlated sink r

abbrev pub bump : Classification → Summary → Summary
bump correlation s = s
bump parameterization s = record s { parameterizations = s.parameterizations + 1 }
bump external_credential s = record s { external_credentials = s.external_credentials + 1 }
bump cookie_managed s = record s { cookies = s.cookies + 1 }
bump noise s = record s { noises = s.noises + 1 }
bump review_required s = record s { reviews = s.reviews + 1 }

unfoldable pub summed : Summary → List ValueInsight → Summary
summed s [] = s
summed s (i ∷ r) = summed (bump i.classification s) r

unfoldable pub summarize : ℕ → List ValueInsight → Summary
unfolding summed
summarize correlations insights =
    summed
      (record {
        correlations = correlations;
        parameterizations = 0;
        external_credentials = 0;
        cookies = 0;
        noises = 0;
        reviews = 0;
      })
      insights

abbrev pub is_two_run : Option (List NormalizedExecution) → Bool
is_two_run none = false
is_two_run (some _) = true

-- The state in which the second loop starts.
abbrev pub started : List ValueInsight → Gathered
started insights = record { insights = insights; field_seen = []; used = length insights }

module _ (x : Index) (p : Patterns) (new_id : ℕ → String) where
  -- The first loop: the correlations, and an insight for each of the others.
  unfoldable pub split :
      ℕ → List CorrelationCandidate → List CorrelationCandidate × List ValueInsight
  unfolding is_cookie_managed
  split n [] = ([], [])
  split n (c ∷ r) =
      if is_cookie_managed p c
      then (let (found, insights) = split (suc n) r in
          (found, cookie_insight p (new_id n) c ∷ insights))
      else (let (found, insights) = split n r in (c ∷ found, insights))

  module _ (found : List CorrelationCandidate) (values : List String) (two_run : Bool)
      (there : NormalizedExecution → ValueOccurrence → Option ValueOccurrence) where
    unfoldable pub kept_ruling :
        ValueOccurrence → Option ValueOccurrence → Option Ruling → Gathered → Gathered
    unfolding is_seen merge_occurrence
    kept_ruling sink comp_sink none g = g
    kept_ruling sink comp_sink (some r) g =
        let k = sink_key r.bucket sink in
        if is_seen k g.field_seen
        then record g { insights = merge_occurrence k sink g.insights; used = suc g.used }
        else record {
          insights = g.insights ++ insight_of p (new_id g.used) sink comp_sink r ∷ [];
          field_seen = k ∷ g.field_seen;
          used = suc g.used;
        }

    unfoldable pub on_sink : NormalizedExecution → ValueOccurrence → Gathered → Gathered
    unfolding is_correlated kept_ruling rule_on
    on_sink e sink g =
        if is_correlated sink found
        then g
        else kept_ruling sink (there e sink) (rule_on p values two_run sink (there e sink)) g

    unfoldable pub on_sinks : NormalizedExecution → List ValueOccurrence → Gathered → Gathered
    unfolding on_sink
    on_sinks e [] g = g
    on_sinks e (sink ∷ r) g = on_sinks e r (on_sink e sink g)

    unfoldable pub on_executions : List NormalizedExecution → Gathered → Gathered
    unfolding on_sinks
    on_executions [] g = g
    on_executions (e ∷ r) g = on_executions r (on_sinks e (x.request_sinks e) g)

  -- The sink of the aligned execution at the same place.
  abbrev sink_of :
      Option (List NormalizedExecution) → ValueOccurrence → Option String → Option ValueOccurrence
  sink_of (some comparison) sink (some id) =
      at_place x.request_sinks
        (record {
          execution_id = id;
          location_type = sink.location_type;
          canonical_path = sink.canonical_path;
        })
        comparison
  sink_of _ sink _ = none

  abbrev pub counterpart :
      Option (List NormalizedExecution)
      → Dict String
      → NormalizedExecution
      → ValueOccurrence
      → Option ValueOccurrence
  counterpart comparison b2c e sink = sink_of comparison sink (lookup e.id b2c)

  unfoldable pub classify :
      List NormalizedExecution
      → Option (List NormalizedExecution)
      → List AlignmentPair
      → List CorrelationCandidate
      → ClassificationResult
  unfolding split on_executions summarize producer_values aligned_from at_place
  classify baseline comparison pairs candidates =
      let (found, cookies) = split 0 candidates in
      let g =
        on_executions found (producer_values x baseline) (is_two_run comparison)
          (counterpart comparison (aligned_from [] pairs)) baseline (started cookies) in
      record { found = found; insights = g.insights; summary = summarize (length found) g.insights }
