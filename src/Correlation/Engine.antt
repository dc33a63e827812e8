-- ===== src/Correlation/Engine.antt =====
-- backend/app/services/correlation_engine.py: the candidates of two aligned runs, and of one. The
-- indexers of services/value_indexer.py are the parameter `Index`; a fresh id is the next of a supply.
pub mod Proven
pub mod Named
pub mod Single
use auto_correlation.Prelude.{
  ℕ, suc, ◌+◌, String, Bool, true, false, not, ◌&&◌, ◌||◌, Option, none, some, List, [], ◌∷◌, ◌++◌,
  leb, if◌then◌else◌, str_eq, is_some, is_none, truthy, length,
}
use auto_correlation.Prelude.Dict.{Dict, lookup, put}
use auto_correlation.Errors.{Message}
use auto_correlation.Runs.Signature.{NormalizedExecution}
use auto_correlation.Runs.Aligner.{AlignmentPair, Status, matched}
use auto_correlation.Correlation.Naming.{dedupe_variable_name}
use auto_correlation.Correlation.Model.{
  ValueOccurrence, CorrelationCandidate, Evidence, Place, place_eq, LocationType, text_body,
  ExtractorMethod, json_path, json_jmespath, xpath2, regex, boundary,
}
use auto_correlation.Correlation.Score.{Texts, Scored, score, classify}
use auto_correlation.Correlation.Match.{
  Words, Exclusion, is_excluded, is_hard, match_consumer, extractor_for, resource_id_path_match,
  is_usable, has_usable_response,
}

pub record Index : Type 0 where
  pub request_sinks : NormalizedExecution → List ValueOccurrence
  pub response_sources : NormalizedExecution → List ValueOccurrence

-- The dictionary `b2c` of matched executions.
abbrev is_matched : Status → Bool
is_matched matched = true
is_matched _ = false

abbrev add_pair : Option String → Option String → Dict String → Dict String
add_pair (some b) (some c) d = if truthy (some b) && truthy (some c) then put b c d else d
add_pair _ _ d = d

unfoldable pub aligned_from : Dict String → List AlignmentPair → Dict String
aligned_from d [] = d
aligned_from d (p ∷ r) =
    aligned_from
      (if is_matched p.status
        then add_pair p.baseline_execution_id p.comparison_execution_id d
        else d)
      r

-- `_index_by_location`: of the occurrences at one place the last one stands.
abbrev pub place_in : NormalizedExecution → ValueOccurrence → Place
place_in e o = record {
  execution_id = e.id;
  location_type = o.location_type;
  canonical_path = o.canonical_path;
}

unfoldable pub last_of : Place → NormalizedExecution → List ValueOccurrence → Option ValueOccurrence
last_of k e [] = none
last_of k e (o ∷ r) =
    let later = last_of k e r in
    if is_some later then later else if place_eq (place_in e o) k then some o else none

unfoldable pub at_place :
    (NormalizedExecution → List ValueOccurrence)
    → Place
    → List NormalizedExecution
    → Option ValueOccurrence
unfolding last_of
at_place occs k [] = none
at_place occs k (e ∷ r) =
    let later = at_place occs k r in if is_some later then later else last_of k e (occs e)

unfoldable pub by_id : String → List NormalizedExecution → Option NormalizedExecution
by_id k [] = none
by_id k (e ∷ r) =
    let later = by_id k r in if is_some later then later else if str_eq e.id k then some e else none

unfoldable pub all_sinks : Index → List NormalizedExecution → List ValueOccurrence
all_sinks x [] = []
all_sinks x (e ∷ r) = x.request_sinks e ++ all_sinks x r

-- What the loop over the sinks makes of one: it goes on, it sees that the schema changed, or it takes
-- the sink as a consumer behind a wrapper.
pub data Verdict : Type 0 where
  passed_over schema_change : Verdict
  consumes : Option String → Verdict

pub record Scan : Type 0 where
  pub consumers : List ValueOccurrence
  pub schema_changed : Bool
  pub text_extraction : Bool

abbrev is_text : LocationType → Bool
is_text text_body = true
is_text _ = false

abbrev pub noted : ValueOccurrence → Verdict → Scan → Scan
noted sink passed_over s = s
noted sink schema_change s = record s { schema_changed = true }
noted sink (consumes w) s = record s {
  consumers = record sink { wrapper = w } ∷ s.consumers;
  text_extraction = is_text sink.location_type || s.text_extraction;
}

-- The flags only ever rise, so the loop reads from the front or from the back.
unfoldable pub gather : (ValueOccurrence → Verdict) → List ValueOccurrence → Scan
gather f [] = record { consumers = []; schema_changed = false; text_extraction = false }
gather f (sink ∷ r) = let rest = gather f r in noted sink (f sink) rest

-- The taken names, and how many ids are used.
pub record Supply : Type 0 where
  pub taken : List String
  pub used : ℕ

abbrev pub is_text_method : ExtractorMethod → Bool
is_text_method regex = true
is_text_method boundary = true
is_text_method _ = false

abbrev pub is_structured : ExtractorMethod → Bool
is_structured json_path = true
is_structured xpath2 = true
is_structured json_jmespath = true
is_structured _ = false

abbrev pub no_names : Supply
no_names = record { taken = []; used = 0 }

abbrev pub is_empty : List ValueOccurrence → Bool
is_empty [] = true
is_empty (_ ∷ _) = false

module _ (x : Index) (w : Words) (t : Texts) (new_id : ℕ → String) where
  -- The candidate of a source and its consumers.
  unfoldable pub candidate :
      Bool
      → List String
      → NormalizedExecution
      → ValueOccurrence
      → Option String
      → Scan
      → Supply
      → CorrelationCandidate × Supply
  unfolding score classify extractor_for is_usable dedupe_variable_name
  candidate two_run warnings e src value_b s n =
      let (method, expr) = extractor_for w src in
      let (name, taken) =
        dedupe_variable_name (w.suggest_variable_name src.key src.canonical_path) n.taken in
      let evidence = score t (record {
        two_run = two_run;
        value = src.raw_value;
        structured = is_structured method;
        consumer_count = length s.consumers;
        text_extraction = s.text_extraction || is_text_method method;
        schema_changed = s.schema_changed;
        producer_usable = is_usable e;
        value_b = value_b;
      }) in
      (
        record {
          id = new_id n.used;
          variable_name = name;
          producer = src;
          consumers = s.consumers;
          extractor_method = method;
          extractor_expression = expr;
          confidence = classify evidence.score;
          evidence = evidence;
          warnings = warnings;
        },
        record { taken = taken; used = suc n.used },
      )

  -- No candidate where nothing consumes the value.
  abbrev pub offered :
      Bool
      → List String
      → NormalizedExecution
      → ValueOccurrence
      → Option String
      → Scan
      → Supply
      → List CorrelationCandidate × Supply
  offered two_run warnings e src value_b s n =
      if is_empty s.consumers
      then ([], n)
      else (let (c, n') = candidate two_run warnings e src value_b s n in (c ∷ [], n'))

  -- The loops over executions and their sources, by what one source gives.
  module _
      (of_source : NormalizedExecution
        → ValueOccurrence
        → Supply
        → List CorrelationCandidate × Supply) where
    unfoldable pub over_sources :
        NormalizedExecution → List ValueOccurrence → Supply → List CorrelationCandidate × Supply
    over_sources e [] n = ([], n)
    over_sources e (src ∷ r) n =
        let (cs, n') = of_source e src n in let (ds, n'') = over_sources e r n' in (cs ++ ds, n'')

    unfoldable pub over_executions :
        List NormalizedExecution → Supply → List CorrelationCandidate × Supply
    unfolding over_sources
    over_executions [] n = ([], n)
    over_executions (e ∷ r) n =
        let (cs, n') =
          over_sources e (if has_usable_response e then x.response_sources e else []) n in
        let (ds, n'') = over_executions r n' in (cs ++ ds, n'')

  module _ (baseline comparison : List NormalizedExecution) (b2c : Dict String) where
    abbrev pub sink_there : String → ValueOccurrence → Option ValueOccurrence
    sink_there id sink =
        at_place x.request_sinks
          (record {
            execution_id = id;
            location_type = sink.location_type;
            canonical_path = sink.canonical_path;
          })
          comparison

    abbrev second_match : Option String → String → Option ValueOccurrence → Verdict
    second_match wrapper value_b none = schema_change
    second_match wrapper value_b (some sink_b) =
        if (match_consumer value_b sink_b).0 then consumes wrapper else schema_change

    abbrev in_comparison : Option String → String → ValueOccurrence → Option String → Verdict
    in_comparison wrapper value_b sink none = schema_change
    in_comparison wrapper value_b sink (some id) = second_match wrapper value_b (sink_there id sink)

    -- Its execution is always found where the indexer stamps its id.
    abbrev names_it : ValueOccurrence → ValueOccurrence → Option NormalizedExecution → Bool
    names_it src sink none = false
    names_it src sink (some e) = resource_id_path_match w src sink e

    abbrev first_match : ValueOccurrence → String → ValueOccurrence → Bool × Option String → Verdict
    first_match src value_b sink (false, _) = passed_over
    first_match src value_b sink (true, wrapper) =
        if is_some (is_excluded w src) && not (names_it src sink (by_id sink.execution_id baseline))
        then passed_over
        else in_comparison wrapper value_b sink (lookup sink.execution_id b2c)

    unfoldable pub verdict :
        NormalizedExecution → ValueOccurrence → String → ValueOccurrence → Verdict
    unfolding match_consumer is_excluded resource_id_path_match at_place by_id
    verdict e src value_b sink =
        if leb sink.execution_index e.original_index
        then passed_over
        else first_match src value_b sink (match_consumer src.raw_value sink)

    abbrev source_there : ValueOccurrence → Option String → Option ValueOccurrence
    source_there src none = none
    source_there src (some id) =
        at_place x.response_sources
          (record {
            execution_id = id;
            location_type = src.location_type;
            canonical_path = src.canonical_path;
          })
          comparison

    abbrev usable_warnings : NormalizedExecution → List String
    usable_warnings e =
        if is_usable e then [] else "Producer response is a non-success/error response." ∷ []

    abbrev against :
        NormalizedExecution
        → ValueOccurrence
        → Option ValueOccurrence
        → Supply
        → List CorrelationCandidate × Supply
    against e src none n = ([], n)
    against e src (some src_b) n =
        if str_eq src.normalized_value src_b.normalized_value
        then ([], n)
        else offered true (usable_warnings e) e src (some src_b.raw_value)
            (gather (verdict e src src_b.raw_value) (all_sinks x baseline)) n

    unfoldable pub of_source :
        NormalizedExecution → ValueOccurrence → Supply → List CorrelationCandidate × Supply
    unfolding verdict gather all_sinks candidate at_place is_excluded is_usable
    of_source e src n =
        if is_hard (is_excluded w src)
        then ([], n)
        else against e src (source_there src (lookup e.id b2c)) n

  -- `analyze_two_run` before the conflicts.
  unfoldable pub two_run_candidates :
      List NormalizedExecution
      → List NormalizedExecution
      → List AlignmentPair
      → List CorrelationCandidate
  unfolding over_executions of_source aligned_from
  two_run_candidates baseline comparison pairs =
      (over_executions (of_source baseline comparison (aligned_from [] pairs)) baseline no_names).0

  -- `analyze_single_run` before the conflicts.
  abbrev single_match : Bool × Option String → Verdict
  single_match (false, _) = passed_over
  single_match (true, wrapper) = consumes wrapper

  unfoldable pub single_verdict : NormalizedExecution → ValueOccurrence → ValueOccurrence → Verdict
  unfolding match_consumer
  single_verdict e src sink =
      if leb sink.execution_index e.original_index
      then passed_over
      else single_match (match_consumer src.raw_value sink)

  unfoldable pub single_source :
      List NormalizedExecution
      → NormalizedExecution
      → ValueOccurrence
      → Supply
      → List CorrelationCandidate × Supply
  unfolding single_verdict gather all_sinks candidate is_excluded
  single_source run e src n =
      if is_some (is_excluded w src)
      then ([], n)
      else offered false ("Single-run mode: cannot prove the value is dynamic." ∷ []) e src none
          (gather (single_verdict e src) (all_sinks x run)) n

  unfoldable pub single_run_candidates : List NormalizedExecution → List CorrelationCandidate
  unfolding over_executions single_source
  single_run_candidates run = (over_executions (single_source run) run no_names).0
