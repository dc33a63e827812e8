-- ===== src/Correlation/Graph.antt =====
-- backend/app/services/graph_builder.py: the edges of the dependency graph. The nodes, which restate
-- the executions, the facets, and an edge's masked value, classification and response key are left
-- out. A rule is known by the fields that an edge is made of.
pub mod Edges
pub mod Strongest
mod Tests
use Prim.Native.String.{◌++◌ as ◌++ₛ◌}
use auto_correlation.Prelude.{
  ℕ, String, Bool, true, false, not, ◌&&◌, ◌||◌, Option, none, some, List, [], ◌∷◌, ◌++◌, ltb,
  if◌then◌else◌, str_eq, truthy, is_some, select,
}
use auto_correlation.Prelude.Dict.{Dict, lookup, put}
use auto_correlation.Runs.Signature.{NormalizedExecution}
use auto_correlation.Correlation.Naming.{is_in}
use auto_correlation.Correlation.Model.{
  ValueOccurrence, LocationType, path, query, header, cookie, json_body, form, text_body, xml_body,
  Confidence, CorrelationCandidate, Place, place_eq,
}
use auto_correlation.Correlation.Conflicts.{place_of, uses_place}
use auto_correlation.Correlation.Engine.{by_id}

pub data CandidateState : Type 0 where
  suggested accepted rejected : CandidateState

pub data RuleState : Type 0 where
  enabled disabled deleted : RuleState

pub data RuleOrigin : Type 0 where
  automatic manual : RuleOrigin

pub record CorrelationRule : Type 0 where
  pub id : String
  pub variable_name : String
  pub origin : RuleOrigin
  pub state : RuleState
  pub producer : ValueOccurrence
  pub consumers : List ValueOccurrence
  pub confidence : Confidence
  pub source_candidate_id : Option String

-- `state` of a source and an edge: a candidate's, or that of an enabled rule.
pub data EdgeState : Type 0 where
  of_candidate : CandidateState → EdgeState
  of_rule : RuleOrigin → EdgeState

pub record Source : Type 0 where
  pub variable : String
  pub producer : ValueOccurrence
  pub consumers : List ValueOccurrence
  pub confidence : Confidence
  pub state : EdgeState

pub record Edge : Type 0 where
  pub id : String
  pub source : String
  pub target : String
  pub variable : String
  pub producer_path : String
  pub consumer_location : LocationType
  pub consumer_path : String
  pub wrapper : Option String
  pub confidence : Confidence
  pub state : EdgeState

-- `state_rank`
abbrev pub rank : EdgeState → ℕ
rank (of_candidate rejected) = 0
rank (of_candidate suggested) = 1
rank (of_candidate accepted) = 2
rank (of_rule _) = 2

abbrev is_enabled : RuleState → Bool
is_enabled enabled = true
is_enabled _ = false

abbrev pub enabled_rules : List CorrelationRule → List CorrelationRule
enabled_rules = select (λ r. is_enabled r.state)

-- `accepted_candidate_ids`, for enabled rules.
abbrev add_id : Option String → List String → List String
add_id none l = l
add_id (some c) l = if truthy (some c) then c ∷ l else l

unfoldable pub accepted_ids : List CorrelationRule → List String
accepted_ids [] = []
accepted_ids (r ∷ l) = add_id r.source_candidate_id (accepted_ids l)

-- `enabled_sources` and `enabled_consumers`
unfoldable pub is_rule_source : Place → List CorrelationRule → Bool
is_rule_source k [] = false
is_rule_source k (r ∷ l) = place_eq (place_of r.producer) k || is_rule_source k l

unfoldable pub is_rule_consumer : Place → List CorrelationRule → Bool
unfolding uses_place
is_rule_consumer k [] = false
is_rule_consumer k (r ∷ l) = uses_place k r.consumers || is_rule_consumer k l

abbrev is_empty : List ValueOccurrence → Bool
is_empty [] = true
is_empty (_ ∷ _) = false

-- A candidate comes with its state.
unfoldable pub candidate_sources :
    List CorrelationRule → List (CorrelationCandidate × CandidateState) → List Source
unfolding is_rule_source is_rule_consumer accepted_ids is_in
candidate_sources rules [] = []
candidate_sources rules ((c, state) ∷ l) =
    let rest = candidate_sources rules l in
    let remaining = select (λ s. not (is_rule_consumer (place_of s) rules)) c.consumers in
    if is_rule_source (place_of c.producer) rules || is_empty remaining
    then rest
    else record {
      variable = c.variable_name;
      producer = c.producer;
      consumers = remaining;
      confidence = c.confidence;
      state = of_candidate (if is_in c.id (accepted_ids rules) then accepted else state);
    }
      ∷ rest

abbrev pub rule_source : CorrelationRule → Source
rule_source r = record {
  variable = r.variable_name;
  producer = r.producer;
  consumers = r.consumers;
  confidence = r.confidence;
  state = of_rule r.origin;
}

unfoldable pub rule_sources : List CorrelationRule → List Source
rule_sources [] = []
rule_sources (r ∷ l) = rule_source r ∷ rule_sources l

-- `LocationType.value`
abbrev location_value : LocationType → String
location_value path = "path"
location_value query = "query"
location_value header = "header"
location_value cookie = "cookie"
location_value json_body = "json_body"
location_value form = "form"
location_value text_body = "text_body"
location_value xml_body = "xml_body"

unfoldable pub edge_id : Source → ValueOccurrence → String
edge_id src sink =
    src.producer.execution_id
    ++ₛ (":"
        ++ₛ (sink.execution_id
            ++ₛ (":"
                ++ₛ (src.variable
                    ++ₛ (":"
                        ++ₛ (location_value sink.location_type
                            ++ₛ (":" ++ₛ sink.canonical_path)))))))

abbrev pub edge_of : Source → ValueOccurrence → Edge
edge_of src sink = record {
  id = edge_id src sink;
  source = src.producer.execution_id;
  target = sink.execution_id;
  variable = src.variable;
  producer_path = src.producer.canonical_path;
  consumer_location = sink.location_type;
  consumer_path = sink.canonical_path;
  wrapper = sink.wrapper;
  confidence = src.confidence;
  state = src.state;
}

-- The edge that is there gives way only to a stronger state.
abbrev pub stronger : Edge → Option Edge → Bool
stronger e none = true
stronger e (some prev) = ltb (rank prev.state) (rank e.state)

unfoldable pub add_edge : Edge → Dict Edge → Dict Edge
add_edge e m = if stronger e (lookup e.id m) then put e.id e m else m

module _ (run : List NormalizedExecution) where
  abbrev pub is_node : String → Bool
  is_node k = is_some (by_id k run)

  unfoldable pub add_sinks : Source → List ValueOccurrence → Dict Edge → Dict Edge
  unfolding add_edge by_id edge_id
  add_sinks src [] m = m
  add_sinks src (sink ∷ r) m =
      add_sinks src r (if is_node sink.execution_id then add_edge (edge_of src sink) m else m)

  unfoldable pub add_sources : List Source → Dict Edge → Dict Edge
  unfolding add_sinks
  add_sources [] m = m
  add_sources (src ∷ r) m =
      add_sources r (if is_node src.producer.execution_id then add_sinks src src.consumers m else m)

  -- `edge_map` of `build_graph`.
  unfoldable pub edge_map :
      List (CorrelationCandidate × CandidateState) → List CorrelationRule → Dict Edge
  unfolding add_sources candidate_sources rule_sources
  edge_map candidates rules =
      let on = enabled_rules rules in
      add_sources (candidate_sources on candidates ++ rule_sources on) []
