-- ===== src/Correlation/Graph/Tests.antt =====
-- A suggested candidate, and the enabled rule of another source with the same variable.
use auto_correlation.Prelude.{
  ℕ, ◌≤◌, ap, subst, some, String, ◌≡◌, inl, inr, refl, true, none, List, [], ◌∷◌, Member, ◌++◌,
}
use auto_correlation.Prelude.Dict.{lookup}
use auto_correlation.Runs.Signature.{NormalizedExecution}
use auto_correlation.Correlation.Model.{
  request, LocationType, header, json_body, string, ValueOccurrence, CorrelationCandidate, low,
  json_path,
}
use auto_correlation.Correlation.Engine.{by_id}
use auto_correlation.Correlation.Graph.{
  suggested, CorrelationRule, manual, enabled, edge_id, edge_map, candidate_sources, rule_sources,
  rule_source, is_node, Edge, rank,
}
use auto_correlation.Correlation.Graph.Edges.{IsEdgeMap, edge_map-IsEdgeMap}
use auto_correlation.Correlation.Graph.Strongest.{all_sources, NamesEnds, edge_map_strongest}

abbrev occurrence : String → ℕ → LocationType → String → ValueOccurrence
occurrence id index location path = record {
  execution_id = id;
  execution_index = index;
  side = request;
  location_type = location;
  canonical_path = path;
  key = none;
  raw_value = "abc-123";
  normalized_value = "abc-123";
  data_type = string;
  wrapper = none;
}

abbrev execution : String → ℕ → NormalizedExecution
execution id index = record {
  id = id;
  original_index = index;
  item_name = id;
  method = "GET";
  host = "api";
  path_segments = [];
  response = none;
}

abbrev run : List NormalizedExecution
run = execution "a0" 0 ∷ execution "a1" 1 ∷ []

abbrev carried : ValueOccurrence
carried = occurrence "a1" 1 header "Authorization"

abbrev suggestion : CorrelationCandidate
suggestion = record {
  id = "c";
  variable_name = "token";
  producer = occurrence "a0" 0 json_body "$.old";
  consumers = occurrence "a1" 1 header "X-Other" ∷ [];
  extractor_method = json_path;
  extractor_expression = "$.old";
  confidence = low;
  evidence = record {
    factors = [];
    penalties = [];
    score = 0;
    baseline_value_masked = "";
    comparison_value_masked = none;
  };
  warnings = [];
}

abbrev rule : CorrelationRule
rule = record {
  id = "r";
  variable_name = "token";
  origin = manual;
  state = enabled;
  producer = occurrence "a0" 0 json_body "$.token";
  consumers = carried ∷ [];
  confidence = low;
  source_candidate_id = none;
}

rule_is_source :
    Member
      (rule_source rule)
      (candidate_sources (rule ∷ []) ((suggestion, suggested) ∷ []) ++ rule_sources (rule ∷ []))
unfolding candidate_sources rule_sources
rule_is_source = inr (inl refl)

edge_map-IsEdgeMap_example : IsEdgeMap run (edge_map run ((suggestion, suggested) ∷ []) (rule ∷ []))
edge_map-IsEdgeMap_example = edge_map-IsEdgeMap run ((suggestion, suggested) ∷ []) (rule ∷ [])

first_is_node : is_node run "a0" ≡ true
unfolding by_id
first_is_node = refl

second_is_node : is_node run "a1" ≡ true
unfolding by_id
second_is_node = refl

only_member : (c t : ValueOccurrence) → Member t (c ∷ []) → t.execution_id ≡ c.execution_id
only_member c t (inl p) = ap (λ y. y.execution_id) p
only_member c t (inr p) = absurd p

rule-NamesEnds :
    NamesEnds (all_sources ((suggestion, suggested) ∷ []) (rule ∷ [])) (rule_source rule) carried
unfolding candidate_sources rule_sources
rule-NamesEnds s t (inl p) j e = (
  ap (λ y. y.producer.execution_id) p,
  only_member (occurrence "a1" 1 header "X-Other") t (subst (λ y. Member t y.consumers) p j),
)
rule-NamesEnds s t (inr (inl p)) j e = (
  ap (λ y. y.producer.execution_id) p,
  only_member carried t (subst (λ y. Member t y.consumers) p j),
)
rule-NamesEnds s t (inr (inr p)) j e = absurd p

edge_map_strongest_example :
    (e : Edge) × (lookup
        (edge_id (rule_source rule) carried)
        (edge_map run ((suggestion, suggested) ∷ []) (rule ∷ []))
      ≡ some e)
    × (e.source ≡ "a0")
    × (e.target ≡ "a1")
    × (2 ≤ rank e.state)
edge_map_strongest_example =
    edge_map_strongest run ((suggestion, suggested) ∷ []) (rule ∷ []) (rule_source rule) carried
      rule_is_source (inl refl) first_is_node second_is_node rule-NamesEnds
