-- ===== src/Correlation/Classification/Tests.antt =====
-- Two requests of one run with an API key each, and a cookie that a response sets.
use auto_correlation.Prelude.{
  ℕ, ◌+◌, String, ◌≡◌, inl, inr, refl, Bool, false, Option, none, some, List, [], ◌∷◌, All, str_eq,
  length,
}
use auto_correlation.Runs.Signature.{NormalizedExecution}
use auto_correlation.Correlation.Model.{
  request, LocationType, header, cookie, string, ValueOccurrence, CorrelationCandidate, low, regex,
}
use auto_correlation.Correlation.Engine.{Index}
use auto_correlation.Correlation.Classification.{
  Patterns, ClassificationResult, Ruling, external_credential, jmeter_property, sink_key, rule_on,
  ruling, choose,
}
use auto_correlation.Correlation.Classification.Buckets.{classify, is_correlated}
use auto_correlation.Correlation.Classification.Laws.{Listed}
use auto_correlation.Correlation.Classification.Complete.{classify_lists}
use auto_correlation.Correlation.Classification.Apart.{
  Disjoint, total, classify-AreDisjoint, total-classify,
}
use auto_correlation.Errors.{plain, filled}

abbrev is_key : Option String → Bool
is_key none = false
is_key (some k) = str_eq k "x-api-key"

abbrev patterns : Patterns
patterns = record {
  lower = λ v. v;
  strip = λ v. v;
  is_sensitive_key = is_key;
  looks_like_secret_value = λ v. false;
  mask_if_sensitive = λ k v. "****";
}

abbrev occurrence : String → ℕ → LocationType → String → ValueOccurrence
occurrence id index location key = record {
  execution_id = id;
  execution_index = index;
  side = request;
  location_type = location;
  canonical_path = key;
  key = some key;
  raw_value = "abc-123";
  normalized_value = "abc-123";
  data_type = string;
  wrapper = none;
}

abbrev execution : String → ℕ → NormalizedExecution
execution id index = record {
  id = id;
  original_index = index;
  item_name = id;
  method = "GET";
  host = "api";
  path_segments = [];
  response = none;
}

abbrev index : Index
index = record {
  request_sinks = λ e. occurrence e.id e.original_index header "x-api-key" ∷ [];
  response_sources = λ e. [];
}

abbrev run : List NormalizedExecution
run = execution "a0" 0 ∷ execution "a1" 1 ∷ []

abbrev session : CorrelationCandidate
session = record {
  id = "c";
  variable_name = "sid";
  producer = occurrence "a0" 0 cookie "sid";
  consumers = occurrence "a1" 1 cookie "sid" ∷ [];
  extractor_method = regex;
  extractor_expression = "sid";
  confidence = low;
  evidence = record {
    factors = [];
    penalties = [];
    score = 0;
    baseline_value_masked = "";
    comparison_value_masked = none;
  };
  warnings = [];
}

abbrev ids : ℕ → String
ids n = "id"

abbrev result : ClassificationResult
result = classify index patterns ids run none [] (session ∷ [])

-- One insight for the cookie, and one for both keys.
two_insights : length result.insights ≡ 2
unfolding classify rule_on ruling choose
two_insights = refl

abbrev credential : Ruling
credential = record {
  bucket = external_credential;
  handling = jmeter_property;
  reason =
      filled
        "'{}' is a sensitive value with no response producer in the captures - it is supplied externally (environment/secret)."
        ("x-api-key" ∷ []) [];
  handling_text = plain "Pass at runtime via a JMeter property, e.g. ${__P(NAME,)} with -JNAME=...";
}

abbrev second_key : ValueOccurrence
second_key = occurrence "a1" 1 header "x-api-key"

second_key_free : is_correlated second_key result.found ≡ false
unfolding classify is_correlated
second_key_free = refl

second_key_ruled : rule_on patterns [] false second_key none ≡ some credential
unfolding rule_on ruling choose
second_key_ruled = refl

classify_lists_example : Listed second_key (sink_key external_credential second_key) result.insights
unfolding classify
classify_lists_example =
    classify_lists index patterns ids run none [] (session ∷ []) (execution "a1" 1) second_key
      credential (inr (inl refl)) (inl refl) second_key_free second_key_ruled

classify-AreDisjoint_example : All (Disjoint result.found) result.insights
classify-AreDisjoint_example = classify-AreDisjoint index patterns ids run none [] (session ∷ [])

total-classify_example : total result.summary ≡ length result.found + length result.insights
total-classify_example = total-classify index patterns ids run none [] (session ∷ [])
