-- ===== src/Correlation/Classification.antt =====
-- backend/app/services/classification.py: the bucket of every notable value. Key and value patterns of
-- utils/masking.py, and lower case, are the parameter `Patterns`.
pub mod Buckets
pub mod Laws
pub mod Complete
pub mod Apart
mod Tests
use auto_correlation.Prelude.{
  ℕ, suc, ◌+◌, String, Bool, true, false, not, ◌&&◌, ◌||◌, Option, none, some, List, [], ◌∷◌, ◌++◌,
  map, select, ◌==◌, if◌then◌else◌, str_eq, is_some, length,
}
use auto_correlation.Prelude.Dict.{Dict, lookup}
use auto_correlation.Errors.{Message, plain, filled}
use auto_correlation.Runs.Signature.{NormalizedExecution}
use auto_correlation.Runs.Aligner.{AlignmentPair}
use auto_correlation.Correlation.Naming.{is_in}
use auto_correlation.Correlation.Model.{
  ValueOccurrence, CorrelationCandidate, LocationType, location_eq, header, cookie, Place,
}
use auto_correlation.Correlation.Match.{key_or, has_usable_response}
use auto_correlation.Correlation.Conflicts.{place_of, uses_place}
use auto_correlation.Correlation.Engine.{Index, aligned_from, at_place}

pub data Classification : Type 0 where
  correlation parameterization external_credential cookie_managed noise review_required :
      Classification

pub data HandlingHint : Type 0 where
  jmeter_extractor cookie_manager user_defined_variable csv_data_set jmeter_property ignore :
      HandlingHint
  manual_review : HandlingHint

pub record ValueInsight : Type 0 where
  pub id : String
  pub classification : Classification
  pub handling : HandlingHint
  pub variable_name : Option String
  pub location : ValueOccurrence
  pub occurrences : List ValueOccurrence
  pub value_a_masked : String
  pub value_b_masked : Option String
  pub differs_across_runs : Bool
  pub reason : Message
  pub recommended_handling : Message

pub record Summary : Type 0 where
  pub correlations : ℕ
  pub parameterizations : ℕ
  pub external_credentials : ℕ
  pub cookies : ℕ
  pub noises : ℕ
  pub reviews : ℕ

pub record ClassificationResult : Type 0 where
  pub found : List CorrelationCandidate
  pub insights : List ValueInsight
  pub summary : Summary

pub record Patterns : Type 0 where
  pub lower : String → String
  pub strip : String → String
  pub is_sensitive_key : Option String → Bool
  pub looks_like_secret_value : String → Bool
  pub mask_if_sensitive : Option String → String → String

abbrev is_cookie : LocationType → Bool
is_cookie cookie = true
is_cookie _ = false

abbrev is_header : LocationType → Bool
is_header header = true
is_header _ = false

abbrev text_or_empty : Option String → String
text_or_empty none = ""
text_or_empty (some k) = k

-- The key (classification, location type, key or path) of an insight.
pub record FieldKey : Type 0 where
  pub bucket : Classification
  pub place : LocationType
  pub field : String

abbrev number_of : Classification → ℕ
number_of correlation = 0
number_of parameterization = 1
number_of external_credential = 2
number_of cookie_managed = 3
number_of noise = 4
number_of review_required = 5

unfoldable pub field_key_eq : FieldKey → FieldKey → Bool
field_key_eq a b =
    (number_of a.bucket == number_of b.bucket)
    && (location_eq a.place b.place && str_eq a.field b.field)

abbrev pub sink_key : Classification → ValueOccurrence → FieldKey
sink_key c o = record { bucket = c; place = o.location_type; field = key_or o.key o.canonical_path }

abbrev pub insight_key : ValueInsight → FieldKey
insight_key i = sink_key i.classification i.location

abbrev runtime_noise_headers : List String
runtime_noise_headers =
    "postman-token" ∷ "content-length" ∷ "host" ∷ "connection" ∷ "accept-encoding"
    ∷ "transfer-encoding" ∷ []

abbrev suspicious_values : List String
suspicious_values = "string" ∷ "null" ∷ "undefined" ∷ "none" ∷ "example" ∷ "todo" ∷ "changeme" ∷ []

-- What `_insight` is called with at each `return` of `_classify_request_sink`.
pub record Ruling : Type 0 where
  pub bucket : Classification
  pub handling : HandlingHint
  pub reason : Message
  pub handling_text : Message

-- An `if` that returns, and what follows it.
unfoldable pub choose : Bool → Ruling → Option Ruling → Option Ruling
choose true r rest = some r
choose false r rest = rest

module _ (p : Patterns) where
  abbrev is_cookie_sink : ValueOccurrence → Bool
  is_cookie_sink con =
      is_cookie con.location_type
      || (is_header con.location_type && str_eq (p.lower (text_or_empty con.key)) "cookie")

  unfoldable pub all_cookies : List ValueOccurrence → Bool
  all_cookies [] = true
  all_cookies (con ∷ r) = is_cookie_sink con && all_cookies r

  unfoldable pub is_cookie_managed : CorrelationCandidate → Bool
  unfolding all_cookies
  is_cookie_managed c = is_cookie c.producer.location_type && all_cookies c.consumers

  unfoldable pub is_suspicious : String → Bool
  unfolding is_in
  is_suspicious value = is_in (p.lower (p.strip value)) suspicious_values

  abbrev shown : ValueOccurrence → String
  shown sink = key_or sink.key sink.canonical_path

  -- The decisions in their order, for a value that no response produced.
  unfoldable pub ruling : ValueOccurrence → Bool → Bool → Option Ruling
  unfolding is_suspicious is_in
  ruling sink two_run differs =
      choose
        (is_header sink.location_type
          && is_in (p.lower (text_or_empty sink.key)) runtime_noise_headers)
        (record {
          bucket = noise;
          handling = ignore;
          reason =
              filled
                "Runtime/transport header '{}' is regenerated per request; not a business value."
                (text_or_empty sink.key ∷ []) [];
          handling_text = plain "Removed from the generated JMX (JMeter recomputes it).";
        })
        (choose (is_suspicious sink.raw_value)
          (record {
            bucket = review_required;
            handling = manual_review;
            reason =
                filled "Value '{}' looks like a placeholder/example, not real captured data."
                  (sink.raw_value ∷ []) [];
            handling_text =
                plain "Confirm the real value before running; do not replay a placeholder.";
          })
          (choose (p.is_sensitive_key sink.key)
            (record {
              bucket = external_credential;
              handling = jmeter_property;
              reason =
                  filled
                    "'{}' is a sensitive value with no response producer in the captures - it is supplied externally (environment/secret)."
                    (shown sink ∷ []) [];
              handling_text =
                  plain "Pass at runtime via a JMeter property, e.g. ${__P(NAME,)} with -JNAME=...";
            })
            (choose (p.looks_like_secret_value sink.raw_value)
              (record {
                bucket = review_required;
                handling = manual_review;
                reason =
                    filled
                      "'{}' is a token/GUID-shaped value with no response producer in the captures. It could be an id or a secret - review before replay."
                      (shown sink ∷ []) [];
                handling_text =
                    plain
                      "Confirm whether this is a static id (leave as-is), a secret (JMeter property), or dynamic (needs a producer capture).";
              })
              (choose (two_run && (differs && not (str_eq sink.raw_value "")))
                (record {
                  bucket = parameterization;
                  handling = user_defined_variable;
                  reason =
                      filled
                        "'{}' changes across runs but no earlier response produces it - user-supplied input, not a correlation."
                        (shown sink ∷ []) [];
                  handling_text =
                      plain
                        "Parameterize via User Defined Variables or a CSV Data Set (not a correlation).";
                })
                (none)))))

  abbrev pub differs_from : ValueOccurrence → Option ValueOccurrence → Bool
  differs_from sink none = false
  differs_from sink (some b) = not (str_eq b.normalized_value sink.normalized_value)

  -- `_classify_request_sink` up to the insight.
  unfoldable pub rule_on :
      List String → Bool → ValueOccurrence → Option ValueOccurrence → Option Ruling
  unfolding ruling is_in
  rule_on producer_values two_run sink comp_sink =
      if is_cookie_sink sink
        || (not (str_eq sink.raw_value "") && is_in sink.raw_value producer_values)
      then none
      else ruling sink two_run (differs_from sink comp_sink)

  abbrev masked_of : ValueOccurrence → Option ValueOccurrence → Option String
  masked_of sink none = none
  masked_of sink (some b) = some (p.mask_if_sensitive sink.key b.raw_value)

  abbrev pub insight_of : String → ValueOccurrence → Option ValueOccurrence → Ruling → ValueInsight
  insight_of id sink comp_sink r = record {
    id = id;
    classification = r.bucket;
    handling = r.handling;
    variable_name = none;
    location = sink;
    occurrences = sink ∷ [];
    value_a_masked = p.mask_if_sensitive sink.key sink.raw_value;
    value_b_masked = masked_of sink comp_sink;
    differs_across_runs = differs_from sink comp_sink;
    reason = r.reason;
    recommended_handling = r.handling_text;
  }

  abbrev pub cookie_insight : String → CorrelationCandidate → ValueInsight
  cookie_insight id c = record {
    id = id;
    classification = cookie_managed;
    handling = cookie_manager;
    variable_name = some c.variable_name;
    location = c.producer;
    occurrences = c.consumers;
    value_a_masked = c.evidence.baseline_value_masked;
    value_b_masked = c.evidence.comparison_value_masked;
    differs_across_runs = is_some c.evidence.comparison_value_masked;
    reason =
        filled
          "Cookie '{}' is set via Set-Cookie and replayed in {} later request(s). The HTTP Cookie Manager handles this automatically."
          (shown c.producer ∷ []) (length c.consumers ∷ []);
    recommended_handling = plain "Handled by HTTP Cookie Manager. Manual extractor = No.";
  }
