-- ===== src/Correlation/Tests.antt =====
-- A login whose token a later request carries, in two runs; and texts that are read as ASCII.
use Prim.Native.Char.{code}
use Prim.Native.String.{◌++◌ as ◌++ₛ◌}
use auto_correlation.Prelude.{
  ℕ, ◌≤◌, String, ◌≡◌, inl, inr, refl, true, false, ◌&&◌, ◌||◌, Option, none, some, List, [], ◌∷◌,
  All, Member, leb, if◌then◌else◌, str_eq, map,
}
use auto_correlation.Prelude.Dict.{lookup, put}
use auto_correlation.Runs.Signature.{NormalizedExecution}
use auto_correlation.Runs.Aligner.{AlignmentPair, matched}
use auto_correlation.Correlation.Naming.{is_in, dedupe_variable_name}
use auto_correlation.Correlation.Naming.Decimal.{decimal}
use auto_correlation.Correlation.Naming.Fresh.{dedupe_variable_name_fresh}
use auto_correlation.Correlation.Model.{
  Side, request, response, LocationType, header, json_body, string, ValueOccurrence,
  CorrelationCandidate, high, low, json_path,
}
use auto_correlation.Correlation.Score.{Texts, Scored, score, classify, score-le}
use auto_correlation.Correlation.Match.{Words}
use auto_correlation.Correlation.Engine.{
  Index, aligned_from, two_run_candidates, single_run_candidates,
}
use auto_correlation.Correlation.Engine.Proven.{IsProven}
use auto_correlation.Correlation.Engine.Single.{IsUnproven, single_run_candidates-AreUnproven}
use auto_correlation.Correlation.Engine.Named.{HasDistinctNames, candidates-HasDistinctNames}
use auto_correlation.Correlation.Conflicts.{dedupe_and_flag_conflicts, uses_place, conflict_warning}
use auto_correlation.Correlation.Conflicts.Kept.{IsSorted}
use auto_correlation.Correlation.Conflicts.Flags.{
  dedupe_and_flag_conflicts-IsSorted, dedupe_and_flag_conflicts_warns,
}
use auto_correlation.Correlation.Analysis.{analyze_two_run, analyze_two_run-AreProven}

abbrev texts : Texts
texts = record { mask_value = λ v. "****"; is_token_like = λ v. true; entropy_text = λ v. "3.50" }

abbrev name_of : Option String → String → String
name_of none path = "value"
name_of (some k) path = k

abbrev field_of : Option String → String
field_of none = ""
field_of (some k) = k

abbrev words : Words
words = record {
  lower = λ v. v;
  is_decimal = λ c. leb 48 (code c) && leb (code c) 57;
  normalize_field_name = field_of;
  suggest_variable_name = name_of;
  escape_regex = λ v. v;
  min_dynamic_value_length = 4;
}

abbrev execution : String → ℕ → NormalizedExecution
execution id index = record {
  id = id;
  original_index = index;
  item_name = id;
  method = "GET";
  host = "api";
  path_segments = [];
  response = some (record { present = true; code = 200 });
}

abbrev occurrence : String → ℕ → Side → LocationType → String → String → ValueOccurrence
occurrence id index side location key value = record {
  execution_id = id;
  execution_index = index;
  side = side;
  location_type = location;
  canonical_path = key;
  key = some key;
  raw_value = value;
  normalized_value = value;
  data_type = string;
  wrapper = none;
}

abbrev token_of : String → String
token_of id = if str_eq id "a0" || str_eq id "a1" then "tok-aaaa-1111" else "tok-bbbb-2222"

-- Each first request answers with a token, each second one carries it.
abbrev index : Index
index = record {
  request_sinks = λ e.
      if str_eq e.id "a1" || str_eq e.id "b1"
      then occurrence e.id 1 request header "Authorization" ("Bearer " ++ₛ token_of e.id) ∷ []
      else [];
  response_sources = λ e.
      if str_eq e.id "a0" || str_eq e.id "b0"
      then occurrence e.id 0 response json_body "token" (token_of e.id) ∷ []
      else [];
}

abbrev baseline : List NormalizedExecution
baseline = execution "a0" 0 ∷ execution "a1" 1 ∷ []

abbrev comparison : List NormalizedExecution
comparison = execution "b0" 0 ∷ execution "b1" 1 ∷ []

abbrev pair : String → String → ℕ → AlignmentPair
pair a b i = record {
  signature = record { base = a; ordinal = 0 };
  baseline_execution_id = some a;
  comparison_execution_id = some b;
  baseline_index = some i;
  comparison_index = some i;
  status = matched;
}

abbrev pairs : List AlignmentPair
pairs = pair "a0" "b0" 0 ∷ pair "a1" "b1" 1 ∷ []

abbrev ids : ℕ → String
ids n = "id"

abbrev found : List CorrelationCandidate
found = analyze_two_run index words texts ids baseline comparison pairs

abbrev named : CorrelationCandidate → String
named c = c.variable_name

-- The token is found.
token_found : map named found ≡ "token" ∷ []
unfolding analyze_two_run lookup put
token_found = refl

analyze_two_run-AreProven_example :
    All (IsProven index words texts ids baseline comparison (aligned_from [] pairs)) found
analyze_two_run-AreProven_example =
    analyze_two_run-AreProven index words texts ids baseline comparison pairs

candidates-HasDistinctNames_example :
    HasDistinctNames (two_run_candidates index words texts ids baseline comparison pairs)
    × HasDistinctNames (single_run_candidates index words texts ids baseline)
candidates-HasDistinctNames_example =
    candidates-HasDistinctNames index words texts ids baseline comparison pairs

dedupe_variable_name_fresh_example :
    (is_in (dedupe_variable_name "id" ("id" ∷ "id_2" ∷ [])).0 ("id" ∷ "id_2" ∷ []) ≡ false)
    × ((dedupe_variable_name "id" ("id" ∷ "id_2" ∷ [])).1
        ≡ (dedupe_variable_name "id" ("id" ∷ "id_2" ∷ [])).0 ∷ "id" ∷ "id_2" ∷ [])
dedupe_variable_name_fresh_example = dedupe_variable_name_fresh "id" ("id" ∷ "id_2" ∷ [])

numbered_name : (dedupe_variable_name "id" ("id" ∷ "id_2" ∷ [])).0 ≡ "id_3"
unfolding dedupe_variable_name decimal
numbered_name = refl

abbrev single : Scored
single = record {
  two_run = false;
  value = "tok-aaaa-1111";
  structured = true;
  consumer_count = 5;
  text_extraction = false;
  schema_changed = false;
  producer_usable = true;
  value_b = none;
}

-- Three uses of a token from an error response.
abbrev of_error : Scored
of_error = record single { two_run = true; consumer_count = 3; producer_usable = false }

high_of_error : classify (score texts of_error).score ≡ high
unfolding classify score
high_of_error = refl

score-le_example : (score texts single).score ≤ 20
score-le_example = score-le texts single

single_run_candidates-AreUnproven_example :
    All IsUnproven (single_run_candidates index words texts ids baseline)
single_run_candidates-AreUnproven_example =
    single_run_candidates-AreUnproven index words texts ids baseline

abbrev candidate_of : String → String → ℕ → ℕ → CorrelationCandidate
candidate_of id execution_id index score = record {
  id = id;
  variable_name = id;
  producer = occurrence execution_id index response json_body "token" "tok-aaaa-1111";
  consumers = occurrence "a9" 9 request header "Authorization" "tok-aaaa-1111" ∷ [];
  extractor_method = json_path;
  extractor_expression = "token";
  confidence = low;
  evidence = record {
    factors = [];
    penalties = [];
    score = score;
    baseline_value_masked = "";
    comparison_value_masked = none;
  };
  warnings = [];
}

abbrev rivals : List CorrelationCandidate
rivals = candidate_of "c0" "a0" 0 10 ∷ candidate_of "c1" "a1" 1 40 ∷ []

abbrev warned : CorrelationCandidate → CorrelationCandidate
warned c = record c { warnings = conflict_warning ∷ [] }

dedupe_and_flag_conflicts-IsSorted_example : IsSorted (dedupe_and_flag_conflicts rivals)
dedupe_and_flag_conflicts-IsSorted_example = dedupe_and_flag_conflicts-IsSorted rivals

second_is_left :
    Member (warned (candidate_of "c1" "a1" 1 40)) (dedupe_and_flag_conflicts rivals)
    × Member (warned (candidate_of "c0" "a0" 0 10)) (dedupe_and_flag_conflicts rivals)
unfolding dedupe_and_flag_conflicts
second_is_left = (inl refl, inr (inl refl))

dedupe_and_flag_conflicts_warns_example :
    is_in conflict_warning (warned (candidate_of "c1" "a1" 1 40)).warnings ≡ true
dedupe_and_flag_conflicts_warns_example =
    dedupe_and_flag_conflicts_warns rivals (warned (candidate_of "c1" "a1" 1 40))
      (warned (candidate_of "c0" "a0" 0 10))
      (occurrence "a9" 9 request header "Authorization" "tok-aaaa-1111") second_is_left.0
      second_is_left.1 (inl refl) (unfold uses_place in refl) refl
