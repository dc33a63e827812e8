-- ===== src/Correlation/Match.antt =====
-- backend/app/services/correlation_engine.py: which values may be correlated, how a producer's value
-- is found in a request, and the extractor. Unicode's tables, field names (utils/naming.py), and the
-- escape of a regular expression are parameters.
use Prim.Native.Char.{Char, code}
use Prim.Native.String.{[] as empty, ◌∷◌ as ◌∷ₛ◌, ◌++◌ as ◌++ₛ◌, count}
use text.Mathlib.Text.{find?}
use auto_correlation.Prelude.{
  ℕ, zero, suc, ◌+◌, ◌-◌, ◌*◌, String, Bool, true, false, not, ◌&&◌, ◌||◌, Option, none, some, List,
  [], ◌∷◌, ltb, leb, ◌==◌, if◌then◌else◌, str_eq, is_some, length,
}
use auto_correlation.Runs.Signature.{NormalizedExecution, NormalizedResponse}
use auto_correlation.Correlation.Naming.{is_in}
use auto_correlation.Correlation.Model.{
  ValueOccurrence, LocationType, DataType, null, boolean, number, path, header, cookie, json_body,
  xml_body, text_body, ExtractorMethod, json_path, xpath2, regex, boundary,
}

pub record Words : Type 0 where
  pub lower : String → String
  pub is_decimal : Char → Bool
  pub normalize_field_name : Option String → String
  pub suggest_variable_name : Option String → String → String
  pub escape_regex : String → String
  pub min_dynamic_value_length : ℕ

abbrev common_constants : List String
common_constants =
    "get" ∷ "post" ∷ "put" ∷ "delete" ∷ "patch" ∷ "head" ∷ "options" ∷ "true" ∷ "false" ∷ "null"
    ∷ "none" ∷ "application/json" ∷ "application/xml" ∷ "text/html" ∷ "text/plain"
    ∷ "application/x-www-form-urlencoded" ∷ "multipart/form-data" ∷ "ok" ∷ "created" ∷ "accepted"
    ∷ "no content" ∷ "bad request" ∷ "unauthorized" ∷ "forbidden" ∷ "not found"
    ∷ "internal server error" ∷ "utf-8" ∷ "gzip" ∷ "keep-alive" ∷ "close" ∷ "no-cache" ∷ "*/*" ∷ []

-- The reasons, as the source words them: null/boolean, empty value, too short/common, common HTTP
-- constant, small enum-like integer.
pub data Exclusion : Type 0 where
  null_or_boolean empty_value too_short common_constant small_integer : Exclusion

abbrev pub is_scalar_kind : DataType → Bool
is_scalar_kind null = false
is_scalar_kind boolean = false
is_scalar_kind _ = true

abbrev is_number_kind : DataType → Bool
is_number_kind number = true
is_number_kind _ = false

unfoldable pub is_excluded : Words → ValueOccurrence → Option Exclusion
unfolding is_in
is_excluded w occ =
    let v = occ.normalized_value in
    if not (is_scalar_kind occ.data_type)
    then some null_or_boolean
    else if str_eq v ""
    then some empty_value
    else if ltb (count v) w.min_dynamic_value_length
    then some too_short
    else if is_in (w.lower v) common_constants
    then some common_constant
    else if is_number_kind occ.data_type && leb (count v) 3
    then some small_integer
    else none

-- `exclusion not in ("value too short/common", "small enum-like integer")`
abbrev pub is_hard : Option Exclusion → Bool
is_hard none = false
is_hard (some too_short) = false
is_hard (some small_integer) = false
is_hard (some _) = true

-- A text matches whole, or behind a prefix in a header, or inside a text body from 8 characters on.
abbrev prefixed : String → String → String → Option String → Option String
prefixed sv value p rest = if str_eq sv (p ++ₛ value) then some p else rest

unfoldable pub header_prefix : String → String → Option String
header_prefix sv value =
    prefixed sv value "Bearer "
      (prefixed sv value "bearer " (prefixed sv value "Token " (prefixed sv value "token " none)))

abbrev as_match : Option String → Bool × Option String
as_match none = (false, none)
as_match (some p) = (true, some p)

abbrev pub by_location : LocationType → String → String → Bool × Option String
by_location header sv value = as_match (header_prefix sv value)
by_location text_body sv value = (leb 8 (count value) && is_some (find? sv value), none)
by_location _ sv value = (false, none)

unfoldable pub match_consumer : String → ValueOccurrence → Bool × Option String
unfolding header_prefix
match_consumer value sink =
    if str_eq sink.raw_value value
    then (true, none)
    else by_location sink.location_type sink.raw_value value

-- `occ.key or occ.canonical_path`
abbrev pub key_or : Option String → String → String
key_or none d = d
key_or (some k) d = if str_eq k "" then d else k

unfoldable header_regex : Words → ValueOccurrence → String
header_regex w occ = w.escape_regex (key_or occ.key occ.canonical_path) ++ₛ ":\\s*(.+?)[\\r\\n]"

unfoldable pub extractor_for : Words → ValueOccurrence → ExtractorMethod × String
unfolding header_regex
extractor_for w occ = elim occ.location_type [
  | json_body ↦ (json_path, occ.canonical_path)
  | xml_body ↦ (xpath2, occ.canonical_path)
  | header ↦ (regex, header_regex w occ)
  | cookie ↦ (regex, header_regex w occ)
  | text_body ↦ (regex, occ.canonical_path)
  | _ ↦ (boundary, occ.canonical_path)
]

all_decimal : Words → String → Bool
all_decimal w empty = true
all_decimal w (c ∷ₛ s) = w.is_decimal c && all_decimal w s

-- `s.isdecimal()`, which the empty text is not.
unfoldable is_decimal_text : Words → String → Bool
unfolding all_decimal
is_decimal_text w s = not (str_eq s "") && all_decimal w s

-- `s.strip("0")` is not empty.
unfoldable has_nonzero : String → Bool
has_nonzero empty = false
has_nonzero (c ∷ₛ s) = not (code c == 48) || has_nonzero s

-- `int(canonical_path.strip("[]"))` of a path `[3]`, the form the indexer gives.
read_index : ℕ → String → ℕ
read_index acc empty = acc
read_index acc (c ∷ₛ s) =
    let next = read_index (acc * 10 + (code c - 48)) s in
    let same = read_index acc s in if code c == 91 || code c == 93 then same else next

unfoldable removesuffix_s : String → String
removesuffix_s empty = empty
removesuffix_s (c ∷ₛ empty) = if code c == 115 then empty else c ∷ₛ empty
removesuffix_s (c ∷ₛ (d ∷ₛ s)) = c ∷ₛ removesuffix_s (d ∷ₛ s)

nth : ℕ → List String → Option String
nth n [] = none
nth zero (x ∷ l) = some x
nth (suc n) (x ∷ l) = nth n l

abbrev is_path : LocationType → Bool
is_path path = true
is_path _ = false

unfoldable names_resource : Words → String → String → Bool
unfolding removesuffix_s
names_resource w name resource =
    not (str_eq resource "")
    && (str_eq name (resource ++ₛ "id") || str_eq name (removesuffix_s resource ++ₛ "id"))

-- The segment before the sink's names the resource of the source's key.
unfoldable pub resource_id_path_match :
    Words → ValueOccurrence → ValueOccurrence → NormalizedExecution → Bool
unfolding is_decimal_text has_nonzero read_index names_resource nth
resource_id_path_match w src sink consumer =
    let index = read_index 0 sink.canonical_path in
    let name = w.normalize_field_name (some (w.suggest_variable_name src.key src.canonical_path)) in
    is_path sink.location_type
    && (is_decimal_text w src.raw_value
        && (has_nonzero src.raw_value
            && (ltb 0 index
                && (ltb index (length consumer.path_segments)
                    && names_resource w name
                        (w.normalize_field_name (nth (index - 1) consumer.path_segments))))))

-- `_response_usable`
abbrev response_usable : Option NormalizedResponse → Bool
response_usable none = false
response_usable (some r) = r.present && (r.code == 0 || (leb 200 r.code && ltb r.code 400))

unfoldable pub is_usable : NormalizedExecution → Bool
is_usable e = response_usable e.response

-- `has_usable_response`
abbrev is_present : Option NormalizedResponse → Bool
is_present none = false
is_present (some r) = r.present

abbrev pub has_usable_response : NormalizedExecution → Bool
has_usable_response e = is_present e.response
