-- ===== src/Correlation/Model.antt =====
-- backend/app/domain/models.py and domain/enums.py: what the correlation engine reads and makes. Text
-- is a `String`; an f-string of the evidence is its template and what is put into it.
use auto_correlation.Prelude.{ℕ, String, Bool, Option, List, true, false, ◌&&◌, str_eq}
use auto_correlation.Errors.{Message}

pub data Side : Type 0 where
  request response : Side

pub data LocationType : Type 0 where
  path query header cookie json_body form text_body xml_body : LocationType

pub data DataType : Type 0 where
  string number boolean null : DataType

pub data ExtractorMethod : Type 0 where
  json_path json_jmespath xpath2 regex boundary jsr223 : ExtractorMethod

pub data Confidence : Type 0 where
  high medium low rejected : Confidence

abbrev pub location_eq : LocationType → LocationType → Bool
location_eq path path = true
location_eq query query = true
location_eq header header = true
location_eq cookie cookie = true
location_eq json_body json_body = true
location_eq form form = true
location_eq text_body text_body = true
location_eq xml_body xml_body = true
location_eq _ _ = false

-- The positions of a text's characters are never set.
pub record ValueOccurrence : Type 0 where
  pub execution_id : String
  pub execution_index : ℕ
  pub side : Side
  pub location_type : LocationType
  pub canonical_path : String
  pub key : Option String
  pub raw_value : String
  pub normalized_value : String
  pub data_type : DataType
  pub wrapper : Option String

-- The score is never negative, and whole.
pub record Evidence : Type 0 where
  pub factors : List Message
  pub penalties : List Message
  pub score : ℕ
  pub baseline_value_masked : String
  pub comparison_value_masked : Option String

-- The engine sets every state to `suggested` and every classification to `correlation`.
pub record CorrelationCandidate : Type 0 where
  pub id : String
  pub variable_name : String
  pub producer : ValueOccurrence
  pub consumers : List ValueOccurrence
  pub extractor_method : ExtractorMethod
  pub extractor_expression : String
  pub confidence : Confidence
  pub evidence : Evidence
  pub warnings : List String

-- The key (execution id, location type, canonical path) of a place in a run.
pub record Place : Type 0 where
  pub execution_id : String
  pub location_type : LocationType
  pub canonical_path : String

abbrev pub place_eq : Place → Place → Bool
place_eq a b =
    str_eq a.execution_id b.execution_id
    && (location_eq a.location_type b.location_type && str_eq a.canonical_path b.canonical_path)
