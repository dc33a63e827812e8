-- ===== src/Runs/Tests.antt =====
-- Two short runs (a repeated request, one that moved, one that is gone), and near names.
use Prim.Native.Char.{Char, code}
use auto_correlation.Prelude.{
  ℕ, ◌+◌, ◌≤◌, String, ◌≡◌, ◌↔◌, ◌⊎◌, true, false, refl, Bool, none, ◌&&◌, List, [], ◌∷◌, length,
  leb,
}
use auto_correlation.Prelude.Dict.{lookup, put}
use auto_correlation.Runs.Signature.{NormalizedExecution, normalize_segment, signature}
use auto_correlation.Runs.Aligner.{
  sig_eq, indexed_signatures, last_with, first_place, is_in, align_by, align_runs,
}
use auto_correlation.Runs.EditDistance.{Text, text_eq, scan, within_one_edit}
use auto_correlation.Runs.EditDistance.Edits.{Edit, within_one_edit_lem}
use auto_correlation.Runs.Aligner.Counts.{align_runs_counts}

-- ASCII only.
abbrev is_decimal : Char → Bool
is_decimal c = leb 48 (code c) && leb (code c) 57

abbrev lower : String → String
lower host = host

abbrev request : String → ℕ → String → List String → NormalizedExecution
request id index name path = record {
  id = id;
  original_index = index;
  item_name = name;
  method = "GET";
  host = "api";
  path_segments = path;
  response = none;
}

abbrev baseline : List NormalizedExecution
baseline =
    request "a0" 0 "Login" ("login" ∷ [])
    ∷ request "a1" 1 "Read" ("booking" ∷ "2361" ∷ [])
    ∷ request "a2" 2 "Read" ("booking" ∷ "7" ∷ [])
    ∷ request "a3" 3 "Delete" ("booking" ∷ "rec_11112222" ∷ [])
    ∷ []

abbrev comparison : List NormalizedExecution
comparison =
    request "b0" 0 "Read" ("booking" ∷ "90" ∷ [])
    ∷ request "b1" 1 "Login" ("login" ∷ [])
    ∷ request "b2" 2 "Logout" ("logout" ∷ [])
    ∷ []

segments_shaped :
    (normalize_segment is_decimal "rec_11112222" ≡ "{dyn}")
    × (normalize_segment is_decimal "2361" ≡ "{id}")
    × (normalize_segment is_decimal "2f1b6a3c-0000-4000-8000-00000000000a" ≡ "{dyn}")
    × (normalize_segment is_decimal "booking" ≡ "booking")
unfolding normalize_segment
segments_shaped = (refl, refl, refl, refl)

align_runs_counts_example :
    let r = align_runs is_decimal lower baseline comparison in
    (r.matched_count + r.missing ≡ 4)
    × (r.matched_count + r.extra ≡ 3)
    × (length r.pairs ≡ r.matched_count + r.missing + r.extra)
    × (r.reordered ≤ r.matched_count)
    × (r.ambiguous ≡ 0)
align_runs_counts_example = align_runs_counts is_decimal lower baseline comparison

two_matched_one_extra :
    let r = align_runs is_decimal lower baseline comparison in
    (r.matched_count ≡ 2) × (r.missing ≡ 2) × (r.extra ≡ 1) × (r.reordered ≡ 2)
unfolding align_runs align_by signature normalize_segment indexed_signatures last_with first_place
    is_in sig_eq lookup put
two_matched_one_extra = (refl, refl, refl, refl)

-- "id" and "ids"
abbrev id : Text
id = 105 ∷ 100 ∷ []

abbrev ids : Text
ids = 105 ∷ 100 ∷ 115 ∷ []

within_one_edit_lem_example : (within_one_edit id ids ≡ true) ↔ ((id ≡ ids) ⊎ Edit id ids)
within_one_edit_lem_example = within_one_edit_lem id ids

edits_told_apart :
    (within_one_edit id ids ≡ true) × (within_one_edit (97 ∷ 98 ∷ []) (98 ∷ 97 ∷ []) ≡ false)
unfolding within_one_edit text_eq scan
edits_told_apart = (refl, refl)
