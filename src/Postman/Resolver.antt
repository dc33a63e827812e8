-- ===== src/Postman/Resolver.antt =====
-- backend/app/services/postman_variable_resolver.py: where a variable's value comes from.
pub mod Ladder
use Prim.Native.Nat.{Ordering}
use Prim.Native.String.{compare}
use text.Mathlib.Text.{starts_with}
use auto_correlation.Prelude.{
  ℕ, String, ◌≡◌, refl, Bool, true, false, not, ◌||◌, Option, none, some, List, [], ◌∷◌, ◌++◌, map,
  if◌then◌else◌, str_eq, is_some, select,
}
use auto_correlation.Prelude.Dict.{Dict, lookup, put}

pub data VariableSource : Type 0 where
  supplied environment collection dynamic script unresolved : VariableSource

pub record VariableReference : Type 0 where
  pub name : String
  pub location : String

pub record PostmanVariable : Type 0 where
  pub name : String
  pub source : VariableSource
  pub sensitive : Bool
  pub locations : List String

-- `name in names`
abbrev pub is_in : String → List String → Bool
is_in k [] = false
is_in k (n ∷ r) = str_eq n k || is_in k r

abbrev pub has_key : {V : Type 0} → String → Dict V → Bool
has_key k d = is_some (lookup k d)

-- Order of texts, for `sorted`.
abbrev pub str_leb : String → String → Bool
str_leb a b = elim (compare a b) [ Ordering.gt ↦ false | _ ↦ true ]

insert_text : String → List String → List String
insert_text a [] = a ∷ []
insert_text a (b ∷ r) = if str_leb a b then a ∷ b ∷ r else b ∷ insert_text a r

unfoldable pub sorted_text : List String → List String
unfolding insert_text
sorted_text [] = []
sorted_text (a ∷ r) = insert_text a (sorted_text r)

-- `dict.fromkeys`: each once, where it first stood.
once : List String → List String
once [] = []
once (a ∷ r) = a ∷ select (λ b. not (str_eq b a)) (once r)

-- `locations_by_name.setdefault(ref.name, []).append(ref.location)`
abbrev locations_so_far : Option (List String) → List String
locations_so_far none = []
locations_so_far (some l) = l

group_from : Dict (List String) → List VariableReference → Dict (List String)
group_from d [] = d
group_from d (v ∷ r) =
    group_from (put v.name (locations_so_far (lookup v.name d) ++ v.location ∷ []) d) r

insert_variable : PostmanVariable → List PostmanVariable → List PostmanVariable
insert_variable a [] = a ∷ []
insert_variable a (b ∷ r) = if str_leb a.name b.name then a ∷ b ∷ r else b ∷ insert_variable a r

sort_by_name : List PostmanVariable → List PostmanVariable
unfolding insert_variable
sort_by_name [] = []
sort_by_name (a ∷ r) = insert_variable a (sort_by_name r)

-- The values that are known before a run.
pub record KnownValues : Type 0 where
  pub collection_variables : Dict String
  pub environment_values : Dict String
  pub supplied_values : Dict String
  pub script_set : List String

-- The ladder of `resolve_variables`.
unfoldable pub source_of : KnownValues → String → VariableSource
source_of known name =
    if starts_with name "$"
    then dynamic
    else if has_key name known.supplied_values
    then supplied
    else if has_key name known.environment_values
    then environment
    else if has_key name known.collection_variables
    then collection
    else if is_in name known.script_set
    then script
    else unresolved

module _ (is_sensitive_key : String → Bool) where
  variable_of : KnownValues → String × List String → PostmanVariable
  unfolding source_of sorted_text once
  variable_of known (name, locations) = record {
    name = name;
    source = source_of known name;
    sensitive = is_sensitive_key name;
    locations = sorted_text (once locations);
  }

  unfoldable pub resolve_variables : List VariableReference → KnownValues → List PostmanVariable
  unfolding variable_of group_from sort_by_name
  resolve_variables references known =
      sort_by_name (map (variable_of known) (group_from [] references))

abbrev pub is_unresolved : VariableSource → Bool
is_unresolved unresolved = true
is_unresolved _ = false

unfoldable pub unresolved_names : List PostmanVariable → List String
unresolved_names variables =
    sorted_text
      (map (λ v. v.name) (select (λ (v : PostmanVariable). is_unresolved v.source) variables))

-- `{**collection_variables, **environment_values, **supplied_values}`
unfoldable pub updated : Dict String → Dict String → Dict String
updated d [] = d
updated d ((k, v) ∷ r) = updated (put k v d) r

unfoldable pub merged_values : KnownValues → Dict String
unfolding updated
merged_values known =
    updated (updated (updated [] known.collection_variables) known.environment_values)
      known.supplied_values
