-- ===== src/Postman/Resolver/Ladder.antt =====
-- What an empty list of unresolved names says of each reference, and the keys of merged values.
use text.Mathlib.Text.{starts_with}
use auto_correlation.Prelude.{
  String, ◌≡◌, ◌≢◌, ◌⊎◌, inl, inr, refl, subst, Bool, true, false, ◌||◌, List, [], ◌∷◌, ◌++◌, map,
  str_eq, eq_iff, select, All, Bool-cases, arith,
}
use auto_correlation.Prelude.Dict.{Dict, lookup, put, lookup-put}
use auto_correlation.Postman.Resolver.{
  VariableReference, PostmanVariable, is_in, has_key, str_leb, insert_text, sorted_text,
  locations_so_far, group_from, insert_variable, sort_by_name, KnownValues, source_of, variable_of,
  resolve_variables, is_unresolved, unresolved_names, updated, merged_values,
}

abbrev pub IsResolved : PostmanVariable → Type 0
IsResolved v = is_unresolved v.source ≡ false

insert_text_nonempty : (a : String) (l : List String) → insert_text a l ≢ []
unfolding insert_text
insert_text_nonempty a [] e = absurd (cc)
insert_text_nonempty a (b ∷ r) e = ground arith

sorted_nil : (l : List String) → sorted_text l ≡ [] → l ≡ []
unfolding sorted_text
sorted_nil [] e = refl
sorted_nil (a ∷ r) e = absurd (insert_text_nonempty a (sorted_text r) e)

none_unresolved :
    (l : List PostmanVariable)
    → map (λ v. v.name) (select (λ (v : PostmanVariable). is_unresolved v.source) l) ≡ []
    → All IsResolved l
none_unresolved [] e = tt
none_unresolved (v ∷ r) e = elim (Bool-cases (is_unresolved v.source)) [
  | inl q ↦ absurd (ground arith)
  | inr q ↦ (q, none_unresolved r (rw q at e))
]

All-insert :
    (a : PostmanVariable) (l : List PostmanVariable)
    → All IsResolved (insert_variable a l)
    → IsResolved a × All IsResolved l
unfolding insert_variable
All-insert a [] h = h
All-insert a (b ∷ r) h = elim (Bool-cases (str_leb a.name b.name)) [
  | inl q ↦ rw q at h
  | inr q ↦
      let p : IsResolved b × All IsResolved (insert_variable a r) = rw q at h in
      let (x, y) = All-insert a r p.1 in (x, (p.0, y))
]

All-sort : (l : List PostmanVariable) → All IsResolved (sort_by_name l) → All IsResolved l
unfolding sort_by_name
All-sort [] h = tt
All-sort (a ∷ r) h = let (x, y) = All-insert a (sort_by_name r) h in (x, All-sort r y)

module _ (Q : String → Type 0) where
  abbrev KeysAre : Dict (List String) → Type 0
  KeysAre d = All (λ e. Q e.0) d

  keys-put :
      (k : String) (v : List String) (d : Dict (List String))
      → KeysAre (put k v d)
      → Q k × KeysAre d
  unfolding put
  keys-put k v [] h = h
  keys-put k v ((j, w) ∷ d) h = elim (Bool-cases (str_eq j k)) [
    | inl e ↦
        let p : Q j × KeysAre d = rw e at h in
        let same : j ≡ k = ground (arith, eq_iff j k) in (subst Q same p.0, p)
    | inr e ↦
        let p : Q j × KeysAre (put k v d) = rw e at h in
        let (x, y) = keys-put k v d p.1 in (x, (p.0, y))
  ]

  keys-group :
      (d : Dict (List String)) (l : List VariableReference)
      → KeysAre (group_from d l)
      → All (λ (v : VariableReference). Q v.name) l × KeysAre d
  unfolding group_from
  keys-group d [] h = (tt, h)
  keys-group d (v ∷ r) h =
      let names = locations_so_far (lookup v.name d) ++ v.location ∷ [] in
      let (rest, all) = keys-group (put v.name names d) r h in
      let (here, before) = keys-put v.name names d all in ((here, rest), before)

module _ (is_sensitive_key : String → Bool) (known : KnownValues) where
  abbrev pub HasSource : String → Type 0
  HasSource name = is_unresolved (source_of known name) ≡ false

  keys_resolved :
      (d : Dict (List String))
      → All IsResolved (map (variable_of is_sensitive_key known) d)
      → KeysAre HasSource d
  unfolding variable_of
  keys_resolved [] h = tt
  keys_resolved ((k, l) ∷ d) h = (h.0, keys_resolved d h.1)

  -- Each name that a collection refers to has a source, where none is listed as unresolved.
  pub unresolved_names-nil :
      (references : List VariableReference)
      → unresolved_names (resolve_variables is_sensitive_key references known) ≡ []
      → All (λ (v : VariableReference). HasSource v.name) references
  unfolding unresolved_names resolve_variables
  unresolved_names-nil references e =
      let variables = map (variable_of is_sensitive_key known) (group_from [] references) in
      let sorted = none_unresolved (sort_by_name variables) (sorted_nil _ e) in
      (keys-group HasSource [] references
        (keys_resolved (group_from [] references) (All-sort variables sorted))).0

lookup-updated :
    (k : String) (d e : Dict String) → has_key k (updated d e) ≡ (has_key k d || has_key k e)
unfolding updated lookup
lookup-updated k d [] = ground arith
lookup-updated k d ((j, v) ∷ e) = ground (arith, lookup-updated k (put j v d) e, lookup-put j k v d)

pub merged-keys :
    (known : KnownValues) (k : String)
    → has_key k (merged_values known) ≡ (
        has_key k known.collection_variables
        || (has_key k known.environment_values || has_key k known.supplied_values))
unfolding merged_values lookup
merged-keys known k =
    let a = updated [] known.collection_variables in
    ground (
      arith,
      lookup-updated k (updated a known.environment_values) known.supplied_values,
      lookup-updated k a known.environment_values,
      lookup-updated k [] known.collection_variables,
    )

-- A name with a source is Postman's own, set by a script, or has a merged value.
pub sourced_cases :
    (known : KnownValues) (k : String)
    → is_unresolved (source_of known k) ≡ false
    → (starts_with k "$" ≡ true)
      ⊎ ((is_in k known.script_set ≡ true) ⊎ (has_key k (merged_values known) ≡ true))
unfolding source_of
sourced_cases known k h = elim (Bool-cases (starts_with k "$")) [
  | inl e ↦ inl e
  | inr e ↦ elim (Bool-cases (is_in k known.script_set)) [
    | inl f ↦ inr (inl f)
    | inr f ↦ inr (inr (ground (arith, merged-keys known k)))
  ]
]
