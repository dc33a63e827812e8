-- ===== src/Correlation/Classification/Laws.antt =====
-- What the loop over the request sinks keeps: no sink that has a ruling is lost, none that a correlation
-- consumes gets one, and every insight is counted.
use auto_correlation.Prelude.{
  ℕ, String, ◌≡◌, ◌⊎◌, inl, inr, refl, Bool, true, false, ◌||◌, Option, none, some, List, [], ◌∷◌,
  ◌++◌, Member, eq_refl, Bool-cases, arith,
}
use auto_correlation.Runs.Signature.{NormalizedExecution}
use auto_correlation.Correlation.Model.{
  ValueOccurrence, CorrelationCandidate, LocationType, location_eq, path, query, header, cookie,
  json_body, form, text_body, xml_body,
}
use auto_correlation.Correlation.Engine.{Index}
use auto_correlation.Correlation.Classification.{
  ValueInsight, Patterns, FieldKey, field_key_eq, insight_key, sink_key, Ruling, insight_of,
}
use auto_correlation.Correlation.Classification.Buckets.{
  is_seen, merge_occurrence, Gathered, kept_ruling,
}

unfoldable pub has_key : FieldKey → List ValueInsight → Bool
unfolding field_key_eq
has_key k [] = false
has_key k (i ∷ r) = field_key_eq (insight_key i) k || has_key k r

-- The sink is an occurrence of an insight of the key.
abbrev pub Listed : ValueOccurrence → FieldKey → List ValueInsight → Type 0
Listed s k [] = ⊥
Listed s k (i ∷ r) =
    ((field_key_eq (insight_key i) k ≡ true) × Member s i.occurrences) ⊎ Listed s k r

Member-grown :
    (s o : ValueOccurrence) (l : List ValueOccurrence) → Member s l → Member s (l ++ o ∷ [])
Member-grown s o [] m = absurd m
Member-grown s o (x ∷ l) (inl e) = inl e
Member-grown s o (x ∷ l) (inr m) = inr (Member-grown s o l m)

Member-last : (o : ValueOccurrence) (l : List ValueOccurrence) → Member o (l ++ o ∷ [])
Member-last o [] = inl refl
Member-last o (x ∷ l) = inr (Member-last o l)

location_eq_refl : (a : LocationType) → location_eq a a ≡ true
location_eq_refl path = refl
location_eq_refl query = refl
location_eq_refl header = refl
location_eq_refl cookie = refl
location_eq_refl json_body = refl
location_eq_refl form = refl
location_eq_refl text_body = refl
location_eq_refl xml_body = refl

field_key_eq_refl : (k : FieldKey) → field_key_eq k k ≡ true
unfolding field_key_eq
field_key_eq_refl k = ground (arith, location_eq_refl k.place, eq_refl k.field)

Listed-grown :
    (s : ValueOccurrence) (k : FieldKey) (l : List ValueInsight) (i : ValueInsight)
    → Listed s k l
    → Listed s k (l ++ i ∷ [])
Listed-grown s k [] i m = absurd m
Listed-grown s k (j ∷ l) i (inl h) = inl h
Listed-grown s k (j ∷ l) i (inr m) = inr (Listed-grown s k l i m)

Listed-new :
    (s : ValueOccurrence) (k : FieldKey) (l : List ValueInsight) (i : ValueInsight)
    → field_key_eq (insight_key i) k ≡ true
    → Member s i.occurrences
    → Listed s k (l ++ i ∷ [])
Listed-new s k [] i e m = inl (e, m)
Listed-new s k (j ∷ l) i e m = inr (Listed-new s k l i e m)

Listed-merge :
    (s o : ValueOccurrence) (k j : FieldKey) (l : List ValueInsight)
    → Listed s k l
    → Listed s k (merge_occurrence j o l)
unfolding merge_occurrence
Listed-merge s o k j [] m = absurd m
Listed-merge s o k j (i ∷ l) m = elim (Bool-cases (field_key_eq (insight_key i) j)) [
  | inl e ↦ rw e (elim m [ inl h ↦ inl (h.0, Member-grown s o i.occurrences h.1) | inr n ↦ inr n ])
  | inr e ↦ rw e (elim m [ inl h ↦ inl h | inr n ↦ inr (Listed-merge s o k j l n) ])
]

merge_occurrence-Listed :
    (s : ValueOccurrence) (k : FieldKey) (l : List ValueInsight)
    → has_key k l ≡ true
    → Listed s k (merge_occurrence k s l)
unfolding merge_occurrence has_key
merge_occurrence-Listed s k [] h = absurd (cc)
merge_occurrence-Listed s k (i ∷ l) h = elim (Bool-cases (field_key_eq (insight_key i) k)) [
  | inl e ↦ rw e (inl (e, Member-last s i.occurrences))
  | inr e ↦ rw e (inr (merge_occurrence-Listed s k l (ground (arith, h, e))))
]

has_key-grown :
    (k : FieldKey) (l : List ValueInsight) (i : ValueInsight)
    → has_key k (l ++ i ∷ []) ≡ (has_key k l || field_key_eq (insight_key i) k)
unfolding has_key
has_key-grown k [] i = elim (Bool-cases (field_key_eq (insight_key i) k)) [
  | inl e ↦ rw e refl
  | inr e ↦ rw e refl
]
has_key-grown k (j ∷ l) i = elim (Bool-cases (field_key_eq (insight_key j) k)) [
  | inl e ↦ rw e refl
  | inr e ↦ rw e (has_key-grown k l i)
]

has_key-merge :
    (k j : FieldKey) (o : ValueOccurrence) (l : List ValueInsight)
    → has_key k (merge_occurrence j o l) ≡ has_key k l
unfolding has_key merge_occurrence
has_key-merge k j o [] = refl
has_key-merge k j o (i ∷ l) = elim (Bool-cases (field_key_eq (insight_key i) j)) [
  | inl e ↦ rw e refl
  | inr e ↦ rw (e, has_key-merge k j o l) refl
]

-- Every key that was seen has an insight.
abbrev pub Backed : Gathered → Type 0
Backed g = (k : FieldKey) → is_seen k g.field_seen ≡ true → has_key k g.insights ≡ true

module _ (x : Index) (p : Patterns) (new_id : ℕ → String) (found : List CorrelationCandidate)
    (values : List String) (two_run : Bool)
    (there : NormalizedExecution → ValueOccurrence → Option ValueOccurrence) where
  pub kept_ruling-Backed :
      (sink : ValueOccurrence) (comp_sink : Option ValueOccurrence) (r : Option Ruling)
      (g : Gathered)
      → Backed g
      → Backed (kept_ruling x p new_id found values two_run there sink comp_sink r g)
  unfolding kept_ruling
  kept_ruling-Backed sink comp_sink none g b = b
  kept_ruling-Backed sink comp_sink (some r) g b =
      let k = sink_key r.bucket sink in
      elim (Bool-cases (is_seen k g.field_seen)) [
        | inl e ↦ rw e (λ j h. rw (has_key-merge j k sink g.insights) (b j h))
        | inr e ↦ rw e (λ j h.
            rw (has_key-grown j g.insights (insight_of p (new_id g.used) sink comp_sink r))
              (elim (Bool-cases (has_key j g.insights)) [
                | inl y ↦ rw y refl
                | inr n ↦ rw n (either j n h)
              ]))
      ]
    where
      either :
          (j : FieldKey)
          → has_key j g.insights ≡ false
          → is_seen j (sink_key r.bucket sink ∷ g.field_seen) ≡ true
          → field_key_eq (sink_key r.bucket sink) j ≡ true
      either j n h = elim (Bool-cases (field_key_eq (sink_key r.bucket sink) j)) [
        | inl e ↦ e
        | inr e ↦
            let h' : is_seen j g.field_seen ≡ true = unfold is_seen in ground (arith, h, e) in
            absurd (ground (arith, b j h', n))
      ]

  pub kept_ruling-Listed :
      (s : ValueOccurrence) (k : FieldKey) (sink : ValueOccurrence)
      (comp_sink : Option ValueOccurrence) (r : Option Ruling) (g : Gathered)
      → Listed s k g.insights
      → Listed s k (kept_ruling x p new_id found values two_run there sink comp_sink r g).insights
  unfolding kept_ruling
  kept_ruling-Listed s k sink comp_sink none g l = l
  kept_ruling-Listed s k sink comp_sink (some r) g l =
      let j = sink_key r.bucket sink in
      elim (Bool-cases (is_seen j g.field_seen)) [
        | inl e ↦ rw e (Listed-merge s sink k j g.insights l)
        | inr e ↦
            rw e (Listed-grown s k g.insights (insight_of p (new_id g.used) sink comp_sink r) l)
      ]

  pub kept_ruling_lists :
      (sink : ValueOccurrence) (comp_sink : Option ValueOccurrence) (r : Ruling) (g : Gathered)
      → Backed g
      → Listed sink
          (sink_key r.bucket sink)
          (kept_ruling x p new_id found values two_run there sink comp_sink (some r) g).insights
  unfolding kept_ruling
  kept_ruling_lists sink comp_sink r g b =
      let k = sink_key r.bucket sink in
      elim (Bool-cases (is_seen k g.field_seen)) [
        | inl e ↦ rw e (merge_occurrence-Listed sink k g.insights (b k e))
        | inr e ↦ rw e (
            Listed-new sink k g.insights (insight_of p (new_id g.used) sink comp_sink r)
              (field_key_eq_refl k) (inl refl))
      ]
