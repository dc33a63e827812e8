-- ===== src/Correlation/Graph/Strongest.antt =====
-- Which source an edge comes from, and that the strongest state shows.
use auto_correlation.Prelude.{
  ◌≤◌, ◌<◌, String, ◌≡◌, inl, inr, refl, Option, none, some, List, [], ◌∷◌, ◌++◌, All, Member,
  str_eq, eq_iff, Bool-cases, true, arith, sym, subst, ◌∙◌, ap,
}
use auto_correlation.Prelude.Dict.{Dict, lookup}
use auto_correlation.Runs.Signature.{NormalizedExecution}
use auto_correlation.Correlation.Model.{ValueOccurrence, CorrelationCandidate}
use auto_correlation.Correlation.Graph.{
  CandidateState, CorrelationRule, Source, Edge, rank, enabled_rules, candidate_sources,
  rule_sources, edge_id, edge_of, stronger, add_edge, is_node, add_sinks, add_sources, edge_map,
}
use auto_correlation.Correlation.Graph.Edges.{put-All, strength, edge_map_there}

-- The sources of the edges, in the order of the loop.
abbrev pub all_sources :
    List (CorrelationCandidate × CandidateState) → List CorrelationRule → List Source
all_sources candidates rules =
    candidate_sources (enabled_rules rules) candidates ++ rule_sources (enabled_rules rules)

-- The edge under a key is that of a source of the list and one of its consumers.
abbrev IsMade : List Source → String × Edge → Type 0
IsMade all x =
    (s : Source) × (t : ValueOccurrence) × Member s all
    × Member t s.consumers
    × (edge_id s t ≡ x.0)
    × (x.1 ≡ edge_of s t)

lookup-All :
    (P : String × Edge → Type 0) (k : String) (e : Edge) (d : Dict Edge)
    → All P d
    → lookup k d ≡ some e
    → P (k, e)
unfolding lookup
lookup-All P k e [] a h = absurd (cc)
lookup-All P k e ((j, w) ∷ d) a h = elim (Bool-cases (str_eq j k)) [
  | inl same ↦
      let p : j ≡ k = (eq_iff j k).0 same in
      let q : w ≡ e = ground (arith, h, same) in
      subst (λ y. P (k, y)) q (subst (λ y. P (y, w)) p a.0)
  | inr other ↦ lookup-All P k e d a.1 (rw other at h)
]

module _ (run : List NormalizedExecution) (P : String × Edge → Type 0) where
  add_edge-All :
      (k : String) (e : Edge) (m : Dict Edge) → e.id ≡ k → P (k, e) → All P m → All P (add_edge e m)
  unfolding add_edge
  add_edge-All k e m i p a = elim (Bool-cases (stronger e (lookup e.id m))) [
    | inl puts ↦ rw puts (put-All P e.id e m (λ j q. subst (λ y. P (y, e)) (sym i ∙ sym q) p) a)
    | inr no_change ↦ rw no_change a
  ]

  add_sinks-All :
      (src : Source) (l : List ValueOccurrence) (m : Dict Edge)
      → ((t : ValueOccurrence) → Member t l → P (edge_id src t, edge_of src t))
      → All P m
      → All P (add_sinks run src l m)
  unfolding add_sinks
  add_sinks-All src [] m f a = a
  add_sinks-All src (sink ∷ r) m f a = elim (Bool-cases (is_node run sink.execution_id)) [
    | inl n ↦ rw n (
        add_sinks-All src r (add_edge (edge_of src sink) m) (λ t h. f t (inr h))
          (add_edge-All (edge_id src sink) (edge_of src sink) m refl (f sink (inl refl)) a))
    | inr n ↦ rw n (add_sinks-All src r m (λ t h. f t (inr h)) a)
  ]

  add_sources-All :
      (l : List Source) (m : Dict Edge)
      → ((s : Source)
          → Member s l
          → (t : ValueOccurrence) → Member t s.consumers
          → P (edge_id s t, edge_of s t))
      → All P m
      → All P (add_sources run l m)
  unfolding add_sources
  add_sources-All [] m f a = a
  add_sources-All (src ∷ r) m f a = elim (Bool-cases (is_node run src.producer.execution_id)) [
    | inl n ↦ rw n (
        add_sources-All r (add_sinks run src src.consumers m) (λ s h. f s (inr h))
          (add_sinks-All src src.consumers m (f src (inl refl)) a))
    | inr n ↦ rw n (add_sources-All r m (λ s h. f s (inr h)) a)
  ]

edges-AreMade :
    (run : List NormalizedExecution) (candidates : List (CorrelationCandidate × CandidateState))
    (rules : List CorrelationRule)
    → All (IsMade (all_sources candidates rules)) (edge_map run candidates rules)
unfolding edge_map
edges-AreMade run candidates rules =
    let all = all_sources candidates rules in
    add_sources-All run (IsMade all) all [] (λ s h t g. (s, t, h, g, refl, refl)) tt

-- The id of the edge from `src` to `sink` names its ends: another source and consumer with that id
-- have the same producer and consumer execution. (The id joins texts by colons.)
abbrev pub NamesEnds : List Source → Source → ValueOccurrence → Type 0
NamesEnds all src sink =
    (s : Source) (t : ValueOccurrence)
    → Member s all
    → Member t s.consumers
    → edge_id s t ≡ edge_id src sink
    → (s.producer.execution_id ≡ src.producer.execution_id) × (t.execution_id ≡ sink.execution_id)

-- Each pair of nodes that a source links has an edge under the edge's id, from the producer's
-- execution to the consumer's, whose state is at least as strong as that source's: a rule's edge
-- is never left looking like a mere suggestion. The id has to name the edge's ends.
pub edge_map_strongest :
    (run : List NormalizedExecution) (candidates : List (CorrelationCandidate × CandidateState))
    (rules : List CorrelationRule) (src : Source) (sink : ValueOccurrence)
    → Member src (all_sources candidates rules)
    → Member sink src.consumers
    → is_node run src.producer.execution_id ≡ true
    → is_node run sink.execution_id ≡ true
    → NamesEnds (all_sources candidates rules) src sink
    → (e : Edge) × (lookup (edge_id src sink) (edge_map run candidates rules) ≡ some e)
      × (e.source ≡ src.producer.execution_id)
      × (e.target ≡ sink.execution_id)
      × (rank src.state ≤ rank e.state)
edge_map_strongest run candidates rules src sink m n from to names =
    by_found (lookup (edge_id src sink) (edge_map run candidates rules)) refl
  where
    by_found :
        (o : Option Edge)
        → lookup (edge_id src sink) (edge_map run candidates rules) ≡ o
        → (e : Edge) × (o ≡ some e)
          × (e.source ≡ src.producer.execution_id)
          × (e.target ≡ sink.execution_id)
          × (rank src.state ≤ rank e.state)
    by_found none h = absurd (
        omega (
          arith,
          subst (λ o. rank src.state < strength o) h
              (edge_map_there run candidates rules src sink m n from to),
        ))
    by_found (some e) h =
        let strong : rank src.state < strength (some e) =
          subst (λ o. rank src.state < strength o) h
            (edge_map_there run candidates rules src sink m n from to) in
        let (s, t, i, j, same, made) =
          lookup-All (IsMade (all_sources candidates rules)) (edge_id src sink) e
            (edge_map run candidates rules) (edges-AreMade run candidates rules) h in
        let (p, q) = names s t i j same in
        (e, refl, ap (λ y. y.source) made ∙ p, ap (λ y. y.target) made ∙ q, omega (arith, strong))
