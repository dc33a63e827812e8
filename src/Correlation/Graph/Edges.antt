-- ===== src/Correlation/Graph/Edges.antt =====
-- The edges connect nodes, have unique ids, and show the strongest state.
use auto_correlation.Prelude.{
  ℕ, suc, ◌≤◌, ◌<◌, String, ◌≡◌, inl, inr, refl, true, false, Option, none, some, List, [], ◌∷◌,
  ◌++◌, All, Member, str_eq, eq_iff, eq_refl, Bool-cases, arith, sym, subst,
}
use auto_correlation.Prelude.Dict.{Dict, lookup, put, HasUniqueKeys, lookup-put}
use auto_correlation.Prelude.Dict.Counts.{put-HasUniqueKeys}
use auto_correlation.Runs.Signature.{NormalizedExecution}
use auto_correlation.Correlation.Model.{ValueOccurrence, CorrelationCandidate}
use auto_correlation.Correlation.Graph.{
  CandidateState, CorrelationRule, Source, Edge, rank, enabled_rules, candidate_sources,
  rule_sources, edge_id, edge_of, stronger, add_edge, is_node, add_sinks, add_sources, edge_map,
}

pub put-All :
    (P : String × Edge → Type 0) (k : String) (v : Edge) (d : Dict Edge)
    → ((j : String) → j ≡ k → P (j, v))
    → All P d
    → All P (put k v d)
unfolding put
put-All P k v [] p a = (p k refl, tt)
put-All P k v ((j, w) ∷ d) p a = elim (Bool-cases (str_eq j k)) [
  | inl e ↦ rw e (p j ((eq_iff j k).0 e), a.1)
  | inr e ↦ rw e (a.0, put-All P k v d p a.1)
]

-- How strong the state of the edge is that is there, 0 for none.
abbrev pub strength : Option Edge → ℕ
strength none = 0
strength (some e) = suc (rank e.state)

add_edge_grows :
    (k : String) (e : Edge) (m : Dict Edge)
    → strength (lookup k m) ≤ strength (lookup k (add_edge e m))
unfolding add_edge
add_edge_grows k e m = elim (Bool-cases (stronger e (lookup e.id m))) [
  | inr no_change ↦ rw no_change (omega arith)
  | inl puts ↦
      rw (puts, lookup-put e.id k e m)
        (elim (Bool-cases (str_eq e.id k)) [
          | inr other ↦ rw other (omega arith)
          | inl same ↦
              let p : e.id ≡ k = (eq_iff e.id k).0 same in
              rw same (below (lookup k m) (subst (λ x. stronger e (lookup x m) ≡ true) p puts))
        ])
]
  where
    below : (o : Option Edge) → stronger e o ≡ true → strength o ≤ suc (rank e.state)
    below none h = omega arith
    below (some d) h = ground (arith, h)

add_edge_there : (e : Edge) (m : Dict Edge) → rank e.state < strength (lookup e.id (add_edge e m))
unfolding add_edge
add_edge_there e m = elim (Bool-cases (stronger e (lookup e.id m))) [
  | inl puts ↦ rw (puts, lookup-put e.id e.id e m, eq_refl e.id) (omega arith)
  | inr no_change ↦ rw no_change (above (lookup e.id m) no_change)
]
  where
    above : (o : Option Edge) → stronger e o ≡ false → rank e.state < strength o
    above none h = absurd (cc)
    above (some d) h = ground (arith, h)

module _ (run : List NormalizedExecution) where
  -- An entry of the map is an edge under its id, between nodes.
  abbrev pub IsEdge : String × Edge → Type 0
  IsEdge x = (x.1.id ≡ x.0) × (is_node run x.1.source ≡ true) × (is_node run x.1.target ≡ true)

  abbrev pub IsEdgeMap : Dict Edge → Type 0
  IsEdgeMap m = HasUniqueKeys m × All IsEdge m

  add_edge-IsEdgeMap :
      (e : Edge) (m : Dict Edge)
      → is_node run e.source ≡ true
      → is_node run e.target ≡ true
      → IsEdgeMap m
      → IsEdgeMap (add_edge e m)
  unfolding add_edge
  add_edge-IsEdgeMap e m s t w = elim (Bool-cases (stronger e (lookup e.id m))) [
    | inl puts ↦
        rw puts (put-HasUniqueKeys e.id e m w.0, put-All IsEdge e.id e m (λ j q. (sym q, s, t)) w.1)
    | inr no_change ↦ rw no_change w
  ]

  add_sinks-IsEdgeMap :
      (src : Source) (l : List ValueOccurrence) (m : Dict Edge)
      → is_node run src.producer.execution_id ≡ true
      → IsEdgeMap m
      → IsEdgeMap (add_sinks run src l m)
  unfolding add_sinks
  add_sinks-IsEdgeMap src [] m s w = w
  add_sinks-IsEdgeMap src (sink ∷ r) m s w = elim (Bool-cases (is_node run sink.execution_id)) [
    | inl n ↦ rw n (
        add_sinks-IsEdgeMap src r (add_edge (edge_of src sink) m) s
          (add_edge-IsEdgeMap (edge_of src sink) m s n w))
    | inr n ↦ rw n (add_sinks-IsEdgeMap src r m s w)
  ]

  add_sources-IsEdgeMap :
      (l : List Source) (m : Dict Edge) → IsEdgeMap m → IsEdgeMap (add_sources run l m)
  unfolding add_sources
  add_sources-IsEdgeMap [] m w = w
  add_sources-IsEdgeMap (src ∷ r) m w = elim (Bool-cases (is_node run src.producer.execution_id)) [
    | inl n ↦ rw n (
        add_sources-IsEdgeMap r (add_sinks run src src.consumers m)
          (add_sinks-IsEdgeMap src src.consumers m n w))
    | inr n ↦ rw n (add_sources-IsEdgeMap r m w)
  ]

  add_sinks_grows :
      (k : String) (src : Source) (l : List ValueOccurrence) (m : Dict Edge)
      → strength (lookup k m) ≤ strength (lookup k (add_sinks run src l m))
  unfolding add_sinks
  add_sinks_grows k src [] m = omega arith
  add_sinks_grows k src (sink ∷ r) m = elim (Bool-cases (is_node run sink.execution_id)) [
    | inl n ↦ rw n (
        omega (
          arith,
          add_edge_grows k (edge_of src sink) m,
          add_sinks_grows k src r (add_edge (edge_of src sink) m),
        ))
    | inr n ↦ rw n (add_sinks_grows k src r m)
  ]

  add_sources_grows :
      (k : String) (l : List Source) (m : Dict Edge)
      → strength (lookup k m) ≤ strength (lookup k (add_sources run l m))
  unfolding add_sources
  add_sources_grows k [] m = omega arith
  add_sources_grows k (src ∷ r) m = elim (Bool-cases (is_node run src.producer.execution_id)) [
    | inl n ↦ rw n (
        omega (
          arith,
          add_sinks_grows k src src.consumers m,
          add_sources_grows k r (add_sinks run src src.consumers m),
        ))
    | inr n ↦ rw n (add_sources_grows k r m)
  ]

  module _ (src : Source) (sink : ValueOccurrence)
      (from : is_node run src.producer.execution_id ≡ true)
      (to : is_node run sink.execution_id ≡ true) where
    add_sinks_there :
        (l : List ValueOccurrence) (m : Dict Edge)
        → Member sink l
        → rank src.state < strength (lookup (edge_id src sink) (add_sinks run src l m))
    unfolding add_sinks
    add_sinks_there [] m x = absurd x
    add_sinks_there (o ∷ l) m (inl q) =
        let n : is_node run o.execution_id ≡ true =
          subst (λ y. is_node run y.execution_id ≡ true) q to in
        let t : rank src.state < strength (lookup (edge_id src sink) (add_edge (edge_of src o) m)) =
          subst
            (λ y. rank src.state < strength (lookup (edge_id src y) (add_edge (edge_of src o) m)))
            (sym q) (add_edge_there (edge_of src o) m) in
        rw n
          (omega (arith, t, add_sinks_grows (edge_id src sink) src l (add_edge (edge_of src o) m)))
    add_sinks_there (o ∷ l) m (inr x) = elim (Bool-cases (is_node run o.execution_id)) [
      | inl n ↦ rw n (add_sinks_there l (add_edge (edge_of src o) m) x)
      | inr n ↦ rw n (add_sinks_there l m x)
    ]

    add_sources_there :
        (l : List Source) (m : Dict Edge)
        → Member src l
        → Member sink src.consumers
        → rank src.state < strength (lookup (edge_id src sink) (add_sources run l m))
    unfolding add_sources
    add_sources_there [] m x y = absurd x
    add_sources_there (s ∷ l) m (inl q) y =
        let n : is_node run s.producer.execution_id ≡ true =
          subst (λ z. is_node run z.producer.execution_id ≡ true) q from in
        let t : rank src.state
            < strength (lookup (edge_id src sink) (add_sinks run s s.consumers m)) =
          subst
            (λ z.
              rank src.state < strength (lookup (edge_id src sink) (add_sinks run z z.consumers m)))
            q (add_sinks_there src.consumers m y) in
        rw n
          (omega (arith, t, add_sources_grows (edge_id src sink) l (add_sinks run s s.consumers m)))
    add_sources_there (s ∷ l) m (inr x) y =
        elim (Bool-cases (is_node run s.producer.execution_id)) [
          | inl n ↦ rw n (add_sources_there l (add_sinks run s s.consumers m) x y)
          | inr n ↦ rw n (add_sources_there l m x y)
        ]

-- The edges have unique ids, and each connects two nodes.
pub edge_map-IsEdgeMap :
    (run : List NormalizedExecution) (candidates : List (CorrelationCandidate × CandidateState))
    (rules : List CorrelationRule)
    → IsEdgeMap run (edge_map run candidates rules)
unfolding edge_map
edge_map-IsEdgeMap run candidates rules =
    add_sources-IsEdgeMap run
      (candidate_sources (enabled_rules rules) candidates ++ rule_sources (enabled_rules rules)) []
      (tt, tt)

-- Something at least as strong as the source stands under the edge's id.
pub edge_map_there :
    (run : List NormalizedExecution) (candidates : List (CorrelationCandidate × CandidateState))
    (rules : List CorrelationRule) (src : Source) (sink : ValueOccurrence)
    → Member src
        (candidate_sources (enabled_rules rules) candidates ++ rule_sources (enabled_rules rules))
    → Member sink src.consumers
    → is_node run src.producer.execution_id ≡ true
    → is_node run sink.execution_id ≡ true
    → rank src.state < strength (lookup (edge_id src sink) (edge_map run candidates rules))
unfolding edge_map
edge_map_there run candidates rules src sink m n from to =
    add_sources_there run src sink from to
      (candidate_sources (enabled_rules rules) candidates ++ rule_sources (enabled_rules rules)) []
      m n
