-- ===== src/Correlation/Engine/Proven.antt =====
-- What the captures prove of a candidate of two runs.
use auto_correlation.Prelude.{
  ℕ, ◌<◌, String, ◌≡◌, inl, inr, refl, Bool, true, false, not, ◌&&◌, Option, none, some, List, [],
  ◌∷◌, All, All-append, All-map, Member, leb, if◌then◌else◌, str_eq, is_some, Bool-cases, arith,
  ◌∙◌, ap,
}
use auto_correlation.Prelude.Dict.{Dict, lookup}
use auto_correlation.Runs.Signature.{NormalizedExecution}
use auto_correlation.Runs.Aligner.{AlignmentPair}
use auto_correlation.Correlation.Model.{ValueOccurrence, CorrelationCandidate}
use auto_correlation.Correlation.Score.{Texts}
use auto_correlation.Correlation.Match.{
  Words, match_consumer, is_excluded, is_hard, has_usable_response,
}
use auto_correlation.Correlation.Engine.{
  Index, Verdict, passed_over, schema_change, consumes, Supply, all_sinks, gather, noted, candidate,
  offered, is_empty, over_sources, over_executions, no_names, sink_there, second_match,
  in_comparison, names_it, first_match, verdict, source_there, against, of_source,
  two_run_candidates, aligned_from, by_id,
}

-- A consumer is the sink it was made of.
pub record Taken (f : ValueOccurrence → Verdict) (sinks : List ValueOccurrence)
    (con : ValueOccurrence) : Type 0 where
  pub sink : ValueOccurrence
  pub present : Member sink sinks
  pub said : f sink ≡ consumes con.wrapper
  pub made : con ≡ record sink { wrapper = con.wrapper }

Taken-weaken :
    (f : ValueOccurrence → Verdict) (s : ValueOccurrence) (l : List ValueOccurrence)
    (con : ValueOccurrence)
    → Taken f l con
    → Taken f (s ∷ l) con
Taken-weaken f s l con k = record {
  sink = k.sink;
  present = inr k.present;
  said = k.said;
  made = k.made;
}

pub gather_lem :
    (f : ValueOccurrence → Verdict) (sinks : List ValueOccurrence)
    → All (Taken f sinks) (gather f sinks).consumers
unfolding gather
gather_lem f [] = tt
gather_lem f (s ∷ l) =
    by_verdict
      (All-map (Taken f l) (Taken f (s ∷ l)) (gather f l).consumers (Taken-weaken f s l)
        (gather_lem f l))
      (f s) refl
  where
    by_verdict :
        All (Taken f (s ∷ l)) (gather f l).consumers
        → (v : Verdict) → f s ≡ v
        → All (Taken f (s ∷ l)) (noted s v (gather f l)).consumers
    by_verdict rest passed_over e = rest
    by_verdict rest schema_change e = rest
    by_verdict rest (consumes w) e =
        (record { sink = s; present = inl refl; said = e; made = refl }, rest)

module _ (x : Index) (w : Words) (t : Texts) (new_id : ℕ → String)
    (baseline comparison : List NormalizedExecution) (b2c : Dict String) where
  -- The sink is later than the producer and holds its value, and the aligned sink of the comparison
  -- at the same place holds the other value.
  pub record Flows (e : NormalizedExecution) (src : ValueOccurrence) (value_b : String)
      (sink : ValueOccurrence) (wrapper : Option String) : Type 0 where
    pub later : e.original_index < sink.execution_index
    pub holds : match_consumer src.raw_value sink ≡ (true, wrapper)
    pub other_id : String
    pub aligned : lookup sink.execution_id b2c ≡ some other_id
    pub other_sink : ValueOccurrence
    pub there : sink_there x w t new_id baseline comparison b2c other_id sink ≡ some other_sink
    pub holds_other : (match_consumer value_b other_sink).0 ≡ true

  module _ (e : NormalizedExecution) (src : ValueOccurrence) (value_b : String)
      (sink : ValueOccurrence) (wrapper : Option String)
      (later : e.original_index < sink.execution_index) where
    in_comparison-Flows :
        (p : Option String)
        → match_consumer src.raw_value sink ≡ (true, p)
        → (aligned : Option String) → lookup sink.execution_id b2c ≡ aligned
        → in_comparison x w t new_id baseline comparison b2c p value_b sink aligned
          ≡ consumes wrapper
        → Flows e src value_b sink wrapper
    in_comparison-Flows p q none a r = absurd (cc)
    in_comparison-Flows p q (some id) a r =
        by_sink (sink_there x w t new_id baseline comparison b2c id sink) refl r
      where
        by_sink :
            (o : Option ValueOccurrence)
            → sink_there x w t new_id baseline comparison b2c id sink ≡ o
            → second_match x w t new_id baseline comparison b2c p value_b o ≡ consumes wrapper
            → Flows e src value_b sink wrapper
        by_sink none b k = absurd (cc)
        by_sink (some sink_b) b k = elim (Bool-cases (match_consumer value_b sink_b).0) [
          | inl m ↦
              let same : p ≡ wrapper = ground (arith, k, m) in
              record {
                later = later;
                holds = q ∙ ap (λ o. (true, o)) same;
                other_id = id;
                aligned = a;
                other_sink = sink_b;
                there = b;
                holds_other = m;
              }
          | inr m ↦ absurd (ground (arith, k, m))
        ]

    first_match-Flows :
        (m : Bool × Option String)
        → match_consumer src.raw_value sink ≡ m
        → first_match x w t new_id baseline comparison b2c src value_b sink m ≡ consumes wrapper
        → Flows e src value_b sink wrapper
    first_match-Flows (false, _) q r = absurd (cc)
    first_match-Flows (true, p) q r =
        elim (Bool-cases (
          is_some (is_excluded w src)
          && not (
              names_it x w t new_id baseline comparison b2c src sink
                (by_id sink.execution_id baseline)))) [
                  | inl out ↦ absurd (ground (arith, r, out))
                  | inr stays ↦
                      in_comparison-Flows p q (lookup sink.execution_id b2c) refl
                        (ground (arith, r, stays))
                ]

  -- A sink that the scan takes is proven in both runs.
  verdict-Flows :
      (e : NormalizedExecution) (src : ValueOccurrence) (value_b : String) (sink : ValueOccurrence)
      (wrapper : Option String)
      → verdict x w t new_id baseline comparison b2c e src value_b sink ≡ consumes wrapper
      → Flows e src value_b sink wrapper
  unfolding verdict
  verdict-Flows e src value_b sink wrapper h =
      elim (Bool-cases (leb sink.execution_index e.original_index)) [
        | inl late ↦ absurd (ground (arith, h, late))
        | inr early ↦
            first_match-Flows e src value_b sink wrapper (ground (arith, early))
              (match_consumer src.raw_value sink) refl (ground (arith, h, early))
      ]

  -- A candidate's source has another value at its place in the aligned response of the comparison,
  -- and it has consumers, all of them sinks of the baseline that its value flows into in both runs.
  pub record IsProven (c : CorrelationCandidate) : Type 0 where
    pub producer_run : NormalizedExecution
    pub present : Member producer_run baseline
    pub answered : has_usable_response producer_run ≡ true
    pub is_source : Member c.producer (x.response_sources producer_run)
    pub may_vary : is_hard (is_excluded w c.producer) ≡ false
    pub other_source : ValueOccurrence
    pub there :
        source_there x w t new_id baseline comparison b2c c.producer (lookup producer_run.id b2c)
        ≡ some other_source
    pub differs : str_eq c.producer.normalized_value other_source.normalized_value ≡ false
    pub consumed : is_empty c.consumers ≡ false
    pub flows :
        All
          (λ con.
            (sink : ValueOccurrence) × Member sink (all_sinks x baseline)
            × (con ≡ record sink { wrapper = con.wrapper })
            × Flows producer_run c.producer other_source.raw_value sink con.wrapper)
          c.consumers

  module _ (e : NormalizedExecution) (present : Member e baseline)
      (answered : has_usable_response e ≡ true) (src : ValueOccurrence)
      (is_source : Member src (x.response_sources e))
      (may_vary : is_hard (is_excluded w src) ≡ false) where
    offered-IsProven :
        (b : ValueOccurrence)
        → source_there x w t new_id baseline comparison b2c src (lookup e.id b2c) ≡ some b
        → str_eq src.normalized_value b.normalized_value ≡ false
        → (warnings : List String) (n : Supply)
        → All IsProven
            (offered x w t new_id true warnings e src
              (some b.raw_value)
              (gather
                (verdict x w t new_id baseline comparison b2c e src b.raw_value)
                (all_sinks x baseline))
              n).0
    offered-IsProven b there differs warnings n =
        let f = verdict x w t new_id baseline comparison b2c e src b.raw_value in
        let s = gather f (all_sinks x baseline) in
        elim (Bool-cases (is_empty s.consumers)) [
          | inl none_left ↦ rw none_left tt
          | inr some_left ↦ rw some_left (
              unfold candidate in
              (
                record {
                  producer_run = e;
                  present = present;
                  answered = answered;
                  is_source = is_source;
                  may_vary = may_vary;
                  other_source = b;
                  there = there;
                  differs = differs;
                  consumed = some_left;
                  flows =
                      All-map (Taken f (all_sinks x baseline)) _ s.consumers
                        (λ con k. (
                          k.sink,
                          k.present,
                          k.made,
                          verdict-Flows e src b.raw_value k.sink con.wrapper k.said,
                        ))
                        (gather_lem f (all_sinks x baseline));
                },
                tt,
              ))
        ]

    against-IsProven :
        (found : Option ValueOccurrence)
        → source_there x w t new_id baseline comparison b2c src (lookup e.id b2c) ≡ found
        → (n : Supply) → All IsProven (against x w t new_id baseline comparison b2c e src found n).0
    against-IsProven none q n = tt
    against-IsProven (some b) q n =
        elim (Bool-cases (str_eq src.normalized_value b.normalized_value)) [
          | inl same ↦ rw same tt
          | inr differs ↦ rw differs (offered-IsProven b q differs _ n)
        ]

  of_source-IsProven :
      (e : NormalizedExecution)
      → Member e baseline
      → has_usable_response e ≡ true
      → (src : ValueOccurrence) → Member src (x.response_sources e)
      → (n : Supply) → All IsProven (of_source x w t new_id baseline comparison b2c e src n).0
  unfolding of_source
  of_source-IsProven e present answered src is_source n =
      elim (Bool-cases (is_hard (is_excluded w src))) [
        | inl hard ↦ rw hard tt
        | inr may ↦ rw may (
            against-IsProven e present answered src is_source may
              (source_there x w t new_id baseline comparison b2c src (lookup e.id b2c)) refl n)
      ]

module _ (x : Index) (w : Words) (t : Texts) (new_id : ℕ → String)
    (f : NormalizedExecution → ValueOccurrence → Supply → List CorrelationCandidate × Supply)
    (P : CorrelationCandidate → Type 0) where
  over_sources-All :
      (e : NormalizedExecution) (l : List ValueOccurrence)
      → ((src : ValueOccurrence) → Member src l → (n : Supply) → All P (f e src n).0)
      → (n : Supply) → All P (over_sources x w t new_id f e l n).0
  unfolding over_sources
  over_sources-All e [] h n = tt
  over_sources-All e (src ∷ r) h n =
      All-append P (f e src n).0 (over_sources x w t new_id f e r (f e src n).1).0
        (h src (inl refl) n) (over_sources-All e r (λ s m. h s (inr m)) (f e src n).1)

  over_executions-All :
      (l : List NormalizedExecution)
      → ((e : NormalizedExecution)
          → Member e l
          → has_usable_response e ≡ true
          → (src : ValueOccurrence) → Member src (x.response_sources e)
          → (n : Supply) → All P (f e src n).0)
      → (n : Supply) → All P (over_executions x w t new_id f l n).0
  unfolding over_executions
  over_executions-All [] h n = tt
  over_executions-All (e ∷ r) h n =
      let l = if has_usable_response e then x.response_sources e else [] in
      All-append P (over_sources x w t new_id f e l n).0
        (over_executions x w t new_id f r (over_sources x w t new_id f e l n).1).0
        (elim (Bool-cases (has_usable_response e)) [
          | inl answers ↦
              rw answers (over_sources-All e (x.response_sources e) (h e (inl refl) answers) n)
          | inr silent ↦ rw silent (over_sources-All e [] (λ s m. absurd m) n)
        ])
        (over_executions-All r (λ d m. h d (inr m)) (over_sources x w t new_id f e l n).1)

-- Every candidate of two runs is proven, before the conflicts are looked at: its source stands in a
-- response of the baseline and has another value at the same place of the aligned response; it has a
-- consumer; and each consumer is a later sink of the baseline that holds its value, whose aligned sink
-- at the same place of the comparison holds the other value.
pub two_run_candidates-AreProven :
    (x : Index) (w : Words) (t : Texts) (new_id : ℕ → String)
    (baseline comparison : List NormalizedExecution) (pairs : List AlignmentPair)
    → All
        (IsProven x w t new_id baseline comparison (aligned_from [] pairs))
        (two_run_candidates x w t new_id baseline comparison pairs)
unfolding two_run_candidates
two_run_candidates-AreProven x w t new_id baseline comparison pairs =
    let b2c = aligned_from [] pairs in
    over_executions-All x w t new_id (of_source x w t new_id baseline comparison b2c)
      (IsProven x w t new_id baseline comparison b2c) baseline
      (of_source-IsProven x w t new_id baseline comparison b2c) no_names
