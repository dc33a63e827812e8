-- ===== src/Correlation/Classification/Complete.antt =====
-- No request sink that has a ruling is lost.
use auto_correlation.Prelude.{
  ℕ, String, ◌≡◌, inl, inr, Bool, false, Option, some, List, [], ◌∷◌, Member, Bool-cases, subst,
}
use auto_correlation.Runs.Signature.{NormalizedExecution}
use auto_correlation.Runs.Aligner.{AlignmentPair}
use auto_correlation.Correlation.Model.{ValueOccurrence, CorrelationCandidate}
use auto_correlation.Correlation.Engine.{Index, aligned_from}
use auto_correlation.Correlation.Classification.{Patterns, FieldKey, sink_key, Ruling, rule_on}
use auto_correlation.Correlation.Classification.Buckets.{
  is_seen, Gathered, is_correlated, on_sink, on_sinks, on_executions, split, classify,
  producer_values, counterpart, is_two_run, started,
}
use auto_correlation.Correlation.Classification.Laws.{
  Listed, Backed, kept_ruling-Backed, kept_ruling-Listed, kept_ruling_lists,
}

module _ (x : Index) (p : Patterns) (new_id : ℕ → String) (found : List CorrelationCandidate)
    (values : List String) (two_run : Bool)
    (there : NormalizedExecution → ValueOccurrence → Option ValueOccurrence) where
  on_sink-Backed :
      (e : NormalizedExecution) (sink : ValueOccurrence) (g : Gathered)
      → Backed g
      → Backed (on_sink x p new_id found values two_run there e sink g)
  unfolding on_sink
  on_sink-Backed e sink g b = elim (Bool-cases (is_correlated sink found)) [
    | inl c ↦ rw c b
    | inr c ↦ rw c (
        kept_ruling-Backed x p new_id found values two_run there sink (there e sink)
          (rule_on p values two_run sink (there e sink)) g b)
  ]

  on_sink-Listed :
      (s : ValueOccurrence) (k : FieldKey) (e : NormalizedExecution) (sink : ValueOccurrence)
      (g : Gathered)
      → Listed s k g.insights
      → Listed s k (on_sink x p new_id found values two_run there e sink g).insights
  unfolding on_sink
  on_sink-Listed s k e sink g l = elim (Bool-cases (is_correlated sink found)) [
    | inl c ↦ rw c l
    | inr c ↦ rw c (
        kept_ruling-Listed x p new_id found values two_run there s k sink (there e sink)
          (rule_on p values two_run sink (there e sink)) g l)
  ]

  on_sinks-Backed :
      (e : NormalizedExecution) (l : List ValueOccurrence) (g : Gathered)
      → Backed g
      → Backed (on_sinks x p new_id found values two_run there e l g)
  unfolding on_sinks
  on_sinks-Backed e [] g b = b
  on_sinks-Backed e (o ∷ l) g b =
      on_sinks-Backed e l (on_sink x p new_id found values two_run there e o g)
        (on_sink-Backed e o g b)

  on_sinks-Listed :
      (s : ValueOccurrence) (k : FieldKey) (e : NormalizedExecution) (l : List ValueOccurrence)
      (g : Gathered)
      → Listed s k g.insights
      → Listed s k (on_sinks x p new_id found values two_run there e l g).insights
  unfolding on_sinks
  on_sinks-Listed s k e [] g m = m
  on_sinks-Listed s k e (o ∷ l) g m =
      on_sinks-Listed s k e l (on_sink x p new_id found values two_run there e o g)
        (on_sink-Listed s k e o g m)

  on_executions-Listed :
      (s : ValueOccurrence) (k : FieldKey) (l : List NormalizedExecution) (g : Gathered)
      → Listed s k g.insights
      → Listed s k (on_executions x p new_id found values two_run there l g).insights
  unfolding on_executions
  on_executions-Listed s k [] g m = m
  on_executions-Listed s k (e ∷ l) g m =
      on_executions-Listed s k l
        (on_sinks x p new_id found values two_run there e (x.request_sinks e) g)
        (on_sinks-Listed s k e (x.request_sinks e) g m)

  module _ (e : NormalizedExecution) (s : ValueOccurrence) (r : Ruling)
      (free : is_correlated s found ≡ false)
      (ruled : rule_on p values two_run s (there e s) ≡ some r) where
    on_sink_lists :
        (g : Gathered)
        → Backed g
        → Listed s
            (sink_key r.bucket s)
            (on_sink x p new_id found values two_run there e s g).insights
    unfolding on_sink
    on_sink_lists g b =
        rw (free, ruled)
          (kept_ruling_lists x p new_id found values two_run there s (there e s) r g b)

    on_sinks_lists :
        (l : List ValueOccurrence) (g : Gathered)
        → Member s l
        → Backed g
        → Listed s
            (sink_key r.bucket s)
            (on_sinks x p new_id found values two_run there e l g).insights
    unfolding on_sinks
    on_sinks_lists [] g m b = absurd m
    on_sinks_lists (o ∷ l) g (inl q) b =
        on_sinks-Listed s (sink_key r.bucket s) e l
          (on_sink x p new_id found values two_run there e o g)
          (subst
            (λ y.
              Listed s (sink_key r.bucket s)
                (on_sink x p new_id found values two_run there e y g).insights)
            q (on_sink_lists g b))
    on_sinks_lists (o ∷ l) g (inr m) b =
        on_sinks_lists l (on_sink x p new_id found values two_run there e o g) m
          (on_sink-Backed e o g b)

    on_executions_lists :
        (l : List NormalizedExecution) (g : Gathered)
        → Member e l
        → Member s (x.request_sinks e)
        → Backed g
        → Listed s
            (sink_key r.bucket s)
            (on_executions x p new_id found values two_run there l g).insights
    unfolding on_executions
    on_executions_lists [] g m n b = absurd m
    on_executions_lists (d ∷ l) g (inl q) n b =
        on_executions-Listed s (sink_key r.bucket s) l
          (on_sinks x p new_id found values two_run there d (x.request_sinks d) g)
          (subst
            (λ y.
              Listed s (sink_key r.bucket s)
                (on_sinks x p new_id found values two_run there y (x.request_sinks y) g).insights)
            q (on_sinks_lists (x.request_sinks e) g n b))
    on_executions_lists (d ∷ l) g (inr m) n b =
        on_executions_lists l
          (on_sinks x p new_id found values two_run there d (x.request_sinks d) g) m n
          (on_sinks-Backed d (x.request_sinks d) g b)

-- A request sink of the baseline that has a ruling, and that no correlation consumes, is an occurrence
-- of an insight of its bucket and field: later ones of the same field join the first.
pub classify_lists :
    (x : Index) (p : Patterns) (new_id : ℕ → String) (baseline : List NormalizedExecution)
    (comparison : Option (List NormalizedExecution)) (pairs : List AlignmentPair)
    (candidates : List CorrelationCandidate) (e : NormalizedExecution) (s : ValueOccurrence)
    (r : Ruling)
    → Member e baseline
    → Member s (x.request_sinks e)
    → is_correlated s (classify x p new_id baseline comparison pairs candidates).found ≡ false
    → rule_on p
        (producer_values x baseline)
        (is_two_run comparison)
        s
        (counterpart x p new_id comparison (aligned_from [] pairs) e s)
      ≡ some r
    → Listed s
        (sink_key r.bucket s)
        (classify x p new_id baseline comparison pairs candidates).insights
unfolding classify is_seen
classify_lists x p new_id baseline comparison pairs candidates e s r m n free ruled =
    let (found, cookies) = split x p new_id 0 candidates in
    on_executions_lists x p new_id found (producer_values x baseline) (is_two_run comparison)
      (counterpart x p new_id comparison (aligned_from [] pairs)) e s r free ruled baseline
      (started cookies) m n (λ k h. absurd (cc))
