-- ===== src/Correlation/Classification/Apart.antt =====
-- The correlations and the other buckets are apart, and the summary counts them all.
use auto_correlation.Prelude.{
  ℕ, suc, ◌+◌, String, ◌≡◌, ◌⊎◌, inl, inr, refl, Bool, true, false, Option, none, some, List, [],
  ◌∷◌, All, All-append, Bool-cases, length, ◌∙◌, arith,
}
use auto_correlation.Runs.Signature.{NormalizedExecution}
use auto_correlation.Runs.Aligner.{AlignmentPair}
use auto_correlation.Correlation.Model.{ValueOccurrence, CorrelationCandidate}
use auto_correlation.Correlation.Engine.{Index, aligned_from}
use auto_correlation.Correlation.Classification.{
  Classification, correlation, parameterization, external_credential, cookie_managed, noise,
  review_required, ValueInsight, Summary, Patterns, FieldKey, field_key_eq, insight_key, sink_key,
  Ruling, ruling, rule_on, insight_of, choose, differs_from, is_cookie_managed,
}
use auto_correlation.Correlation.Classification.Buckets.{
  is_seen, merge_occurrence, Gathered, is_correlated, kept_ruling, on_sink, on_sinks, on_executions,
  split, classify, producer_values, counterpart, is_two_run, started, summed, summarize, bump,
}

abbrev pub is_other : Classification → Bool
is_other correlation = false
is_other _ = true

fits : Option Ruling → Bool
fits none = true
fits (some r) = is_other r.bucket

fits-none : fits none ≡ true
unfolding fits
fits-none = refl

fits-choose :
    (b : Bool) (r : Ruling) (rest : Option Ruling)
    → is_other r.bucket ≡ true
    → fits rest ≡ true
    → fits (choose b r rest) ≡ true
unfolding choose fits
fits-choose true r rest h f = h
fits-choose false r rest h f = f

fits-ruling :
    (p : Patterns) (sink : ValueOccurrence) (two_run differs : Bool)
    → fits (ruling p sink two_run differs) ≡ true
unfolding ruling
fits-ruling p sink two_run differs = fits-choose _ _ _ refl (
    fits-choose _ _ _ refl
      (fits-choose _ _ _ refl (fits-choose _ _ _ refl (fits-choose _ _ none refl fits-none))))

-- A ruling is never that a value is a correlation.
fits-rule_on :
    (p : Patterns) (values : List String) (two_run : Bool) (sink : ValueOccurrence)
    (comp_sink : Option ValueOccurrence)
    → fits (rule_on p values two_run sink comp_sink) ≡ true
unfolding rule_on fits
fits-rule_on p values two_run sink comp_sink =
    ground (arith, fits-ruling p sink two_run (differs_from p sink comp_sink))

-- An insight is no correlation, and none but those of cookies holds what a correlation consumes.
abbrev pub Disjoint : List CorrelationCandidate → ValueInsight → Type 0
Disjoint found i =
    (is_other i.classification ≡ true)
    × ((i.classification ≡ cookie_managed) ⊎ All (λ o. is_correlated o found ≡ false) i.occurrences)

merge-Disjoint :
    (found : List CorrelationCandidate) (k : FieldKey) (s : ValueOccurrence) (l : List ValueInsight)
    → is_correlated s found ≡ false
    → All (Disjoint found) l
    → All (Disjoint found) (merge_occurrence k s l)
unfolding merge_occurrence
merge-Disjoint found k s [] u a = tt
merge-Disjoint found k s (i ∷ l) u a = elim (Bool-cases (field_key_eq (insight_key i) k)) [
  | inl e ↦ rw e (
    (
      a.0.0,
      elim a.0.1 [
        | inl c ↦ inl c
        | inr h ↦
            inr (All-append (λ o. is_correlated o found ≡ false) i.occurrences (s ∷ []) h (u, tt))
      ],
    ),
    a.1,
  )
  | inr e ↦ rw e (a.0, merge-Disjoint found k s l u a.1)
]

module _ (x : Index) (p : Patterns) (new_id : ℕ → String) (found : List CorrelationCandidate)
    (values : List String) (two_run : Bool)
    (there : NormalizedExecution → ValueOccurrence → Option ValueOccurrence) where
  kept_ruling-Disjoint :
      (s : ValueOccurrence) (comp_sink : Option ValueOccurrence) (r : Option Ruling) (g : Gathered)
      → fits r ≡ true
      → is_correlated s found ≡ false
      → All (Disjoint found) g.insights
      → All
          (Disjoint found)
          (kept_ruling x p new_id found values two_run there s comp_sink r g).insights
  unfolding kept_ruling fits
  kept_ruling-Disjoint s comp_sink none g f u a = a
  kept_ruling-Disjoint s comp_sink (some r) g f u a =
      let k = sink_key r.bucket s in
      elim (Bool-cases (is_seen k g.field_seen)) [
        | inl e ↦ rw e (merge-Disjoint found k s g.insights u a)
        | inr e ↦ rw e (
            All-append (Disjoint found) g.insights (insight_of p (new_id g.used) s comp_sink r ∷ [])
              a ((f, inr (u, tt)), tt))
      ]

  on_sink-Disjoint :
      (e : NormalizedExecution) (s : ValueOccurrence) (g : Gathered)
      → All (Disjoint found) g.insights
      → All (Disjoint found) (on_sink x p new_id found values two_run there e s g).insights
  unfolding on_sink
  on_sink-Disjoint e s g a = elim (Bool-cases (is_correlated s found)) [
    | inl c ↦ rw c a
    | inr c ↦ rw c (
        kept_ruling-Disjoint s (there e s) (rule_on p values two_run s (there e s)) g
          (fits-rule_on p values two_run s (there e s)) c a)
  ]

  on_sinks-Disjoint :
      (e : NormalizedExecution) (l : List ValueOccurrence) (g : Gathered)
      → All (Disjoint found) g.insights
      → All (Disjoint found) (on_sinks x p new_id found values two_run there e l g).insights
  unfolding on_sinks
  on_sinks-Disjoint e [] g a = a
  on_sinks-Disjoint e (o ∷ l) g a =
      on_sinks-Disjoint e l (on_sink x p new_id found values two_run there e o g)
        (on_sink-Disjoint e o g a)

  on_executions-Disjoint :
      (l : List NormalizedExecution) (g : Gathered)
      → All (Disjoint found) g.insights
      → All (Disjoint found) (on_executions x p new_id found values two_run there l g).insights
  unfolding on_executions
  on_executions-Disjoint [] g a = a
  on_executions-Disjoint (e ∷ l) g a =
      on_executions-Disjoint l
        (on_sinks x p new_id found values two_run there e (x.request_sinks e) g)
        (on_sinks-Disjoint e (x.request_sinks e) g a)

split-Disjoint :
    (x : Index) (p : Patterns) (new_id : ℕ → String) (found : List CorrelationCandidate) (n : ℕ)
    (l : List CorrelationCandidate)
    → All (Disjoint found) (split x p new_id n l).1
unfolding split
split-Disjoint x p new_id found n [] = tt
split-Disjoint x p new_id found n (c ∷ l) = elim (Bool-cases (is_cookie_managed p c)) [
  | inl e ↦ rw e ((refl, inl refl), split-Disjoint x p new_id found (suc n) l)
  | inr e ↦ rw e (split-Disjoint x p new_id found n l)
]

-- `ClassificationSummary.total`
unfoldable pub total : Summary → ℕ
total s =
    s.correlations + s.parameterizations + s.external_credentials + s.cookies + s.noises + s.reviews

total-summed :
    (found : List CorrelationCandidate) (s : Summary) (l : List ValueInsight)
    → All (Disjoint found) l
    → total (summed s l) ≡ total s + length l
unfolding summed total
total-summed found s [] a = omega arith
total-summed found s (i ∷ l) a =
    omega
      (arith, total-summed found (bump i.classification s) l a.1, counted i.classification a.0.0)
  where
    counted : (c : Classification) → is_other c ≡ true → total (bump c s) ≡ total s + 1
    counted correlation h = absurd (cc)
    counted parameterization h = omega arith
    counted external_credential h = omega arith
    counted cookie_managed h = omega arith
    counted noise h = omega arith
    counted review_required h = omega arith

total-summarize :
    (found : List CorrelationCandidate) (l : List ValueInsight)
    → All (Disjoint found) l
    → total (summarize (length found) l) ≡ length found + length l
unfolding summarize
total-summarize found l a = total-summed found _ l a ∙ (unfold total in omega arith)

module _ (x : Index) (p : Patterns) (new_id : ℕ → String) (baseline : List NormalizedExecution)
    (comparison : Option (List NormalizedExecution)) (pairs : List AlignmentPair)
    (candidates : List CorrelationCandidate) where
  -- No insight is a correlation, and no occurrence of an insight is a place that a correlation consumes,
  -- but for those of cookies.
  pub classify-AreDisjoint :
      All
        (Disjoint (classify x p new_id baseline comparison pairs candidates).found)
        (classify x p new_id baseline comparison pairs candidates).insights
  unfolding classify
  classify-AreDisjoint =
      let (found, cookies) = split x p new_id 0 candidates in
      on_executions-Disjoint x p new_id found (producer_values x baseline) (is_two_run comparison)
        (counterpart x p new_id comparison (aligned_from [] pairs)) baseline (started cookies)
        (split-Disjoint x p new_id found 0 candidates)

  -- The counts of the summary add up to the correlations and insights: each is in one bucket.
  pub total-classify :
      total (classify x p new_id baseline comparison pairs candidates).summary
      ≡ length (classify x p new_id baseline comparison pairs candidates).found
        + length (classify x p new_id baseline comparison pairs candidates).insights
  unfolding classify
  total-classify =
      let r = classify x p new_id baseline comparison pairs candidates in
      total-summarize r.found r.insights classify-AreDisjoint
