-- ===== src/Correlation/Engine/Named.antt =====
-- The candidates' variable names are distinct.
use auto_correlation.Prelude.{
  ℕ, String, ◌≡◌, inl, inr, Bool, true, false, Option, none, some, List, [], ◌∷◌, ◌++◌, All,
  All-append, All-map, if◌then◌else◌, str_eq, eq_iff, eq_refl, Bool-cases, arith, subst, is_some,
}
use auto_correlation.Prelude.Dict.{Dict, lookup}
use auto_correlation.Runs.Signature.{NormalizedExecution}
use auto_correlation.Runs.Aligner.{AlignmentPair}
use auto_correlation.Correlation.Naming.{is_in, dedupe_variable_name}
use auto_correlation.Correlation.Naming.Fresh.{dedupe_variable_name_fresh}
use auto_correlation.Correlation.Model.{ValueOccurrence, CorrelationCandidate}
use auto_correlation.Correlation.Score.{Texts}
use auto_correlation.Correlation.Match.{Words, is_excluded, is_hard, has_usable_response}
use auto_correlation.Correlation.Engine.{
  Index, Scan, Supply, candidate, offered, is_empty, over_sources, over_executions, no_names,
  source_there, against, of_source, single_source, two_run_candidates, single_run_candidates,
  aligned_from,
}

abbrev pub NameApart : CorrelationCandidate → CorrelationCandidate → Type 0
NameApart c d = str_eq c.variable_name d.variable_name ≡ false

-- No two of a list have one name.
abbrev pub HasDistinctNames : List CorrelationCandidate → Type 0
HasDistinctNames [] = Unit
HasDistinctNames (c ∷ r) = All (NameApart c) r × HasDistinctNames r

-- The names of the candidates are new, taken afterwards, and distinct.
record IsNamed (n : Supply) (r : List CorrelationCandidate × Supply) : Type 0 where
  grows : (y : String) → is_in y n.taken ≡ true → is_in y r.1.taken ≡ true
  fresh : All (λ c. is_in c.variable_name n.taken ≡ false) r.0
  kept : All (λ c. is_in c.variable_name r.1.taken ≡ true) r.0
  distinct : HasDistinctNames r.0

nothing : (n : Supply) → IsNamed n ([], n)
nothing n = record { grows = λ y h. h; fresh = tt; kept = tt; distinct = tt }

apart_of :
    (taken : List String) (c d : CorrelationCandidate)
    → is_in c.variable_name taken ≡ true
    → is_in d.variable_name taken ≡ false
    → NameApart c d
apart_of taken c d h g = elim (Bool-cases (str_eq c.variable_name d.variable_name)) [
  | inr e ↦ e
  | inl e ↦
      let p : c.variable_name ≡ d.variable_name = (eq_iff c.variable_name d.variable_name).0 e in
      absurd (ground (arith, subst (λ x. is_in x taken ≡ true) p h, g))
]

distinct-append :
    (taken : List String) (cs ds : List CorrelationCandidate)
    → All (λ c. is_in c.variable_name taken ≡ true) cs
    → All (λ c. is_in c.variable_name taken ≡ false) ds
    → HasDistinctNames cs
    → HasDistinctNames ds
    → HasDistinctNames (cs ++ ds)
distinct-append taken [] ds k f p q = q
distinct-append taken (c ∷ cs) ds k f p q = (
  All-append (NameApart c) cs ds p.0 (
      All-map (λ d. is_in d.variable_name taken ≡ false) (NameApart c) ds
        (λ d g. apart_of taken c d k.0 g) f),
  distinct-append taken cs ds k.1 f p.1 q,
)

older :
    (n m : Supply)
    → ((y : String) → is_in y n.taken ≡ true → is_in y m.taken ≡ true)
    → (y : String) → is_in y m.taken ≡ false
    → is_in y n.taken ≡ false
older n m g y h = elim (Bool-cases (is_in y n.taken)) [
  | inr e ↦ e
  | inl e ↦ absurd (ground (arith, g y e, h))
]

-- One step after another.
chained :
    (n : Supply) (a b : List CorrelationCandidate × Supply)
    → IsNamed n a
    → IsNamed a.1 b
    → IsNamed n (a.0 ++ b.0, b.1)
chained n a b p q = record {
  grows = λ y h. q.grows y (p.grows y h);
  fresh =
      All-append (λ c. is_in c.variable_name n.taken ≡ false) a.0 b.0 p.fresh
        (All-map (λ c. is_in c.variable_name a.1.taken ≡ false)
          (λ c. is_in c.variable_name n.taken ≡ false) b.0
          (λ c h. older n a.1 p.grows c.variable_name h) q.fresh);
  kept =
      All-append (λ c. is_in c.variable_name b.1.taken ≡ true) a.0 b.0
        (All-map (λ c. is_in c.variable_name a.1.taken ≡ true)
          (λ c. is_in c.variable_name b.1.taken ≡ true) a.0 (λ c h. q.grows c.variable_name h)
          p.kept)
        q.kept;
  distinct = distinct-append a.1.taken a.0 b.0 p.kept q.fresh p.distinct q.distinct;
}

module _ (x : Index) (w : Words) (t : Texts) (new_id : ℕ → String) where
  offered-IsNamed :
      (two_run : Bool) (warnings : List String) (e : NormalizedExecution) (src : ValueOccurrence)
      (value_b : Option String) (s : Scan) (n : Supply)
      → IsNamed n (offered x w t new_id two_run warnings e src value_b s n)
  offered-IsNamed two_run warnings e src value_b s n = elim (Bool-cases (is_empty s.consumers)) [
    | inl none_left ↦ rw none_left (nothing n)
    | inr some_left ↦
        let base = w.suggest_variable_name src.key src.canonical_path in
        let (free, after) = dedupe_variable_name_fresh base n.taken in
        rw some_left (
          unfold candidate in
          (record {
            grows = λ y h. rw after (unfold is_in in ground (arith, h));
            fresh = (free, tt);
            kept = (
              rw after
                  (unfold is_in in ground (arith, eq_refl (dedupe_variable_name base n.taken).0)),
              tt,
            );
            distinct = (tt, tt);
          }))
  ]

  module _ (f : NormalizedExecution → ValueOccurrence → Supply → List CorrelationCandidate × Supply)
      (named : (e : NormalizedExecution) (src : ValueOccurrence) (n : Supply)
        → IsNamed n (f e src n)) where
    over_sources-IsNamed :
        (e : NormalizedExecution) (l : List ValueOccurrence) (n : Supply)
        → IsNamed n (over_sources x w t new_id f e l n)
    unfolding over_sources
    over_sources-IsNamed e [] n = nothing n
    over_sources-IsNamed e (src ∷ r) n =
        chained n (f e src n) (over_sources x w t new_id f e r (f e src n).1) (named e src n)
          (over_sources-IsNamed e r (f e src n).1)

    over_executions-IsNamed :
        (l : List NormalizedExecution) (n : Supply) → IsNamed n (over_executions x w t new_id f l n)
    unfolding over_executions
    over_executions-IsNamed [] n = nothing n
    over_executions-IsNamed (e ∷ r) n =
        let l = if has_usable_response e then x.response_sources e else [] in
        let a = over_sources x w t new_id f e l n in
        chained n a (over_executions x w t new_id f r a.1) (over_sources-IsNamed e l n)
          (over_executions-IsNamed r a.1)

  against-IsNamed :
      (baseline comparison : List NormalizedExecution) (b2c : Dict String) (e : NormalizedExecution)
      (src : ValueOccurrence) (found : Option ValueOccurrence) (n : Supply)
      → IsNamed n (against x w t new_id baseline comparison b2c e src found n)
  against-IsNamed baseline comparison b2c e src none n = nothing n
  against-IsNamed baseline comparison b2c e src (some b) n =
      elim (Bool-cases (str_eq src.normalized_value b.normalized_value)) [
        | inl same ↦ rw same (nothing n)
        | inr differs ↦ rw differs (offered-IsNamed true _ e src (some b.raw_value) _ n)
      ]

  of_source-IsNamed :
      (baseline comparison : List NormalizedExecution) (b2c : Dict String) (e : NormalizedExecution)
      (src : ValueOccurrence) (n : Supply)
      → IsNamed n (of_source x w t new_id baseline comparison b2c e src n)
  unfolding of_source
  of_source-IsNamed baseline comparison b2c e src n =
      elim (Bool-cases (is_hard (is_excluded w src))) [
        | inl hard ↦ rw hard (nothing n)
        | inr may ↦ rw may (
            against-IsNamed baseline comparison b2c e src
              (source_there x w t new_id baseline comparison b2c src (lookup e.id b2c)) n)
      ]

  single_source-IsNamed :
      (run : List NormalizedExecution) (e : NormalizedExecution) (src : ValueOccurrence)
      (n : Supply)
      → IsNamed n (single_source x w t new_id run e src n)
  unfolding single_source
  single_source-IsNamed run e src n = elim (Bool-cases (is_some (is_excluded w src))) [
    | inl out ↦ rw out (nothing n)
    | inr may ↦ rw may (offered-IsNamed false _ e src none _ n)
  ]

  -- The candidates of two runs have distinct variable names, and so have those of one run.
  pub candidates-HasDistinctNames :
      (baseline comparison : List NormalizedExecution) (pairs : List AlignmentPair)
      → HasDistinctNames (two_run_candidates x w t new_id baseline comparison pairs)
        × HasDistinctNames (single_run_candidates x w t new_id baseline)
  unfolding two_run_candidates single_run_candidates
  candidates-HasDistinctNames baseline comparison pairs = (
    (over_executions-IsNamed (of_source x w t new_id baseline comparison (aligned_from [] pairs))
        (of_source-IsNamed baseline comparison (aligned_from [] pairs)) baseline no_names).distinct,
    (over_executions-IsNamed (single_source x w t new_id baseline) (single_source-IsNamed baseline)
        baseline no_names).distinct,
  )
