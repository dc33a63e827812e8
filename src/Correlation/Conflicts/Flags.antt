-- ===== src/Correlation/Conflicts/Flags.antt =====
-- The warnings and the order of the candidates that are left.
use auto_correlation.Prelude.{
  String, ◌≡◌, inl, inr, refl, true, false, List, [], ◌∷◌, ◌++◌, All, All-at, Member, eq_refl,
  Bool-cases, arith, sym, subst, map,
}
use auto_correlation.Correlation.Naming.{is_in}
use auto_correlation.Correlation.Model.{CorrelationCandidate, ValueOccurrence, Place}
use auto_correlation.Correlation.Conflicts.{
  place_of, uses_place, same_producer, has_rival, in_conflict, conflict_warning, flagged,
  without_echoes, merge_from, dedupe_and_flag_conflicts,
}
use auto_correlation.Correlation.Conflicts.Kept.{flagged-All, IsSorted, by_score-IsSorted}

has_rival_lem :
    (k : Place) (c d : CorrelationCandidate) (all : List CorrelationCandidate)
    → Member d all
    → uses_place k d.consumers ≡ true
    → same_producer d c ≡ false
    → has_rival k c all ≡ true
unfolding has_rival
has_rival_lem k c d [] m u p = absurd m
has_rival_lem k c d (x ∷ l) (inl e) u p =
    let u' : uses_place k x.consumers ≡ true = subst (λ y. uses_place k y.consumers ≡ true) e u in
    let p' : same_producer x c ≡ false = subst (λ y. same_producer y c ≡ false) e p in
    rw (u', p') refl
has_rival_lem k c d (x ∷ l) (inr m) u p = ground (arith, has_rival_lem k c d l m u p)

in_conflict_lem :
    (c : CorrelationCandidate) (o : ValueOccurrence) (l : List ValueOccurrence)
    (all : List CorrelationCandidate)
    → Member o l
    → has_rival (place_of o) c all ≡ true
    → in_conflict c l all ≡ true
unfolding in_conflict
in_conflict_lem c o [] all m h = absurd m
in_conflict_lem c o (x ∷ l) all (inl e) h =
    let h' : has_rival (place_of x) c all ≡ true =
      subst (λ y. has_rival (place_of y) c all ≡ true) e h in
    rw h' refl
in_conflict_lem c o (x ∷ l) all (inr m) h = ground (arith, in_conflict_lem c o l all m h)

is_in-snoc : (x : String) (l : List String) → is_in x (l ++ x ∷ []) ≡ true
unfolding is_in
is_in-snoc x [] = ground (arith, eq_refl x)
is_in-snoc x (y ∷ l) = ground (arith, is_in-snoc x l)

flagged_warns :
    (all : List CorrelationCandidate) (c : CorrelationCandidate)
    → in_conflict c c.consumers all ≡ true
    → is_in conflict_warning (flagged all c).warnings ≡ true
unfolding flagged
flagged_warns all c h = elim (Bool-cases (is_in conflict_warning c.warnings)) [
  | inl e ↦ rw (h, e) e
  | inr e ↦ rw (h, e) (is_in-snoc conflict_warning c.warnings)
]

-- A candidate of the result is one of those that are left, with its warning.
abbrev Origin : List CorrelationCandidate → CorrelationCandidate → Type 0
Origin r c = (b : CorrelationCandidate) × Member b r × (c ≡ flagged r b)

origins :
    (l : List CorrelationCandidate)
    → All (Origin (without_echoes (merge_from [] l))) (dedupe_and_flag_conflicts l)
origins l = flagged-All (Origin (without_echoes (merge_from [] l))) l (λ c m. (c, m, refl))

-- The candidates come with the best score first.
pub dedupe_and_flag_conflicts-IsSorted :
    (l : List CorrelationCandidate) → IsSorted (dedupe_and_flag_conflicts l)
unfolding dedupe_and_flag_conflicts
dedupe_and_flag_conflicts-IsSorted l =
    let r = without_echoes (merge_from [] l) in by_score-IsSorted (map (flagged r) r)

-- Whenever two candidates that are left have different producers and a consumer at the same place,
-- the first, and so each of them, carries the warning of the conflict.
pub dedupe_and_flag_conflicts_warns :
    (l : List CorrelationCandidate) (c d : CorrelationCandidate) (o : ValueOccurrence)
    → Member c (dedupe_and_flag_conflicts l)
    → Member d (dedupe_and_flag_conflicts l)
    → Member o c.consumers
    → uses_place (place_of o) d.consumers ≡ true
    → same_producer d c ≡ false
    → is_in conflict_warning c.warnings ≡ true
unfolding flagged
dedupe_and_flag_conflicts_warns l c d o m n at u p =
    let r = without_echoes (merge_from [] l) in
    let (b, mb, eb) = All-at (Origin r) (dedupe_and_flag_conflicts l) c (origins l) m in
    let (a, ma, ea) = All-at (Origin r) (dedupe_and_flag_conflicts l) d (origins l) n in
    subst (λ y. is_in conflict_warning y.warnings ≡ true) (sym eb)
      (flagged_warns r b (
        in_conflict_lem b o b.consumers r (subst (λ y. Member o y.consumers) eb at) (
          has_rival_lem (place_of o) b a r ma
            (subst (λ y. uses_place (place_of o) y.consumers ≡ true) ea u)
            (subst (λ y. same_producer y b ≡ false) ea
              (subst (λ y. same_producer d y ≡ false) eb p)))))
