-- ===== src/Correlation/Conflicts/Kept.antt =====
-- What the steps on the candidates keep of each of them.
use auto_correlation.Prelude.{
  ◌≤◌, ◌≡◌, inl, inr, refl, Bool, List, [], ◌∷◌, ◌++◌, All, All-map, Member, map, select, ltb,
  Bool-cases, arith, ◌∙◌, ap,
}
use auto_correlation.Correlation.Model.{CorrelationCandidate}
use auto_correlation.Correlation.Engine.Named.{NameApart, HasDistinctNames}
use auto_correlation.Correlation.Conflicts.{
  merge_in, merge_from, without_echoes, flagged, insert_by_score, by_score,
  dedupe_and_flag_conflicts,
}

snoc_append :
    (c : CorrelationCandidate) (acc r : List CorrelationCandidate)
    → (acc ++ c ∷ []) ++ r ≡ acc ++ c ∷ r
snoc_append c [] r = refl
snoc_append c (d ∷ acc) r = ap (λ l. d ∷ l) (snoc_append c acc r)

merge_in_new :
    (c : CorrelationCandidate) (acc : List CorrelationCandidate)
    → All (λ d. NameApart d c) acc
    → merge_in c acc ≡ acc ++ c ∷ []
unfolding merge_in
merge_in_new c [] a = refl
merge_in_new c (d ∷ acc) a = ground (arith, merge_in_new c acc a.1, a.0)

All-snoc :
    (c : CorrelationCandidate) (P : CorrelationCandidate → Type 0) (acc : List CorrelationCandidate)
    → All P acc
    → P c
    → All P (acc ++ c ∷ [])
All-snoc c P [] a p = (p, tt)
All-snoc c P (d ∷ acc) a p = (a.0, All-snoc c P acc a.1 p)

merge_from_new :
    (acc l : List CorrelationCandidate)
    → All (λ d. All (NameApart d) l) acc
    → HasDistinctNames l
    → merge_from acc l ≡ acc ++ l
unfolding merge_from
merge_from_new acc [] a h = append_nil acc
  where
    append_nil : (m : List CorrelationCandidate) → m ≡ m ++ []
    append_nil [] = refl
    append_nil (d ∷ m) = ap (λ k. d ∷ k) (append_nil m)
merge_from_new acc (c ∷ r) a h =
    rw
      (merge_in_new c acc
        (All-map (λ d. All (NameApart d) (c ∷ r)) (λ d. NameApart d c) acc (λ d p. p.0) a))
      (merge_from_new (acc ++ c ∷ []) r
          (All-snoc c (λ d. All (NameApart d) r) acc
            (All-map (λ d. All (NameApart d) (c ∷ r)) (λ d. All (NameApart d) r) acc (λ d p. p.1) a)
            h.0)
          h.1
        ∙ snoc_append c acc r)

-- Candidates with distinct names are never merged.
pub merge_from_distinct : (l : List CorrelationCandidate) → HasDistinctNames l → merge_from [] l ≡ l
merge_from_distinct l h = merge_from_new [] l tt h

All-select :
    (P : CorrelationCandidate → Type 0) (p : CorrelationCandidate → Bool)
    (l : List CorrelationCandidate)
    → All P l
    → All P (select p l)
All-select P p [] a = tt
All-select P p (c ∷ l) a = elim (Bool-cases (p c)) [
  | inl e ↦ rw e (a.0, All-select P p l a.1)
  | inr e ↦ rw e (All-select P p l a.1)
]

All-insert :
    (P : CorrelationCandidate → Type 0) (c : CorrelationCandidate) (l : List CorrelationCandidate)
    → P c
    → All P l
    → All P (insert_by_score c l)
unfolding insert_by_score
All-insert P c [] p a = (p, tt)
All-insert P c (d ∷ l) p a = elim (Bool-cases (ltb c.evidence.score d.evidence.score)) [
  | inl e ↦ rw e (a.0, All-insert P c l p a.1)
  | inr e ↦ rw e (p, a)
]

All-by_score :
    (P : CorrelationCandidate → Type 0) (l : List CorrelationCandidate)
    → All P l
    → All P (by_score l)
unfolding by_score
All-by_score P [] a = tt
All-by_score P (c ∷ l) a = All-insert P c (by_score l) a.0 (All-by_score P l a.1)

All-mapped :
    (P Q : CorrelationCandidate → Type 0) (f : CorrelationCandidate → CorrelationCandidate)
    (l : List CorrelationCandidate)
    → ((c : CorrelationCandidate) → Member c l → P c → Q (f c))
    → All P l
    → All Q (map f l)
All-mapped P Q f [] h a = tt
All-mapped P Q f (c ∷ l) h a = (h c (inl refl) a.0, All-mapped P Q f l (λ d m. h d (inr m)) a.1)

-- What holds of every candidate with distinct names, and does not read the warnings, holds of every
-- one that is left.
pub dedupe-All :
    (P : CorrelationCandidate → Type 0)
    → ((c : CorrelationCandidate) (all : List CorrelationCandidate) → P c → P (flagged all c))
    → (l : List CorrelationCandidate) → HasDistinctNames l
    → All P l
    → All P (dedupe_and_flag_conflicts l)
unfolding dedupe_and_flag_conflicts without_echoes
dedupe-All P keeps l h a = rw (merge_from_distinct l h) (
    let r = without_echoes l in
    All-by_score P (map (flagged r) r)
      (All-mapped P P (flagged r) r (λ c m p. keeps c r p) (All-select P _ l a)))

-- Of every candidate that is left something may be shown by the candidate it was before its warning.
pub flagged-All :
    (Q : CorrelationCandidate → Type 0) (l : List CorrelationCandidate)
    → ((c : CorrelationCandidate)
        → Member c (without_echoes (merge_from [] l))
        → Q (flagged (without_echoes (merge_from [] l)) c))
    → All Q (dedupe_and_flag_conflicts l)
unfolding dedupe_and_flag_conflicts
flagged-All Q l h =
    let r = without_echoes (merge_from [] l) in
    All-by_score Q (map (flagged r) r)
      (All-mapped (λ c. Unit {0}) Q (flagged r) r (λ c m p. h c m) (all_units r))
  where
    all_units : (m : List CorrelationCandidate) → All (λ c. Unit {0}) m
    all_units [] = tt
    all_units (c ∷ m) = (tt, all_units m)

-- Each score is at least those after it.
abbrev pub IsSorted : List CorrelationCandidate → Type 0
IsSorted [] = Unit
IsSorted (c ∷ r) = All (λ d. d.evidence.score ≤ c.evidence.score) r × IsSorted r

insert_by_score-IsSorted :
    (c : CorrelationCandidate) (l : List CorrelationCandidate)
    → IsSorted l
    → IsSorted (insert_by_score c l)
unfolding insert_by_score
insert_by_score-IsSorted c [] s = (tt, tt)
insert_by_score-IsSorted c (d ∷ l) s = elim (Bool-cases (ltb c.evidence.score d.evidence.score)) [
  | inl e ↦ rw e (
    All-insert (λ x. x.evidence.score ≤ d.evidence.score) c l (ground arith) s.0,
    insert_by_score-IsSorted c l s.1,
  )
  | inr e ↦ rw e (
    (
      ground arith,
      All-map (λ x. x.evidence.score ≤ d.evidence.score) (λ x. x.evidence.score ≤ c.evidence.score)
          l (λ x h. ground arith) s.0,
    ),
    s,
  )
]

pub by_score-IsSorted : (l : List CorrelationCandidate) → IsSorted (by_score l)
unfolding by_score
by_score-IsSorted [] = tt
by_score-IsSorted (c ∷ l) = insert_by_score-IsSorted c (by_score l) (by_score-IsSorted l)
