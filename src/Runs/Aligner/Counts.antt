-- ===== src/Runs/Aligner/Counts.antt =====
-- Every request of both runs is accounted for once.
use Prim.Native.Char.{Char}
use auto_correlation.Prelude.{
  ℕ, ◌+◌, ◌≤◌, String, ◌≡◌, refl, ◌∙◌, Bool, true, false, not, ◌&&◌, ◌||◌, Option, none, some, List,
  [], ◌∷◌, ◌++◌, length, tally, if◌then◌else◌, is_some, arith, length-append,
}
use auto_correlation.Runs.Signature.{NormalizedExecution, signature}
use auto_correlation.Runs.Aligner.{
  Signature, AlignmentPair, AlignmentReport, indexed_from, indexed_signatures, last_with, is_in,
  Progress, align_one, align_baseline, add_extra, align_by, align_runs, no_pairs,
}
use auto_correlation.Runs.Aligner.Indexed.{
  Entry, sig_eq_iff, has, hits, hits_comm, last_with-has, indexed-IsOnce, indexed-length,
}

after_snoc :
    {n : ℕ} (x : AlignmentPair) (k : ℕ) (l : List AlignmentPair)
    → n ≡ length (l ++ x ∷ []) + k
    → n ≡ length l + 1 + k
after_snoc x k l e = omega (arith, e, length-append l (x ∷ []))

-- The counts of the first loop.
module _ (m : List Entry) where
  record Counted (l : List Entry) (p q : Progress) : Type 0 where
    found : q.found.matched_count ≡ p.found.matched_count + hits l m
    all :
        q.found.matched_count + q.found.missing ≡ p.found.matched_count + p.found.missing + length l
    no_extra : q.found.extra ≡ p.found.extra
    certain : q.found.ambiguous ≡ p.found.ambiguous
    moved : q.found.reordered + p.found.matched_count ≤ p.found.reordered + q.found.matched_count
    paired : length q.found.pairs ≡ length p.found.pairs + length l
    used :
        (sig : Signature)
        → is_in sig q.comp_used ≡ (is_in sig p.comp_used || (has sig l && has sig m))

  by_lookup :
      (order : ℕ) (b : Entry) (l : List Entry) (o : Option NormalizedExecution) (p q : Progress)
      → is_some o ≡ has b.0 m
      → Counted l (align_one m order b o p) q
      → Counted (b ∷ l) p q
  unfolding align_one has is_in
  by_lookup order b l (some ce) p q e c = record {
    found = ground (arith, c.found);
    all = omega (arith, c.all);
    no_extra = c.no_extra;
    certain = c.certain;
    moved = ground (arith, c.moved);
    paired = omega (arith, after_snoc _ _ p.found.pairs c.paired);
    used = λ sig. ground (arith, c.used sig, sig_eq_iff sig b.0, sig_eq_iff b.0 sig);
  }
  by_lookup order b l none p q e c = record {
    found = ground (arith, c.found);
    all = omega (arith, c.all);
    no_extra = c.no_extra;
    certain = c.certain;
    moved = ground (arith, c.moved);
    paired = omega (arith, after_snoc _ _ p.found.pairs c.paired);
    used = λ sig. ground (arith, c.used sig, sig_eq_iff sig b.0, sig_eq_iff b.0 sig);
  }

  align_baseline-Counted :
      (order : ℕ) (l : List Entry) (p : Progress) → Counted l p (align_baseline m order l p)
  unfolding align_baseline has
  align_baseline-Counted order [] p = record {
    found = omega arith;
    all = omega arith;
    no_extra = refl;
    certain = refl;
    moved = omega arith;
    paired = omega arith;
    used = λ sig. ground arith;
  }
  align_baseline-Counted order (b ∷ l) p =
      let o = last_with b.0 m in
      by_lookup order b l o p _ (last_with-has b.0 m)
        (align_baseline-Counted (order + 1) l (align_one m order b o p))

-- The counts of the second loop.
abbrev unused : List Signature → List Entry → ℕ
unused used m = tally (λ x. not (is_in x.0 used)) m

record Extended (used : List Signature) (m : List Entry) (p q : AlignmentReport) : Type 0 where
  same_matched : q.matched_count ≡ p.matched_count
  same_missing : q.missing ≡ p.missing
  same_reordered : q.reordered ≡ p.reordered
  same_ambiguous : q.ambiguous ≡ p.ambiguous
  extended : q.extra ≡ p.extra + unused used m
  paired : length q.pairs ≡ length p.pairs + unused used m

by_use :
    (used : List Signature) (x : Entry) (m : List Entry) (p next q : AlignmentReport)
    → (next.matched_count ≡ p.matched_count)
      × (next.missing ≡ p.missing)
      × (next.reordered ≡ p.reordered)
      × (next.ambiguous ≡ p.ambiguous)
      × (next.extra ≡ p.extra + (if is_in x.0 used then 0 else 1))
      × (length next.pairs ≡ length p.pairs + (if is_in x.0 used then 0 else 1))
    → Extended used m next q
    → Extended used (x ∷ m) p q
by_use used x m p next q (a, b, c, d, e, f) h = record {
  same_matched = h.same_matched ∙ a;
  same_missing = h.same_missing ∙ b;
  same_reordered = h.same_reordered ∙ c;
  same_ambiguous = h.same_ambiguous ∙ d;
  extended = ground (arith, h.extended, e);
  paired = ground (arith, h.paired, f);
}

add_extra-Extended :
    (used : List Signature) (m : List Entry) (p : AlignmentReport)
    → Extended used m p (add_extra used m p)
unfolding add_extra
add_extra-Extended used [] p = record {
  same_matched = refl;
  same_missing = refl;
  same_reordered = refl;
  same_ambiguous = refl;
  extended = omega arith;
  paired = omega arith;
}
add_extra-Extended used (x ∷ m) p =
    by_use used x m p _ _
      (
        ground arith,
        ground arith,
        ground arith,
        ground arith,
        ground arith,
        by_test (is_in x.0 used) _,
      )
      (add_extra-Extended used m _)
  where
    by_test :
        (b : Bool) (y : AlignmentPair)
        → length
            (if b then p else record p { extra = p.extra + 1; pairs = p.pairs ++ y ∷ [] }).pairs
          ≡ length p.pairs + (if b then 0 else 1)
    by_test true y = omega arith
    by_test false y = length-append p.pairs (y ∷ [])

-- The requests of `used` are the shared ones.
unused-hits :
    (used : List Signature) (l m n : List Entry)
    → ((sig : Signature) → is_in sig used ≡ (has sig l && has sig m))
    → ((sig : Signature) → has sig n ≡ true → has sig m ≡ true)
    → unused used n + hits n l ≡ length n
unfolding has
unused-hits used l m [] h i = omega arith
unused-hits used l m (x ∷ n) h i =
    let shared = i x.0 (ground (arith, sig_eq_iff x.0 x.0)) in
    let rest = unused-hits used l m n h (λ sig e. i sig (ground arith)) in ground (arith, h x.0)

module _ (is_decimal : Char → Bool) (lower : String → String) where
  -- Every request of the baseline is matched or missing, every request of the comparison matched
  -- or extra, and each stands in one pair: the two counts add up to the lengths of the runs,
  -- repeated requests included. No pair is ambiguous, and only matched pairs are reordered.
  pub align_runs_counts :
      (baseline comparison : List NormalizedExecution)
      → let r = align_runs is_decimal lower baseline comparison in
        (r.matched_count + r.missing ≡ length baseline)
        × (r.matched_count + r.extra ≡ length comparison)
        × (length r.pairs ≡ r.matched_count + r.missing + r.extra)
        × (r.reordered ≤ r.matched_count)
        × (r.ambiguous ≡ 0)
  unfolding align_runs align_by indexed_signatures is_in
  align_runs_counts baseline comparison =
      let base_of = signature is_decimal lower in
      let l = indexed_from base_of [] baseline in
      let m = indexed_from base_of [] comparison in
      let p : Progress = record { comp_used = []; found = no_pairs } in
      let q = align_baseline m 0 l p in
      let c = align_baseline-Counted m 0 l p in
      let x = add_extra-Extended q.comp_used m q.found in
      let total = unused-hits q.comp_used l m m c.used (λ sig e. e) in
      let both =
        hits_comm l m (indexed-IsOnce base_of [] baseline) (indexed-IsOnce base_of [] comparison) in
      let len_l = indexed-length base_of [] baseline in
      let len_m = indexed-length base_of [] comparison in
      (
        omega (arith, x.same_matched, x.same_missing, c.all),
        omega (arith, x.same_matched, x.extended, c.found, c.no_extra),
        omega (
          arith, x.same_matched, x.same_missing, x.extended, x.paired, c.all, c.paired, c.no_extra,
        ),
        omega (arith, x.same_matched, x.same_reordered, c.moved),
        x.same_ambiguous ∙ c.certain,
      )
