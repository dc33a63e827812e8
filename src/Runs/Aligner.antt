-- ===== src/Runs/Aligner.antt =====
-- backend/app/services/run_aligner.py: the pairing of two runs' requests. A signature is the pair
-- of its base text and its ordinal, which the source prints as `{base}#{ordinal}`: the digits after
-- the last `#` are the ordinal, so the text determines both. `coverage` is a rounded float and is
-- left out.
pub mod Indexed
pub mod Counts
use Prim.Native.Char.{Char, code}
use Prim.Native.String.{[] as empty, ◌∷◌ as ◌∷ₛ◌, ◌++◌ as ◌++ₛ◌, count}
use auto_correlation.Prelude.{
  ℕ, suc, ◌+◌, String, Bool, true, false, not, ◌&&◌, ◌||◌, Option, none, some, List, [], ◌∷◌, ◌++◌,
  map, ltb, leb, ◌==◌, if◌then◌else◌, str_eq, length, tally, select, or_else,
}
use auto_correlation.Runs.Signature.{NormalizedExecution, signature}
use auto_correlation.Prelude.Dict.{Dict, lookup, put}

pub record Signature : Type 0 where
  pub base : String
  pub ordinal : ℕ

unfoldable pub sig_eq : Signature → Signature → Bool
sig_eq a b = str_eq a.base b.base && (a.ordinal == b.ordinal)

pub data Status : Type 0 where
  matched missing_in_comparison extra_in_comparison : Status

-- A pair of two-run mode. The ambiguous candidates are Always empty.
pub record AlignmentPair : Type 0 where
  pub signature : Signature
  pub baseline_execution_id : Option String
  pub comparison_execution_id : Option String
  pub baseline_index : Option ℕ
  pub comparison_index : Option ℕ
  pub status : Status

pub record AlignmentReport : Type 0 where
  pub pairs : List AlignmentPair
  pub matched_count : ℕ
  pub missing : ℕ
  pub extra : ℕ
  pub reordered : ℕ
  pub ambiguous : ℕ

-- The rest reads a run through the signature of each execution alone.
module _ (base_of : NormalizedExecution → String) where
  abbrev pub seen_of : Dict ℕ → String → ℕ
  seen_of seen base = or_else (lookup base seen) 0

  -- The loop of `_indexed_signatures`.
  unfoldable pub indexed_from :
      Dict ℕ → List NormalizedExecution → List (Signature × NormalizedExecution)
  indexed_from seen [] = []
  indexed_from seen (e ∷ r) =
      let n = seen_of seen (base_of e) in
      (record { base = base_of e; ordinal = n }, e) ∷ indexed_from (put (base_of e) (n + 1) seen) r

  unfoldable pub indexed_signatures :
      List NormalizedExecution → List (Signature × NormalizedExecution)
  unfolding indexed_from
  indexed_signatures run = indexed_from [] run

-- `comp_map.get(sig)`: in a dict built from pairs the last one stands.
unfoldable pub last_with :
    Signature → List (Signature × NormalizedExecution) → Option NormalizedExecution
last_with sig [] = none
last_with sig ((s, e) ∷ r) =
    let later = last_with sig r in
    elim later [ some x ↦ some x | none ↦ if sig_eq s sig then some e else none ]

-- `next(i for i, (s, _) in enumerate(comp_sigs) if s == sig)`; the length where there is none.
unfoldable pub first_place : Signature → List (Signature × NormalizedExecution) → ℕ
first_place sig [] = 0
first_place sig ((s, _) ∷ r) =
    let later = first_place sig r in if sig_eq s sig then 0 else suc later

unfoldable pub is_in : Signature → List Signature → Bool
is_in sig [] = false
is_in sig (s ∷ r) = sig_eq s sig || is_in sig r

-- What the first loop has gathered.
pub record Progress : Type 0 where
  pub comp_used : List Signature
  pub found : AlignmentReport

module _ (comp_sigs : List (Signature × NormalizedExecution)) where
  -- One round of the first loop, once the comparison's execution is looked up.
  unfoldable pub align_one :
      ℕ → Signature × NormalizedExecution → Option NormalizedExecution → Progress → Progress
  align_one order (sig, be) (some ce) p = record {
    comp_used = sig ∷ p.comp_used;
    found = record p.found {
      reordered =
          if first_place sig comp_sigs == order then p.found.reordered else p.found.reordered + 1;
      matched_count = p.found.matched_count + 1;
      pairs =
          p.found.pairs
          ++ record {
            signature = sig;
            baseline_execution_id = some be.id;
            comparison_execution_id = some ce.id;
            baseline_index = some be.original_index;
            comparison_index = some ce.original_index;
            status = matched;
          }
            ∷ [];
    };
  }
  align_one order (sig, be) none p = record p {
    found = record p.found {
      missing = p.found.missing + 1;
      pairs =
          p.found.pairs
          ++ record {
            signature = sig;
            baseline_execution_id = some be.id;
            comparison_execution_id = none;
            baseline_index = some be.original_index;
            comparison_index = none;
            status = missing_in_comparison;
          }
            ∷ [];
    };
  }

  unfoldable pub align_baseline : ℕ → List (Signature × NormalizedExecution) → Progress → Progress
  unfolding align_one
  align_baseline order [] p = p
  align_baseline order (b ∷ r) p =
      align_baseline (order + 1) r (align_one order b (last_with b.0 comp_sigs) p)

-- The second loop.
unfoldable pub add_extra :
    List Signature → List (Signature × NormalizedExecution) → AlignmentReport → AlignmentReport
add_extra used [] report = report
add_extra used ((sig, ce) ∷ r) report = add_extra used r (
    if is_in sig used then report else record report {
      extra = report.extra + 1;
      pairs =
          report.pairs
          ++ record {
            signature = sig;
            baseline_execution_id = none;
            comparison_execution_id = some ce.id;
            baseline_index = none;
            comparison_index = some ce.original_index;
            status = extra_in_comparison;
          }
            ∷ [];
    })

abbrev pub no_pairs : AlignmentReport
no_pairs = record {
  pairs = [];
  matched_count = 0;
  missing = 0;
  extra = 0;
  reordered = 0;
  ambiguous = 0;
}

module _ (base_of : NormalizedExecution → String) where
  unfoldable pub align_by : List NormalizedExecution → List NormalizedExecution → AlignmentReport
  unfolding align_baseline add_extra
  align_by baseline comparison =
      let base_sigs = indexed_signatures base_of baseline in
      let comp_sigs = indexed_signatures base_of comparison in
      let p = align_baseline comp_sigs 0 base_sigs (record { comp_used = []; found = no_pairs }) in
      add_extra p.comp_used comp_sigs p.found

unfoldable pub align_runs :
    (Char → Bool)
    → (String → String)
    → List NormalizedExecution
    → List NormalizedExecution
    → AlignmentReport
unfolding align_by signature
align_runs is_decimal lower baseline comparison =
    align_by (signature is_decimal lower) baseline comparison
