-- ===== src/Runs/Aligner/Indexed.antt =====
-- The indexed signatures of a run are distinct, and two such runs share as many either way.
use auto_correlation.Prelude.{
  ℕ, ◌+◌, ◌<◌, String, ◌≡◌, refl, Bool, true, false, ◌||◌, List, [], ◌∷◌, length, tally,
  if◌then◌else◌, is_some, eq_iff, arith, ◌↔◌,
}
use auto_correlation.Prelude.Dict.{Dict, put, lookup-put}
use auto_correlation.Runs.Signature.{NormalizedExecution}
use auto_correlation.Runs.Aligner.{Signature, sig_eq, seen_of, indexed_from, last_with}

abbrev pub Entry : Type 0
Entry = Signature × NormalizedExecution

pub sig_eq_iff : (a b : Signature) → (sig_eq a b ≡ true) ↔ (a ≡ b)
unfolding sig_eq
sig_eq_iff a b = ground (arith, eq_iff a.base b.base)

-- Whether a run has a request with the signature.
unfoldable pub has : Signature → List Entry → Bool
has sig [] = false
has sig (x ∷ r) = sig_eq x.0 sig || has sig r

abbrev pub IsOnce : List Entry → Type 0
IsOnce [] = Unit
IsOnce (x ∷ r) = (has x.0 r ≡ false) × IsOnce r

abbrev pub hits : List Entry → List Entry → ℕ
hits l m = tally (λ x. has x.0 m) l

pub is_one : Bool → ℕ
is_one b = if b then 1 else 0

pub tally-or :
    (x : Entry) (l m : List Entry)
    → IsOnce m
    → has x.0 l ≡ false
    → tally (λ y. has y.0 (x ∷ l)) m ≡ is_one (has x.0 m) + tally (λ y. has y.0 l) m
unfolding has is_one
tally-or x l [] o h = ground arith
tally-or x l (y ∷ m) o h =
    ground (arith, tally-or x l m o.1 h, sig_eq_iff x.0 y.0, sig_eq_iff y.0 x.0)

-- Two runs without repeated signatures share as many counted from either side.
pub hits_comm : (l m : List Entry) → IsOnce l → IsOnce m → hits l m ≡ hits m l
unfolding has is_one
hits_comm [] m ol om = none_hit m
  where
    none_hit : (m : List Entry) → 0 ≡ tally (λ x. has x.0 []) m
    none_hit [] = refl
    none_hit (y ∷ m) = ground (arith, none_hit m)
hits_comm (x ∷ l) m ol om = ground (arith, tally-or x l m om ol.0, hits_comm l m ol.1 om)

module _ (base_of : NormalizedExecution → String) where
  pub later_ordinals :
      (sig : Signature) (seen : Dict ℕ) (l : List NormalizedExecution)
      → sig.ordinal < seen_of base_of seen sig.base
      → has sig (indexed_from base_of seen l) ≡ false
  unfolding has indexed_from sig_eq
  later_ordinals sig seen [] h = refl
  later_ordinals sig seen (e ∷ l) h =
      let b = base_of e in
      let n = seen_of base_of seen b in
      let at_put = lookup-put b sig.base (n + 1) seen in
      ground (arith, later_ordinals sig (put b (n + 1) seen) l, at_put, eq_iff b sig.base)

  pub indexed-IsOnce :
      (seen : Dict ℕ) (l : List NormalizedExecution) → IsOnce (indexed_from base_of seen l)
  unfolding indexed_from
  indexed-IsOnce seen [] = tt
  indexed-IsOnce seen (e ∷ l) =
      let b = base_of e in
      let n = seen_of base_of seen b in
      (
        later_ordinals (record { base = b; ordinal = n }) (put b (n + 1) seen) l
            (ground (arith, lookup-put b b (n + 1) seen, eq_iff b b)),
        indexed-IsOnce (put b (n + 1) seen) l,
      )

  pub indexed-length :
      (seen : Dict ℕ) (l : List NormalizedExecution)
      → length (indexed_from base_of seen l) ≡ length l
  unfolding indexed_from
  indexed-length seen [] = refl
  indexed-length seen (e ∷ l) =
      omega (arith, indexed-length (put (base_of e) (seen_of base_of seen (base_of e) + 1) seen) l)

pub last_with-has : (sig : Signature) (m : List Entry) → is_some (last_with sig m) ≡ has sig m
unfolding last_with has
last_with-has sig [] = refl
last_with-has sig (x ∷ m) = ground (arith, last_with-has sig m)
