-- ===== src/Sessions.antt =====
-- backend/app/repositories/analysis_store.py: the in-memory store of analyses. What an analysis
-- holds besides its id, its expiry and its owner is a type of its own. Each operation holds the
-- lock, and its reads of the clock are one.
pub mod Laws
mod Tests
use auto_correlation.Prelude.{
  ℕ, String, Bool, Option, none, some, List, tally, ltb, if◌then◌else◌, is_some,
}
use auto_correlation.Prelude.Dict.{Dict, lookup, put, pop, pop_where, values}

pub record Analysis (R : Type 0) : Type 0 where
  pub id : String
  pub expires_at : ℕ
  pub owner_key : Option String
  pub results : R

module _ {R : Type 0} where
  abbrev pub has_expired : ℕ → Analysis R → Bool
  has_expired now a = ltb a.expires_at now

  unfoldable pub create : Analysis R → Dict (Analysis R) → Dict (Analysis R)
  create a d = put a.id a d

  unfoldable pub cleanup : ℕ → Dict (Analysis R) → ℕ × Dict (Analysis R)
  cleanup now d = (tally (has_expired now) (values d), pop_where (has_expired now) d)

  found :
      ℕ → String → Option (Analysis R) → Dict (Analysis R) → Option (Analysis R) × Dict (Analysis R)
  found now id none d = (none, d)
  found now id (some a) d = if has_expired now a then (none, pop id d) else (some a, d)

  unfoldable pub get : ℕ → String → Dict (Analysis R) → Option (Analysis R) × Dict (Analysis R)
  unfolding found cleanup
  get now id d = let d' = (cleanup now d).1 in found now id (lookup id d') d'

  unfoldable pub delete : String → Dict (Analysis R) → Bool × Dict (Analysis R)
  delete id d = (is_some (lookup id d), pop id d)
