-- ===== src/Accounts/Usage.antt =====
-- The free-use counters of account_store.py: each consumption counts against every key of the
-- caller, in one transaction.
pub mod Limit
use auto_correlation.Prelude.{
  ℕ, suc, ◌+◌, ◌-◌, ◌≤◌, ◌<◌, max, String, ◌≡◌, ◌↔◌, refl, Bool, true, false, not, ◌&&◌, ◌||◌,
  Option, none, some, List, [], ◌∷◌, All, leb, ltb, if◌then◌else◌, str_eq, eq_iff, Bool-cases,
  arith,
}
use auto_correlation.Accounts.Model.{UsageKey, Usage}

abbrev pub key_eq : UsageKey → UsageKey → Bool
key_eq = str_eq

pub key_eq_iff : (a b : UsageKey) → (key_eq a b ≡ true) ↔ (a ≡ b)
key_eq_iff = eq_iff

-- The uses recorded against one key: `usage_key` is the primary key, so one row at most.
unfoldable pub used_by : UsageKey → List Usage → ℕ
used_by k [] = 0
used_by k (u ∷ t) = if key_eq u.usage_key k then u.used else used_by k t

-- `SELECT MAX(used) ... WHERE usage_key IN (keys)`, 0 where no row matches.
unfoldable pub free_uses_used : List UsageKey → List Usage → ℕ
unfolding used_by
free_uses_used [] t = 0
free_uses_used (k ∷ ks) t = max (used_by k t) (free_uses_used ks t)

-- The upsert of one key.
unfoldable pub bump : ℕ → UsageKey → List Usage → List Usage
bump now k [] = record { usage_key = k; used = 1; updated_at = now } ∷ []
bump now k (u ∷ t) =
    if key_eq u.usage_key k
    then record u { used = u.used + 1; updated_at = now } ∷ t
    else u ∷ bump now k t

unfoldable pub bump_all : ℕ → List UsageKey → List Usage → List Usage
unfolding bump
bump_all now [] t = t
bump_all now (k ∷ ks) t = bump_all now ks (bump now k t)

unfoldable pub consume_free_use : List UsageKey → ℕ → ℕ → List Usage → Bool × List Usage
unfolding free_uses_used bump_all
consume_free_use keys limit now t =
    if leb limit (free_uses_used keys t) then (false, t) else (true, bump_all now keys t)

-- `UPDATE free_usage SET used = MAX(used - 1, 0) WHERE usage_key = key`
unfoldable pub refund_one : ℕ → UsageKey → List Usage → List Usage
refund_one now k [] = []
refund_one now k (u ∷ t) =
    if key_eq u.usage_key k
    then record u { used = u.used - 1; updated_at = now } ∷ refund_one now k t
    else u ∷ refund_one now k t

unfoldable pub refund_free_use : List UsageKey → ℕ → List Usage → List Usage
unfolding refund_one
refund_free_use [] now t = t
refund_free_use (k ∷ ks) now t = refund_free_use ks now (refund_one now k t)
