-- ===== src/Accounts/Usage/Limit.antt =====
-- The free allowance: what a consumption and a refund do to each counter, and that no counter
-- passes the limit.
use auto_correlation.Prelude.{
  ℕ, suc, ◌+◌, ◌-◌, ◌≤◌, ◌<◌, ◌≡◌, ◌↔◌, inl, inr, true, false, List, [], ◌∷◌, if◌then◌else◌,
  Bool-cases, arith, Member, ◌⊎◌, refl, sym, subst, max, leb,
}
use auto_correlation.Accounts.Model.{UsageKey, Usage}
use auto_correlation.Accounts.Usage.{
  key_eq, key_eq_iff, used_by, free_uses_used, bump, bump_all, consume_free_use, refund_one,
  refund_free_use,
}

-- How often a key stands in a list of keys.
abbrev pub occurrences : UsageKey → List UsageKey → ℕ
occurrences k [] = 0
occurrences k (j ∷ ks) = let rest = occurrences k ks in if key_eq j k then suc rest else rest

abbrev pub AreDistinct : List UsageKey → Type 0
AreDistinct ks = (k : UsageKey) → occurrences k ks ≤ 1

used_by-bump :
    (now : ℕ) (k j : UsageKey) (t : List Usage)
    → used_by j (bump now k t) ≡ (if key_eq k j then used_by j t + 1 else used_by j t)
unfolding used_by bump
used_by-bump now k j [] = ground arith
used_by-bump now k j (u ∷ t) = ground (
  arith,
  key_eq_iff k j,
  key_eq_iff u.usage_key k,
  key_eq_iff u.usage_key j,
  used_by-bump now k j t,
)

used_by-bump_all :
    (now : ℕ) (j : UsageKey) (ks : List UsageKey) (t : List Usage)
    → used_by j (bump_all now ks t) ≡ used_by j t + occurrences j ks
unfolding bump_all
used_by-bump_all now j [] t = omega arith
used_by-bump_all now j (k ∷ ks) t =
    ground (arith, used_by-bump_all now j ks (bump now k t), used_by-bump now k j t)

refunded :
    (now : ℕ) (k j : UsageKey) (t : List Usage)
    → used_by j (refund_one now k t) ≡ (if key_eq k j then used_by j t - 1 else used_by j t)
unfolding used_by refund_one
refunded now k j [] = ground arith
refunded now k j (u ∷ t) =
    ground (
      arith,
      key_eq_iff k j,
      key_eq_iff u.usage_key k,
      key_eq_iff u.usage_key j,
      refunded now k j t,
    )

used_by-refund :
    (now : ℕ) (j : UsageKey) (ks : List UsageKey) (t : List Usage)
    → used_by j (refund_free_use ks now t) ≡ used_by j t - occurrences j ks
unfolding refund_free_use
used_by-refund now j [] t = omega arith
used_by-refund now j (k ∷ ks) t =
    ground (arith, used_by-refund now j ks (refund_one now k t), refunded now k j t)

-- A key of the list has at most the list's uses.
used-le :
    (j : UsageKey) (ks : List UsageKey) (t : List Usage)
    → 0 < occurrences j ks
    → used_by j t ≤ free_uses_used ks t
unfolding free_uses_used
used-le j [] t h = absurd (omega arith)
used-le j (k ∷ ks) t h = elim (Bool-cases (key_eq k j)) [
  | inl e ↦ ground (arith, key_eq_iff k j)
  | inr e ↦ ground (arith, used-le j ks t)
]

-- Some key of the list has at least `limit` uses; a limit of 0 needs none.
abbrev pub HasReached : List UsageKey → ℕ → List Usage → Type 0
HasReached keys limit t = (limit ≡ 0) ⊎ ((k : UsageKey) × Member k keys × (limit ≤ used_by k t))

reached :
    (keys : List UsageKey) (limit : ℕ) (t : List Usage)
    → limit ≤ free_uses_used keys t
    → HasReached keys limit t
unfolding free_uses_used
reached [] limit t h = inl (omega arith)
reached (k ∷ ks) limit t h = elim (Bool-cases (leb limit (used_by k t))) [
  | inl e ↦ inr (k, inl refl, ground arith)
  | inr e ↦ elim (reached ks limit t (ground arith)) [
    | inl z ↦ inl z
    | inr (j, m, b) ↦ inr (j, inr m, b)
  ]
]

member-le :
    (k : UsageKey) (ks : List UsageKey) (t : List Usage)
    → Member k ks
    → used_by k t ≤ free_uses_used ks t
unfolding free_uses_used
member-le k [] t m = absurd m
member-le k (j ∷ ks) t (inl e) =
    subst (λ x. used_by x t ≤ max (used_by j t) (free_uses_used ks t)) (sym e) (omega arith)
member-le k (j ∷ ks) t (inr m) = omega (arith, member-le k ks t m)

reaches :
    (keys : List UsageKey) (limit : ℕ) (t : List Usage)
    → HasReached keys limit t
    → limit ≤ free_uses_used keys t
reaches keys limit t (inl z) = omega arith
reaches keys limit t (inr (k, m, b)) = omega (arith, member-le k keys t m)

-- A consumption is refused exactly when some key of the caller has reached the limit, or the limit
-- is 0, and then changes nothing. Otherwise each counter grows by one for each time its key is listed.
pub consume_free_use_lem :
    (keys : List UsageKey) (limit now : ℕ) (t : List Usage)
    → (((consume_free_use keys limit now t).0 ≡ false) ↔ HasReached keys limit t)
      × ((consume_free_use keys limit now t).0 ≡ false → (consume_free_use keys limit now t).1 ≡ t)
      × ((consume_free_use keys limit now t).0 ≡ true
          → (j : UsageKey)
          → used_by j (consume_free_use keys limit now t).1 ≡ used_by j t + occurrences j keys)
unfolding consume_free_use
consume_free_use_lem keys limit now t = (
  (
    (λ h. reached keys limit t (ground arith)),
    (λ r. let h : limit ≤ free_uses_used keys t = reaches keys limit t r in ground arith),
  ),
  (λ h. ground arith),
  (λ h j. ground (arith, used_by-bump_all now j keys t)),
)

-- A refund after a consumption that was not refused restores every counter.
pub refund-consume :
    (keys : List UsageKey) (limit now later : ℕ) (t : List Usage) (j : UsageKey)
    → (consume_free_use keys limit now t).0 ≡ true
    → used_by j (refund_free_use keys later (consume_free_use keys limit now t).1) ≡ used_by j t
refund-consume keys limit now later t j h = omega (
  arith,
  used_by-refund later j keys (consume_free_use keys limit now t).1,
  (consume_free_use_lem keys limit now t).2 h j,
)

pub consume-within :
    (keys : List UsageKey) (limit now : ℕ) (t : List Usage) (j : UsageKey)
    → AreDistinct keys
    → used_by j t ≤ limit
    → used_by j (consume_free_use keys limit now t).1 ≤ limit
unfolding consume_free_use
consume-within keys limit now t j d h =
    ground (arith, used_by-bump_all now j keys t, used-le j keys t, d j)

pub refund-within :
    (keys : List UsageKey) (limit now : ℕ) (t : List Usage) (j : UsageKey)
    → used_by j t ≤ limit
    → used_by j (refund_free_use keys now t) ≤ limit
refund-within keys limit now t j h = omega (arith, used_by-refund now j keys t)
