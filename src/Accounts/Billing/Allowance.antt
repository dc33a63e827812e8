-- ===== src/Accounts/Billing/Allowance.antt =====
-- The free allowance end to end: entitlements, the gate and the count of a use.
use Prim.Native.Char.{Char, code}
use Prim.Native.String.{[] as empty, ◌∷◌ as ◌∷ₛ◌, ◌++◌ as ◌++ₛ◌}
use text.Mathlib.TextLemmas.{cons-append}
use auto_correlation.Prelude.{
  ◌+◌, ◌<◌, ◌&&◌, some, truthy, subst, ℕ, ◌≤◌, String, ◌≡◌, inl, inr, refl, Bool, true, false,
  Option, none, List, [], ◌∷◌, ◌++◌, All, Bool-cases, arith,
}
use auto_correlation.Errors.{ok, raise}
use auto_correlation.Accounts.Model.{User, UsageKey, Usage, AccountStore}
use auto_correlation.Accounts.Plans.{PlanSettings}
use auto_correlation.Accounts.Usage.{key_eq, key_eq_iff, used_by, free_uses_used, consume_free_use}
use auto_correlation.Accounts.Usage.Limit.{occurrences, AreDistinct, consume-within, refund-within}
use auto_correlation.Accounts.Billing.{
  Entitlement, paid, device_keys, ip_keys, user_keys, usage_keys, resolve_entitlement,
  ensure_can_start, usage_limit_reached, sign_in_problem, counted, consume_use, refund_use,
}

-- The code of a text's first character.
first_code : String → ℕ
first_code empty = 0
first_code (c ∷ₛ s) = code c

first_code-append : (c : Char) (s t : String) → first_code ((c ∷ₛ s) ++ₛ t) ≡ code c
unfolding first_code
first_code-append c s t = rw (cons-append c s t) refl

occurrences-append :
    (k : UsageKey) (a b : List UsageKey)
    → occurrences k (a ++ b) ≡ occurrences k a + occurrences k b
occurrences-append k [] b = omega arith
occurrences-append k (j ∷ a) b = ground (arith, occurrences-append k a b)

-- A list with one key at most, whose first character has the code `n`.
abbrev HasOneOf : ℕ → List UsageKey → Type 0
HasOneOf n l = (k : UsageKey) → (occurrences k l ≤ 1) × (0 < occurrences k l → first_code k ≡ n)

one_key-HasOneOf : (n : ℕ) (key : UsageKey) → first_code key ≡ n → HasOneOf n (key ∷ [])
one_key-HasOneOf n key e k = elim (Bool-cases (key_eq key k)) [
  | inl same ↦
      let p : key ≡ k = (key_eq_iff key k).0 same in
      rw same (omega arith, λ h. subst (λ x. first_code x ≡ n) p e)
  | inr other ↦ rw other (omega arith, λ h. absurd (omega arith))
]

no_key-HasOneOf : (n : ℕ) → HasOneOf n []
no_key-HasOneOf n k = (omega arith, λ h. absurd (omega arith))

device_keys-HasOneOf : (d : Option String) → HasOneOf 100 (device_keys d)
unfolding device_keys
device_keys-HasOneOf none = no_key-HasOneOf 100
device_keys-HasOneOf (some d) = elim (Bool-cases (truthy (some d))) [
  | inl e ↦ rw e (one_key-HasOneOf 100 ("device:" ++ₛ d) (first_code-append "d" "evice:" d))
  | inr e ↦ rw e (no_key-HasOneOf 100)
]

ip_keys-HasOneOf : (b : Bool) (a : Option String) → HasOneOf 105 (ip_keys b a)
unfolding ip_keys
ip_keys-HasOneOf b none = no_key-HasOneOf 105
ip_keys-HasOneOf b (some a) = elim (Bool-cases (truthy (some a) && b)) [
  | inl e ↦ rw e (one_key-HasOneOf 105 ("ip:" ++ₛ a) (first_code-append "i" "p:" a))
  | inr e ↦ rw e (no_key-HasOneOf 105)
]

user_keys-HasOneOf : (u : Option User) → HasOneOf 117 (user_keys u)
unfolding user_keys
user_keys-HasOneOf none = no_key-HasOneOf 117
user_keys-HasOneOf (some u) =
    one_key-HasOneOf 117 ("user:" ++ₛ u.id) (first_code-append "u" "ser:" u.id)

-- The keys of a caller are distinct texts: the device, the address and the account each give one
-- at most, under prefixes that differ, whatever their own texts are.
pub usage_keys-AreDistinct :
    (account : Option User) (device_id client_ip : Option String) (settings : PlanSettings)
    → AreDistinct (usage_keys account device_id client_ip settings)
unfolding usage_keys
usage_keys-AreDistinct account device_id client_ip settings k =
    let (d, dn) = device_keys-HasOneOf device_id k in
    let (i, jn) = ip_keys-HasOneOf settings.free_tier_count_by_ip client_ip k in
    let (u, un) = user_keys-HasOneOf account k in
    let rest = ip_keys settings.free_tier_count_by_ip client_ip ++ user_keys account in
    ground (
      arith,
      d,
      dn,
      i,
      jn,
      u,
      un,
      occurrences-append k (device_keys device_id) rest,
      occurrences-append k (ip_keys settings.free_tier_count_by_ip client_ip) (user_keys account),
    )

-- An entitlement resolved against some state of the store, an older one perhaps.
pub record IsResolved (settings : PlanSettings) (ent : Entitlement) : Type 0 where
  pub store : AccountStore
  pub account : Option User
  pub device_id : Option String
  pub client_ip : Option String
  pub at_time : ℕ
  pub resolved : ent ≡ resolve_entitlement store settings account device_id client_ip at_time

-- A start is counted or refunded under an entitlement, at a time.
pub data Charge : Type 0 where
  use_one refund_one : Entitlement → ℕ → Charge

abbrev pub entitlement_of : Charge → Entitlement
entitlement_of (use_one ent now) = ent
entitlement_of (refund_one ent now) = ent

unfoldable pub charge : Charge → AccountStore → AccountStore
charge (use_one ent now) s = (consume_use s ent now).1
charge (refund_one ent now) s = refund_use s ent now

unfoldable pub charge_all : List Charge → AccountStore → AccountStore
unfolding charge
charge_all [] s = s
charge_all (c ∷ r) s = charge_all r (charge c s)

consume_use-within :
    (ent : Entitlement) (now : ℕ) (s : AccountStore) (k : UsageKey)
    → AreDistinct ent.usage_keys
    → used_by k s.free_usage ≤ ent.free_limit
    → used_by k (consume_use s ent now).1.free_usage ≤ ent.free_limit
unfolding consume_use
consume_use-within ent now s k d h = elim (Bool-cases (paid ent)) [
  | inl e ↦ rw e h
  | inr e ↦ rw e (
      stays (consume_free_use ent.usage_keys ent.free_limit now s.free_usage).0 _
        (consume-within ent.usage_keys ent.free_limit now s.free_usage k d h))
]
  where
    stays :
        (b : Bool) (t : List Usage)
        → used_by k t ≤ ent.free_limit
        → used_by k (counted ent (b, record s { free_usage = t })).1.free_usage ≤ ent.free_limit
    stays true t p = p
    stays false t p = p

refund_use-within :
    (ent : Entitlement) (now limit : ℕ) (s : AccountStore) (k : UsageKey)
    → used_by k s.free_usage ≤ limit
    → used_by k (refund_use s ent now).free_usage ≤ limit
unfolding refund_use
refund_use-within ent now limit s k h =
    ground (arith, refund-within ent.usage_keys limit now s.free_usage k)

resolved_keys :
    (settings : PlanSettings) (ent : Entitlement)
    → IsResolved settings ent
    → AreDistinct ent.usage_keys × (ent.free_limit ≡ settings.free_uses)
unfolding resolve_entitlement
resolved_keys settings ent r =
    rw r.resolved (usage_keys-AreDistinct r.account r.device_id r.client_ip settings, refl)

-- However starts and refunds of any callers interleave, and however old the entitlements are
-- that they are charged under, no device, address or account is ever charged more than
-- `free_uses` analyses.
pub charge_all-within :
    (settings : PlanSettings) (l : List Charge) (s : AccountStore) (k : UsageKey)
    → All (λ c. IsResolved settings (entitlement_of c)) l
    → used_by k s.free_usage ≤ settings.free_uses
    → used_by k (charge_all l s).free_usage ≤ settings.free_uses
unfolding charge_all
charge_all-within settings [] s k r h = h
charge_all-within settings (use_one ent now ∷ l) s k r h =
    charge_all-within settings l (consume_use s ent now).1 k r.1 (
      let (d, e) = resolved_keys settings ent r.0 in
      omega (arith, consume_use-within ent now s k d (omega arith)))
charge_all-within settings (refund_one ent now ∷ l) s k r h =
    charge_all-within settings l (refund_use s ent now) k r.1
      (refund_use-within ent now settings.free_uses s k h)

gate_open :
    (store : AccountStore) (ent : Entitlement) (now : ℕ)
    → ent.free_used ≡ free_uses_used ent.usage_keys store.free_usage
    → ensure_can_start ent ≡ ok tt
    → (consume_use store ent now).0 ≡ ok tt
unfolding ensure_can_start consume_use consume_free_use
gate_open store ent now e h = ground arith

at_limit :
    (ent : Entitlement)
    → ensure_can_start ent ≡ raise (usage_limit_reached ent)
    → (paid ent ≡ false) × (ent.free_limit ≤ ent.free_used)
unfolding ensure_can_start usage_limit_reached sign_in_problem
at_limit ent h = (ground arith, ground arith)

gate_shut :
    (store : AccountStore) (ent : Entitlement) (now : ℕ)
    → ent.free_used ≡ free_uses_used ent.usage_keys store.free_usage
    → (paid ent ≡ false) × (ent.free_limit ≤ ent.free_used)
    → consume_use store ent now ≡ (raise (usage_limit_reached ent), store)
unfolding consume_use consume_free_use
gate_shut store ent now e h = ground arith

-- The gate and the count agree on one state of the store: a caller whom `ensure_can_start` lets
-- in is charged without error, and an unpaid caller whom it refuses for the limit would be
-- refused the charge too.
pub ensure-consume :
    (store : AccountStore) (settings : PlanSettings) (account : Option User)
    (device_id client_ip : Option String) (now : ℕ)
    → let ent = resolve_entitlement store settings account device_id client_ip now in
      (ensure_can_start ent ≡ ok tt → (consume_use store ent now).0 ≡ ok tt)
      × (ensure_can_start ent ≡ raise (usage_limit_reached ent)
          → consume_use store ent now ≡ (raise (usage_limit_reached ent), store))
ensure-consume store settings account device_id client_ip now =
    let ent = resolve_entitlement store settings account device_id client_ip now in
    let used : ent.free_used ≡ free_uses_used ent.usage_keys store.free_usage =
      unfold resolve_entitlement in refl in
    ((λ h. gate_open store ent now used h), (λ h. gate_shut store ent now used (at_limit ent h)))
