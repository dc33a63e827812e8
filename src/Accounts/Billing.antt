-- ===== src/Accounts/Billing.antt =====
-- backend/app/services/billing.py: what a caller may do, and purchases.
pub mod Allowance
pub mod Purchases
use Prim.Native.String.{◌++◌ as ◌++ₛ◌}
use auto_correlation.Prelude.{
  ℕ, ◌+◌, ◌-◌, ◌*◌, ◌≤◌, ◌<◌, max, min, String, ◌≡◌, Bool, true, false, not, ◌&&◌, ◌||◌, Option,
  none, some, List, [], ◌∷◌, ◌++◌, ltb, leb, if◌then◌else◌, str_eq, truthy, is_some, is_none,
  or_else,
}
use auto_correlation.Errors.{
  Message, plain, filled, ProblemException, Result, ok, err, problem, raise,
}
use auto_correlation.Accounts.Model.{User, UsageKey, Subscription, AccountStore}
use auto_correlation.Accounts.Plans.{
  PlanSettings, Plan, Calendar, mib, get_plan, free_max_file_bytes, add_months,
}
use auto_correlation.Accounts.Usage.{free_uses_used, consume_free_use, refund_free_use}
use auto_correlation.Accounts.Subscriptions.{active_subscription, latest_expiry, add_subscription}
use auto_correlation.Accounts.History.{extend_history_retention}

abbrev pub seconds_per_day : ℕ
seconds_per_day = 86400

pub record Entitlement : Type 0 where
  pub account : Option User
  pub subscription : Option Subscription
  pub plan : Option Plan
  pub max_file_bytes : ℕ
  pub free_limit : ℕ
  pub free_used : ℕ
  pub usage_keys : List UsageKey
  pub sign_in_required : Bool

abbrev pub paid : Entitlement → Bool
paid ent = is_some ent.plan

unfoldable pub uses_remaining : Entitlement → Option ℕ
uses_remaining ent = if paid ent then none else some (ent.free_limit - ent.free_used)

device_keys : Option String → List UsageKey
device_keys none = []
device_keys (some d) = if truthy (some d) then ("device:" ++ₛ d) ∷ [] else []

ip_keys : Bool → Option String → List UsageKey
ip_keys counted none = []
ip_keys counted (some a) = if truthy (some a) && counted then ("ip:" ++ₛ a) ∷ [] else []

user_keys : Option User → List UsageKey
user_keys none = []
user_keys (some u) = ("user:" ++ₛ u.id) ∷ []

unfoldable pub usage_keys :
    Option User → Option String → Option String → PlanSettings → List UsageKey
unfolding device_keys ip_keys user_keys
usage_keys account device_id client_ip settings =
    device_keys device_id ++ (ip_keys settings.free_tier_count_by_ip client_ip ++ user_keys account)

subscription_of : Option User → ℕ → AccountStore → Option Subscription
subscription_of none now store = none
subscription_of (some u) now store = active_subscription u.id now store.subscriptions

plan_of : Option Subscription → PlanSettings → Option Plan
plan_of none settings = none
plan_of (some sub) settings = get_plan sub.plan settings

-- `plan.max_file_bytes if plan else free_max_file_bytes(settings)`
abbrev file_limit : Option Plan → PlanSettings → ℕ
file_limit none settings = free_max_file_bytes settings
file_limit (some p) settings = p.max_file_bytes

abbrev only_with : Option Plan → Option Subscription → Option Subscription
only_with none sub = none
only_with (some p) sub = sub

unfoldable pub resolve_entitlement :
    AccountStore → PlanSettings → Option User → Option String → Option String → ℕ → Entitlement
unfolding usage_keys subscription_of plan_of
resolve_entitlement store settings account device_id client_ip now =
    let keys = usage_keys account device_id client_ip settings in
    let sub = subscription_of account now store in
    let plan = plan_of sub settings in
    record {
      account = account;
      subscription = only_with plan sub;
      plan = plan;
      max_file_bytes = file_limit plan settings;
      free_limit = settings.free_uses;
      free_used = free_uses_used keys store.free_usage;
      usage_keys = keys;
      sign_in_required =
          is_none account && (settings.require_account && not (str_eq settings.auth_mode "oidc"));
    }

unfoldable pub usage_limit_reached : Entitlement → ProblemException
usage_limit_reached ent = record {
  status = 402;
  code = "usage_limit_reached";
  title = "Free limit reached";
  detail = some (
      filled
        "You have used all {} free analyses. Choose a plan to keep going with larger files and saved history."
        [] (ent.free_limit ∷ []));
  errors = [];
}

unfoldable pub sign_in_problem : Entitlement → ProblemException
sign_in_problem ent = record {
  status = 401;
  code = "sign_in_required";
  title = "Sign in required";
  detail = some (
      filled
        "Create a free account or sign in to start. The free plan includes {} analyses with files up to {}."
        [] (ent.free_limit ∷ ent.max_file_bytes ∷ []));
  errors = [];
}

unfoldable pub ensure_can_start : Entitlement → Result (Unit {0})
ensure_can_start ent =
    if ent.sign_in_required
    then raise (sign_in_problem ent)
    else if not (paid ent) && leb ent.free_limit ent.free_used
    then raise (usage_limit_reached ent)
    else ok tt

plan_name : Option Plan → String
plan_name none = "free"
plan_name (some p) = p.name

upgrade_hint : Option Plan → String
upgrade_hint none = " Choose a larger plan to upload it."
upgrade_hint (some p) = if str_eq p.id "yearly" then "" else " Choose a larger plan to upload it."

-- The sizes are put in as bytes: the rounding of `_mb` is not modelled.
unfoldable pub plan_file_problem : Entitlement → String → ℕ → ProblemException
unfolding plan_name upgrade_hint
plan_file_problem ent filename size = record {
  status = 413;
  code = "plan_file_limit";
  title = "File too large for your plan";
  detail = some (
      filled "'{}' is {}. The {} plan accepts files up to {}.{}"
        (filename ∷ plan_name ent.plan ∷ upgrade_hint ent.plan ∷ [])
        (size ∷ ent.max_file_bytes ∷ []));
  errors = [];
}

unfoldable pub ensure_file_fits : Entitlement → String → ℕ → Result (Unit {0})
ensure_file_fits ent filename size =
    if leb size ent.max_file_bytes then ok tt else raise (plan_file_problem ent filename size)

-- The count of a use and the table after it.
counted : Entitlement → Bool × AccountStore → Result (Unit {0}) × AccountStore
counted ent (true, s) = (ok tt, s)
counted ent (false, s) = (raise (usage_limit_reached ent), s)

unfoldable pub consume_use : AccountStore → Entitlement → ℕ → Result (Unit {0}) × AccountStore
unfolding counted
consume_use store ent now =
    let (done, usage) = consume_free_use ent.usage_keys ent.free_limit now store.free_usage in
    if paid ent then (ok tt, store) else counted ent (done, record store { free_usage = usage })

unfoldable pub refund_use : AccountStore → Entitlement → ℕ → AccountStore
refund_use store ent now =
    if paid ent
    then store
    else record store { free_usage = refund_free_use ent.usage_keys now store.free_usage }

pub data PurchaseResult : Type 0 where
  bought : Plan → Subscription → PurchaseResult
  purchase_error : Message → PurchaseResult

-- `max(now, store.latest_expiry(user.id) or now)`
abbrev pub start_after : ℕ → Option ℕ → ℕ
start_after now none = now
start_after now (some latest) = max now latest

module _ (cal : Calendar) where
  -- The subscription that a purchase makes; its id and payment reference are fresh.
  unfoldable pub new_subscription :
      String → String → PlanSettings → User → Plan → ℕ → List Subscription → Subscription
  new_subscription id payment_ref settings buyer plan now t =
      let starts_at = start_after now (latest_expiry buyer.id t) in
      record {
        id = id;
        user_id = buyer.id;
        plan = plan.id;
        price_cents = plan.price_cents;
        currency = plan.currency;
        payment_provider = settings.billing_provider;
        payment_ref = payment_ref;
        purchased_at = now;
        starts_at = starts_at;
        expires_at = add_months cal starts_at plan.months;
        reminder_sent_at = none;
        expired_notice_sent_at = none;
      }

  bought_plan :
      String
      → String
      → PlanSettings
      → User
      → String
      → Option Plan
      → ℕ
      → AccountStore
      → PurchaseResult × AccountStore
  unfolding new_subscription
  bought_plan id payment_ref settings buyer plan_id none now store =
      (purchase_error (filled "Unknown plan '{}'." (plan_id ∷ []) []), store)
  bought_plan id payment_ref settings buyer plan_id (some plan) now store =
      let sub = new_subscription id payment_ref settings buyer plan now store.subscriptions in
      (
        bought plan sub,
        record store {
          subscriptions = add_subscription sub store.subscriptions;
          history =
              if leb sub.starts_at now
              then extend_history_retention buyer.id (plan.retention_days * seconds_per_day) now
                  store.history
              else store.history;
        },
      )

  unfoldable pub purchase :
      String
      → String
      → PlanSettings
      → User
      → String
      → ℕ
      → AccountStore
      → PurchaseResult × AccountStore
  unfolding bought_plan
  purchase id payment_ref settings buyer plan_id now store =
      if str_eq settings.billing_provider "disabled"
      then (purchase_error (plain "Purchases are not available right now."), store)
      else bought_plan id payment_ref settings buyer plan_id (get_plan plan_id settings) now store

-- `status` of `subscription_dto`
pub data SubscriptionStatus : Type 0 where
  scheduled active expired : SubscriptionStatus

unfoldable pub subscription_status : Subscription → ℕ → SubscriptionStatus
subscription_status sub now =
    if ltb now sub.starts_at then scheduled else if ltb now sub.expires_at then active else expired
