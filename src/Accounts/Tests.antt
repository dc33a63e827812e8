-- ===== src/Accounts/Tests.antt =====
-- The accounts on concrete input: two users, a session, a reset link and some plans.
use auto_correlation.Prelude.{
  ℕ, ◌+◌, ◌-◌, ◌*◌, ◌/◌, ◌%◌, ◌≤◌, ◌<◌, String, ◌≡◌, ◌≢◌, ◌↔◌, ◌⊎◌, refl, true, false, none, some,
  List, [], ◌∷◌, arith,
}
use auto_correlation.Errors.{Message, ok, raise}
use auto_correlation.Accounts.Model.{User, Subscription, UsageKey, AccountStore}
use auto_correlation.Accounts.Tokens.{
  create_session, session_user, delete_session, create_password_reset, consume_password_reset,
  purge_expired_tokens, get_user, find_user,
}
use auto_correlation.Accounts.Tokens.Laws.{
  session_user-create_session, session_user-delete_session, session_user-purge, consume_once,
  create_password_reset_newest,
}
use auto_correlation.Accounts.Usage.{used_by, free_uses_used, consume_free_use, refund_free_use}
use auto_correlation.Accounts.Usage.Limit.{
  HasReached, occurrences, AreDistinct, consume_free_use_lem, refund-consume,
}
use auto_correlation.Accounts.Plans.{
  PlanSettings, Plan, Date, Calendar, IsDate, IsCalendar, month_index, days_in_month, shift_date,
  shift_date_lem, get_plan,
}
use auto_correlation.Accounts.Billing.{
  Entitlement, resolve_entitlement, usage_keys, ensure_can_start, consume_use, usage_limit_reached,
  bought, purchase_error, purchase,
}
use auto_correlation.Accounts.Billing.Allowance.{
  Charge, use_one, refund_one, IsResolved, charge_all, usage_keys-AreDistinct, charge_all-within,
  ensure-consume,
}
use auto_correlation.Accounts.Billing.Purchases.{Bought, purchase_cases}

abbrev settings : PlanSettings
settings = record {
  plan_currency = "EUR";
  plan_monthly_price_cents = 1900;
  plan_monthly_max_file_mb = 10;
  plan_monthly_retention_days = 30;
  plan_semiannual_price_cents = 9900;
  plan_semiannual_max_file_mb = 20;
  plan_semiannual_retention_days = 90;
  plan_yearly_price_cents = 17900;
  plan_yearly_max_file_mb = 30;
  plan_yearly_retention_days = 365;
  free_max_file_mb = 2;
  free_uses = 2;
  free_tier_count_by_ip = true;
  require_account = false;
  auth_mode = "local";
  billing_provider = "simulated";
  expiry_reminder_days = 7;
}

abbrev ada : User
ada = record { id = "u1"; email = "ada@x"; name = "Ada"; password_hash = "p"; created_at = 1 }

abbrev store : AccountStore
store = record {
  users = ada ∷ [];
  sessions =
      record { token_hash = "old"; user_id = "u1"; created_at = 10; expires_at = 40 }
      ∷ record { token_hash = "cur"; user_id = "u1"; created_at = 20; expires_at = 90 }
      ∷ [];
  password_resets = record { token_hash = "r1"; user_id = "u1"; expires_at = 99 } ∷ [];
  subscriptions = [];
  free_usage = record { usage_key = "device:d"; used = 1; updated_at = 5 } ∷ [];
  history = [];
}

-- Tokens that are their own hash.
abbrev digest : String → String
digest token = token

-- A calendar of months of 28 days.
abbrev cal : Calendar
cal = record {
  date_of = λ t. record {
    year = t / 2419200 / 12;
    month = t / 2419200 % 12 + 1;
    day = t % 2419200 / 86400 + 1;
    seconds = t % 86400;
  };
  timestamp_of = λ d. (d.year * 12 + (d.month - 1)) * 2419200 + ((d.day - 1) * 86400 + d.seconds);
}

month_long : (y m : ℕ) → 28 ≤ days_in_month y m
unfolding days_in_month
month_long y m = ground arith

cal-IsCalendar : IsCalendar cal
cal-IsCalendar = record {
  dated = λ t.
      let long = month_long (t / 2419200 / 12) (t / 2419200 % 12 + 1) in
      (omega arith, omega arith, omega arith, omega arith);
  ordered = λ t d v l. omega arith;
}

session_user-create_session_example :
    session_user digest "new" 80 (create_session digest "new" "u1" 50 40 store) ≡ some ada
unfolding session_user create_session get_user find_user
session_user-create_session_example =
    session_user-create_session digest "new" "u1" 50 40 80 store (refl, (refl, tt))

session_user-delete_session_example :
    session_user digest "cur" 60 (delete_session digest "old" store)
    ≡ session_user digest "cur" 60 store
session_user-delete_session_example = session_user-delete_session digest "old" "cur" 60 store

session_user-purge_example :
    session_user digest "cur" 60 (purge_expired_tokens 50 store).1
    ≡ session_user digest "cur" 60 store
session_user-purge_example = session_user-purge digest "cur" 50 60 store (omega arith)

consume_once_example :
    (consume_password_reset digest "r1" 61 (consume_password_reset digest "r1" 60 store).1).0 ≡ none
consume_once_example = consume_once digest "r1" 60 61 store

create_password_reset_newest_example :
    (consume_password_reset digest "r1" 60 (create_password_reset digest "r2" "u1" 50 30 store)).0
    ≢ some "u1"
create_password_reset_newest_example =
    create_password_reset_newest digest "r2" "r1" "u1" 50 30 60 store refl

abbrev keys : List UsageKey
keys = "device:d" ∷ "ip:1.2.3.4" ∷ []

consume_free_use_lem_example :
    (((consume_free_use keys 2 7 store.free_usage).0 ≡ false) ↔ HasReached keys 2 store.free_usage)
    × ((consume_free_use keys 2 7 store.free_usage).0 ≡ false
        → (consume_free_use keys 2 7 store.free_usage).1 ≡ store.free_usage)
    × ((consume_free_use keys 2 7 store.free_usage).0 ≡ true
        → (j : UsageKey)
        → used_by j (consume_free_use keys 2 7 store.free_usage).1
          ≡ used_by j store.free_usage + occurrences j keys)
consume_free_use_lem_example = consume_free_use_lem keys 2 7 store.free_usage

refund-consume_example :
    used_by "device:d" (refund_free_use keys 9 (consume_free_use keys 2 7 store.free_usage).1)
    ≡ used_by "device:d" store.free_usage
refund-consume_example =
    refund-consume keys 2 7 9 store.free_usage "device:d"
      (unfold consume_free_use free_uses_used used_by in refl)

abbrev visitor : Entitlement
visitor = resolve_entitlement store settings none (some "d") (some "1.2.3.4") 6

abbrev charges : List Charge
charges = use_one visitor 7 ∷ use_one visitor 8 ∷ refund_one visitor 9 ∷ use_one visitor 10 ∷ []

visitor-IsResolved : IsResolved settings visitor
visitor-IsResolved = record {
  store = store;
  account = none;
  device_id = some "d";
  client_ip = some "1.2.3.4";
  at_time = 6;
  resolved = refl;
}

charge_all-within_example : used_by "device:d" (charge_all charges store).free_usage ≤ 2
charge_all-within_example =
    charge_all-within settings charges store "device:d"
      (visitor-IsResolved, (visitor-IsResolved, (visitor-IsResolved, (visitor-IsResolved, tt))))
      (unfold used_by in omega arith)

usage_keys-AreDistinct_example :
    AreDistinct (usage_keys (some ada) (some "d") (some "1.2.3.4") settings)
usage_keys-AreDistinct_example =
    usage_keys-AreDistinct (some ada) (some "d") (some "1.2.3.4") settings

ensure-consume_example :
    (ensure_can_start visitor ≡ ok tt → (consume_use store visitor 6).0 ≡ ok tt)
    × (ensure_can_start visitor ≡ raise (usage_limit_reached visitor)
        → consume_use store visitor 6 ≡ (raise (usage_limit_reached visitor), store))
ensure-consume_example = ensure-consume store settings none (some "d") (some "1.2.3.4") 6

-- 31 January 2024
abbrev january : Date
january = record { year = 2024; month = 1; day = 31; seconds = 3600 }

shift_date_lem_example :
    IsDate (shift_date january 1)
    × (month_index (shift_date january 1) ≡ month_index january + 1)
    × ((shift_date january 1).seconds ≡ january.seconds)
    × (((shift_date january 1).day ≡ january.day)
        ⊎ (((shift_date january 1).day
              ≡ days_in_month (shift_date january 1).year (shift_date january 1).month)
            × ((shift_date january 1).day < january.day)))
shift_date_lem_example =
    shift_date_lem january 1
      (omega arith, omega arith, omega arith, unfold days_in_month in omega arith)

shifted_to_leap_day : shift_date january 1 ≡ record january { month = 2; day = 29 }
unfolding shift_date days_in_month
shifted_to_leap_day = refl

purchase_cases_example :
    ((plan : Plan) × (sub : Subscription) × (after : AccountStore) × (purchase cal "s1" "pay1"
          settings ada "yearly" 1000 store
        ≡ (bought plan sub, after))
      × (get_plan "yearly" settings ≡ some plan)
      × Bought cal "s1" "pay1" settings ada 1000 "yearly" plan sub store after)
    ⊎ ((m : Message) × (purchase cal "s1" "pay1" settings ada "yearly" 1000 store
          ≡ (purchase_error m, store))
        × ((false ≡ true) ⊎ (get_plan "yearly" settings ≡ none)))
purchase_cases_example =
    purchase_cases cal "s1" "pay1" settings ada 1000 "yearly" store cal-IsCalendar
