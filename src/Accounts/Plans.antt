-- ===== src/Accounts/Plans.antt =====
-- backend/app/domain/plans.py: the catalog of plans, and calendar months. The conversions of
-- `datetime` between timestamps and calendar dates are a parameter.
use auto_correlation.Prelude.{
  ℕ, ◌+◌, ◌-◌, ◌*◌, ◌/◌, ◌%◌, ◌≤◌, ◌<◌, min, String, ◌≡◌, ◌⊎◌, inl, inr, refl, Bool, false, not,
  ◌&&◌, ◌||◌, Option, none, some, List, [], ◌∷◌, leb, ◌==◌, if◌then◌else◌, str_eq, eq_iff,
  Bool-cases, leb→le, arith,
}

abbrev pub mib : ℕ
mib = 1024 * 1024

-- The settings that plans and billing read. `plan_currency` is in upper case already.
pub record PlanSettings : Type 0 where
  pub plan_currency : String
  pub plan_monthly_price_cents : ℕ
  pub plan_monthly_max_file_mb : ℕ
  pub plan_monthly_retention_days : ℕ
  pub plan_semiannual_price_cents : ℕ
  pub plan_semiannual_max_file_mb : ℕ
  pub plan_semiannual_retention_days : ℕ
  pub plan_yearly_price_cents : ℕ
  pub plan_yearly_max_file_mb : ℕ
  pub plan_yearly_retention_days : ℕ
  pub free_max_file_mb : ℕ
  pub free_uses : ℕ
  pub free_tier_count_by_ip : Bool
  pub require_account : Bool
  pub auth_mode : String
  pub billing_provider : String
  pub expiry_reminder_days : ℕ

pub record Plan : Type 0 where
  pub id : String
  pub name : String
  pub months : ℕ
  pub price_cents : ℕ
  pub currency : String
  pub max_file_bytes : ℕ
  pub retention_days : ℕ

abbrev pub max_file_mb : Plan → ℕ
max_file_mb p = p.max_file_bytes / mib

unfoldable pub plan_catalog : PlanSettings → List Plan
plan_catalog settings =
    record {
      id = "monthly";
      name = "Monthly";
      months = 1;
      price_cents = settings.plan_monthly_price_cents;
      currency = settings.plan_currency;
      max_file_bytes = settings.plan_monthly_max_file_mb * mib;
      retention_days = settings.plan_monthly_retention_days;
    }
    ∷ record {
      id = "semiannual";
      name = "6 months";
      months = 6;
      price_cents = settings.plan_semiannual_price_cents;
      currency = settings.plan_currency;
      max_file_bytes = settings.plan_semiannual_max_file_mb * mib;
      retention_days = settings.plan_semiannual_retention_days;
    }
    ∷ record {
      id = "yearly";
      name = "Yearly";
      months = 12;
      price_cents = settings.plan_yearly_price_cents;
      currency = settings.plan_currency;
      max_file_bytes = settings.plan_yearly_max_file_mb * mib;
      retention_days = settings.plan_yearly_retention_days;
    }
    ∷ []

find_plan : String → List Plan → Option Plan
find_plan plan_id [] = none
find_plan plan_id (p ∷ r) = if str_eq p.id plan_id then some p else find_plan plan_id r

unfoldable pub get_plan : String → PlanSettings → Option Plan
unfolding find_plan plan_catalog
get_plan plan_id settings = find_plan plan_id (plan_catalog settings)

abbrev pub free_max_file_bytes : PlanSettings → ℕ
free_max_file_bytes settings = settings.free_max_file_mb * mib

-- A UTC date with the seconds of its day; months and days count from 1.
pub record Date : Type 0 where
  pub year : ℕ
  pub month : ℕ
  pub day : ℕ
  pub seconds : ℕ

is_leap : ℕ → Bool
is_leap y = y % 4 == 0 && (not (y % 100 == 0) || y % 400 == 0)

-- `calendar.monthrange(year, month)[1]`
unfoldable pub days_in_month : ℕ → ℕ → ℕ
unfolding is_leap
days_in_month year month =
    if month == 2
    then (if is_leap year then 29 else 28)
    else if month == 4 || (month == 6 || (month == 9 || month == 11))
    then 30
    else 31

-- The calendar part of `add_months`.
unfoldable pub shift_date : Date → ℕ → Date
shift_date start months =
    let index = start.month - 1 + months in
    let year = start.year + index / 12 in
    let month = index % 12 + 1 in
    record start { year = year; month = month; day = min start.day (days_in_month year month) }

abbrev pub IsDate : Date → Type 0
IsDate d = (1 ≤ d.month) × (d.month ≤ 12) × (1 ≤ d.day) × (d.day ≤ days_in_month d.year d.month)

-- A date's month, counted from the year 0.
abbrev pub month_index : Date → ℕ
month_index d = d.year * 12 + d.month

days_in_month_pos : (y m : ℕ) → 28 ≤ days_in_month y m
unfolding days_in_month
days_in_month_pos y m = ground arith

-- Adding months to a date gives a date exactly that many months later, at the same time of day,
-- and on the same day of the month unless that month is too short, and then on its last day.
pub shift_date_lem :
    (d : Date) (months : ℕ)
    → IsDate d
    → IsDate (shift_date d months)
      × (month_index (shift_date d months) ≡ month_index d + months)
      × ((shift_date d months).seconds ≡ d.seconds)
      × (((shift_date d months).day ≡ d.day)
          ⊎ (((shift_date d months).day
                ≡ days_in_month (shift_date d months).year (shift_date d months).month)
              × ((shift_date d months).day < d.day)))
unfolding shift_date
shift_date_lem d months h =
    let index = d.month - 1 + months in
    let room = days_in_month (d.year + index / 12) (index % 12 + 1) in
    let wide = days_in_month_pos (d.year + index / 12) (index % 12 + 1) in
    (
      (omega arith, omega arith, omega arith, omega arith),
      omega arith,
      refl,
      elim (Bool-cases (leb d.day room)) [
        | inl e ↦ inl (omega (arith, leb→le d.day room e))
        | inr e ↦ inr (clamped room e, ground arith)
      ],
    )
  where
    clamped : (room : ℕ) → leb d.day room ≡ false → min d.day room ≡ room
    clamped room e = ground arith

-- The conversions of `datetime`: a timestamp's date, and a date's timestamp.
pub record Calendar : Type 0 where
  pub date_of : ℕ → Date
  pub timestamp_of : Date → ℕ

unfoldable pub add_months : Calendar → ℕ → ℕ → ℕ
unfolding shift_date
add_months cal timestamp months = cal.timestamp_of (shift_date (cal.date_of timestamp) months)

-- What is relied on of them: a timestamp has a date, and a date of a later month comes later.
pub record IsCalendar (cal : Calendar) : Type 0 where
  pub dated : (t : ℕ) → IsDate (cal.date_of t)
  pub ordered :
      (t : ℕ) (d : Date)
      → IsDate d
      → month_index (cal.date_of t) < month_index d
      → t < cal.timestamp_of d

-- The end of a plan comes after its start.
pub add_months-later :
    (cal : Calendar) (t months : ℕ) → IsCalendar cal → 0 < months → t < add_months cal t months
unfolding add_months
add_months-later cal t months c h =
    let (valid, shifted, _, _) = shift_date_lem (cal.date_of t) months (c.dated t) in
    c.ordered t (shift_date (cal.date_of t) months) valid (omega arith)

-- Every plan of the catalog lasts at least a month.
pub get_plan-months :
    (plan_id : String) (settings : PlanSettings) (p : Plan)
    → get_plan plan_id settings ≡ some p
    → (p.id ≡ plan_id) × (0 < p.months)
unfolding get_plan
get_plan-months plan_id settings p e =
    ground (arith, eq_iff "monthly" plan_id, eq_iff "semiannual" plan_id, eq_iff "yearly" plan_id)
