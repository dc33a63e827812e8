-- ===== src/Accounts/Billing/Purchases.antt =====
-- Purchases line up: a new plan starts when the user's last one ends.
use auto_correlation.Prelude.{
  ℕ, ◌≤◌, ◌<◌, max, String, ◌≡◌, ◌⊎◌, inl, inr, refl, true, false, Option, none, some, List, [],
  ◌∷◌, ◌++◌, All, str_eq, eq_iff, Bool-cases, arith,
}
use auto_correlation.Errors.{Message, plain, filled}
use auto_correlation.Accounts.Model.{User, Subscription, AccountStore}
use auto_correlation.Accounts.Plans.{
  PlanSettings, Plan, Calendar, IsCalendar, get_plan, add_months, add_months-later, get_plan-months,
}
use auto_correlation.Accounts.Subscriptions.{latest_expiry, max_with, add_subscription, is_running}
use auto_correlation.Accounts.Billing.{
  bought, purchase_error, start_after, new_subscription, bought_plan, purchase,
}

-- Two plans of different users, or one over before the other starts.
abbrev pub Apart : Subscription → Subscription → Type 0
Apart a b =
    (str_eq a.user_id b.user_id ≡ false)
    ⊎ ((a.expires_at ≤ b.starts_at) ⊎ (b.expires_at ≤ a.starts_at))

abbrev pub IsSchedule : List Subscription → Type 0
IsSchedule [] = Unit
IsSchedule (a ∷ r) = All (Apart a) r × IsSchedule r

snoc-IsSchedule :
    (t : List Subscription) (b : Subscription)
    → IsSchedule t
    → All (λ a. Apart a b) t
    → IsSchedule (t ++ b ∷ [])
snoc-IsSchedule [] b s h = (tt, tt)
snoc-IsSchedule (a ∷ r) b s h = (append_one r s.0 h.0, snoc-IsSchedule r b s.1 h.1)
  where
    append_one : (r : List Subscription) → All (Apart a) r → Apart a b → All (Apart a) (r ++ b ∷ [])
    append_one [] p q = (q, tt)
    append_one (x ∷ r) p q = (p.0, append_one r p.1 q)

-- A bound on the latest expiry bounds each plan of the user.
latest_expiry-le :
    (user_id : String) (bound : ℕ) (t : List Subscription)
    → ((latest : ℕ) → latest_expiry user_id t ≡ some latest → latest ≤ bound)
    → All (λ s. (str_eq s.user_id user_id ≡ false) ⊎ (s.expires_at ≤ bound)) t
unfolding latest_expiry
latest_expiry-le user_id bound [] h = tt
latest_expiry-le user_id bound (s ∷ r) h = elim (Bool-cases (str_eq s.user_id user_id)) [
  | inl e ↦
      let same = taken (latest_expiry user_id r) (rw e at h) in
      (inr same.0, latest_expiry-le user_id bound r same.1)
  | inr e ↦ (inl e, latest_expiry-le user_id bound r (rw e at h))
]
  where
    taken :
        (o : Option ℕ)
        → ((latest : ℕ) → max_with s.expires_at o ≡ some latest → latest ≤ bound)
        → (s.expires_at ≤ bound) × ((latest : ℕ) → o ≡ some latest → latest ≤ bound)
    taken none f = (f s.expires_at refl, λ l e. absurd (cc))
    taken (some m) f =
        let b : max s.expires_at m ≤ bound = f (max s.expires_at m) refl in
        (omega arith, λ l e. let p : m ≡ l = ground arith in omega arith)

start-le : (now : ℕ) (o : Option ℕ) (latest : ℕ) → o ≡ some latest → latest ≤ start_after now o
start-le now none latest e = absurd (cc)
start-le now (some m) latest e = let p : m ≡ latest = ground arith in omega arith

module _ (cal : Calendar) (id payment_ref : String) (settings : PlanSettings) (buyer : User)
    (now : ℕ) where
  -- What a successful purchase leaves.
  pub record Bought (plan_id : String) (plan : Plan) (sub : Subscription)
      (store after : AccountStore) : Type 0 where
    pub owner : sub.user_id ≡ buyer.id
    -- The plan is the one that was asked for, at the catalog's price.
    pub asked : sub.plan ≡ plan_id
    pub priced : (sub.price_cents ≡ plan.price_cents) × (sub.currency ≡ plan.currency)
    pub paid_at :
        (sub.payment_provider ≡ settings.billing_provider)
        × (sub.payment_ref ≡ payment_ref)
        × (sub.purchased_at ≡ now)
    pub starts : sub.starts_at ≡ start_after now (latest_expiry buyer.id store.subscriptions)
    pub lasts : sub.expires_at ≡ add_months cal sub.starts_at plan.months
    pub in_time : (now ≤ sub.starts_at) × (sub.starts_at < sub.expires_at)
    pub earlier_over :
        All
          (λ s. (str_eq s.user_id buyer.id ≡ false) ⊎ (s.expires_at ≤ sub.starts_at))
          store.subscriptions
    pub added : after.subscriptions ≡ store.subscriptions ++ sub ∷ []
    pub schedule : IsSchedule store.subscriptions → IsSchedule after.subscriptions

  bought_lem :
      (plan_id : String) (plan : Plan) (store after : AccountStore)
      → plan.id ≡ plan_id
      → IsCalendar cal
      → 0 < plan.months
      → after.subscriptions
        ≡ store.subscriptions
          ++ new_subscription cal id payment_ref settings buyer plan now store.subscriptions ∷ []
      → Bought plan_id plan
          (new_subscription cal id payment_ref settings buyer plan now store.subscriptions)
          store
          after
  unfolding new_subscription
  bought_lem plan_id plan store after same c m e =
      let sub = new_subscription cal id payment_ref settings buyer plan now store.subscriptions in
      let over =
        latest_expiry-le buyer.id sub.starts_at store.subscriptions
          (λ l q. start-le now (latest_expiry buyer.id store.subscriptions) l q) in
      record {
        owner = refl;
        asked = same;
        priced = (refl, refl);
        paid_at = (refl, refl, refl);
        starts = refl;
        lasts = refl;
        in_time = (
          from_now (latest_expiry buyer.id store.subscriptions),
          add_months-later cal sub.starts_at plan.months c m,
        );
        earlier_over = over;
        added = e;
        schedule = λ s.
            rw e
              (snoc-IsSchedule store.subscriptions sub s (apart sub store.subscriptions refl over));
      }
    where
      from_now : (o : Option ℕ) → now ≤ start_after now o
      from_now none = omega arith
      from_now (some m) = omega arith

      apart :
          (sub : Subscription) (t : List Subscription)
          → sub.user_id ≡ buyer.id
          → All (λ s. (str_eq s.user_id buyer.id ≡ false) ⊎ (s.expires_at ≤ sub.starts_at)) t
          → All (λ s. Apart s sub) t
      apart sub [] q h = tt
      apart sub (x ∷ t) q (inl p, h) = (inl (rw q p), apart sub t q h)
      apart sub (x ∷ t) q (inr p, h) = (inr (inl p), apart sub t q h)

  -- A purchase either fails and leaves the store as it was, because purchases are disabled or the
  -- plan is unknown, or it buys the plan asked for: the subscription
  -- names that plan, has its price and currency, the billing provider and the time of the purchase,
  -- starts now or when the
  -- buyer's last plan ends, no earlier plan of the buyer reaches past its start, it lasts the
  -- plan's calendar months, and plans that did not overlap still do not.
  pub purchase_cases :
      (plan_id : String) (store : AccountStore)
      → IsCalendar cal
      → ((plan : Plan) × (sub : Subscription) × (after : AccountStore) × (purchase cal id
              payment_ref settings buyer plan_id now store
            ≡ (bought plan sub, after))
          × (get_plan plan_id settings ≡ some plan)
          × Bought plan_id plan sub store after)
        ⊎ ((m : Message) × (purchase cal id payment_ref settings buyer plan_id now store
              ≡ (purchase_error m, store))
            × ((str_eq settings.billing_provider "disabled" ≡ true)
                ⊎ (get_plan plan_id settings ≡ none)))
  unfolding purchase
  purchase_cases plan_id store c = elim (Bool-cases (str_eq settings.billing_provider "disabled")) [
    | inl e ↦ inr (plain "Purchases are not available right now.", rw e refl, inl e)
    | inr e ↦ rw e (by_plan (get_plan plan_id settings) refl)
  ]
    where
      by_plan :
          (o : Option Plan)
          → get_plan plan_id settings ≡ o
          → ((plan : Plan) × (sub : Subscription) × (after : AccountStore) × (bought_plan cal id
                  payment_ref settings buyer plan_id o now store
                ≡ (bought plan sub, after))
              × (o ≡ some plan)
              × Bought plan_id plan sub store after)
            ⊎ ((m : Message) × (bought_plan cal id payment_ref settings buyer plan_id o now store
                  ≡ (purchase_error m, store))
                × ((false ≡ true) ⊎ (o ≡ none)))
      by_plan none e = inr (filled "Unknown plan '{}'." (plan_id ∷ []) [], refl, inr refl)
      by_plan (some plan) e = inl (
        plan,
        new_subscription cal id payment_ref settings buyer plan now store.subscriptions,
        _,
        refl,
        refl,
        bought_lem plan_id plan store _ (get_plan-months plan_id settings plan e).0 c
            (get_plan-months plan_id settings plan e).1 (unfold add_subscription in refl),
      )

-- In a schedule two entries of one user never run at once.
pub IsSchedule-one_running :
    (t : List Subscription) (a : Subscription) (user_id : String) (now : ℕ)
    → All (Apart a) t
    → is_running user_id now a ≡ true
    → All (λ b. is_running user_id now b ≡ false) t
IsSchedule-one_running [] a user_id now h r = tt
IsSchedule-one_running (b ∷ t) a user_id now h r =
    (not_both h.0, IsSchedule-one_running t a user_id now h.1 r)
  where
    not_both : Apart a b → is_running user_id now b ≡ false
    not_both p =
        ground
          (arith, eq_iff a.user_id user_id, eq_iff b.user_id user_id, eq_iff a.user_id b.user_id)
