-- ===== src/Accounts/Subscriptions.antt =====
-- The subscriptions of account_store.py. SQL leaves rows with equal keys in any order; here they
-- keep the order of the table.
use auto_correlation.Prelude.{
  ℕ, ◌+◌, max, String, Bool, false, not, ◌&&◌, ◌||◌, Option, none, some, List, [], ◌∷◌, ◌++◌, ltb,
  leb, if◌then◌else◌, str_eq, is_none, select,
}
use auto_correlation.Accounts.Model.{Subscription}

-- `INSERT INTO subscriptions`: the two marks start out NULL.
unfoldable pub add_subscription : Subscription → List Subscription → List Subscription
add_subscription sub t =
    t ++ record sub { reminder_sent_at = none; expired_notice_sent_at = none } ∷ []

-- `ORDER BY starts_at`
insert_by_start : Subscription → List Subscription → List Subscription
insert_by_start a [] = a ∷ []
insert_by_start a (b ∷ r) =
    if ltb b.starts_at a.starts_at then b ∷ insert_by_start a r else a ∷ b ∷ r

unfoldable pub by_start : List Subscription → List Subscription
unfolding insert_by_start
by_start [] = []
by_start (a ∷ r) = insert_by_start a (by_start r)

-- The first of the latest to start: `ORDER BY starts_at DESC LIMIT 1`.
later_start : Subscription → Subscription → Subscription
later_start a b = if ltb a.starts_at b.starts_at then b else a

last_start_of : Subscription → List Subscription → Subscription
unfolding later_start
last_start_of a [] = a
last_start_of a (b ∷ r) = last_start_of (later_start a b) r

last_start : List Subscription → Option Subscription
unfolding last_start_of
last_start [] = none
last_start (a ∷ r) = some (last_start_of a r)

abbrev pub is_running : String → ℕ → Subscription → Bool
is_running user_id now s = str_eq s.user_id user_id && (leb s.starts_at now && ltb now s.expires_at)

unfoldable pub active_subscription : String → ℕ → List Subscription → Option Subscription
unfolding last_start
active_subscription user_id now t = last_start (select (is_running user_id now) t)

unfoldable pub upcoming_subscriptions : String → ℕ → List Subscription → List Subscription
unfolding by_start
upcoming_subscriptions user_id now t =
    by_start (select (λ s. str_eq s.user_id user_id && ltb now s.starts_at) t)

-- `SELECT MAX(expires_at)`
abbrev pub max_with : ℕ → Option ℕ → Option ℕ
max_with a none = some a
max_with a (some b) = some (max a b)

unfoldable pub latest_expiry : String → List Subscription → Option ℕ
latest_expiry user_id [] = none
latest_expiry user_id (s ∷ r) =
    let rest = latest_expiry user_id r in
    if str_eq s.user_id user_id then max_with s.expires_at rest else rest

-- The `EXISTS` of both queries: another plan of the user that goes on longer.
abbrev pub follows : Subscription → Subscription → Bool
follows s n =
    str_eq n.user_id s.user_id
    && (not (str_eq n.id s.id) && (leb s.starts_at n.starts_at && ltb s.expires_at n.expires_at))

unfoldable pub is_followed : Subscription → List Subscription → Bool
is_followed s [] = false
is_followed s (n ∷ r) = follows s n || is_followed s r

abbrev pub due_reminder : ℕ → ℕ → List Subscription → Subscription → Bool
due_reminder now window_seconds t s =
    is_none s.reminder_sent_at
    && (leb s.starts_at now
        && (ltb now s.expires_at
            && (leb s.expires_at (now + window_seconds) && not (is_followed s t))))

unfoldable pub subscriptions_due_reminder : ℕ → ℕ → List Subscription → List Subscription
subscriptions_due_reminder now window_seconds t = select (due_reminder now window_seconds t) t

abbrev pub due_notice : ℕ → List Subscription → Subscription → Bool
due_notice now t s =
    is_none s.expired_notice_sent_at && (leb s.expires_at now && not (is_followed s t))

unfoldable pub subscriptions_due_expiry_notice : ℕ → List Subscription → List Subscription
subscriptions_due_expiry_notice now t = select (due_notice now t) t

unfoldable pub mark_reminder_sent : String → ℕ → List Subscription → List Subscription
mark_reminder_sent subscription_id now [] = []
mark_reminder_sent subscription_id now (s ∷ r) =
    (if str_eq s.id subscription_id then record s { reminder_sent_at = some now } else s)
    ∷ mark_reminder_sent subscription_id now r

unfoldable pub mark_expiry_notice_sent : String → ℕ → List Subscription → List Subscription
mark_expiry_notice_sent subscription_id now [] = []
mark_expiry_notice_sent subscription_id now (s ∷ r) =
    (if str_eq s.id subscription_id then record s { expired_notice_sent_at = some now } else s)
    ∷ mark_expiry_notice_sent subscription_id now r
