-- ===== src/Security.antt =====
-- backend/app/core/security.py: the sliding-window rate limiter. Times are of the monotonic clock.
mod Tests
use auto_correlation.Prelude.{
  ℕ, ◌+◌, ◌-◌, ◌≤◌, String, ◌≡◌, inl, inr, refl, Bool, true, false, ◌&&◌, Option, none, some, List,
  [], ◌∷◌, ◌++◌, ltb, leb, if◌then◌else◌, str_eq, eq_iff, eq_refl, or_else, length, length-append,
  tally, tally-append, Bool-cases, arith, ◌∙◌,
}
use auto_correlation.Prelude.Dict.{Dict, lookup, put, lookup-put}

pub record RateLimiter : Type 0 where
  pub max_requests : ℕ
  pub window : ℕ
  pub hits : Dict (List ℕ)

unfoldable pub new : ℕ → ℕ → RateLimiter
new max_requests window_seconds = record {
  max_requests = max_requests;
  window = window_seconds;
  hits = [];
}

-- The `while` loop on the queue.
unfoldable pub drop_old : ℕ → List ℕ → List ℕ
drop_old cutoff [] = []
drop_old cutoff (t ∷ q) = let rest = drop_old cutoff q in if ltb t cutoff then rest else t ∷ q

abbrev pub queue_of : String → Dict (List ℕ) → List ℕ
queue_of key hits = or_else (lookup key hits) []

unfoldable pub allow : ℕ → String → RateLimiter → Bool × RateLimiter
unfolding drop_old
allow now key l =
    let q = drop_old (now - l.window) (queue_of key l.hits) in
    if leb l.max_requests (length q)
    then (false, record l { hits = put key q l.hits })
    else (true, record l { hits = put key (q ++ now ∷ []) l.hits })

-- Calls in order, with the time since the call before; and those that were allowed.
pub record Run : Type 0 where
  pub limiter : RateLimiter
  pub clock : ℕ
  pub allowed : List (String × ℕ)

unfoldable pub call : ℕ × String → Run → Run
unfolding allow
call (elapsed, key) r =
    let now = r.clock + elapsed in
    let (granted, l) = allow now key r.limiter in
    record {
      limiter = l;
      clock = now;
      allowed = if granted then (key, now) ∷ r.allowed else r.allowed;
    }

unfoldable pub calls : List (ℕ × String) → Run → Run
unfolding call
calls [] r = r
calls (c ∷ l) r = calls l (call c r)

abbrev pub in_window : String → ℕ → String × ℕ → Bool
in_window key cutoff x = str_eq x.0 key && leb cutoff x.1

-- Up to a later cutoff the queue holds what was allowed, and it is no longer than the limit.
record IsKept (r : Run) : Type 0 where
  held :
      (key : String) (c : ℕ)
      → r.clock ≤ c + r.limiter.window
      → tally (in_window key c) r.allowed ≤ tally (leb c) (queue_of key r.limiter.hits)
  short : (key : String) → length (queue_of key r.limiter.hits) ≤ r.limiter.max_requests

tally-drop_old :
    (cutoff c : ℕ) (q : List ℕ) → cutoff ≤ c → tally (leb c) (drop_old cutoff q) ≡ tally (leb c) q
unfolding drop_old
tally-drop_old cutoff c [] h = refl
tally-drop_old cutoff c (t ∷ q) h = ground (arith, tally-drop_old cutoff c q h)

length-drop_old : (cutoff : ℕ) (q : List ℕ) → length (drop_old cutoff q) ≤ length q
unfolding drop_old
length-drop_old cutoff [] = omega arith
length-drop_old cutoff (t ∷ q) = ground (arith, length-drop_old cutoff q)

tally-le-length : (c : ℕ) (q : List ℕ) → tally (leb c) q ≤ length q
tally-le-length c [] = omega arith
tally-le-length c (t ∷ q) = ground (arith, tally-le-length c q)

queue_of-put :
    (key k : String) (q : List ℕ) (d : Dict (List ℕ))
    → queue_of k (put key q d) ≡ (if str_eq key k then q else queue_of k d)
queue_of-put key k q d =
    rw (lookup-put key k q d)
      (elim (Bool-cases (str_eq key k)) [ inl e ↦ rw e refl | inr e ↦ rw e refl ])

call-IsKept : (x : ℕ × String) (r : Run) → IsKept r → IsKept (call x r)
unfolding call allow
call-IsKept (elapsed, key) r w =
    let now = r.clock + elapsed in
    let l = r.limiter in
    let old = queue_of key l.hits in
    let q = drop_old (now - l.window) old in
    elim (Bool-cases (leb l.max_requests (length q))) [
      | inl full ↦ rw full (record {
        held = λ k c h. rw (queue_of-put key k q l.hits) (elim (Bool-cases (str_eq key k)) [
          | inl same ↦ rw same (
              ground (
                arith,
                eq_iff key k,
                tally-drop_old (now - l.window) c old (omega arith),
                w.held k c (omega arith),
              ))
          | inr other ↦ rw other (w.held k c (omega arith))
        ]);
        short = λ k. rw (queue_of-put key k q l.hits) (elim (Bool-cases (str_eq key k)) [
          | inl same ↦ rw same (ground (arith, length-drop_old (now - l.window) old, w.short key))
          | inr other ↦ rw other (w.short k)
        ]);
      })
      | inr room ↦ rw room (record {
        held = λ k c h.
            rw (queue_of-put key k (q ++ now ∷ []) l.hits) (elim (Bool-cases (str_eq key k)) [
              | inl same ↦
                  rw (same, tally-append (leb c) q (now ∷ []))
                    (ground (
                      arith,
                      eq_iff key k,
                      tally-drop_old (now - l.window) c old (omega arith),
                      w.held k c (omega arith),
                    ))
              | inr other ↦ rw other (w.held k c (omega arith))
            ]);
        short = λ k.
            rw (queue_of-put key k (q ++ now ∷ []) l.hits) (elim (Bool-cases (str_eq key k)) [
              | inl same ↦ rw (same, length-append q (now ∷ [])) (ground (arith, room))
              | inr other ↦ rw other (w.short k)
            ]);
      })
    ]

calls-IsKept : (l : List (ℕ × String)) (r : Run) → IsKept r → IsKept (calls l r)
unfolding calls
calls-IsKept [] r w = w
calls-IsKept (x ∷ l) r w = calls-IsKept l (call x r) (call-IsKept x r w)

-- A limiter that nobody has called yet.
abbrev pub begun : ℕ → ℕ → Run
begun max_requests window_seconds = record {
  limiter = new max_requests window_seconds;
  clock = 0;
  allowed = [];
}

begun-IsKept : (max_requests window_seconds : ℕ) → IsKept (begun max_requests window_seconds)
unfolding new lookup
begun-IsKept max_requests window_seconds = record {
  held = λ k c h. omega arith;
  short = λ k. omega arith;
}

fixed_once :
    (x : ℕ × String) (r : Run)
    → ((call x r).limiter.max_requests ≡ r.limiter.max_requests)
      × ((call x r).limiter.window ≡ r.limiter.window)
unfolding call allow
fixed_once (elapsed, key) r =
    let l = r.limiter in
    let q = drop_old (r.clock + elapsed - l.window) (queue_of key l.hits) in
    elim (Bool-cases (leb l.max_requests (length q))) [
      | inl full ↦ rw full (refl, refl)
      | inr room ↦ rw room (refl, refl)
    ]

fixed :
    (l : List (ℕ × String)) (r : Run)
    → ((calls l r).limiter.max_requests ≡ r.limiter.max_requests)
      × ((calls l r).limiter.window ≡ r.limiter.window)
unfolding calls
fixed [] r = (refl, refl)
fixed (x ∷ l) r = let (m, n) = fixed l (call x r) in let (a, b) = fixed_once x r in (m ∙ a, n ∙ b)

-- After any calls by any clients at any times, each client has been allowed at most `max_requests`
-- calls within the last window.
pub allowed-le :
    (max_requests window_seconds : ℕ) (l : List (ℕ × String)) (key : String)
    → tally
        (in_window key ((calls l (begun max_requests window_seconds)).clock - window_seconds))
        (calls l (begun max_requests window_seconds)).allowed
      ≤ max_requests
unfolding calls new
allowed-le max_requests window_seconds l key =
    let r = calls l (begun max_requests window_seconds) in
    let w =
      calls-IsKept l (begun max_requests window_seconds)
        (begun-IsKept max_requests window_seconds) in
    let (m, n) = fixed l (begun max_requests window_seconds) in
    let c = r.clock - window_seconds in
    omega (
      arith,
      w.held key c (omega (arith, n)),
      w.short key,
      tally-le-length c (queue_of key r.limiter.hits),
      m,
    )
