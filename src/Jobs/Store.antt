-- ===== src/Jobs/Store.antt =====
-- backend/app/repositories/execution_job_store.py: the in-memory store of execution jobs. Each
-- operation holds the lock throughout, so it is one step; `now` is the clock that it reads.
pub mod Laws
pub mod Admission
use auto_correlation.Prelude.{
  ℕ, ◌-◌, String, Bool, true, false, not, ◌&&◌, ◌||◌, Option, none, some, List, [], ◌∷◌, ltb, leb,
  if◌then◌else◌, is_some, truthy, opt_eq, select, tally, str_eq,
}
use auto_correlation.Prelude.Dict.{Dict, lookup, put, pop, pop_where, values}
use auto_correlation.Errors.{filled, ProblemException, rate_limited, Result, ok, raise}
use auto_correlation.Jobs.Model.{ExecutionJob, is_active}

unfoldable pub too_many_active_jobs : ℕ → ProblemException
unfolding rate_limited
too_many_active_jobs max_active =
    rate_limited
      (filled "Too many active execution jobs ({} allowed at a time)." [] (max_active ∷ []))

-- `_is_evictable`, with the clock first.
abbrev pub is_evictable : ℕ → ExecutionJob → Bool
is_evictable now job = ltb job.expires_at now && not job.worker_active

pub record JobStore : Type 0 where
  pub ttl : ℕ
  pub jobs : Dict ExecutionJob

unfoldable pub new : ℕ → JobStore
new ttl_seconds = record { ttl = ttl_seconds; jobs = [] }

-- `create` and `update` are one assignment.
unfoldable pub create : ExecutionJob → JobStore → JobStore
create job s = record s { jobs = put job.id job s.jobs }

unfoldable pub update : ExecutionJob → JobStore → JobStore
update job s = record s { jobs = put job.id job s.jobs }

unfoldable pub cleanup : ℕ → JobStore → JobStore
cleanup now s = record s { jobs = pop_where (is_evictable now) s.jobs }

-- The rest of `get` and of `mutate` once the job is looked up.
keep_or_evict : ℕ → String → Option ExecutionJob → JobStore → Option ExecutionJob × JobStore
keep_or_evict now job_id none s = (none, s)
keep_or_evict now job_id (some job) s =
    if is_evictable now job then (none, record s { jobs = pop job_id s.jobs }) else (some job, s)

unfoldable pub get : ℕ → String → JobStore → Option ExecutionJob × JobStore
unfolding keep_or_evict
get now job_id s = let s' = cleanup now s in keep_or_evict now job_id (lookup job_id s'.jobs) s'

unfoldable pub delete : String → JobStore → Bool × JobStore
delete job_id s = (is_some (lookup job_id s.jobs), record s { jobs = pop job_id s.jobs })

abbrev pub counts : String → ExecutionJob → Bool
counts owner_key job = str_eq job.owner_key owner_key && (is_active job || job.worker_active)

unfoldable pub count_active_locked : String → JobStore → ℕ
count_active_locked owner_key s = tally (counts owner_key) (values s.jobs)

unfoldable pub count_active : ℕ → String → JobStore → ℕ × JobStore
count_active now owner_key s = let s' = cleanup now s in (count_active_locked owner_key s', s')

-- `max(candidates, key=created_at)` keeps the first of the latest.
abbrev pub later : ExecutionJob → ExecutionJob → ExecutionJob
later a b = if ltb a.created_at b.created_at then b else a

unfoldable pub latest_of : ExecutionJob → List ExecutionJob → ExecutionJob
latest_of a [] = a
latest_of a (b ∷ r) = latest_of (later a b) r

unfoldable pub latest : List ExecutionJob → Option ExecutionJob
unfolding latest_of
latest [] = none
latest (a ∷ r) = some (latest_of a r)

-- The condition on a candidate. A cutoff below 0 admits every job, as 0 does.
abbrev pub is_repeat : ℕ → String → Option String → ℕ → ExecutionJob → Bool
is_repeat now owner_key idempotency_key window_seconds job =
    str_eq job.owner_key owner_key
    && (opt_eq job.idempotency_key idempotency_key
        && (not (is_evictable now job) && leb (now - window_seconds) job.created_at))

unfoldable pub find_by_idempotency_key_locked :
    ℕ → String → Option String → ℕ → JobStore → Option ExecutionJob
find_by_idempotency_key_locked now owner_key idempotency_key window_seconds s =
    latest (select (is_repeat now owner_key idempotency_key window_seconds) (values s.jobs))

unfoldable pub find_by_idempotency_key :
    ℕ → String → Option String → ℕ → JobStore → Option ExecutionJob × JobStore
find_by_idempotency_key now owner_key idempotency_key window_seconds s =
    let s' = cleanup now s in
    (find_by_idempotency_key_locked now owner_key idempotency_key window_seconds s', s')

-- `create_if_allowed` past the search for a repeat.
admit : ExecutionJob → ℕ → JobStore → Result (ExecutionJob × Bool) × JobStore
admit job max_active s =
    if leb max_active (count_active_locked job.owner_key s)
    then (raise (too_many_active_jobs max_active), s)
    else (ok (job, true), record s { jobs = put job.id job s.jobs })

repeat_or_admit :
    Option ExecutionJob → ExecutionJob → ℕ → JobStore → Result (ExecutionJob × Bool) × JobStore
unfolding admit
repeat_or_admit (some existing) job max_active s = (ok (existing, false), s)
repeat_or_admit none job max_active s = admit job max_active s

unfoldable pub create_if_allowed :
    ℕ → ExecutionJob → ℕ → ℕ → JobStore → Result (ExecutionJob × Bool) × JobStore
unfolding repeat_or_admit admit
create_if_allowed now job window_seconds max_active s =
    let s' = cleanup now s in
    repeat_or_admit
      (if truthy job.idempotency_key
        then find_by_idempotency_key_locked now job.owner_key job.idempotency_key window_seconds s'
        else none)
      job max_active s'

-- The second half of `mutate`: `fn` changes the job in place and returns what it leaves in the
-- caller's variables.
mutate_found :
    {A : Type 0}
    → (ExecutionJob → A × ExecutionJob)
    → Option ExecutionJob × JobStore
    → Option (A × ExecutionJob) × JobStore
mutate_found fn (none, s) = (none, s)
mutate_found fn (some job, s) =
    let (a, job') = fn job in (some (a, job'), record s { jobs = put job'.id job' s.jobs })

unfoldable pub mutate :
    {A : Type 0}
    → ℕ
    → String
    → (ExecutionJob → A × ExecutionJob)
    → JobStore
    → Option (A × ExecutionJob) × JobStore
unfolding mutate_found
mutate now job_id fn s = mutate_found fn (get now job_id s)
