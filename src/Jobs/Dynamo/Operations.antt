-- ===== src/Jobs/Dynamo/Operations.antt =====
-- The operations of `DynamoDbExecutionJobStore`: reads and conditional transactions, with the
-- other clients' turn before each. A read is consistent.
use auto_correlation.Prelude.{
  ℕ, suc, zero, ◌-◌, String, Bool, true, false, ◌&&◌, Option, none, some, List, ◌∷◌, ltb, str_eq,
  if◌then◌else◌, truthy,
}
use auto_correlation.Prelude.Dict.{lookup}
use auto_correlation.Errors.{Result, ok, raise}
use auto_correlation.Jobs.Model.{ExecutionJob}
use auto_correlation.Jobs.Store.{is_evictable, too_many_active_jobs}
use auto_correlation.Jobs.Dynamo.{
  Row, KeyRow, Write, find_key, Database, Outcome, committed, cancelled, job_writes, evict_writes,
  insert_writes, active_count,
}
use auto_correlation.Jobs.Dynamo.Requests.{Client, pause}

abbrev pub max_mutate_attempts : ℕ
max_mutate_attempts = 20

module _ (db : Database) where
  unfoldable pub read : String → Client → Option Row × Client
  read job_id c = let c' = pause db c in (lookup job_id c'.table.rows, c')

  unfoldable pub commit : List Write → Client → Outcome × Client
  commit l c =
      let c' = pause db c in
      let (done, t) = db.transact l c'.table in (done, record c' { table = t })

  -- `_evict`: a failed condition is ignored.
  unfoldable pub evict : Row → Client → Client
  unfolding commit
  evict row c = (commit (evict_writes row) c).1

  got : Option Row × Client → Option ExecutionJob × Client
  unfolding evict
  got (none, c) = (none, c)
  got (some row, c) =
      if is_evictable c.clock row.job then (none, evict row c) else (some row.job, c)

  unfoldable pub get : String → Client → Option ExecutionJob × Client
  unfolding got read
  get job_id c = got (read job_id c)

  deleted : Option Row × Client → Bool × Client
  unfolding evict
  deleted (none, c) = (false, c)
  deleted (some row, c) = (true, evict row c)

  unfoldable pub delete : String → Client → Bool × Client
  unfolding deleted read
  delete job_id c = deleted (read job_id c)

  unfoldable pub count_active : String → Client → ℕ × Client
  count_active owner_key c = let c' = pause db c in (active_count owner_key c'.table, c')

  -- The item is read at the clock of `time.time()` of the comparison.
  key_found : ℕ → Option KeyRow → Client → Option ExecutionJob × Client
  unfolding get
  key_found window_seconds none c = (none, c)
  key_found window_seconds (some k) c =
      if ltb k.created_at (c.clock - window_seconds) then (none, c) else get k.job_id c

  unfoldable pub find_by_idempotency_key :
      String → String → ℕ → Client → Option ExecutionJob × Client
  unfolding key_found
  find_by_idempotency_key owner_key idempotency_key window_seconds c =
      let c' = pause db c in
      key_found window_seconds (find_key owner_key idempotency_key c'.table.keys) c'

  abbrev pub wanted : ExecutionJob → ℕ → Option String → Client → Option ExecutionJob × Client
  wanted job window_seconds none c = (none, c)
  wanted job window_seconds (some key) c =
      if truthy (some key)
      then find_by_idempotency_key job.owner_key key window_seconds c
      else (none, c)

-- `len(codes) > 2 and codes[2] == "ConditionalCheckFailed"`
abbrev pub third_failed : List String → Bool
third_failed (a ∷ (b ∷ (code ∷ _))) = str_eq code "ConditionalCheckFailed"
third_failed _ = false

module _ (db : Database) (job : ExecutionJob) (window_seconds max_active : ℕ) where
  abbrev refused : Client → Result (ExecutionJob × Bool) × Client
  refused c = (raise (too_many_active_jobs max_active), c)

  -- After a cancelled transaction.
  winner : Option ExecutionJob × Client → Result (ExecutionJob × Bool) × Client
  winner (some existing, c) = (ok (existing, false), c)
  winner (none, c) = refused c

  inserted : Outcome × Client → Result (ExecutionJob × Bool) × Client
  unfolding winner
  inserted (committed, c) = (ok (job, true), c)
  inserted (cancelled codes, c) =
      if truthy job.idempotency_key && third_failed codes
      then winner (wanted db job window_seconds job.idempotency_key c)
      else refused c

  searched : Option ExecutionJob × Client → Result (ExecutionJob × Bool) × Client
  unfolding inserted
  searched (some existing, c) = (ok (existing, false), c)
  searched (none, c) = inserted (commit db (insert_writes c.clock job window_seconds max_active) c)

  unfoldable pub create_if_allowed : Client → Result (ExecutionJob × Bool) × Client
  unfolding searched
  create_if_allowed c = searched (wanted db job window_seconds job.idempotency_key c)

-- What `mutate` ends with: None, "too much contention", or the changed job.
pub data Mutated : Type 0 where
  missing gave_up : Mutated
  changed : ExecutionJob → Mutated

module _ (db : Database) (job_id : String) (fn : ExecutionJob → ExecutionJob) where
  unfoldable pub retried :
      (Client → Mutated × Client) → ExecutionJob → Outcome × Client → Mutated × Client
  retried retry job (committed, c) = (changed job, c)
  retried retry job (cancelled _, c) = retry c

  -- One round of the loop, `retry` what comes after it.
  unfoldable pub attempt : (Client → Mutated × Client) → Option Row × Client → Mutated × Client
  attempt retry (none, c) = (missing, c)
  attempt retry (some row, c) =
      if is_evictable c.clock row.job
      then (missing, evict db row c)
      else retried retry (fn row.job) (commit db (job_writes (fn row.job) (some row)) c)

  -- By recursion on the attempts that are left.
  unfoldable pub mutate_within : ℕ → Client → Mutated × Client
  mutate_within zero c = (gave_up, c)
  mutate_within (suc n) c = attempt (mutate_within n) (read db job_id c)

  unfoldable pub mutate : Client → Mutated × Client
  unfolding mutate_within
  mutate c = mutate_within max_mutate_attempts c

-- `update`: the row is written whatever it holds now, also where there is none.
pub data Updated : Type 0 where
  updated contended : Updated

module _ (db : Database) (job : ExecutionJob) where
  put_again : (Client → Updated × Client) → Outcome × Client → Updated × Client
  put_again retry (committed, c) = (updated, c)
  put_again retry (cancelled _, c) = retry c

  put_over : (Client → Updated × Client) → Option Row × Client → Updated × Client
  unfolding put_again
  put_over retry (found, c) = put_again retry (commit db (job_writes job found) c)

  unfoldable pub update_within : ℕ → Client → Updated × Client
  unfolding put_over
  update_within zero c = (contended, c)
  update_within (suc n) c = put_over (update_within n) (read db job.id c)

  unfoldable pub update : Client → Updated × Client
  unfolding update_within
  update c = update_within max_mutate_attempts c
