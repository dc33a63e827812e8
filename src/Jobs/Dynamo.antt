-- ===== src/Jobs/Dynamo.antt =====
-- backend/app/repositories/dynamodb_job_store.py: the store of jobs in DynamoDB. The requests that
-- it sends are data with the meaning of their condition and update expressions; the service that
-- executes them is the parameter `Database`. Owner and key are percent-encoded in an item's key, so
-- the key text determines both; here it is the pair. `active` is the difference of two counters,
-- since it may go below 0. An error of AWS other than a cancelled transaction is not modelled.
pub mod Requests
pub mod Operations
pub mod Slots
pub mod Steps
pub mod Cap
pub mod Versions
pub mod Mutate
mod Tests
use auto_correlation.Prelude.{
  ℕ, ◌+◌, ◌-◌, String, Bool, true, false, not, ◌&&◌, ◌||◌, Option, none, some, List, [], ◌∷◌, ◌++◌,
  ◌≡◌, ◌⊎◌, ltb, ◌==◌, if◌then◌else◌, str_eq, truthy, is_some,
}
use auto_correlation.Prelude.Dict.{Dict, lookup, put, pop}
use auto_correlation.Errors.{Result, ok, err, other, raise}
use auto_correlation.Jobs.Model.{ExecutionJob, is_active}
use auto_correlation.Jobs.Store.{is_evictable, too_many_active_jobs}

pub record Row : Type 0 where
  pub job : ExecutionJob
  pub version : ℕ

-- `active` is `taken - freed`.
pub record Slot : Type 0 where
  pub taken : ℕ
  pub freed : ℕ

pub record KeyRow : Type 0 where
  pub owner_key : String
  pub idempotency_key : String
  pub job_id : String
  pub created_at : ℕ

-- The items `JOB#`, `SLOTS#` and `IDEM#` of the table.
pub record Table : Type 0 where
  pub rows : Dict Row
  pub slots : Dict Slot
  pub keys : List KeyRow

abbrev pub counted : ExecutionJob → Bool
counted job = is_active job || job.worker_active

pub data Condition : Type 0 where
  no_condition row_absent : Condition
  version_is : ℕ → Condition

pub data Delta : Type 0 where
  plus_one minus_one : Delta

-- An element of `TransactItems`.
pub data Write : Type 0 where
  put_job : ExecutionJob → ℕ → Condition → Write
  delete_job : String → ℕ → Write
  update_slot : String → Delta → Option ℕ → Write
  -- Only where there is no such key, or an older one than the time.
  put_key : KeyRow → ℕ → Write

abbrev pub slot_or_zero : Option Slot → Slot
slot_or_zero none = record { taken = 0; freed = 0 }
slot_or_zero (some s) = s

unfoldable pub slot_of : String → Table → Slot
slot_of owner_key t = slot_or_zero (lookup owner_key t.slots)

abbrev pub is_key : String → String → KeyRow → Bool
is_key owner_key idempotency_key r =
    str_eq r.owner_key owner_key && str_eq r.idempotency_key idempotency_key

unfoldable pub find_key : String → String → List KeyRow → Option KeyRow
find_key owner_key idempotency_key [] = none
find_key owner_key idempotency_key (r ∷ l) =
    if is_key owner_key idempotency_key r then some r else find_key owner_key idempotency_key l

unfoldable pub replace_key : KeyRow → List KeyRow → List KeyRow
replace_key k [] = k ∷ []
replace_key k (r ∷ l) =
    if is_key k.owner_key k.idempotency_key r then k ∷ l else r ∷ replace_key k l

abbrev pub has_version : ℕ → Option Row → Bool
has_version v none = false
has_version v (some r) = r.version == v

abbrev pub is_older : ℕ → Option KeyRow → Bool
is_older before none = true
is_older before (some r) = ltb r.created_at before

abbrev pub condition_holds : Condition → Option Row → Bool
condition_holds no_condition row = true
condition_holds row_absent row = not (is_some row)
condition_holds (version_is v) row = has_version v row

-- `attribute_not_exists(active) OR active < :max`
abbrev pub below_max : Option ℕ → Option Slot → Bool
below_max none s = true
below_max (some max_active) none = true
below_max (some max_active) (some s) = ltb s.taken (s.freed + max_active)

unfoldable pub holds : Write → Table → Bool
unfolding find_key
holds (put_job job version condition) t = condition_holds condition (lookup job.id t.rows)
holds (delete_job job_id version) t = has_version version (lookup job_id t.rows)
holds (update_slot owner_key delta max_active) t = below_max max_active (lookup owner_key t.slots)
holds (put_key k before) t = is_older before (find_key k.owner_key k.idempotency_key t.keys)

abbrev pub shifted : Delta → Slot → Slot
shifted plus_one s = record s { taken = s.taken + 1 }
shifted minus_one s = record s { freed = s.freed + 1 }

unfoldable pub written : Write → Table → Table
unfolding slot_of replace_key
written (put_job job version _) t = record t {
  rows = put job.id (record { job = job; version = version }) t.rows;
}
written (delete_job job_id version) t = record t { rows = pop job_id t.rows }
written (update_slot owner_key delta max_active) t = record t {
  slots = put owner_key (shifted delta (slot_of owner_key t)) t.slots;
}
written (put_key k before) t = record t { keys = replace_key k t.keys }

unfoldable pub all_hold : List Write → Table → Bool
unfolding holds
all_hold [] t = true
all_hold (w ∷ r) t = holds w t && all_hold r t

unfoldable pub all_written : List Write → Table → Table
unfolding written
all_written [] t = t
all_written (w ∷ r) t = all_written r (written w t)

-- A cancelled transaction names a reason for each item, as `_cancellation_codes` reads them.
pub data Outcome : Type 0 where
  committed : Outcome
  cancelled : List String → Outcome

-- The service behind `transact_write_items`. It commits only where all conditions hold, and then
-- all is written; a cancelled transaction, also one that met another, changes nothing.
pub record Database : Type 0 where
  pub transact : List Write → Table → Outcome × Table
  pub atomic :
      (l : List Write) (t : Table)
      → ((all_hold l t ≡ true) × (transact l t ≡ (committed, all_written l t)))
        ⊎ ((codes : List String) × (transact l t ≡ (cancelled codes, t)))

-- `_slot_update`, where the count changes by `delta`.
unfoldable pub slot_change : Bool → Bool → String → List Write
slot_change old new owner_key =
    if new
    then (if old then [] else update_slot owner_key plus_one none ∷ [])
    else (if old then update_slot owner_key minus_one none ∷ [] else [])

-- The items of `_write`.
unfoldable pub job_writes : ExecutionJob → Option Row → List Write
unfolding slot_change
job_writes job none = put_job job 1 no_condition ∷ slot_change false (counted job) job.owner_key
job_writes job (some old) =
    put_job job (old.version + 1) (version_is old.version)
    ∷ slot_change (counted old.job) (counted job) job.owner_key

-- The items of `_evict`.
unfoldable pub evict_writes : Row → List Write
unfolding slot_change
evict_writes row =
    delete_job row.job.id row.version ∷ slot_change (counted row.job) false row.job.owner_key

-- `_remember_idempotency`; the DynamoDB `ttl` of an item is not modelled.
abbrev pub key_row : ExecutionJob → String → KeyRow
key_row job key = record {
  owner_key = job.owner_key;
  idempotency_key = key;
  job_id = job.id;
  created_at = job.created_at;
}

unfoldable pub key_writes : ExecutionJob → Option String → ℕ → List Write
key_writes job none before = []
key_writes job (some key) before =
    if truthy (some key) then put_key (key_row job key) before ∷ [] else []

-- The items of `create_if_allowed`.
unfoldable pub insert_writes : ℕ → ExecutionJob → ℕ → ℕ → List Write
unfolding key_writes
insert_writes now job window_seconds max_active =
    put_job job 1 row_absent
    ∷ update_slot job.owner_key plus_one (some max_active)
    ∷ key_writes job job.idempotency_key (now - window_seconds)

-- `max(0, active)`
unfoldable pub active_count : String → Table → ℕ
unfolding slot_of
active_count owner_key t = (slot_of owner_key t).taken - (slot_of owner_key t).freed
