-- ===== src/Jobs/Dynamo/Slots.antt =====
-- The counter `SLOTS#owner` against the rows of the owner that count.
use auto_correlation.Prelude.{
  ℕ, ◌+◌, String, ◌≡◌, inl, inr, refl, Bool, true, false, ◌&&◌, Option, none, some, List, ◌-◌,
  truthy, tally, str_eq, eq_iff, arith, if◌then◌else◌, Bool-cases,
}
use auto_correlation.Prelude.Dict.{lookup, put, pop, values, HasUniqueKeys, lookup-put}
use auto_correlation.Prelude.Dict.Counts.{tally-put, tally-pop}
use auto_correlation.Jobs.Model.{ExecutionJob}
use auto_correlation.Jobs.Dynamo.{
  Row, Slot, Table, Delta, plus_one, minus_one, counted, slot_or_zero, slot_of, update_slot,
  shifted, slot_change, job_writes, evict_writes, insert_writes, key_writes, all_written, written,
}
use auto_correlation.Jobs.Dynamo.Requests.{Request, insert, change, remove, expire}

-- A row that counts against the owner's cap, `_counts`.
abbrev pub counts : String → Row → Bool
counts o r = str_eq r.job.owner_key o && counted r.job

unfoldable pub counting : String → Table → ℕ
counting o t = tally (counts o) (values t.rows)

-- Each id has one row, which holds the job of that id.
pub record IsKeyed (t : Table) : Type 0 where
  pub unique : HasUniqueKeys t.rows
  pub keyed : (k : String) (r : Row) → lookup k t.rows ≡ some r → r.job.id ≡ k

-- A change that leaves the job's id and its owner, as every change of the service does.
pub record IsHonest (fn : ExecutionJob → ExecutionJob) : Type 0 where
  pub same_id : (j : ExecutionJob) → (fn j).id ≡ j.id
  pub same_owner : (j : ExecutionJob) → (fn j).owner_key ≡ j.owner_key

abbrev pub Honest : Request → Type 0
Honest (insert job window_seconds max_active) = counted job ≡ true
Honest (change job_id fn) = IsHonest fn
Honest (remove job_id) = Unit
Honest (expire job_id) = Unit

-- `taken - freed - counting` is the same in both tables.
abbrev pub Balanced : String → Table → Table → Type 0
Balanced o t u =
    (slot_of o u).taken + (slot_of o t).freed + counting o t
    ≡ (slot_of o t).taken + (slot_of o u).freed + counting o u

-- What an owner's slot counters are after a write to `w`'s.
abbrev bumped : String → String → Delta → Slot → Slot
bumped o w d s = if str_eq w o then shifted d s else s

slot_of-update :
    (o w : String) (d : Delta) (max_active : Option ℕ) (t : Table)
    → slot_of o (written (update_slot w d max_active) t) ≡ bumped o w d (slot_of o t)
unfolding slot_of written
slot_of-update o w d max_active t =
    rw (lookup-put w o (shifted d (slot_or_zero (lookup w t.slots))) t.slots)
      (elim (Bool-cases (str_eq w o)) [ inl e ↦ ground (arith, eq_iff w o) | inr e ↦ rw e refl ])

abbrev unit_of : Bool → ℕ
unit_of b = if b then 1 else 0

-- What `_slot_update` adds to the counters of an owner, and that it leaves the rows.
pub slot_change-counts :
    (o w : String) (old new : Bool) (t : Table)
    → ((slot_of o (all_written (slot_change old new w) t)).taken
          + (slot_of o t).freed
          + unit_of (str_eq w o && old)
        ≡ (slot_of o t).taken
          + (slot_of o (all_written (slot_change old new w) t)).freed
          + unit_of (str_eq w o && new))
      × ((all_written (slot_change old new w) t).rows ≡ t.rows)
unfolding slot_change all_written
slot_change-counts o w true true t = (omega arith, refl)
slot_change-counts o w false false t = (omega arith, refl)
slot_change-counts o w true false t =
    (rw (slot_of-update o w minus_one none t) (ground arith), unfold written in refl)
slot_change-counts o w false true t =
    (rw (slot_of-update o w plus_one none t) (ground arith), unfold written in refl)

slot_of-slots : (o : String) (t u : Table) → t.slots ≡ u.slots → slot_of o t ≡ slot_of o u
unfolding slot_of
slot_of-slots o t u e = rw e refl

slot_of-rows :
    (o : String) (t : Table) (d : List (String × Row))
    → slot_of o (record t { rows = d }) ≡ slot_of o t
unfolding slot_of
slot_of-rows o t d = refl

pub job_writes-Balanced :
    (o : String) (job : ExecutionJob) (old : Row) (t : Table)
    → lookup job.id t.rows ≡ some old
    → job.owner_key ≡ old.job.owner_key
    → Balanced o t (all_written (job_writes job (some old)) t)
job_writes-Balanced o job old t here same =
    let new : Row = record { job = job; version = old.version + 1 } in
    let d = put job.id new t.rows in
    let t' = record t { rows = d } in
    let l = slot_change (counted old.job) (counted job) job.owner_key in
    let (c, r) = slot_change-counts o job.owner_key (counted old.job) (counted job) t' in
    unfold job_writes all_written written counting in
    rw r (ground (arith, c, slot_of-rows o t d, tally-put (counts o) job.id new t.rows))

pub evict_writes-Balanced :
    (o : String) (row : Row) (t : Table)
    → HasUniqueKeys t.rows
    → lookup row.job.id t.rows ≡ some row
    → Balanced o t (all_written (evict_writes row) t)
evict_writes-Balanced o row t u here =
    let d = pop row.job.id t.rows in
    let t' = record t { rows = d } in
    let (c, r) = slot_change-counts o row.job.owner_key (counted row.job) false t' in
    unfold evict_writes all_written written counting in
    rw r (ground (arith, c, slot_of-rows o t d, tally-pop (counts o) row.job.id t.rows u))

pub key_writes-rows :
    (job : ExecutionJob) (key : Option String) (before : ℕ) (t : Table)
    → ((all_written (key_writes job key before) t).rows ≡ t.rows)
      × ((all_written (key_writes job key before) t).slots ≡ t.slots)
unfolding key_writes all_written written
key_writes-rows job none before t = (refl, refl)
key_writes-rows job (some key) before t = elim (Bool-cases (truthy (some key))) [
  | inl e ↦ (rw e refl, rw e refl)
  | inr e ↦ (rw e refl, rw e refl)
]

pub insert_writes-Balanced :
    (o : String) (now : ℕ) (job : ExecutionJob) (window_seconds max_active : ℕ) (t : Table)
    → counted job ≡ true
    → lookup job.id t.rows ≡ none
    → Balanced o t (all_written (insert_writes now job window_seconds max_active) t)
insert_writes-Balanced o now job window_seconds max_active t active absent =
    let new : Row = record { job = job; version = 1 } in
    let d = put job.id new t.rows in
    let t' = record t { rows = d } in
    let t'' = written (update_slot job.owner_key plus_one (some max_active)) t' in
    let (r, q) = key_writes-rows job job.idempotency_key (now - window_seconds) t'' in
    let s = slot_of-update o job.owner_key plus_one (some max_active) t' in
    let p = tally-put (counts o) job.id new t.rows in
    let k =
      slot_of-slots o (all_written (key_writes job job.idempotency_key (now - window_seconds)) t'')
        t'' q in
    unfold insert_writes all_written written counting in
    rw (r, k, s) (ground (arith, slot_of-rows o t d, p, active, absent))
