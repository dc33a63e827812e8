-- ===== src/Jobs/Store/Laws.antt =====
-- What the operations of the store leave under each id.
use auto_correlation.Prelude.{
  ◌⊎◌, ℕ, String, ◌≡◌, refl, ◌∙◌, sym, Bool, false, Option, none, some, if◌then◌else◌, arith,
  str_eq, eq_iff,
}
use auto_correlation.Prelude.Dict.{
  lookup, put, HasUniqueKeys, survivor, lookup-put, lookup-pop, lookup-pop_where,
}
use auto_correlation.Prelude.Dict.Counts.{
  put-HasUniqueKeys, pop-HasUniqueKeys, pop_where-HasUniqueKeys,
}
use auto_correlation.Jobs.Model.{ExecutionJob}
use auto_correlation.Jobs.Store.{
  JobStore, delete, create_if_allowed, is_evictable, cleanup, keep_or_evict, get, mutate_found,
  mutate,
}

-- The job that the table holds under an id, swept or not.
abbrev pub job_at : String → JobStore → Option ExecutionJob
job_at job_id s = lookup job_id s.jobs

-- Ids are unique, and each job stands under its own.
pub record IsWellFormed (s : JobStore) : Type 0 where
  pub unique : HasUniqueKeys s.jobs
  pub keyed : (k : String) (j : ExecutionJob) → job_at k s ≡ some j → j.id ≡ k

-- The job that an access finds: none if it is missing or evictable.
abbrev pub live : ℕ → String → JobStore → Option ExecutionJob
live now job_id s = survivor (is_evictable now) (job_at job_id s)

abbrev pub map_job :
    {A : Type 0} → (ExecutionJob → A × ExecutionJob) → Option ExecutionJob → Option ExecutionJob
map_job fn none = none
map_job fn (some j) = some (fn j).1

abbrev pub map_result :
    {A : Type 0}
    → (ExecutionJob → A × ExecutionJob)
    → Option ExecutionJob
    → Option (A × ExecutionJob)
map_result fn none = none
map_result fn (some j) = some (fn j)

survivor_keeps :
    (p : ExecutionJob → Bool) (o : Option ExecutionJob) (j : ExecutionJob)
    → survivor p o ≡ some j
    → (o ≡ some j) × (p j ≡ false)
survivor_keeps p none j e = cc
survivor_keeps p (some i) j e = ground arith

module _ (now : ℕ) (s : JobStore) (wf : IsWellFormed s) where
  pub cleanup-at : (k : String) → job_at k (cleanup now s) ≡ live now k s
  unfolding cleanup
  cleanup-at k = lookup-pop_where (is_evictable now) k s.jobs wf.unique

  pub cleanup-IsWellFormed : IsWellFormed (cleanup now s)
  unfolding cleanup
  cleanup-IsWellFormed = record {
    unique = pop_where-HasUniqueKeys (is_evictable now) s.jobs wf.unique;
    keyed = λ k j e.
        wf.keyed k j (survivor_keeps (is_evictable now) (job_at k s) j (sym (cleanup-at k) ∙ e)).0;
  }

  keep_or_evict-live :
      (k : String) (o : Option ExecutionJob) (t : JobStore)
      → keep_or_evict now k (survivor (is_evictable now) o) t ≡ (survivor (is_evictable now) o, t)
  unfolding keep_or_evict
  keep_or_evict-live k none t = refl
  keep_or_evict-live k (some j) t = ground arith

  -- `get` returns the live job under the id, and leaves the swept table.
  pub get_lem : (k : String) → get now k s ≡ (live now k s, cleanup now s)
  unfolding get
  get_lem k = rw (cleanup-at k) (keep_or_evict-live k (job_at k s) (cleanup now s))

module _ {A : Type 0} (fn : ExecutionJob → A × ExecutionJob) where
  -- The change leaves the job's id.
  abbrev pub KeepsId : Type 0
  KeepsId = (j : ExecutionJob) → (fn j).1.id ≡ j.id

  -- The table after `mutate`, by what it found.
  abbrev pub written : Option ExecutionJob → JobStore → JobStore
  written none s = s
  written (some j) s = record s { jobs = put (fn j).1.id (fn j).1 s.jobs }

  pub mutate_lem :
      (now : ℕ) (k : String) (s : JobStore)
      → IsWellFormed s
      → mutate now k fn s ≡ (map_result fn (live now k s), written (live now k s) (cleanup now s))
  unfolding mutate
  mutate_lem now k s wf = rw (get_lem now s wf k) (split (live now k s))
    where
      split :
          (o : Option ExecutionJob)
          → mutate_found fn (o, cleanup now s) ≡ (map_result fn o, written o (cleanup now s))
      split none = refl
      split (some j) = refl

  written-IsWellFormed :
      (o : Option ExecutionJob) (s : JobStore) → IsWellFormed s → IsWellFormed (written o s)
  written-IsWellFormed none s wf = wf
  written-IsWellFormed (some j) s wf = record {
    unique = put-HasUniqueKeys (fn j).1.id (fn j).1 s.jobs wf.unique;
    keyed = λ k i e.
        ground
          (arith, wf.keyed k i, lookup-put (fn j).1.id k (fn j).1 s.jobs, eq_iff (fn j).1.id k);
  }

  pub mutate-IsWellFormed :
      (now : ℕ) (k : String) (s : JobStore) → IsWellFormed s → IsWellFormed (mutate now k fn s).1
  mutate-IsWellFormed now k s wf =
      rw (mutate_lem now k s wf)
        (written-IsWellFormed (live now k s) (cleanup now s) (cleanup-IsWellFormed now s wf))

  -- `mutate` changes the job under its id, if that is live, and sweeps the rest.
  pub mutate-at :
      (now : ℕ) (k i : String) (s : JobStore)
      → IsWellFormed s
      → KeepsId
      → job_at i (mutate now k fn s).1
        ≡ (if str_eq k i then map_job fn (live now k s) else live now i s)
  mutate-at now k i s wf keeps = rw (mutate_lem now k s wf) (by_found (live now k s) refl)
    where
      by_found :
          (o : Option ExecutionJob)
          → live now k s ≡ o
          → job_at i (written o (cleanup now s))
            ≡ (if str_eq k i then map_job fn o else live now i s)
      by_found none e = ground (arith, cleanup-at now s wf i, eq_iff k i)
      by_found (some j) e = ground (
        arith,
        cleanup-at now s wf i,
        lookup-put (fn j).1.id i (fn j).1 (cleanup now s).jobs,
        keeps j,
        (cleanup-IsWellFormed now s wf).keyed k j (cleanup-at now s wf k ∙ e),
      )

-- The store that `create_if_allowed` leaves: swept, and with the job if it was admitted.
pub create_if_allowed_store :
    (now : ℕ) (job : ExecutionJob) (window max_active : ℕ) (s : JobStore)
    → ((create_if_allowed now job window max_active s).1 ≡ cleanup now s)
      ⊎ ((create_if_allowed now job window max_active s).1
          ≡ record (cleanup now s) { jobs = put job.id job (cleanup now s).jobs })
unfolding create_if_allowed
create_if_allowed_store now job window max_active s = ground arith

pub put-IsWellFormed :
    (job : ExecutionJob) (s : JobStore)
    → IsWellFormed s
    → IsWellFormed (record s { jobs = put job.id job s.jobs })
put-IsWellFormed job s wf = written-IsWellFormed (λ j. (tt {0}, j)) (some job) s wf

pub delete-IsWellFormed : (k : String) (s : JobStore) → IsWellFormed s → IsWellFormed (delete k s).1
unfolding delete
delete-IsWellFormed k s wf = record {
  unique = pop-HasUniqueKeys k s.jobs wf.unique;
  keyed = λ i j e. ground (arith, wf.keyed i j, lookup-pop k i s.jobs);
}
