-- ===== src/Jobs/World/Cap.antt =====
-- The owner's cap on active jobs under every order of the store's operations.
use auto_correlation.Prelude.{
  ℕ, ◌+◌, ◌≤◌, String, ◌≡◌, ◌⊎◌, inl, inr, refl, Bool, Option, none, some, List, [], ◌∷◌, All,
  Bool-cases, arith, ◌∙◌, ap, subst, str_eq, eq_iff,
}
use auto_correlation.Prelude.Dict.{lookup, put}
use auto_correlation.Prelude.Dict.Counts.{weight, tally-put, tally-pop-le, tally-pop_where-le}
use auto_correlation.Jobs.Model.{ExecutionJobState, ExecutionJob}
use auto_correlation.Jobs.Changes.{
  Notes, apply_state, claim, release_worker, cancel_if_active, mark_ready, claim_finalizing,
}
use auto_correlation.Jobs.Store.{
  JobStore, is_evictable, new, cleanup, delete, counts, count_active, find_by_idempotency_key,
  count_active_locked, mutate, create_if_allowed,
}
use auto_correlation.Jobs.Store.Laws.{
  job_at, IsWellFormed, KeepsId, live, written, cleanup-at, cleanup-IsWellFormed, get_lem,
  mutate_lem, create_if_allowed_store,
}
use auto_correlation.Jobs.Store.Admission.{Admitted, create_if_allowed_cases}
use auto_correlation.Jobs.World.{
  Action, submit, poll, count, find_repeat, cancel, mark_cancelled, remove, report_ready, finalize,
  start, write, release, finish_delete, delete_execution_job, act, act_all, Interlude,
}
use auto_correlation.Jobs.World.Effects.{
  act-IsWellFormed, apply_state-KeepsId, claim-KeepsId, release_worker-KeepsId,
  cancel_if_active-KeepsId, mark_ready-KeepsId, claim_finalizing-KeepsId,
}

abbrev active : String → JobStore → ℕ
active o s = count_active_locked o s

-- A change that never makes a job count that did not.
abbrev StartsNone : {A : Type 0} → (ExecutionJob → A × ExecutionJob) → Type 0
StartsNone fn =
    (o : String) (j : ExecutionJob) → weight (counts o) (some (fn j).1) ≤ weight (counts o) (some j)

apply_state-StartsNone : (t : ExecutionJobState) (notes : Notes) → StartsNone (apply_state t notes)
unfolding apply_state
apply_state-StartsNone t notes o j = ground arith

claim-StartsNone : StartsNone claim
unfolding claim
claim-StartsNone o j = ground arith

release_worker-StartsNone : StartsNone release_worker
unfolding release_worker
release_worker-StartsNone o j = ground arith

cancel_if_active-StartsNone : StartsNone cancel_if_active
unfolding cancel_if_active
cancel_if_active-StartsNone o j = ground arith

mark_ready-StartsNone : StartsNone mark_ready
unfolding mark_ready
mark_ready-StartsNone o j = ground arith

claim_finalizing-StartsNone : (since : ℕ) → StartsNone (claim_finalizing since)
unfolding claim_finalizing
claim_finalizing-StartsNone since o j = ground arith

-- Every submission is made under the same cap, `max_concurrent_jobs_per_owner`.
abbrev pub CapIs : ℕ → Action → Type 0
CapIs cap (submit job window max_active) = max_active ≡ cap
CapIs cap _ = Unit

new-IsWellFormed : (ttl : ℕ) → IsWellFormed (new ttl)
unfolding new lookup
new-IsWellFormed ttl = record { unique = tt; keyed = λ k j e. absurd (cc) }

act_all-IsWellFormed :
    (now : ℕ) (l : List Action) (s : JobStore) → IsWellFormed s → IsWellFormed (act_all now l s)
unfolding act_all
act_all-IsWellFormed now [] s wf = wf
act_all-IsWellFormed now (a ∷ l) s wf =
    act_all-IsWellFormed now l (act now a s) (act-IsWellFormed now "" s wf a)

active-cleanup-le : (now : ℕ) (o : String) (s : JobStore) → active o (cleanup now s) ≤ active o s
unfolding cleanup count_active_locked
active-cleanup-le now o s = tally-pop_where-le (counts o) (is_evictable now) s.jobs

module _ (now : ℕ) (o : String) (s : JobStore) (wf : IsWellFormed s) where
  mutate-active-le :
      {A : Type 0} (fn : ExecutionJob → A × ExecutionJob) (k : String)
      → KeepsId fn
      → StartsNone fn
      → active o (mutate now k fn s).1 ≤ active o s
  mutate-active-le fn k keeps starts = rw (mutate_lem fn now k s wf) (by_found (live now k s) refl)
    where
      by_found :
          (f : Option ExecutionJob)
          → live now k s ≡ f
          → active o (written fn f (cleanup now s)) ≤ active o s
      by_found none e = active-cleanup-le now o s
      by_found (some j) e =
          let t = cleanup now s in
          let here : job_at k t ≡ some j = cleanup-at now s wf k ∙ e in
          let same : (fn j).1.id ≡ k = keeps j ∙ (cleanup-IsWellFormed now s wf).keyed k j here in
          unfold count_active_locked in
          ground (
            arith,
            tally-put (counts o) (fn j).1.id (fn j).1 t.jobs,
            starts o j,
            active-cleanup-le now o s,
          )

  delete-active-le : (k : String) → active o (delete_execution_job (λ t. t) now k s).1 ≤ active o s
  unfolding delete_execution_job
  delete-active-le k =
      let m = mutate now k cancel_if_active s in
      omega (
        arith,
        mutate-active-le cancel_if_active k cancel_if_active-KeepsId cancel_if_active-StartsNone,
        ended m.0 m.1,
      )
    where
      ended :
          (f : Option (Bool × ExecutionJob)) (t : JobStore)
          → active o (finish_delete k (f, t)).1 ≤ active o t
      ended none t = unfold finish_delete in omega arith
      ended (some (c, j)) t =
          unfold finish_delete delete count_active_locked in
          ground (arith, tally-pop-le (counts o) k t.jobs)

  remove-active-le : (k : String) → active o (delete k s).1 ≤ active o s
  unfolding delete count_active_locked
  remove-active-le k = tally-pop-le (counts o) k s.jobs

  -- A submission under the cap, for the submitter's count and for any other owner's.
  submit-active-le :
      (job : ExecutionJob) (window max_active : ℕ)
      → active o s ≤ max_active
      → active o (create_if_allowed now job window max_active s).1 ≤ max_active
  submit-active-le job window max_active h =
      elim (create_if_allowed_cases now job window max_active s) [
        | inl r ↦ omega (arith, active-cleanup-le now o s, ap (λ t. active o t.1) r.answer)
        | inr (inl r) ↦ omega (arith, active-cleanup-le now o s, ap (λ t. active o t.1) r.answer)
        | inr (inr r) ↦ by_owner (create_if_allowed_store now job window max_active s) r
      ]
    where
      by_owner :
          ((create_if_allowed now job window max_active s).1 ≡ cleanup now s)
            ⊎ ((create_if_allowed now job window max_active s).1
                ≡ record (cleanup now s) { jobs = put job.id job (cleanup now s).jobs })
          → Admitted now job window max_active s (create_if_allowed now job window max_active s)
          → active o (create_if_allowed now job window max_active s).1 ≤ max_active
      by_owner (inl e) r = rw e (omega (arith, active-cleanup-le now o s))
      by_owner (inr e) r = elim (Bool-cases (str_eq job.owner_key o)) [
        | inl same ↦
            let p : job.owner_key ≡ o = ground (arith, eq_iff job.owner_key o) in
            subst (λ x. active x (create_if_allowed now job window max_active s).1 ≤ max_active) p
              r.within
        | inr differs ↦ rw e (
            unfold count_active_locked in
            ground (
              arith,
              tally-put (counts o) job.id job (cleanup now s).jobs,
              active-cleanup-le now o s,
            ))
      ]

  act-active-le :
      (a : Action) (cap : ℕ) → CapIs cap a → active o s ≤ cap → active o (act now a s) ≤ cap
  unfolding act count_active find_by_idempotency_key
  act-active-le (submit job window max_active) cap e h = rw e (submit-active-le job window cap h)
  act-active-le (poll k) cap e h =
      rw (get_lem now s wf k, act) (omega (arith, active-cleanup-le now o s))
  act-active-le (count q) cap e h = omega (arith, active-cleanup-le now o s)
  act-active-le (find_repeat q key window) cap e h = omega (arith, active-cleanup-le now o s)
  act-active-le (mark_cancelled k) cap e h = omega (
    arith,
    mutate-active-le cancel_if_active k cancel_if_active-KeepsId cancel_if_active-StartsNone,
  )
  act-active-le (remove k) cap e h = omega (arith, remove-active-le k)
  act-active-le (report_ready k) cap e h =
      omega (arith, mutate-active-le mark_ready k mark_ready-KeepsId mark_ready-StartsNone)
  act-active-le (finalize k since) cap e h = omega (
    arith,
    mutate-active-le (claim_finalizing since) k (claim_finalizing-KeepsId since)
        (claim_finalizing-StartsNone since),
  )
  act-active-le (cancel k) cap e h = omega (arith, delete-active-le k)
  act-active-le (start k) cap e h =
      omega (arith, mutate-active-le claim k claim-KeepsId claim-StartsNone)
  act-active-le (write k t notes) cap e h = omega (
    arith,
    mutate-active-le (apply_state t notes) k (apply_state-KeepsId t notes)
        (apply_state-StartsNone t notes),
  )
  act-active-le (release k) cap e h =
      omega
        (arith, mutate-active-le release_worker k release_worker-KeepsId release_worker-StartsNone)

act_all-active-le :
    (now cap : ℕ) (o : String) (l : List Action) (s : JobStore)
    → All (CapIs cap) l
    → IsWellFormed s
    → active o s ≤ cap
    → active o (act_all now l s) ≤ cap
unfolding act_all
act_all-active-le now cap o [] s c wf h = h
act_all-active-le now cap o (a ∷ l) s c wf h =
    act_all-active-le now cap o l (act now a s) c.1 (act-IsWellFormed now o s wf a)
      (act-active-le now o s wf a cap c.0 h)

-- Timed batches of operations, in order.
abbrev pub run_batches : ℕ → List Interlude → JobStore → JobStore
run_batches now [] s = s
run_batches now (i ∷ r) s = run_batches (now + i.elapsed) r (act_all (now + i.elapsed) i.actions s)

batches-active-le :
    (now cap : ℕ) (o : String) (l : List Interlude) (s : JobStore)
    → All (λ i. All (CapIs cap) i.actions) l
    → IsWellFormed s
    → active o s ≤ cap
    → active o (run_batches now l s) ≤ cap
batches-active-le now cap o [] s c wf h = h
batches-active-le now cap o (i ∷ r) s c wf h =
    batches-active-le (now + i.elapsed) cap o r (act_all (now + i.elapsed) i.actions s) c.1
      (act_all-IsWellFormed (now + i.elapsed) i.actions s wf)
      (act_all-active-le (now + i.elapsed) cap o i.actions s c.0 wf h)

-- From an empty store, under any interleaving, by any number of threads at any times, of the
-- operations that the application makes on it, no owner ever has more active jobs than the cap:
-- submissions, all under that cap, polls, counts, look-ups of a repeat, claims, state writes,
-- hand-offs, releases, claims to finalize, cancellations, and deletions, apart from the cancellation
-- that went before or right after it. The store's `create` and `update`, which insert without a
-- check and which only tests call, are not among them. A cancelled job counts until its worker is
-- gone.
pub owner_cap :
    (ttl now cap : ℕ) (owner : String) (l : List Interlude)
    → All (λ i. All (CapIs cap) i.actions) l
    → count_active_locked owner (run_batches now l (new ttl)) ≤ cap
owner_cap ttl now cap owner l c =
    batches-active-le now cap owner l (new ttl) c (new-IsWellFormed ttl)
      (unfold count_active_locked new in omega arith)
