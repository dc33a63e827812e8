-- ===== src/Jobs/World/Effects.antt =====
-- What the actions of the other threads do to one job.
use auto_correlation.Prelude.{
  ℕ, String, ◌≡◌, refl, ◌∙◌, inl, inr, Bool, false, Option, none, some, if◌then◌else◌, Bool-cases,
  not, ◌&&◌, arith, str_eq, eq_iff,
}
use auto_correlation.Prelude.Dict.{put, survivor, lookup-put, lookup-pop}
use auto_correlation.Jobs.Model.{ExecutionJobState, ExecutionJob}
use auto_correlation.Jobs.Changes.{
  Notes, apply_state, claim, release_worker, cancel_if_active, mark_ready, claim_finalizing,
}
use auto_correlation.Jobs.Store.{
  JobStore, is_evictable, cleanup, count_active, find_by_idempotency_key, delete, create_if_allowed,
  mutate,
}
use auto_correlation.Jobs.Store.Laws.{
  job_at, IsWellFormed, live, map_job, map_result, written, KeepsId, cleanup-at,
  cleanup-IsWellFormed, get_lem, mutate_lem, mutate-at, mutate-IsWellFormed,
  create_if_allowed_store, put-IsWellFormed, delete-IsWellFormed,
}
use auto_correlation.Jobs.World.{
  Action, submit, poll, count, find_repeat, cancel, mark_cancelled, remove, report_ready, finalize,
  start, write, release, finish_delete, delete_execution_job, act,
}

-- Actions that other threads may take while a worker drives job `k`: new jobs have new ids, only its
-- own worker writes the job's states, hands its reports off and releases it, it is not finalized, and
-- it is deleted by a whole DELETE.
abbrev pub IsForeign : String → Action → Type 0
IsForeign k (submit job _ _) = str_eq job.id k ≡ false
IsForeign k (write i _ _) = str_eq i k ≡ false
IsForeign k (release i) = str_eq i k ≡ false
IsForeign k (remove i) = str_eq i k ≡ false
IsForeign k (report_ready i) = str_eq i k ≡ false
IsForeign k (finalize i _) = str_eq i k ≡ false
IsForeign k _ = Unit

pub apply_state-KeepsId :
    (state : ExecutionJobState) (notes : Notes) → KeepsId (apply_state state notes)
unfolding apply_state
apply_state-KeepsId state notes j = ground arith

pub claim-KeepsId : KeepsId claim
unfolding claim
claim-KeepsId j = ground arith

pub release_worker-KeepsId : KeepsId release_worker
unfolding release_worker
release_worker-KeepsId j = refl

pub cancel_if_active-KeepsId : KeepsId cancel_if_active
unfolding cancel_if_active
cancel_if_active-KeepsId j = ground arith

pub mark_ready-KeepsId : KeepsId mark_ready
unfolding mark_ready
mark_ready-KeepsId j = refl

pub claim_finalizing-KeepsId : (since : ℕ) → KeepsId (claim_finalizing since)
unfolding claim_finalizing
claim_finalizing-KeepsId since j = ground arith

not_cancelled : (j : ExecutionJob) → (cancel_if_active j).0 ≡ false → (cancel_if_active j).1 ≡ j
unfolding cancel_if_active
not_cancelled j e = ground arith

-- The DELETE endpoint on a live job: an active job is cancelled, a terminal one is removed
-- unless a worker still drives it.
abbrev pub after_delete : Option ExecutionJob → Option ExecutionJob
after_delete none = none
after_delete (some j) =
    if (cancel_if_active j).0
    then some (cancel_if_active j).1
    else if j.worker_active
    then some j
    else none

-- One action's effect on the job under `k`.
abbrev pub effect : ℕ → String → Action → Option ExecutionJob → Option ExecutionJob
effect now k (cancel i) o =
    if str_eq i k
    then after_delete (survivor (is_evictable now) o)
    else survivor (is_evictable now) o
effect now k (mark_cancelled i) o =
    if str_eq i k
    then map_job cancel_if_active (survivor (is_evictable now) o)
    else survivor (is_evictable now) o
effect now k (remove i) o = o
effect now k (start i) o =
    if str_eq i k
    then map_job claim (survivor (is_evictable now) o)
    else survivor (is_evictable now) o
effect now k _ o = survivor (is_evictable now) o

module _ (now : ℕ) (k : String) (s : JobStore) (wf : IsWellFormed s) where
  submit-at :
      (job : ExecutionJob) (window max_active : ℕ)
      → str_eq job.id k ≡ false
      → job_at k (create_if_allowed now job window max_active s).1 ≡ live now k s
  submit-at job window max_active e = elim (create_if_allowed_store now job window max_active s) [
    | inl p ↦ rw p (cleanup-at now s wf k)
    | inr p ↦ rw (p, lookup-put job.id k job (cleanup now s).jobs, e) (cleanup-at now s wf k)
  ]

  delete-at :
      (i : String)
      → job_at k (delete_execution_job (λ t. t) now i s).1
        ≡ (if str_eq i k then after_delete (live now i s) else live now k s)
  unfolding delete_execution_job delete
  delete-at i = rw (mutate_lem cancel_if_active now i s wf) (by_found (live now i s) refl)
    where
      by_found :
          (o : Option ExecutionJob)
          → live now i s ≡ o
          → job_at k
              (finish_delete i
                (map_result cancel_if_active o, written cancel_if_active o (cleanup now s))).1
            ≡ (if str_eq i k then after_delete o else live now k s)
      by_found none e = ground (arith, cleanup-at now s wf k, eq_iff i k)
      by_found (some j) e =
          let c = cancel_if_active j in
          let t = cleanup now s in
          ground (
            arith,
            cleanup-at now s wf k,
            lookup-pop i k (put c.1.id c.1 t.jobs),
            lookup-put c.1.id k c.1 t.jobs,
            cancel_if_active-KeepsId j,
            not_cancelled j,
            (cleanup-IsWellFormed now s wf).keyed i j (cleanup-at now s wf i ∙ e),
          )

  -- The effect of an action of the other threads, exactly.
  pub act-at : (a : Action) → IsForeign k a → job_at k (act now a s) ≡ effect now k a (job_at k s)
  unfolding act count_active find_by_idempotency_key
  act-at (submit job window max_active) f = submit-at job window max_active f
  act-at (poll i) f = rw (get_lem now s wf i, act) (cleanup-at now s wf k)
  act-at (count o) f = cleanup-at now s wf k
  act-at (find_repeat o key window) f = cleanup-at now s wf k
  act-at (mark_cancelled i) f =
      ground (arith, mutate-at cancel_if_active now i k s wf cancel_if_active-KeepsId, eq_iff i k)
  act-at (remove i) f = unfold delete in ground (arith, lookup-pop i k s.jobs)
  act-at (report_ready i) f = ground (arith, mutate-at mark_ready now i k s wf mark_ready-KeepsId)
  act-at (finalize i since) f =
      ground
        (arith, mutate-at (claim_finalizing since) now i k s wf (claim_finalizing-KeepsId since))
  act-at (cancel i) f = ground (arith, delete-at i, eq_iff i k)
  act-at (start i) f = ground (arith, mutate-at claim now i k s wf claim-KeepsId, eq_iff i k)
  act-at (write i state notes) f =
      ground
        (arith, mutate-at (apply_state state notes) now i k s wf (apply_state-KeepsId state notes))
  act-at (release i) f =
      ground (arith, mutate-at release_worker now i k s wf release_worker-KeepsId)

  finish_delete-IsWellFormed :
      (i : String) (o : Option (Bool × ExecutionJob)) (t : JobStore)
      → IsWellFormed t
      → IsWellFormed (finish_delete i (o, t)).1
  unfolding finish_delete
  finish_delete-IsWellFormed i none t wt = wt
  finish_delete-IsWellFormed i (some (c, j)) t wt =
      elim (Bool-cases (not c && not j.worker_active)) [
        | inl e ↦ rw e (delete-IsWellFormed i t wt)
        | inr e ↦ rw e wt
      ]

  pub act-IsWellFormed : (a : Action) → IsWellFormed (act now a s)
  unfolding act count_active find_by_idempotency_key delete_execution_job
  act-IsWellFormed (submit job window max_active) =
      elim (create_if_allowed_store now job window max_active s) [
        | inl p ↦ rw p (cleanup-IsWellFormed now s wf)
        | inr p ↦ rw p (put-IsWellFormed job (cleanup now s) (cleanup-IsWellFormed now s wf))
      ]
  act-IsWellFormed (poll i) = rw (get_lem now s wf i, act) (cleanup-IsWellFormed now s wf)
  act-IsWellFormed (count o) = cleanup-IsWellFormed now s wf
  act-IsWellFormed (cancel i) =
      finish_delete-IsWellFormed i (mutate now i cancel_if_active s).0
        (mutate now i cancel_if_active s).1 (mutate-IsWellFormed cancel_if_active now i s wf)
  act-IsWellFormed (find_repeat o key window) = cleanup-IsWellFormed now s wf
  act-IsWellFormed (mark_cancelled i) = mutate-IsWellFormed cancel_if_active now i s wf
  act-IsWellFormed (remove i) = delete-IsWellFormed i s wf
  act-IsWellFormed (report_ready i) = mutate-IsWellFormed mark_ready now i s wf
  act-IsWellFormed (finalize i since) = mutate-IsWellFormed (claim_finalizing since) now i s wf
  act-IsWellFormed (start i) = mutate-IsWellFormed claim now i s wf
  act-IsWellFormed (write i state notes) = mutate-IsWellFormed (apply_state state notes) now i s wf
  act-IsWellFormed (release i) = mutate-IsWellFormed release_worker now i s wf
