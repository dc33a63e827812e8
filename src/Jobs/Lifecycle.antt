-- ===== src/Jobs/Lifecycle.antt =====
-- The lifecycle of a job as a step relation on its states, and what is sound of a job record.
use auto_correlation.Prelude.{
  ◌≡◌, refl, ◌⊎◌, inl, inr, true, false, List, [], ◌∷◌, ◌++◌, is_some, not, ◌&&◌, Bool-cases, arith,
}
use auto_correlation.Jobs.Model.{
  ExecutionJobState, queued, validating, running_baseline, running_comparison, analyzing, ready,
  failed, cancelled, is_terminal, ExecutionJob, is_active, is_queued,
}
use auto_correlation.Jobs.Changes.{
  Notes, apply_state, cancel_if_active, release_worker, mark_ready, claim,
}
use auto_correlation.Jobs.World.Driven.{MayCancel}

infix 40 ◌⟶◌
pub data ◌⟶◌ : ExecutionJobState → ExecutionJobState → Type 0 where
  validate : queued ⟶ validating
  run_first : validating ⟶ running_baseline
  run_second : running_baseline ⟶ running_comparison
  analyse : running_comparison ⟶ analyzing
  finish : analyzing ⟶ ready
  fail : {s : ExecutionJobState} → is_terminal s ≡ false → s ⟶ failed
  cancel : {s : ExecutionJobState} → is_terminal s ≡ false → s ⟶ cancelled

-- `History h s`: the states of `h` were entered in order from QUEUED, and `s` was the last.
pub data History : List ExecutionJobState → ExecutionJobState → Type 0 where
  created : History [] queued
  enters :
      {h h' : List ExecutionJobState} {s t : ExecutionJobState}
      → History h s
      → s ⟶ t
      → h' ≡ h ++ t ∷ []
      → History h' t

pub record IsSound (j : ExecutionJob) : Type 0 where
  pub traced : History j.stage_history j.state
  pub cancel_final : j.cancel_requested ≡ true → is_active j ≡ false
  pub ready_analysed : j.state ≡ ready → is_some j.analysis_id ≡ true
  pub analysed_ready : is_some j.analysis_id ≡ true → j.state ≡ ready
  pub failed_coded : j.state ≡ failed → is_some j.error_code ≡ true

-- What the notes must hold for the state that they go with.
pub record Fits (t : ExecutionJobState) (notes : Notes) : Type 0 where
  pub ready_id : t ≡ ready → is_some notes.analysis_id ≡ true
  pub id_ready : is_some notes.analysis_id ≡ true → t ≡ ready
  pub failed_code : t ≡ failed → is_some notes.error_code ≡ true

pub cancel-IsSound : (j : ExecutionJob) → IsSound j → IsSound (cancel_if_active j).1
unfolding cancel_if_active
cancel-IsSound j s = by_state (Bool-cases (is_active j))
  where
    by_state : (is_active j ≡ true) ⊎ (is_active j ≡ false) → IsSound (cancel_if_active j).1
    by_state (inl e) = rw e (record {
      traced = enters s.traced (cancel (ground arith)) refl;
      cancel_final = λ _. refl;
      ready_analysed = λ p. cc;
      analysed_ready = λ p. ground (arith, s.analysed_ready p);
      failed_coded = λ p. cc;
    })
    by_state (inr e) = rw e s

pub MayCancel-IsSound : (j j' : ExecutionJob) → MayCancel j j' → IsSound j → IsSound j'
MayCancel-IsSound j j' (inl e) s = rw e s
MayCancel-IsSound j j' (inr (act, e)) s = rw e (cancel-IsSound j s)

-- A write of state `t` on a sound job that may enter `t`.
pub apply_state-IsSound :
    (t : ExecutionJobState) (notes : Notes) (j : ExecutionJob)
    → IsSound j
    → Fits t notes
    → (is_active j ≡ true → j.state ⟶ t)
    → IsSound (apply_state t notes j).1
unfolding apply_state
apply_state-IsSound t notes j s f enter =
    by_state (Bool-cases (is_active j)) (Bool-cases j.cancel_requested)
  where
    by_state :
        (is_active j ≡ true) ⊎ (is_active j ≡ false)
        → (j.cancel_requested ≡ true) ⊎ (j.cancel_requested ≡ false)
        → IsSound (apply_state t notes j).1
    by_state (inl e) (inl c) = absurd (ground (arith, s.cancel_final c))
    by_state (inl e) (inr c) =
        rw (e, c)
          (record {
            traced = enters s.traced (enter e) refl;
            cancel_final = λ p. cc;
            ready_analysed = λ p. ground (arith, f.ready_id p);
            analysed_ready = λ p. ground arith;
            failed_coded = λ p. ground (arith, f.failed_code p);
          })
    by_state (inr e) c = rw e s

-- Where the write leaves the job: in `t` if it was written, terminal otherwise.
pub apply_state_written :
    (t : ExecutionJobState) (notes : Notes) (j : ExecutionJob)
    → ((apply_state t notes j).0.written ≡ true → (apply_state t notes j).1.state ≡ t)
      × ((apply_state t notes j).0.written ≡ false → is_active (apply_state t notes j).1 ≡ false)
unfolding apply_state
apply_state_written t notes j = (λ h. ground arith, λ h. ground arith)

pub apply_state-worker_active :
    (t : ExecutionJobState) (notes : Notes) (j : ExecutionJob)
    → (apply_state t notes j).1.worker_active ≡ j.worker_active
unfolding apply_state
apply_state-worker_active t notes j = ground arith

pub release_worker-IsSound : (j : ExecutionJob) → IsSound j → IsSound (release_worker j).1
unfolding release_worker
release_worker-IsSound j s = record {
  traced = s.traced;
  cancel_final = s.cancel_final;
  ready_analysed = s.ready_analysed;
  analysed_ready = s.analysed_ready;
  failed_coded = s.failed_coded;
}

pub mark_ready-IsSound : (j : ExecutionJob) → IsSound j → IsSound (mark_ready j).1
unfolding mark_ready
mark_ready-IsSound j s = record {
  traced = s.traced;
  cancel_final = s.cancel_final;
  ready_analysed = s.ready_analysed;
  analysed_ready = s.analysed_ready;
  failed_coded = s.failed_coded;
}

pub claim-IsSound : (j : ExecutionJob) → IsSound j → IsSound (claim j).1
unfolding claim
claim-IsSound j s = by_test (Bool-cases (is_queued j.state && not j.worker_active))
  where
    by_test :
        ((is_queued j.state && not j.worker_active) ≡ true)
          ⊎ ((is_queued j.state && not j.worker_active) ≡ false)
        → IsSound (claim j).1
    by_test (inl e) = rw e (record {
      traced = s.traced;
      cancel_final = s.cancel_final;
      ready_analysed = s.ready_analysed;
      analysed_ready = s.analysed_ready;
      failed_coded = s.failed_coded;
    })
    by_test (inr e) = rw e s
