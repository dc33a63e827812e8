-- ===== src/Jobs/Service/Holding.antt =====
-- A worker in the middle of `run_job`: it drives a sound job, and keeps doing so through each of
-- its accesses to the store.
use auto_correlation.Prelude.{
  ◌≡◌, refl, sym, ◌∙◌, ◌⊎◌, inl, inr, String, Bool, true, false, some, arith, subst,
}
use auto_correlation.Jobs.Model.{
  ExecutionJobState, failed, RunnerCall, returns, raises, polls, ExecutionJob, is_active,
}
use auto_correlation.Jobs.Changes.{Notes, apply_state, cancel_if_active}
use auto_correlation.Jobs.Store.{get}
use auto_correlation.Jobs.World.{World, pause, access}
use auto_correlation.Jobs.World.Effects.{apply_state-KeepsId}
use auto_correlation.Jobs.World.Driven.{
  MayCancel, Drives, AllForeign, pause-Drives, mutate-Drives, get-Drives,
}
use auto_correlation.Jobs.Lifecycle.{
  ◌⟶◌, fail, IsSound, Fits, MayCancel-IsSound, apply_state-IsSound, apply_state_written,
  apply_state-worker_active,
}
use auto_correlation.Jobs.Service.{write_state, should_cancel, run_safely}

-- The worker drives a sound job of which `P` holds.
pub record Holds (k : String) (P : ExecutionJob → Type 0) (w : World) : Type 0 where
  pub job : ExecutionJob
  pub drives : Drives k job w.store
  pub foreign : AllForeign k w.others
  pub sound : IsSound job
  pub here : P job

-- A cancellation by the owner does not disturb it.
abbrev pub IsStable : (ExecutionJob → Type 0) → Type 0
IsStable P = (j j' : ExecutionJob) → MayCancel j j' → P j → P j'

-- In state `s`, or terminal already.
abbrev pub Stage : ExecutionJobState → ExecutionJob → Type 0
Stage s j = (j.state ≡ s) ⊎ (is_active j ≡ false)

abbrev pub Over : ExecutionJob → Type 0
Over j = is_active j ≡ false

pub Stage-IsStable : (s : ExecutionJobState) → IsStable (Stage s)
unfolding cancel_if_active
Stage-IsStable s j j' (inl e) h = rw e h
Stage-IsStable s j j' (inr (a, e)) h = inr (rw e (ground arith))

pub Over-IsStable : IsStable Over
Over-IsStable j j' (inl e) h = rw e h
Over-IsStable j j' (inr (a, e)) h = absurd (ground arith)

abbrev pub Always : ExecutionJob → Type 0
Always j = Unit {0}

pub pause-Holds :
    {k : String} {P : ExecutionJob → Type 0} {w : World}
    → IsStable P
    → Holds k P w
    → Holds k P (pause w)
pause-Holds {k} {P} {w} stable h =
    let (j', m, d, f) = pause-Drives k h.job w h.foreign h.drives in
    record {
      job = j';
      drives = d;
      foreign = f;
      sound = MayCancel-IsSound h.job j' m h.sound;
      here = stable h.job j' m h.here;
    }

-- The states that a job of which `P` holds may enter.
abbrev pub MayEnter : (ExecutionJob → Type 0) → ExecutionJobState → Type 0
MayEnter P t = (j : ExecutionJob) → P j → is_active j ≡ true → j.state ⟶ t

pub Stage-MayEnter : {s t : ExecutionJobState} → s ⟶ t → MayEnter (Stage s) t
Stage-MayEnter {s} {t} e j (inl p) a = subst (λ x. x ⟶ t) (sym p) e
Stage-MayEnter e j (inr p) a = absurd (ground arith)

pub any-MayEnter-failed : (P : ExecutionJob → Type 0) → MayEnter P failed
any-MayEnter-failed P j h a = fail (ground arith)

-- What holds after a write of `t` that reports `written`.
abbrev pub After : ExecutionJobState → Bool → ExecutionJob → Type 0
After t true j = j.state ≡ t
After t false j = is_active j ≡ false

After_lem :
    (t : ExecutionJobState) (b : Bool) (j : ExecutionJob)
    → (b ≡ true → j.state ≡ t)
    → (b ≡ false → is_active j ≡ false)
    → After t b j
After_lem t true j p q = p refl
After_lem t false j p q = q refl

-- A write keeps the worker on a sound job, in the state written or terminal.
pub write_state-Holds :
    (k : String) (P : ExecutionJob → Type 0) (t : ExecutionJobState) (notes : Notes) (w : World)
    → IsStable P
    → MayEnter P t
    → Fits t notes
    → Holds k P w
    → Holds k (After t (write_state k t notes w).0) (write_state k t notes w).1
unfolding write_state access
write_state-Holds k P t notes w stable enter fits h =
    let p = pause-Holds stable h in
    let fn = apply_state t notes in
    let (found, d) =
      mutate-Drives fn (pause w).clock k p.job (pause w).store (apply_state-KeepsId t notes)
        (apply_state-worker_active t notes p.job ∙ p.drives.live_worker) p.drives in
    record {
      job = (fn p.job).1;
      drives = d;
      foreign = p.foreign;
      sound = apply_state-IsSound t notes p.job p.sound fits (enter p.job p.here);
      here = rw found (
          After_lem t (fn p.job).0.written (fn p.job).1 (apply_state_written t notes p.job).0
            (apply_state_written t notes p.job).1);
    }

pub get-Holds :
    (k : String) (P : ExecutionJob → Type 0) (w : World)
    → IsStable P
    → Holds k P w
    → Holds k P (access (λ now. get now k) w).1
unfolding access
get-Holds k P w stable h =
    let p = pause-Holds stable h in
    record {
      job = p.job;
      drives = (get-Drives (pause w).clock k p.job (pause w).store p.drives).1;
      foreign = p.foreign;
      sound = p.sound;
      here = p.here;
    }

pub run_safely-Holds :
    (call : RunnerCall) (k : String) (P : ExecutionJob → Type 0) (w : World)
    → IsStable P
    → Holds k P w
    → Holds k P (run_safely call k w).1
unfolding run_safely should_cancel
run_safely-Holds (returns o) k P w stable h = h
run_safely-Holds raises k P w stable h = h
run_safely-Holds (polls next) k P w stable h =
    run_safely-Holds (next (should_cancel k w).0) k P (should_cancel k w).1 stable
      (get-Holds k P w stable h)

-- The driven job is there to be read.
pub get-finds :
    (k : String) (P : ExecutionJob → Type 0) (w : World)
    → IsStable P
    → Holds k P w
    → (j : ExecutionJob) × ((access (λ now. get now k) w).0 ≡ some j)
unfolding access
get-finds k P w stable h =
    let p = pause-Holds stable h in
    (p.job, (get-Drives (pause w).clock k p.job (pause w).store p.drives).0)
