-- ===== src/Jobs/World/Driven.antt =====
-- A job that a worker drives stays in the store whatever the other threads do, and all they can
-- do to it is cancel it.
use auto_correlation.Prelude.{
  ℕ, ◌+◌, String, ◌≡◌, refl, ◌∙◌, ◌⊎◌, inl, inr, true, false, some, List, [], ◌∷◌, All, Bool-cases,
  arith, str_eq, eq_refl, ap,
}
use auto_correlation.Prelude.Dict.{survivor}
use auto_correlation.Jobs.Model.{ExecutionJob, is_active}
use auto_correlation.Jobs.Changes.{claim, cancel_if_active}
use auto_correlation.Jobs.Store.{JobStore, is_evictable, mutate, get}
use auto_correlation.Jobs.Store.Laws.{
  job_at, IsWellFormed, KeepsId, live, mutate_lem, mutate-at, mutate-IsWellFormed, get_lem,
  cleanup-at, cleanup-IsWellFormed,
}
use auto_correlation.Jobs.World.{
  Action, cancel, mark_cancelled, remove, start, act, act_all, Interlude, World, interlude, pause,
}
use auto_correlation.Jobs.World.Effects.{IsForeign, after_delete, effect, act-at, act-IsWellFormed}

-- The job as it was, or cancelled by its owner.
abbrev pub MayCancel : ExecutionJob → ExecutionJob → Type 0
MayCancel j j' = (j' ≡ j) ⊎ ((is_active j ≡ true) × (j' ≡ (cancel_if_active j).1))

pub cancel_once : (j : ExecutionJob) → is_active (cancel_if_active j).1 ≡ false
unfolding cancel_if_active
cancel_once j = ground arith

pub MayCancel-trans : (a b c : ExecutionJob) → MayCancel a b → MayCancel b c → MayCancel a c
MayCancel-trans a b c (inl p) (inl q) = inl (q ∙ p)
MayCancel-trans a b c (inl p) (inr (act, q)) = inr (ground arith, ground arith)
MayCancel-trans a b c (inr (act, p)) (inl q) = inr (act, q ∙ p)
MayCancel-trans a b c (inr (act, p)) (inr (act', q)) = absurd (ground (arith, cancel_once a))

pub MayCancel-worker_active :
    (a b : ExecutionJob) → MayCancel a b → a.worker_active ≡ true → b.worker_active ≡ true
unfolding cancel_if_active
MayCancel-worker_active a b m h = ground arith

pub MayCancel-cancel : (j : ExecutionJob) → MayCancel j (cancel_if_active j).1
MayCancel-cancel j = elim (Bool-cases (is_active j)) [
  | inl e ↦ inr (e, refl)
  | inr e ↦ inl (unfold cancel_if_active in ground arith)
]

delete_driven :
    (j : ExecutionJob)
    → j.worker_active ≡ true
    → after_delete (some j) ≡ some (cancel_if_active j).1
unfolding cancel_if_active
delete_driven j h = ground arith

pub live_driven :
    (now : ℕ) (j : ExecutionJob)
    → j.worker_active ≡ true
    → survivor (is_evictable now) (some j) ≡ some j
live_driven now j h = ground arith

claim_driven : (j : ExecutionJob) → j.worker_active ≡ true → (claim j).1 ≡ j
unfolding claim
claim_driven j h = ground arith

-- The effect of one action on a driven job.
driven_effect :
    (now : ℕ) (k : String) (a : Action) (j : ExecutionJob)
    → j.worker_active ≡ true
    → (j' : ExecutionJob) × (effect now k a (some j) ≡ some j') × MayCancel j j'
driven_effect now k (cancel i) j h = elim (Bool-cases (str_eq i k)) [
  | inl e ↦ (
    (cancel_if_active j).1,
    ground (arith, live_driven now j h, delete_driven j h),
    MayCancel-cancel j,
  )
  | inr e ↦ (j, ground arith, inl refl)
]
driven_effect now k (mark_cancelled i) j h = elim (Bool-cases (str_eq i k)) [
  | inl e ↦ ((cancel_if_active j).1, ground (arith, live_driven now j h), MayCancel-cancel j)
  | inr e ↦ (j, ground arith, inl refl)
]
driven_effect now k (remove i) j h = (j, refl, inl refl)
driven_effect now k (start i) j h = (j, ground (arith, claim_driven j h), inl refl)
driven_effect now k _ j h = (j, live_driven now j h, inl refl)

-- The driven job `j` in the store.
pub record Drives (k : String) (j : ExecutionJob) (s : JobStore) : Type 0 where
  pub well_formed : IsWellFormed s
  pub present : job_at k s ≡ some j
  pub live_worker : j.worker_active ≡ true

act-Drives :
    (now : ℕ) (k : String) (a : Action) (j : ExecutionJob) (s : JobStore)
    → IsForeign k a
    → Drives k j s
    → (j' : ExecutionJob) × MayCancel j j' × Drives k j' (act now a s)
act-Drives now k a j s f d =
    let (j', e, m) = driven_effect now k a j d.live_worker in
    (
      j',
      m,
      record {
        well_formed = act-IsWellFormed now k s d.well_formed a;
        present = act-at now k s d.well_formed a f ∙ rw d.present e;
        live_worker = MayCancel-worker_active j j' m d.live_worker;
      },
    )

act_all-Drives :
    (now : ℕ) (k : String) (l : List Action) (j : ExecutionJob) (s : JobStore)
    → All (IsForeign k) l
    → Drives k j s
    → (j' : ExecutionJob) × MayCancel j j' × Drives k j' (act_all now l s)
unfolding act_all
act_all-Drives now k [] j s f d = (j, inl refl, d)
act_all-Drives now k (a ∷ l) j s f d =
    let (j1, m1, d1) = act-Drives now k a j s f.0 d in
    let (j2, m2, d2) = act_all-Drives now k l j1 (act now a s) f.1 d1 in
    (j2, MayCancel-trans j j1 j2 m1 m2, d2)

-- All that is to come from the other threads is foreign to job `k`.
abbrev pub AllForeign : String → List Interlude → Type 0
AllForeign k = All (λ i. All (IsForeign k) i.actions)

-- While the others take their turn, a driven job stays driven.
pub pause-Drives :
    (k : String) (j : ExecutionJob) (w : World)
    → AllForeign k w.others
    → Drives k j w.store
    → (j' : ExecutionJob) × MayCancel j j'
      × Drives k j' (pause w).store
      × AllForeign k (pause w).others
unfolding pause
pause-Drives k j w f d = by_turn w.others f
  where
    by_turn :
        (o : List Interlude)
        → AllForeign k o
        → (j' : ExecutionJob) × MayCancel j j'
          × Drives k j' (interlude o w).store
          × AllForeign k (interlude o w).others
    by_turn [] g = (j, inl refl, d, f)
    by_turn (i ∷ r) g =
        let (j', m, d') = act_all-Drives (w.clock + i.elapsed) k i.actions j w.store g.0 d in
        (j', m, d', g.1)

-- The worker's own change of a driven job, which keeps the worker on it.
pub mutate-Drives :
    {A : Type 0} (fn : ExecutionJob → A × ExecutionJob) (now : ℕ) (k : String) (j : ExecutionJob)
    (s : JobStore)
    → KeepsId fn
    → (fn j).1.worker_active ≡ true
    → Drives k j s
    → ((mutate now k fn s).0 ≡ some (fn j)) × Drives k (fn j).1 (mutate now k fn s).1
mutate-Drives fn now k j s keeps active d =
    let found : live now k s ≡ some j =
      ap (survivor (is_evictable now)) d.present ∙ live_driven now j d.live_worker in
    (
      rw (mutate_lem fn now k s d.well_formed, found) refl,
      record {
        well_formed = mutate-IsWellFormed fn now k s d.well_formed;
        present = mutate-at fn now k k s d.well_formed keeps ∙ rw (eq_refl, found) refl;
        live_worker = active;
      },
    )

-- A worker's read of the job that it drives.
pub get-Drives :
    (now : ℕ) (k : String) (j : ExecutionJob) (s : JobStore)
    → Drives k j s
    → ((get now k s).0 ≡ some j) × Drives k j (get now k s).1
get-Drives now k j s d =
    let found : live now k s ≡ some j =
      ap (survivor (is_evictable now)) d.present ∙ live_driven now j d.live_worker in
    rw (get_lem now s d.well_formed k) (
      found,
      record {
        well_formed = cleanup-IsWellFormed now s d.well_formed;
        present = cleanup-at now s d.well_formed k ∙ found;
        live_worker = d.live_worker;
      },
    )
