-- ===== src/Jobs/World/Soundness.antt =====
-- A sound job stays sound whatever the other threads do, driven or not.
use auto_correlation.Prelude.{
  ℕ, ◌≡◌, refl, sym, ◌∙◌, ◌⊎◌, inl, inr, String, Bool, true, false, Option, none, some, List, [],
  ◌∷◌, All, Bool-cases, arith, str_eq, subst, ◌+◌,
}
use auto_correlation.Prelude.Dict.{survivor}
use auto_correlation.Jobs.Model.{ExecutionJob}
use auto_correlation.Jobs.Changes.{claim, cancel_if_active}
use auto_correlation.Jobs.Store.{JobStore, is_evictable}
use auto_correlation.Jobs.Store.Laws.{job_at, IsWellFormed, map_job}
use auto_correlation.Jobs.World.{
  Action, cancel, mark_cancelled, remove, start, act, act_all, Interlude, World, interlude, pause,
}
use auto_correlation.Jobs.World.Effects.{IsForeign, after_delete, effect, act-at, act-IsWellFormed}
use auto_correlation.Jobs.World.Driven.{AllForeign, MayCancel, MayCancel-cancel}
use auto_correlation.Jobs.Lifecycle.{IsSound, MayCancel-IsSound, claim-IsSound, cancel-IsSound}

-- Whatever stands under `k` is sound.
abbrev pub SoundAt : String → JobStore → Type 0
SoundAt k s = (j : ExecutionJob) → job_at k s ≡ some j → IsSound j

live-IsSound :
    (p : ExecutionJob → Bool) (o : Option ExecutionJob)
    → ((j : ExecutionJob) → o ≡ some j → IsSound j)
    → (j : ExecutionJob) → survivor p o ≡ some j
    → IsSound j
live-IsSound p none h j e = absurd (cc)
live-IsSound p (some i) h j e = h j (ground arith)

map_job-IsSound :
    {A : Type 0} (fn : ExecutionJob → A × ExecutionJob) (o : Option ExecutionJob)
    → ((j : ExecutionJob) → IsSound j → IsSound (fn j).1)
    → ((j : ExecutionJob) → o ≡ some j → IsSound j)
    → (j : ExecutionJob) → map_job fn o ≡ some j
    → IsSound j
map_job-IsSound fn none keeps h j e = absurd (cc)
map_job-IsSound fn (some i) keeps h j e =
    let p : (fn i).1 ≡ j = ground arith in subst IsSound p (keeps i (h i refl))

deleted-IsSound :
    (o : Option ExecutionJob)
    → ((j : ExecutionJob) → o ≡ some j → IsSound j)
    → (j : ExecutionJob) → after_delete o ≡ some j
    → IsSound j
deleted-IsSound none h j e = absurd (cc)
deleted-IsSound (some i) h j e =
    MayCancel-IsSound i j (is_either (Bool-cases (cancel_if_active i).0)) (h i refl)
  where
    is_either : ((cancel_if_active i).0 ≡ true) ⊎ ((cancel_if_active i).0 ≡ false) → MayCancel i j
    is_either (inl c) =
        let p : (cancel_if_active i).1 ≡ j = ground arith in
        subst (MayCancel i) p (MayCancel-cancel i)
    is_either (inr c) = inl (ground arith)

effect-IsSound :
    (now : ℕ) (k : String) (a : Action) (o : Option ExecutionJob)
    → ((j : ExecutionJob) → o ≡ some j → IsSound j)
    → (j : ExecutionJob) → effect now k a o ≡ some j
    → IsSound j
effect-IsSound now k (cancel i) o h j e = elim (Bool-cases (str_eq i k)) [
  | inl p ↦
      deleted-IsSound (survivor (is_evictable now) o) (live-IsSound (is_evictable now) o h) j
        (rw p at e)
  | inr p ↦ live-IsSound (is_evictable now) o h j (rw p at e)
]
effect-IsSound now k (mark_cancelled i) o h j e = elim (Bool-cases (str_eq i k)) [
  | inl p ↦
      map_job-IsSound cancel_if_active (survivor (is_evictable now) o) cancel-IsSound
        (live-IsSound (is_evictable now) o h) j (rw p at e)
  | inr p ↦ live-IsSound (is_evictable now) o h j (rw p at e)
]
effect-IsSound now k (remove i) o h j e = h j e
effect-IsSound now k (start i) o h j e = elim (Bool-cases (str_eq i k)) [
  | inl p ↦
      map_job-IsSound claim (survivor (is_evictable now) o) claim-IsSound
        (live-IsSound (is_evictable now) o h) j (rw p at e)
  | inr p ↦ live-IsSound (is_evictable now) o h j (rw p at e)
]
effect-IsSound now k _ o h j e = live-IsSound (is_evictable now) o h j e

act_all-SoundAt :
    (now : ℕ) (k : String) (l : List Action) (s : JobStore)
    → All (IsForeign k) l
    → IsWellFormed s
    → SoundAt k s
    → IsWellFormed (act_all now l s) × SoundAt k (act_all now l s)
unfolding act_all
act_all-SoundAt now k [] s f wf h = (wf, h)
act_all-SoundAt now k (a ∷ l) s f wf h =
    act_all-SoundAt now k l (act now a s) f.1 (act-IsWellFormed now k s wf a)
      (λ j e. effect-IsSound now k a (job_at k s) h j (sym (act-at now k s wf a f.0) ∙ e))

pub pause-SoundAt :
    (k : String) (w : World)
    → AllForeign k w.others
    → IsWellFormed w.store
    → SoundAt k w.store
    → IsWellFormed (pause w).store × SoundAt k (pause w).store × AllForeign k (pause w).others
unfolding pause
pause-SoundAt k w f wf h = by_turn w.others f
  where
    by_turn :
        (o : List Interlude)
        → AllForeign k o
        → IsWellFormed (interlude o w).store
          × SoundAt k (interlude o w).store
          × AllForeign k (interlude o w).others
    by_turn [] g = (wf, h, f)
    by_turn (i ∷ r) g =
        let (wf', h') = act_all-SoundAt (w.clock + i.elapsed) k i.actions w.store g.0 wf h in
        (wf', h', g.1)

batch-IsWellFormed :
    (now : ℕ) (l : List Action) (s : JobStore) → IsWellFormed s → IsWellFormed (act_all now l s)
unfolding act_all
batch-IsWellFormed now [] s wf = wf
batch-IsWellFormed now (a ∷ l) s wf =
    batch-IsWellFormed now l (act now a s) (act-IsWellFormed now "" s wf a)

pub pause-IsWellFormed : (w : World) → IsWellFormed w.store → IsWellFormed (pause w).store
unfolding pause
pause-IsWellFormed w wf = by_turn w.others
  where
    by_turn : (o : List Interlude) → IsWellFormed (interlude o w).store
    by_turn [] = wf
    by_turn (i ∷ r) = batch-IsWellFormed (w.clock + i.elapsed) i.actions w.store wf

-- The others' turn leaves the queue alone.
pub pause_queue : (w : World) → (pause w).queue ≡ w.queue
unfolding pause
pause_queue w = by_turn w.others
  where
    by_turn : (o : List Interlude) → (interlude o w).queue ≡ w.queue
    by_turn [] = refl
    by_turn (i ∷ r) = refl
