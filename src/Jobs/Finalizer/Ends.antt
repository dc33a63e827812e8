-- ===== src/Jobs/Finalizer/Ends.antt =====
-- A claimed finalization ends the job.
use auto_correlation.Prelude.{
  ℕ, zero, suc, ◌≡◌, ◌⊎◌, inl, inr, Bool-cases, ◌||◌, refl, sym, ◌∙◌, String, Bool, true, false,
  Option, none, some, arith, eq_refl, subst,
}
use auto_correlation.Errors.{problem, other, Result, ok, err}
use auto_correlation.Jobs.Model.{
  ExecutionJobState, ready, failed, is_terminal, Bytes, ExecutionJob, is_active,
}
use auto_correlation.Jobs.Changes.{Notes, apply_state, claim_finalizing}
use auto_correlation.Jobs.Store.{JobStore, get, mutate}
use auto_correlation.Jobs.Store.Laws.{
  job_at, IsWellFormed, live, map_job, mutate-at, mutate-IsWellFormed, get_lem,
  cleanup-IsWellFormed,
}
use auto_correlation.Jobs.World.{Analysis, World, pause, access}
use auto_correlation.Jobs.World.Effects.{apply_state-KeepsId}
use auto_correlation.Jobs.World.Soundness.{pause-IsWellFormed}
use auto_correlation.Jobs.Service.{write_state}
use auto_correlation.Jobs.Finalizer.{
  Fetched, bytes, absent, too_large, broken, Sources, write, guarded, analysed, fetched, build,
  marked, again, claim_within, claim, finalizing, finalize_job,
}

-- The store has no active job under `k`.
abbrev pub NoneActive : String → JobStore → Type 0
NoneActive k s = (j : ExecutionJob) → job_at k s ≡ some j → is_active j ≡ false

entered :
    (t : ExecutionJobState) (notes : Notes) (j : ExecutionJob)
    → is_terminal t ≡ true
    → is_active (apply_state t notes j).1 ≡ false
unfolding apply_state
entered t notes j h = ground arith

mapped :
    (t : ExecutionJobState) (notes : Notes) (o : Option ExecutionJob) (j : ExecutionJob)
    → is_terminal t ≡ true
    → map_job (apply_state t notes) o ≡ some j
    → is_active j ≡ false
mapped t notes none j h e = absurd (cc)
mapped t notes (some i) j h e =
    let p : (apply_state t notes i).1 ≡ j = ground arith in
    subst (λ x. is_active x ≡ false) p (entered t notes i h)

-- A write of a terminal state leaves no active job, whatever the other threads did before it.
pub write_state-NoneActive :
    (k : String) (t : ExecutionJobState) (notes : Notes) (w : World)
    → is_terminal t ≡ true
    → IsWellFormed w.store
    → NoneActive k (write_state k t notes w).1.store
unfolding write_state access
write_state-NoneActive k t notes w h wf j e =
    let v = pause w in
    let found =
      mutate-at (apply_state t notes) v.clock k k v.store (pause-IsWellFormed w wf)
        (apply_state-KeepsId t notes)
      ∙ rw eq_refl refl in
    mapped t notes (live v.clock k v.store) j h (sym found ∙ e)

module _ (sources : Sources) (k : String) where
  -- What ends a finalization: the job is not active, or a write has raised, out of the finalizer.
  abbrev pub Ended : Result (Unit {0}) × World → Type 0
  Ended r =
      NoneActive k r.1.store ⊎ ((r.0 ≡ err other) × ((v : World) × (sources.write_raises v ≡ true)))

  write-Ended :
      (t : ExecutionJobState) (notes : Notes) (w : World)
      → is_terminal t ≡ true
      → IsWellFormed w.store
      → Ended (write sources k t notes w)
  unfolding write
  write-Ended t notes w h wf = elim (Bool-cases (sources.write_raises w)) [
    | inl e ↦ rw e (inr (refl, (w, e)))
    | inr e ↦ rw e (inl (write_state-NoneActive k t notes w h wf))
  ]

  write-IsWellFormed :
      (t : ExecutionJobState) (notes : Notes) (w : World)
      → IsWellFormed w.store
      → IsWellFormed (write sources k t notes w).1.store
  unfolding write write_state access
  write-IsWellFormed t notes w wf = elim (Bool-cases (sources.write_raises w)) [
    | inl e ↦ rw e (pause-IsWellFormed w wf)
    | inr e ↦ rw e (
        mutate-IsWellFormed (apply_state t notes) (pause w).clock k (pause w).store
          (pause-IsWellFormed w wf))
  ]

  guarded-Ended :
      (r : Result (Unit {0}) × World)
      → Ended r
      → IsWellFormed r.1.store
      → Ended (guarded sources k r)
  unfolding guarded
  guarded-Ended (ok u, w) h wf = h
  guarded-Ended (err e, w) h wf = write-Ended failed _ w refl wf

  guarded-write-Ended :
      (t : ExecutionJobState) (notes : Notes) (w : World)
      → is_terminal t ≡ true
      → IsWellFormed w.store
      → Ended (guarded sources k (write sources k t notes w))
  guarded-write-Ended t notes w h wf =
      guarded-Ended (write sources k t notes w) (write-Ended t notes w h wf)
        (write-IsWellFormed t notes w wf)

  analysed-Ended :
      (job : ExecutionJob) (r : Result Analysis) (w : World)
      → IsWellFormed w.store
      → Ended (analysed sources k job r w)
  unfolding analysed
  analysed-Ended job (ok a) w wf = guarded-write-Ended ready _ _ refl wf
  analysed-Ended job (err (problem p)) w wf = write-Ended failed _ w refl wf
  analysed-Ended job (err other) w wf = write-Ended failed _ w refl wf

  fetched-Ended :
      (f : Fetched) (next : Bytes → World → Result (Unit {0}) × World) (w : World)
      → IsWellFormed w.store
      → ((b : Bytes) → Ended (next b w))
      → Ended (fetched sources k f next w)
  unfolding fetched
  fetched-Ended (bytes b) next w wf h = h b
  fetched-Ended absent next w wf h = guarded-write-Ended failed _ w refl wf
  fetched-Ended too_large next w wf h = write-Ended failed _ w refl wf
  fetched-Ended broken next w wf h = write-Ended failed _ w refl wf

  build-Ended :
      (job : ExecutionJob) (w : World) → IsWellFormed w.store → Ended (build sources k job w)
  unfolding build
  build-Ended job w wf =
      let analyse = λ (b c : Bytes). analysed sources k job (sources.build_analysis b c) in
      let second = sources.get_report k "comparison" in
      fetched-Ended (sources.get_report k "baseline") (λ b. fetched sources k second (analyse b)) w
        wf
        (λ b.
          fetched-Ended second (analyse b) w wf
            (λ c. analysed-Ended job (sources.build_analysis b c) w wf))

  claim_within-IsWellFormed :
      (n now : ℕ) (claimed : Bool) (w : World)
      → IsWellFormed w.store
      → IsWellFormed (claim_within sources k n now claimed w).1.store
  unfolding claim_within access
  claim_within-IsWellFormed zero now claimed w wf =
      by_mutate (mutate (pause w).clock k (claim_finalizing now) (pause w).store).0
        (mutate (pause w).clock k (claim_finalizing now) (pause w).store).1
        (mutate-IsWellFormed (claim_finalizing now) (pause w).clock k (pause w).store
          (pause-IsWellFormed w wf))
    where
      by_mutate :
          (o : Option (Bool × ExecutionJob)) (s : JobStore)
          → IsWellFormed s
          → IsWellFormed (marked sources k claimed (o, record (pause w) { store = s })).1.store
      by_mutate none s h = h
      by_mutate (some (b, j)) s h = h
  claim_within-IsWellFormed (suc n) now claimed w wf =
      by_get (λ c v h. claim_within-IsWellFormed n now c v h)
        (get (pause w).clock k (pause w).store).0 (get (pause w).clock k (pause w).store).1
        (rw (get_lem (pause w).clock (pause w).store (pause-IsWellFormed w wf) k)
          (cleanup-IsWellFormed (pause w).clock (pause w).store (pause-IsWellFormed w wf)))
    where
      by_get :
          ((c : Bool) (v : World)
            → IsWellFormed v.store
            → IsWellFormed (claim_within sources k n now c v).1.store)
          → (o : Option ExecutionJob) (s : JobStore) → IsWellFormed s
          → IsWellFormed
              (again sources k
                (claim_within sources k n now)
                claimed
                now
                (o, record (pause w) { store = s })).1.store
      by_get rest none s h = h
      by_get rest (some j) s h =
          rest (claimed || (claim_finalizing now j).0) (record (pause w) { store = s }) h

  -- Where the claim of `finalize_job` succeeds, however many conflicts it meets, the job is no longer
  -- active at the end, if it is still there: whatever S3 answers, whether the analysis raises, and
  -- whatever the other threads do meanwhile. The exception is a write of the job's state that raises,
  -- and then the finalizer raises too.
  pub finalize_job-NoneActive :
      (w : World) (job : ExecutionJob)
      → IsWellFormed w.store
      → (claim sources k (sources.claim_conflicts w) w).0 ≡ some (some (true, job))
      → NoneActive k (finalize_job sources k w).1.store
        ⊎ (((finalize_job sources k w).0 ≡ err other)
            × ((v : World) × (sources.write_raises v ≡ true)))
  unfolding finalize_job finalizing claim
  finalize_job-NoneActive w job wf took = by_conflicts (sources.claim_conflicts w) took
    where
      by_claim :
          (o : Option (Bool × ExecutionJob)) (v : World)
          → some o ≡ some (some (true, job))
          → IsWellFormed v.store
          → Ended (finalizing sources k (some o, v))
      by_claim none v e wf' = absurd (ground arith)
      by_claim (some (true, j)) v e wf' = build-Ended j v wf'
      by_claim (some (false, j)) v e wf' = absurd (ground arith)

      by_conflicts :
          (c : Option ℕ)
          → (claim sources k c w).0 ≡ some (some (true, job))
          → Ended (finalizing sources k (claim sources k c w))
      by_conflicts none e = absurd (cc)
      by_conflicts (some n) e =
          by_claim (claim_within sources k n w.clock false w).0
            (claim_within sources k n w.clock false w).1 e
            (claim_within-IsWellFormed n w.clock false w wf)
