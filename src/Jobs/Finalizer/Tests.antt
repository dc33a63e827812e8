-- ===== src/Jobs/Finalizer/Tests.antt =====
-- One finalization on concrete input.
use auto_correlation.Prelude.{◌≡◌, ◌⊎◌, refl, true, false, none, some, [], ◌∷◌, eq_iff, arith}
use auto_correlation.Prelude.Dict.{lookup, put, pop_where}
use auto_correlation.Errors.{other, ok, err}
use auto_correlation.Jobs.Model.{
  ExecutionJob, validating, running_baseline, running_comparison, analyzing, ready,
}
use auto_correlation.Jobs.Changes.{apply_state, claim_finalizing}
use auto_correlation.Jobs.Store.{cleanup, get, mutate}
use auto_correlation.Jobs.Store.Laws.{IsWellFormed}
use auto_correlation.Jobs.World.{World, finalize, pause, access, act, act_all}
use auto_correlation.Jobs.Service.{write_state}
use auto_correlation.Jobs.Finalizer.{
  bytes, Sources, write, build, claim_within, claim, finalize_job,
}
use auto_correlation.Jobs.Finalizer.Ends.{NoneActive, finalize_job-NoneActive}

abbrev job : ExecutionJob
job = record {
  id = "j1";
  owner_key = "user:1";
  collection_name = "Booking";
  created_at = 100;
  expires_at = 1900;
  idempotency_key = none;
  state = analyzing;
  analysis_id = none;
  error_code = none;
  error_detail = none;
  stage_history = validating ∷ running_baseline ∷ running_comparison ∷ analyzing ∷ [];
  warnings = [];
  cancel_requested = false;
  worker_active = false;
  reports_ready = true;
  finalizing_since = none;
}

abbrev claimed : ExecutionJob
claimed = record job { finalizing_since = some 200 }

abbrev sources : Sources
sources = record {
  get_report = λ id stage. bytes (123 ∷ 125 ∷ []);
  build_analysis = λ b c. ok (record { id = "a1"; owner_key = none });
  claim_conflicts = λ w. some 0;
  write_raises = λ w. false;
}

abbrev world : World
world = record {
  store = record { ttl = 1800; jobs = ("j1", job) ∷ [] };
  clock = 200;
  others = record { elapsed = 1; actions = [] } ∷ [];
  completions = [];
  runs = [];
  analyses = [];
  objects = [];
  queue = [];
}

world-IsWellFormed : IsWellFormed world.store
unfolding lookup
world-IsWellFormed = record { unique = (tt, tt); keyed = λ k j e. ground (arith, eq_iff "j1" k) }

job_claimed : (claim sources "j1" (some 0) world).0 ≡ some (some (true, claimed))
unfolding claim claim_within access pause act_all mutate get cleanup pop_where lookup
    claim_finalizing
job_claimed = refl

finalize_job-NoneActive_example :
    NoneActive "j1" (finalize_job sources "j1" world).1.store
    ⊎ (((finalize_job sources "j1" world).0 ≡ err other)
        × ((v : World) × (sources.write_raises v ≡ true)))
finalize_job-NoneActive_example =
    finalize_job-NoneActive sources "j1" world claimed world-IsWellFormed job_claimed

becomes_ready :
    lookup "j1" (finalize_job sources "j1" world).1.store.jobs
    ≡ some (record claimed {
      state = ready;
      analysis_id = some "a1";
      stage_history = validating ∷ running_baseline ∷ running_comparison ∷ analyzing ∷ ready ∷ [];
    })
unfolding finalize_job claim claim_within build write write_state apply_state access pause act_all
    mutate get cleanup pop_where lookup put claim_finalizing
becomes_ready = refl

-- Another request claims the job between the read and the write of this one's claim, which meets
-- the conflict and tries again: this one takes the job as claimed as well.
abbrev contended : World
contended = record world {
  others =
      record { elapsed = 1; actions = [] }
      ∷ record { elapsed = 0; actions = finalize "j1" 200 ∷ [] }
      ∷ [];
}

both_claim : (claim sources "j1" (some 1) contended).0 ≡ some (some (true, claimed))
unfolding claim claim_within access pause act_all act mutate get cleanup pop_where lookup put
    claim_finalizing
both_claim = refl
