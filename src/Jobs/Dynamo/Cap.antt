-- ===== src/Jobs/Dynamo/Cap.antt =====
-- The owner's cap under the requests of all clients and the deletions of the service.
use auto_correlation.Prelude.{
  ℕ, ◌+◌, ◌≤◌, ◌<◌, String, ◌≡◌, inl, inr, refl, false, Option, none, some, List, [], ◌∷◌, All,
  str_eq, eq_iff, arith, Bool-cases, ◌∙◌, ap, subst,
}
use auto_correlation.Prelude.Dict.{lookup, pop}
use auto_correlation.Prelude.Dict.Counts.{tally-put, tally-pop-le}
use auto_correlation.Jobs.Model.{ExecutionJob}
use auto_correlation.Jobs.Dynamo.{
  Row, Table, Database, counted, slot_of, job_writes, evict_writes, insert_writes,
}
use auto_correlation.Jobs.Dynamo.Requests.{
  Turn, Request, insert, change, remove, expire, change_found, remove_found, serve, serve_all,
  is_past_ttl,
}
use auto_correlation.Jobs.Dynamo.Slots.{counts, counting, IsKeyed, IsHonest, Honest}
use auto_correlation.Jobs.Dynamo.Steps.{
  transact_elim, job_writes-rows, evict_writes-rows, insert_writes-rows, pop-IsKeyed, insert_held,
  serve-Step, empty, empty-IsKeyed, empty_slots, is_expiry,
}

-- A change that never makes a job count that did not.
abbrev pub StartsNone : (ExecutionJob → ExecutionJob) → Type 0
StartsNone fn = (j : ExecutionJob) → counted j ≡ false → counted (fn j) ≡ false

-- Every submission is made under the same cap.
abbrev pub Capped : ℕ → Request → Type 0
Capped cap (insert job window_seconds max_active) = max_active ≡ cap
Capped cap (change job_id fn) = StartsNone fn
Capped cap (remove job_id) = Unit
Capped cap (expire job_id) = Unit

-- The slots of an owner cover the rows that count, which are within the cap.
record IsWithin (cap : ℕ) (t : Table) : Type 0 where
  keys : IsKeyed t
  covered : (o : String) → (slot_of o t).freed + counting o t ≤ (slot_of o t).taken
  within : (o : String) → counting o t ≤ cap

abbrev Fewer : Table → Table → Type 0
Fewer t u = (o : String) → counting o u ≤ counting o t

-- Timed turns of requests, in order.
abbrev pub run_turns : Database → ℕ → List Turn → Table → Table
run_turns db now [] t = t
run_turns db now (i ∷ l) t =
    run_turns db (now + i.elapsed) l (serve_all db (now + i.elapsed) i.requests t)

module _ (db : Database) where
  change-Fewer :
      (fn : ExecutionJob → ExecutionJob) (k : String) (found : Option Row) (t : Table)
      → IsHonest fn
      → StartsNone fn
      → IsKeyed t
      → lookup k t.rows ≡ found
      → Fewer t (change_found db fn found t)
  unfolding change_found
  change-Fewer fn k none t honest starts w e = λ o. omega arith
  change-Fewer fn k (some row) t honest starts w e =
      let l = job_writes (fn row.job) (some row) in
      let new : Row = record { job = fn row.job; version = row.version + 1 } in
      let same : (fn row.job).id ≡ k = honest.same_id row.job ∙ w.keyed k row e in
      let here : lookup (fn row.job).id t.rows ≡ some row = ap (λ x. lookup x t.rows) same ∙ e in
      transact_elim db (Fewer t) l t (λ o. omega arith)
        (λ h o.
          unfold counting in
          rw (job_writes-rows (fn row.job) row t) (
            ground (
              arith,
              tally-put (counts o) (fn row.job).id new t.rows,
              here,
              honest.same_owner row.job,
              starts row.job,
            )))

  remove-Fewer : (found : Option Row) (t : Table) → Fewer t (remove_found db found t)
  unfolding remove_found
  remove-Fewer none t = λ o. omega arith
  remove-Fewer (some row) t =
      transact_elim db (Fewer t) (evict_writes row) t (λ o. omega arith)
        (λ h o.
          unfold counting in
          rw (evict_writes-rows row t) (omega (arith, tally-pop-le (counts o) row.job.id t.rows)))

  insert_within :
      (now : ℕ) (job : ExecutionJob) (window_seconds cap : ℕ) (t : Table)
      → 0 < cap
      → IsWithin cap t
      → (o : String) → counting o (db.transact (insert_writes now job window_seconds cap) t).1 ≤ cap
  insert_within now job window_seconds cap t positive w =
      let l = insert_writes now job window_seconds cap in
      let new : Row = record { job = job; version = 1 } in
      transact_elim db (λ u. (o : String) → counting o u ≤ cap) l t w.within
        (λ h o.
          let (absent, free) = insert_held now job window_seconds cap t h in
          unfold counting in
          rw (insert_writes-rows now job window_seconds cap t)
            (elim (Bool-cases (str_eq job.owner_key o)) [
              | inl e ↦
                  let p : job.owner_key ≡ o = ground (arith, eq_iff job.owner_key o) in
                  let c = w.covered job.owner_key in
                  ground (
                    arith,
                    tally-put (counts o) job.id new t.rows,
                    subst (λ x. counting x t < cap) p (omega (arith, c, free positive)),
                  )
              | inr e ↦ ground (arith, tally-put (counts o) job.id new t.rows, w.within o)
            ]))

  expire-IsWithin :
      (cap now : ℕ) (k : String) (t : Table)
      → IsWithin cap t
      → IsWithin cap (serve db now (expire k) t)
  unfolding serve
  expire-IsWithin cap now k t w = elim (Bool-cases (is_past_ttl now (lookup k t.rows))) [
    | inl e ↦
        let u = record t { rows = pop k t.rows } in
        rw e (record {
          keys = pop-IsKeyed k t u w.keys refl;
          covered = λ o.
              unfold counting slot_of in
              omega (arith, tally-pop-le (counts o) k t.rows, w.covered o);
          within =
              λ o. unfold counting in omega (arith, tally-pop-le (counts o) k t.rows, w.within o);
        })
    | inr e ↦ rw e w
  ]

  -- A request that is none of the service's deletions.
  step-IsWithin :
      (cap now : ℕ) (r : Request) (t : Table)
      → IsWithin cap t
      → Honest r
      → is_expiry r ≡ false
      → ((o : String) → counting o (serve db now r t) ≤ cap)
      → IsWithin cap (serve db now r t)
  step-IsWithin cap now r t w h e within =
      let (keys, b) = serve-Step db now r t h e w.keys in
      record { keys = keys; covered = λ o. omega (arith, b o, w.covered o); within = within }

  serve-IsWithin :
      (cap now : ℕ) (r : Request) (t : Table)
      → 0 < cap
      → Honest r
      → Capped cap r
      → IsWithin cap t
      → IsWithin cap (serve db now r t)
  serve-IsWithin cap now (insert job window_seconds max_active) t p h c w =
      step-IsWithin cap now (insert job window_seconds max_active) t w h refl
        (unfold serve in rw c (insert_within now job window_seconds cap t p w))
  serve-IsWithin cap now (change job_id fn) t p h c w =
      step-IsWithin cap now (change job_id fn) t w h refl (λ o.
        unfold serve in
        omega
          (arith, change-Fewer fn job_id (lookup job_id t.rows) t h c w.keys refl o, w.within o))
  serve-IsWithin cap now (remove job_id) t p h c w =
      step-IsWithin cap now (remove job_id) t w h refl
        (λ o. unfold serve in omega (arith, remove-Fewer (lookup job_id t.rows) t o, w.within o))
  serve-IsWithin cap now (expire job_id) t p h c w = expire-IsWithin cap now job_id t w

  serve_all-IsWithin :
      (cap now : ℕ) (l : List Request) (t : Table)
      → 0 < cap
      → All (λ r. Honest r × Capped cap r) l
      → IsWithin cap t
      → IsWithin cap (serve_all db now l t)
  unfolding serve_all
  serve_all-IsWithin cap now [] t p a w = w
  serve_all-IsWithin cap now (r ∷ l) t p a w =
      serve_all-IsWithin cap now l (serve db now r t) p a.1
        (serve-IsWithin cap now r t p a.0.0 a.0.1 w)

  turns-IsWithin :
      (cap now : ℕ) (l : List Turn) (t : Table)
      → 0 < cap
      → All (λ i. All (λ r. Honest r × Capped cap r) i.requests) l
      → IsWithin cap t
      → IsWithin cap (run_turns db now l t)
  turns-IsWithin cap now [] t p a w = w
  turns-IsWithin cap now (i ∷ l) t p a w =
      turns-IsWithin cap (now + i.elapsed) l (serve_all db (now + i.elapsed) i.requests t) p a.1
        (serve_all-IsWithin cap (now + i.elapsed) i.requests t p a.0 w)

  -- From the empty table, no owner ever has more rows that count (active, or with a live worker) than
  -- the cap, which is not 0, in whatever order and at whatever times API tasks and workers send their
  -- requests, and whichever of their transactions are cancelled. Every submission is of a job that
  -- counts and is made under that cap; a change keeps the job's id and owner and makes no job count
  -- that did not; there are evictions and deletions; and the service may delete rows whose `ttl` is
  -- over. The store's `create` and `update`, which only tests call, are not among the requests.
  pub row_cap :
      (cap now : ℕ) (l : List Turn) (owner : String)
      → 0 < cap
      → All (λ i. All (λ r. Honest r × Capped cap r) i.requests) l
      → counting owner (run_turns db now l empty) ≤ cap
  row_cap cap now l owner p a =
      (turns-IsWithin cap now l empty p a (record {
        keys = empty-IsKeyed;
        covered = λ o. omega (arith, empty_slots o);
        within = λ o. omega (arith, empty_slots o);
      })).within
        owner
