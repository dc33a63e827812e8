-- ===== src/Jobs/Dynamo/Steps.antt =====
-- What one request of any client does to the table: ids stay unique and the slots stay right.
use auto_correlation.Prelude.{
  ℕ, ◌+◌, ◌-◌, ◌<◌, String, ◌≡◌, inl, inr, refl, Bool, true, false, Option, none, some, List, [],
  ◌∷◌, str_eq, eq_iff, arith, Bool-cases, Option-cases, ◌∙◌, sym, subst, ap, All,
}
use auto_correlation.Prelude.Dict.{lookup, put, pop, HasUniqueKeys, lookup-put, lookup-pop}
use auto_correlation.Prelude.Dict.Counts.{put-HasUniqueKeys, pop-HasUniqueKeys}
use auto_correlation.Jobs.Model.{ExecutionJob}
use auto_correlation.Jobs.Dynamo.{
  Row, Table, Write, plus_one, Database, counted, slot_of, update_slot, job_writes, evict_writes,
  insert_writes, all_hold, all_written, holds, written, active_count,
}
use auto_correlation.Jobs.Dynamo.Requests.{
  Request, insert, change, remove, expire, change_found, remove_found, serve, is_past_ttl,
  serve_all,
}
use auto_correlation.Jobs.Dynamo.Slots.{
  counting, IsKeyed, IsHonest, Honest, Balanced, slot_change-counts, key_writes-rows,
  job_writes-Balanced, evict_writes-Balanced, insert_writes-Balanced,
}

pub job_writes-rows :
    (job : ExecutionJob) (old : Row) (t : Table)
    → (all_written (job_writes job (some old)) t).rows
      ≡ put job.id (record { job = job; version = old.version + 1 }) t.rows
job_writes-rows job old t =
    let d = put job.id (record { job = job; version = old.version + 1 }) t.rows in
    let (c, r) =
      slot_change-counts "" job.owner_key (counted old.job) (counted job) (record t { rows = d }) in
    unfold job_writes all_written written in r

pub evict_writes-rows :
    (row : Row) (t : Table) → (all_written (evict_writes row) t).rows ≡ pop row.job.id t.rows
evict_writes-rows row t =
    let t' = record t { rows = pop row.job.id t.rows } in
    let (c, r) = slot_change-counts "" row.job.owner_key (counted row.job) false t' in
    unfold evict_writes all_written written in r

pub insert_writes-rows :
    (now : ℕ) (job : ExecutionJob) (window_seconds max_active : ℕ) (t : Table)
    → (all_written (insert_writes now job window_seconds max_active) t).rows
      ≡ put job.id (record { job = job; version = 1 }) t.rows
insert_writes-rows now job window_seconds max_active t =
    let t' = record t { rows = put job.id (record { job = job; version = 1 }) t.rows } in
    let t'' = written (update_slot job.owner_key plus_one (some max_active)) t' in
    let (r, q) = key_writes-rows job job.idempotency_key (now - window_seconds) t'' in
    unfold insert_writes all_written written in r

pub put-IsKeyed :
    (job : ExecutionJob) (v : ℕ) (t u : Table)
    → IsKeyed t
    → u.rows ≡ put job.id (record { job = job; version = v }) t.rows
    → IsKeyed u
put-IsKeyed job v t u w e =
    let new : Row = record { job = job; version = v } in
    record {
      unique = subst HasUniqueKeys (sym e) (put-HasUniqueKeys job.id new t.rows w.unique);
      keyed = λ k r h. elim (Bool-cases (str_eq job.id k)) [
        | inl same ↦ ground (arith, lookup-put job.id k new t.rows, eq_iff job.id k, e, h)
        | inr differs ↦ w.keyed k r (ground (arith, lookup-put job.id k new t.rows, e, h))
      ];
    }

pub pop-IsKeyed : (k : String) (t u : Table) → IsKeyed t → u.rows ≡ pop k t.rows → IsKeyed u
pop-IsKeyed k t u w e = record {
  unique = subst HasUniqueKeys (sym e) (pop-HasUniqueKeys k t.rows w.unique);
  keyed = λ j r h. elim (Bool-cases (str_eq k j)) [
    | inl same ↦ absurd (ground (arith, lookup-pop k j t.rows, e, h))
    | inr differs ↦ w.keyed j r (ground (arith, lookup-pop k j t.rows, e, h))
  ];
}

-- What an insertion that commits has found: no row, and room below a cap that is not 0.
pub insert_held :
    (now : ℕ) (job : ExecutionJob) (window_seconds max_active : ℕ) (t : Table)
    → all_hold (insert_writes now job window_seconds max_active) t ≡ true
    → (lookup job.id t.rows ≡ none)
      × (0 < max_active
          → (slot_of job.owner_key t).taken < (slot_of job.owner_key t).freed + max_active)
unfolding insert_writes all_hold holds
insert_held now job window_seconds max_active t h = elim (Option-cases (lookup job.id t.rows)) [
  | inl e ↦ (e, room)
  | inr (r, e) ↦ absurd (ground arith)
]
  where
    room :
        0 < max_active
        → (slot_of job.owner_key t).taken < (slot_of job.owner_key t).freed + max_active
    room =
        unfold slot_of in
        elim (Option-cases (lookup job.owner_key t.slots)) [
          | inl e ↦ λ p. rw e (omega arith)
          | inr (s, e) ↦ λ p. ground arith
        ]

-- A request that leaves the ids unique and the counters as right as they were.
abbrev pub Step : Table → Table → Type 0
Step t u = IsKeyed u × ((o : String) → Balanced o t u)

abbrev pub is_expiry : Request → Bool
is_expiry (expire job_id) = true
is_expiry _ = false

abbrev pub empty : Table
empty = record { rows = []; slots = []; keys = [] }

pub empty-IsKeyed : IsKeyed empty
unfolding lookup
empty-IsKeyed = record { unique = tt; keyed = λ k r e. absurd (cc) }

pub empty_slots :
    (o : String)
    → ((slot_of o empty).taken ≡ 0) × ((slot_of o empty).freed ≡ 0) × (counting o empty ≡ 0)
unfolding slot_of lookup counting
empty_slots o = (refl, refl, refl)

module _ (db : Database) where
  -- A transaction is all or nothing.
  pub transact_elim {ℓ} :
      (P : Table → Type ℓ) (l : List Write) (t : Table)
      → P t
      → (all_hold l t ≡ true → P (all_written l t))
      → P (db.transact l t).1
  transact_elim P l t nothing all = elim (db.atomic l t) [
    | inl e ↦ subst (λ x. P x.1) (sym e.1) (all e.0)
    | inr e ↦ subst (λ x. P x.1) (sym e.1) nothing
  ]

  change_found-Step :
      (fn : ExecutionJob → ExecutionJob) (k : String) (found : Option Row) (t : Table)
      → IsHonest fn
      → IsKeyed t
      → lookup k t.rows ≡ found
      → Step t (change_found db fn found t)
  unfolding change_found
  change_found-Step fn k none t honest w e = (w, λ o. refl)
  change_found-Step fn k (some row) t honest w e =
      let l = job_writes (fn row.job) (some row) in
      let same : (fn row.job).id ≡ k = honest.same_id row.job ∙ w.keyed k row e in
      transact_elim (Step t) l t (w, λ o. refl)
        (λ h. (
          put-IsKeyed (fn row.job) (row.version + 1) t (all_written l t) w
              (job_writes-rows (fn row.job) row t),
          λ o.
              job_writes-Balanced o (fn row.job) row t (ap (λ x. lookup x t.rows) same ∙ e)
                (honest.same_owner row.job),
        ))

  remove_found-Step :
      (k : String) (found : Option Row) (t : Table)
      → IsKeyed t
      → lookup k t.rows ≡ found
      → Step t (remove_found db found t)
  unfolding remove_found
  remove_found-Step k none t w e = (w, λ o. refl)
  remove_found-Step k (some row) t w e =
      transact_elim (Step t) (evict_writes row) t (w, λ o. refl)
        (λ h. (
          pop-IsKeyed row.job.id t (all_written (evict_writes row) t) w (evict_writes-rows row t),
          λ o.
              evict_writes-Balanced o row t w.unique
                (ap (λ x. lookup x t.rows) (w.keyed k row e) ∙ e),
        ))

  insert-Step :
      (now : ℕ) (job : ExecutionJob) (window_seconds max_active : ℕ) (t : Table)
      → counted job ≡ true
      → IsKeyed t
      → Step t (db.transact (insert_writes now job window_seconds max_active) t).1
  insert-Step now job window_seconds max_active t active w =
      let l = insert_writes now job window_seconds max_active in
      transact_elim (Step t) l t (w, λ o. refl)
        (λ h. (
          put-IsKeyed job 1 t (all_written l t) w
              (insert_writes-rows now job window_seconds max_active t),
          λ o.
              insert_writes-Balanced o now job window_seconds max_active t active
                (insert_held now job window_seconds max_active t h).0,
        ))

  pub serve-Step :
      (now : ℕ) (r : Request) (t : Table)
      → Honest r
      → is_expiry r ≡ false
      → IsKeyed t
      → Step t (serve db now r t)
  unfolding serve
  serve-Step now (insert job window_seconds max_active) t h e w =
      insert-Step now job window_seconds max_active t h w
  serve-Step now (change job_id fn) t h e w =
      change_found-Step fn job_id (lookup job_id t.rows) t h w refl
  serve-Step now (remove job_id) t h e w = remove_found-Step job_id (lookup job_id t.rows) t w refl
  serve-Step now (expire job_id) t h e w = absurd (cc)

  pub serve-IsKeyed :
      (now : ℕ) (r : Request) (t : Table) → Honest r → IsKeyed t → IsKeyed (serve db now r t)
  serve-IsKeyed now (insert job window_seconds max_active) t h w =
      (serve-Step now (insert job window_seconds max_active) t h refl w).0
  serve-IsKeyed now (change job_id fn) t h w = (serve-Step now (change job_id fn) t h refl w).0
  serve-IsKeyed now (remove job_id) t h w = (serve-Step now (remove job_id) t h refl w).0
  serve-IsKeyed now (expire job_id) t h w =
      unfold serve in
      (elim (Bool-cases (is_past_ttl now (lookup job_id t.rows))) [
        | inl e ↦ rw e (pop-IsKeyed job_id t (record t { rows = pop job_id t.rows }) w refl)
        | inr e ↦ rw e w
      ])

  serve_all-Step :
      (now : ℕ) (l : List Request) (t : Table)
      → All (λ r. Honest r × (is_expiry r ≡ false)) l
      → IsKeyed t
      → Step t (serve_all db now l t)
  unfolding serve_all
  serve_all-Step now [] t a w = (w, λ o. refl)
  serve_all-Step now (r ∷ l) t a w =
      let (v, b) = serve-Step now r t a.0.0 a.0.1 w in
      let (x, c) = serve_all-Step now l (serve db now r t) a.1 v in
      (x, λ o. omega (arith, b o, c o))

  -- While the service deletes no row by its `ttl`, the slot counter of an owner, as `count_active`
  -- answers it, is at all times the number of the owner's rows that count against the cap, whichever
  -- transactions are cancelled, after submissions of jobs that count, changes that keep the job's id
  -- and owner, evictions and deletions, in any order. The store's `create` and `update`, which only
  -- tests call, are not among the requests.
  pub slots_exact :
      (now : ℕ) (l : List Request) (owner : String)
      → All (λ r. Honest r × (is_expiry r ≡ false)) l
      → active_count owner (serve_all db now l empty) ≡ counting owner (serve_all db now l empty)
  slots_exact now l owner a =
      let (w, b) = serve_all-Step now l empty a empty-IsKeyed in
      unfold active_count in omega (arith, b owner, empty_slots owner)
