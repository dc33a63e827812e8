-- ===== src/Jobs/Dynamo/Versions.antt =====
-- The versions of one row under the requests of others: they only grow.
use auto_correlation.Prelude.{
  ℕ, ◌+◌, ◌<◌, String, ◌≡◌, ◌⊎◌, inl, inr, refl, false, Option, none, some, List, [], ◌∷◌, All,
  str_eq, eq_iff, arith, Bool-cases, ◌∙◌, ap, subst,
}
use auto_correlation.Prelude.Dict.{lookup, put, pop, lookup-put, lookup-pop}
use auto_correlation.Jobs.Model.{ExecutionJob}
use auto_correlation.Jobs.Dynamo.{
  Row, Table, Database, job_writes, evict_writes, insert_writes, all_written,
}
use auto_correlation.Jobs.Dynamo.Requests.{
  Request, insert, change, remove, expire, change_found, remove_found, serve, serve_all,
  is_past_ttl,
}
use auto_correlation.Jobs.Dynamo.Slots.{IsKeyed, IsHonest, Honest}
use auto_correlation.Jobs.Dynamo.Steps.{
  transact_elim, job_writes-rows, evict_writes-rows, insert_writes-rows, serve-IsKeyed,
}

-- A new job has an id of its own.
abbrev pub Foreign : String → Request → Type 0
Foreign k (insert job window_seconds max_active) = str_eq job.id k ≡ false
Foreign k _ = Unit

-- A row is the same, or has been written since, or is gone; no row comes back.
abbrev pub After : Option Row → Option Row → Type 0
After none none = Unit
After none (some q) = ⊥
After (some r) none = Unit
After (some r) (some q) = (r ≡ q) ⊎ (r.version < q.version)

pub After-refl : (o : Option Row) → After o o
After-refl none = tt
After-refl (some r) = inl refl

After-trans : (a b c : Option Row) → After a b → After b c → After a c
After-trans none none none h g = tt
After-trans none none (some _) h g = g
After-trans none (some _) c h g = absurd h
After-trans (some _) _ none h g = tt
After-trans (some _) none (some _) h g = absurd g
After-trans (some r) (some q) (some s) h g = ground arith

After-pop :
    (k j : String) (t u : Table) → u.rows ≡ pop j t.rows → After (lookup k t.rows) (lookup k u.rows)
After-pop k j t u e =
    rw (e, lookup-pop j k t.rows)
      (elim (Bool-cases (str_eq j k)) [
        | inl same ↦ rw same (gone (lookup k t.rows))
        | inr differs ↦ rw differs (After-refl (lookup k t.rows))
      ])
  where
    gone : (o : Option Row) → After o none
    gone none = tt
    gone (some r) = tt

After-put_other :
    (k j : String) (r : Row) (t u : Table)
    → str_eq j k ≡ false
    → u.rows ≡ put j r t.rows
    → After (lookup k t.rows) (lookup k u.rows)
After-put_other k j r t u differs e =
    rw (e, lookup-put j k r t.rows, differs) (After-refl (lookup k t.rows))

After-put_next :
    (k j : String) (old new : Row) (t u : Table)
    → lookup j t.rows ≡ some old
    → old.version < new.version
    → u.rows ≡ put j new t.rows
    → After (lookup k t.rows) (lookup k u.rows)
After-put_next k j old new t u here grows e = elim (Bool-cases (str_eq j k)) [
  | inl same ↦
      let p : j ≡ k = ground (arith, eq_iff j k) in
      let before : lookup k t.rows ≡ some old = subst (λ x. lookup x t.rows ≡ some old) p here in
      rw (e, lookup-put j k new t.rows, same, before) (inr grows)
  | inr differs ↦ After-put_other k j new t u differs e
]

module _ (db : Database) (k : String) where
  change-After :
      (fn : ExecutionJob → ExecutionJob) (j : String) (found : Option Row) (t : Table)
      → IsHonest fn
      → IsKeyed t
      → lookup j t.rows ≡ found
      → After (lookup k t.rows) (lookup k (change_found db fn found t).rows)
  unfolding change_found
  change-After fn j none t honest w e = After-refl (lookup k t.rows)
  change-After fn j (some row) t honest w e =
      let l = job_writes (fn row.job) (some row) in
      let new : Row = record { job = fn row.job; version = row.version + 1 } in
      let same : (fn row.job).id ≡ j = honest.same_id row.job ∙ w.keyed j row e in
      transact_elim db (λ u. After (lookup k t.rows) (lookup k u.rows)) l t
        (After-refl (lookup k t.rows))
        (λ h.
          After-put_next k (fn row.job).id row new t (all_written l t)
            (ap (λ x. lookup x t.rows) same ∙ e) (omega arith) (job_writes-rows (fn row.job) row t))

  remove-After :
      (found : Option Row) (t : Table)
      → After (lookup k t.rows) (lookup k (remove_found db found t).rows)
  unfolding remove_found
  remove-After none t = After-refl (lookup k t.rows)
  remove-After (some row) t =
      transact_elim db (λ u. After (lookup k t.rows) (lookup k u.rows)) (evict_writes row) t
        (After-refl (lookup k t.rows))
        (λ h. After-pop k row.job.id t (all_written (evict_writes row) t) (evict_writes-rows row t))

  serve-After :
      (now : ℕ) (r : Request) (t : Table)
      → Foreign k r
      → Honest r
      → IsKeyed t
      → After (lookup k t.rows) (lookup k (serve db now r t).rows)
  unfolding serve
  serve-After now (insert job window_seconds max_active) t f h w =
      let l = insert_writes now job window_seconds max_active in
      transact_elim db (λ u. After (lookup k t.rows) (lookup k u.rows)) l t
        (After-refl (lookup k t.rows))
        (λ g.
          After-put_other k job.id (record { job = job; version = 1 }) t (all_written l t) f
            (insert_writes-rows now job window_seconds max_active t))
  serve-After now (change j fn) t f h w = change-After fn j (lookup j t.rows) t h w refl
  serve-After now (remove j) t f h w = remove-After (lookup j t.rows) t
  serve-After now (expire j) t f h w = elim (Bool-cases (is_past_ttl now (lookup j t.rows))) [
    | inl e ↦ rw e (After-pop k j t (record t { rows = pop j t.rows }) refl)
    | inr e ↦ rw e (After-refl (lookup k t.rows))
  ]

  pub serve_all-After :
      (now : ℕ) (l : List Request) (t : Table)
      → All (λ r. Foreign k r × Honest r) l
      → IsKeyed t
      → IsKeyed (serve_all db now l t)
        × After (lookup k t.rows) (lookup k (serve_all db now l t).rows)
  unfolding serve_all
  serve_all-After now [] t a w = (w, After-refl (lookup k t.rows))
  serve_all-After now (r ∷ l) t a w =
      let u = serve db now r t in
      let (x, b) = serve_all-After now l u a.1 (serve-IsKeyed db now r t a.0.1 w) in
      (
        x,
        After-trans (lookup k t.rows) (lookup k u.rows) (lookup k (serve_all db now l u).rows)
            (serve-After now r t a.0.0 a.0.1 w) b,
      )
