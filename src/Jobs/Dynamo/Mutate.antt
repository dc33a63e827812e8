-- ===== src/Jobs/Dynamo/Mutate.antt =====
-- `mutate` among the requests of others: optimistic locking loses no update.
use auto_correlation.Prelude.{
  ℕ, zero, suc, ◌+◌, String, ◌≡◌, inl, inr, refl, true, Option, none, some, List, [], ◌∷◌, All,
  arith, Bool-cases, ◌∙◌, ap, sym, subst,
}
use auto_correlation.Prelude.Dict.{lookup}
use auto_correlation.Jobs.Model.{ExecutionJob}
use auto_correlation.Jobs.Store.{is_evictable}
use auto_correlation.Jobs.Dynamo.{
  Row, Table, Database, job_writes, all_hold, all_written, holds, has_version,
}
use auto_correlation.Jobs.Dynamo.Requests.{Turn, Client, next_turn, pause}
use auto_correlation.Jobs.Dynamo.Operations.{
  Mutated, missing, gave_up, changed, read, commit, evict, retried, attempt, mutate_within, mutate,
  max_mutate_attempts,
}
use auto_correlation.Jobs.Dynamo.Slots.{IsKeyed, Honest}
use auto_correlation.Jobs.Dynamo.Versions.{Foreign, After, serve_all-After, After-refl}

-- The client after its `n`-th pause, where only others have written.
unfoldable pub pauses : Database → ℕ → Client → Client
unfolding pause
pauses db zero c = c
pauses db (suc n) c = pauses db n (pause db c)

-- `mutate` ends at one moment among the others' requests, and changes the table only there: the
-- row that it finds is written with the change, or evicted, or nothing happens.
pub data Linearised (db : Database) (k : String) (fn : ExecutionJob → ExecutionJob) (c : Client)
    : Mutated × Client → Type 0 where
  at_write :
      (n : ℕ) (row : Row)
      → lookup k (pauses db n c).table.rows ≡ some row
      → Linearised db k fn c (
        changed (fn row.job),
        record (pauses db n c) {
          table = all_written (job_writes (fn row.job) (some row)) (pauses db n c).table;
        },
      )
  at_absence :
      (n : ℕ)
      → lookup k (pauses db n c).table.rows ≡ none
      → Linearised db k fn c (missing, pauses db n c)
  at_eviction :
      (n : ℕ) (row : Row)
      → lookup k (pauses db n c).table.rows ≡ some row
      → is_evictable (pauses db n c).clock row.job ≡ true
      → Linearised db k fn c (missing, evict db row (pauses db n c))
  at_no_moment : (n : ℕ) → Linearised db k fn c (gave_up, pauses db n c)

-- All rows are under their ids; the others create no row with the id, submit jobs that count, and
-- change no job's id or owner.
pub record IsFair (k : String) (c : Client) : Type 0 where
  pub keys : IsKeyed c.table
  pub fair : All (λ i. All (λ r. Foreign k r × Honest r) i.requests) c.others

module _ (db : Database) (k : String) (fn : ExecutionJob → ExecutionJob) where
  later :
      (c : Client) (r : Mutated × Client)
      → Linearised db k fn (pause db c) r
      → Linearised db k fn c r
  unfolding pauses
  later c _ (at_write n row e) = at_write (suc n) row e
  later c _ (at_absence n e) = at_absence (suc n) e
  later c _ (at_eviction n row e v) = at_eviction (suc n) row e v
  later c _ (at_no_moment n) = at_no_moment (suc n)

  pause_lem :
      (c : Client)
      → IsFair k c
      → IsFair k (pause db c) × After (lookup k c.table.rows) (lookup k (pause db c).table.rows)
  unfolding pause next_turn
  pause_lem c w = by_turn c.others w.fair
    where
      by_turn :
          (l : List Turn)
          → All (λ i. All (λ r. Foreign k r × Honest r) i.requests) l
          → IsFair k (next_turn db l c)
            × After (lookup k c.table.rows) (lookup k (next_turn db l c).table.rows)
      by_turn [] f = (w, After-refl (lookup k c.table.rows))
      by_turn (i ∷ rest) f =
          let (x, b) = serve_all-After db k (c.clock + i.elapsed) i.requests c.table f.0 w.keys in
          (record { keys = x; fair = f.1 }, b)

  -- The row that a committed write replaces is the row that was read.
  same_row :
      (row : Row) (found : Option Row)
      → After (some row) found
      → has_version row.version found ≡ true
      → found ≡ some row
  same_row row none h v = absurd (cc)
  same_row row (some q) h v = ground arith

  held_version :
      (job : ExecutionJob) (row : Row) (t : Table)
      → all_hold (job_writes job (some row)) t ≡ true
      → has_version row.version (lookup job.id t.rows) ≡ true
  unfolding all_hold job_writes holds
  held_version job row t h = ground arith

  -- A round of the loop, if what comes after it is linearised.
  attempt-Linearised :
      ((j : ExecutionJob) → (fn j).id ≡ j.id)
      → (retry : Client → Mutated × Client)
      → ((c : Client) → IsFair k c → Linearised db k fn c (retry c))
      → (c : Client) → IsFair k c
      → (found : Option Row) → lookup k c.table.rows ≡ found
      → Linearised db k fn c (attempt db k fn retry (found, c))
  unfolding attempt retried commit pauses
  attempt-Linearised same_id retry ih c w none e = at_absence 0 e
  attempt-Linearised same_id retry ih c w (some row) e =
      let l = job_writes (fn row.job) (some row) in
      let d = pause db c in
      let (v, after) = pause_lem c w in
      let same : (fn row.job).id ≡ k = same_id row.job ∙ w.keys.keyed k row e in
      let here : all_hold l d.table ≡ true → lookup k d.table.rows ≡ some row = λ held.
        same_row row (lookup k d.table.rows) (subst (λ o. After o (lookup k d.table.rows)) e after)
          (ap (λ x. has_version row.version (lookup x d.table.rows)) (sym same)
            ∙ held_version (fn row.job) row d.table held) in
      elim (Bool-cases (is_evictable c.clock row.job)) [
        | inl out ↦ rw out (at_eviction 0 row e out)
        | inr stays ↦ rw stays (
            later c _ (elim (db.atomic l d.table) [
              | inl (held, q) ↦ rw q (at_write 0 row (here held))
              | inr (codes, q) ↦ rw q (ih d v)
            ]))
      ]

  mutate_within-Linearised :
      ((j : ExecutionJob) → (fn j).id ≡ j.id)
      → (n : ℕ) (c : Client) → IsFair k c
      → Linearised db k fn c (mutate_within db k fn n c)
  unfolding mutate_within read
  mutate_within-Linearised same_id zero c w = unfold pauses in at_no_moment 0
  mutate_within-Linearised same_id (suc n) c w = later c _ (
      attempt-Linearised same_id (mutate_within db k fn n) (mutate_within-Linearised same_id n)
        (pause db c) (pause_lem c w).0 (lookup k (pause db c).table.rows) refl)

  -- `mutate` of a change that keeps the job's id loses no update and makes none twice. The others may
  -- send any requests between its own that create no row with the id, submit only jobs that count,
  -- and change no job's id or owner; the rows stand under their ids. Then it ends in one of these
  -- ways and has written nothing else: at one moment it has found the row, and has replaced that very
  -- row by its change; it has found no row; it has found the row evictable, and tried to evict it;
  -- or it has given up.
  pub mutate_linearised :
      ((j : ExecutionJob) → (fn j).id ≡ j.id)
      → (c : Client) → IsFair k c
      → Linearised db k fn c (mutate db k fn c)
  unfolding mutate
  mutate_linearised same_id c w = mutate_within-Linearised same_id max_mutate_attempts c w
