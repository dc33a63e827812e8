-- ===== src/Jobs/Dynamo/Requests.antt =====
-- What the other clients of the table do between two requests of one operation. Each of their
-- transactions is one atomic step, built from the row that it finds.
use auto_correlation.Prelude.{
  ℕ, ◌+◌, String, Bool, false, Option, none, some, List, [], ◌∷◌, if◌then◌else◌, ltb,
}
use auto_correlation.Prelude.Dict.{lookup, pop}
use auto_correlation.Jobs.Model.{ExecutionJob}
use auto_correlation.Jobs.Dynamo.{Row, Table, Database, job_writes, evict_writes, insert_writes}

-- The application's requests; `create` and `update`, which insert without a check and which only tests
-- call, are not among them. A submission, with the window and the cap; a change of a job; an eviction or deletion; and what
-- the service does by itself: deletion of a row whose `ttl` is over, which leaves the slot.
pub data Request : Type 0 where
  insert : ExecutionJob → ℕ → ℕ → Request
  change : String → (ExecutionJob → ExecutionJob) → Request
  remove expire : String → Request

-- `_TTL_GRACE_SECONDS`
abbrev pub ttl_grace_seconds : ℕ
ttl_grace_seconds = 86400

unfoldable pub is_past_ttl : ℕ → Option Row → Bool
is_past_ttl now none = false
is_past_ttl now (some row) = ltb (row.job.expires_at + ttl_grace_seconds) now

-- The others' turn before the next request.
pub record Turn : Type 0 where
  pub elapsed : ℕ
  pub requests : List Request

pub record Client : Type 0 where
  pub table : Table
  pub clock : ℕ
  pub others : List Turn

module _ (db : Database) where
  unfoldable pub change_found : (ExecutionJob → ExecutionJob) → Option Row → Table → Table
  change_found fn none t = t
  change_found fn (some row) t = (db.transact (job_writes (fn row.job) (some row)) t).1

  unfoldable pub remove_found : Option Row → Table → Table
  remove_found none t = t
  remove_found (some row) t = (db.transact (evict_writes row) t).1

  unfoldable pub serve : ℕ → Request → Table → Table
  unfolding change_found remove_found is_past_ttl
  serve now (insert job window_seconds max_active) t =
      (db.transact (insert_writes now job window_seconds max_active) t).1
  serve now (change job_id fn) t = change_found fn (lookup job_id t.rows) t
  serve now (remove job_id) t = remove_found (lookup job_id t.rows) t
  serve now (expire job_id) t =
      if is_past_ttl now (lookup job_id t.rows) then record t { rows = pop job_id t.rows } else t

  unfoldable pub serve_all : ℕ → List Request → Table → Table
  unfolding serve
  serve_all now [] t = t
  serve_all now (r ∷ l) t = serve_all now l (serve now r t)

  unfoldable pub next_turn : List Turn → Client → Client
  unfolding serve_all
  next_turn [] c = c
  next_turn (i ∷ rest) c =
      let now = c.clock + i.elapsed in
      record { table = serve_all now i.requests c.table; clock = now; others = rest }

  unfoldable pub pause : Client → Client
  unfolding next_turn
  pause c = next_turn c.others c
