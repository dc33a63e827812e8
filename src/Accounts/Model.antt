-- ===== src/Accounts/Model.antt =====
-- backend/app/repositories/account_store.py: the rows of the account database. A table is the
-- list of its rows, an SQL statement a function on it.
use auto_correlation.Prelude.{ℕ, String, Bool, Option, List}

pub record User : Type 0 where
  pub id : String
  pub email : String
  pub name : String
  pub password_hash : String
  pub created_at : ℕ

-- A row of `sessions`.
pub record Session : Type 0 where
  pub token_hash : String
  pub user_id : String
  pub created_at : ℕ
  pub expires_at : ℕ

-- A row of `password_resets`.
pub record PasswordReset : Type 0 where
  pub token_hash : String
  pub user_id : String
  pub expires_at : ℕ

pub record Subscription : Type 0 where
  pub id : String
  pub user_id : String
  pub plan : String
  pub price_cents : ℕ
  pub currency : String
  pub payment_provider : String
  pub payment_ref : String
  pub purchased_at : ℕ
  pub starts_at : ℕ
  pub expires_at : ℕ
  pub reminder_sent_at : Option ℕ
  pub expired_notice_sent_at : Option ℕ

-- The key of a free-use counter.
abbrev pub UsageKey : Type 0
UsageKey = String

-- A row of `free_usage`.
pub record Usage : Type 0 where
  pub usage_key : UsageKey
  pub used : ℕ
  pub updated_at : ℕ

pub record HistoryEntry : Type 0 where
  pub id : String
  pub user_id : String
  pub job_id : Option String
  pub analysis_id : Option String
  pub plan : String
  pub collection_name : String
  pub collection_filename : Option String
  pub collection_bytes : ℕ
  pub request_count : Option ℕ
  pub correlation_count : Option ℕ
  pub jmx_status : Option String
  pub has_collection : Bool
  pub has_jmx : Bool
  pub has_manifest : Bool
  pub created_at : ℕ
  pub updated_at : ℕ
  pub expires_at : ℕ

-- The database. The files under `history_dir` are not part of it.
pub record AccountStore : Type 0 where
  pub users : List User
  pub sessions : List Session
  pub password_resets : List PasswordReset
  pub subscriptions : List Subscription
  pub free_usage : List Usage
  pub history : List HistoryEntry
