-- ===== src/Accounts/History.antt =====
-- The analysis history of account_store.py: the rows. The files of an entry are not modelled.
use auto_correlation.Prelude.{
  ℕ, ◌+◌, max, String, Bool, false, not, ◌&&◌, Option, none, some, List, [], ◌∷◌, ◌++◌, ltb, leb,
  if◌then◌else◌, str_eq, opt_eq, select, length, is_some,
}
use auto_correlation.Jobs.Model.{Bytes}
use auto_correlation.Accounts.Model.{HistoryEntry}

-- `len(collection_raw or b"")`
abbrev raw_length : Option Bytes → ℕ
raw_length none = 0
raw_length (some b) = length b

-- The arguments of `create_history`, with the fresh id.
pub record NewEntry : Type 0 where
  pub id : String
  pub user_id : String
  pub plan : String
  pub collection_name : String
  pub job_id : Option String
  pub analysis_id : Option String
  pub collection_filename : Option String
  pub collection_raw : Option Bytes

unfoldable pub new_entry : NewEntry → ℕ → ℕ → HistoryEntry
new_entry e now retention_seconds = record {
  id = e.id;
  user_id = e.user_id;
  job_id = e.job_id;
  analysis_id = e.analysis_id;
  plan = e.plan;
  collection_name = e.collection_name;
  collection_filename = e.collection_filename;
  collection_bytes = raw_length e.collection_raw;
  request_count = none;
  correlation_count = none;
  jmx_status = none;
  has_collection = is_some e.collection_raw;
  has_jmx = false;
  has_manifest = false;
  created_at = now;
  updated_at = now;
  expires_at = now + retention_seconds;
}

unfoldable pub create_history :
    NewEntry → ℕ → ℕ → List HistoryEntry → HistoryEntry × List HistoryEntry
unfolding new_entry
create_history e now retention_seconds t =
    (new_entry e now retention_seconds, t ++ new_entry e now retention_seconds ∷ [])

first_entry : List HistoryEntry → Option HistoryEntry
first_entry [] = none
first_entry (e ∷ r) = some e

unfoldable pub get_history : String → List HistoryEntry → Option HistoryEntry
unfolding first_entry
get_history entry_id t = first_entry (select (λ e. str_eq e.id entry_id) t)

unfoldable pub history_for_job : String → String → List HistoryEntry → Option HistoryEntry
unfolding first_entry
history_for_job user_id job_id t =
    first_entry (select (λ e. str_eq e.user_id user_id && opt_eq e.job_id (some job_id)) t)

unfoldable pub history_for_analysis : String → String → List HistoryEntry → Option HistoryEntry
unfolding first_entry
history_for_analysis user_id analysis_id t =
    first_entry
      (select (λ e. str_eq e.user_id user_id && opt_eq e.analysis_id (some analysis_id)) t)

-- `ORDER BY created_at DESC`
insert_newest : HistoryEntry → List HistoryEntry → List HistoryEntry
insert_newest a [] = a ∷ []
insert_newest a (b ∷ r) = if ltb a.created_at b.created_at then b ∷ insert_newest a r else a ∷ b ∷ r

newest_first : List HistoryEntry → List HistoryEntry
unfolding insert_newest
newest_first [] = []
newest_first (a ∷ r) = insert_newest a (newest_first r)

unfoldable pub list_history : String → ℕ → List HistoryEntry → List HistoryEntry
unfolding newest_first
list_history user_id now t =
    newest_first (select (λ e. str_eq e.user_id user_id && ltb now e.expires_at) t)

abbrev pub is_kept : ℕ → HistoryEntry → Bool
is_kept now e = not (leb e.expires_at now)

unfoldable pub delete_history : String → List HistoryEntry → List HistoryEntry
delete_history entry_id t = select (λ e. not (str_eq e.id entry_id)) t

unfoldable pub extend_history_retention : String → ℕ → ℕ → List HistoryEntry → List HistoryEntry
extend_history_retention user_id retention_seconds now [] = []
extend_history_retention user_id retention_seconds now (e ∷ r) =
    (if str_eq e.user_id user_id && ltb now e.expires_at
      then record e { expires_at = max e.expires_at (e.created_at + retention_seconds) }
      else e)
    ∷ extend_history_retention user_id retention_seconds now r

delete_all : List HistoryEntry → List HistoryEntry → List HistoryEntry
unfolding delete_history
delete_all [] t = t
delete_all (e ∷ r) t = delete_all r (delete_history e.id t)

-- The ids are read first, then each entry is deleted.
unfoldable pub purge_expired_history : ℕ → List HistoryEntry → ℕ × List HistoryEntry
unfolding delete_all
purge_expired_history now t =
    let expired = select (λ (e : HistoryEntry). leb e.expires_at now) t in
    (length expired, delete_all expired t)
