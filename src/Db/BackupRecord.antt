-- ===== src/Db/BackupRecord.antt =====
-- `BackupRecord` of db/models.rs: one row for each run of a backup.
use simply_storage.Prelude.{
  ℕ, ◌+◌, String, Option, none, some, Bool, true, false, ◌&&◌, List, [], ◌∷◌, ◌++◌, ◌==◌, leb, ltb,
  if◌then◌else◌, select_where, update_where, delete_where, order_by, find, exists, length, take,
  skip,
}
use simply_storage.Error.{AppResult, ok, err, ok_or, not_found}

pub data BackupStatus : Type 0 where
  running completed failed : BackupStatus

abbrev pub is_running : BackupStatus → Bool
is_running running = true
is_running _ = false

abbrev pub is_completed : BackupStatus → Bool
is_completed completed = true
is_completed _ = false

pub record BackupRecord : Type 0 where
  pub id : ℕ
  pub config_id : Option ℕ
  pub config_name : Option String
  pub storage_id : ℕ
  pub file_path : String
  pub file_size_bytes : ℕ
  pub status : BackupStatus
  pub error_message : Option String
  pub started_at : Option ℕ
  pub completed_at : Option ℕ
  pub created_at : ℕ

pub record CreateBackupRecord : Type 0 where
  pub config_id : Option ℕ
  pub config_name : Option String
  pub storage_id : ℕ
  pub file_path : String

abbrev pub new_record : ℕ → ℕ → CreateBackupRecord → BackupRecord
new_record now id input = record {
  id = id;
  config_id = input.config_id;
  config_name = input.config_name;
  storage_id = input.storage_id;
  file_path = input.file_path;
  file_size_bytes = 0;
  status = running;
  error_message = none;
  started_at = some now;
  completed_at = none;
  created_at = now;
}

unfoldable pub create :
    ℕ → ℕ → CreateBackupRecord → List BackupRecord → BackupRecord × List BackupRecord
create now id input history = let row = new_record now id input in (row, history ++ row ∷ [])

abbrev pub has_id : ℕ → BackupRecord → Bool
has_id id r = r.id == id

unfoldable pub find_by_id : ℕ → List BackupRecord → AppResult BackupRecord
find_by_id id history = ok_or (find (has_id id) history) (not_found "Backup record {} not found")

abbrev pub of_config : ℕ → BackupRecord → Bool
of_config config_id r = elim r.config_id [ none ↦ false | some id ↦ id == config_id ]

abbrev pub matches : Option ℕ → BackupRecord → Bool
matches none r = true
matches (some config_id) r = of_config config_id r

abbrev pub newest_first : BackupRecord → BackupRecord → Bool
newest_first r s = leb s.created_at r.created_at

unfoldable pub list : Option ℕ → ℕ → ℕ → List BackupRecord → List BackupRecord
unfolding skip
list config_id limit offset history =
    take limit (skip offset (order_by newest_first (select_where (matches config_id) history)))

unfoldable pub count : Option ℕ → List BackupRecord → ℕ
count config_id history = length (select_where (matches config_id) history)

abbrev pub finished : ℕ → ℕ → String → BackupRecord → BackupRecord
finished now file_size file_path r = record r {
  status = completed;
  completed_at = some now;
  file_size_bytes = file_size;
  file_path = file_path;
}

-- The row after an update, or none if no row has the id.
unfoldable pub mark_completed :
    ℕ → ℕ → ℕ → String → List BackupRecord → AppResult BackupRecord × List BackupRecord
unfolding find_by_id
mark_completed now id file_size file_path history =
    let history' = update_where (has_id id) (finished now file_size file_path) history in
    (find_by_id id history', history')

abbrev pub broken : ℕ → String → BackupRecord → BackupRecord
broken now message r = record r {
  status = failed;
  error_message = some message;
  completed_at = some now;
}

unfoldable pub mark_failed :
    ℕ → ℕ → String → List BackupRecord → AppResult BackupRecord × List BackupRecord
unfolding find_by_id
mark_failed now id message history =
    let history' = update_where (has_id id) (broken now message) history in
    (find_by_id id history', history')

unfoldable pub delete : ℕ → List BackupRecord → AppResult (Unit {0}) × List BackupRecord
delete id history = (
  if exists (has_id id) history then ok tt else err (not_found "Backup record {} not found"),
  delete_where (has_id id) history,
)

abbrev pub first : List BackupRecord → Option BackupRecord
first [] = none
first (r ∷ _) = some r

-- Every row has one of the three states that the statement asks for.
unfoldable pub find_latest_by_config : ℕ → List BackupRecord → Option BackupRecord
find_latest_by_config config_id history =
    first (order_by newest_first (select_where (of_config config_id) history))

abbrev pub stale_message : String
stale_message = "Marked as failed: exceeded maximum running time (stale)"

-- `started_at < NOW() - threshold`, where no start is no match.
abbrev started_before : ℕ → ℕ → Option ℕ → Bool
started_before now threshold none = false
started_before now threshold (some at) = ltb (at + threshold) now

abbrev pub is_stale : ℕ → ℕ → ℕ → BackupRecord → Bool
is_stale now config_id threshold r =
    of_config config_id r && is_running r.status && started_before now threshold r.started_at

unfoldable pub mark_stale_running_as_failed : ℕ → ℕ → ℕ → List BackupRecord → List BackupRecord
mark_stale_running_as_failed now config_id threshold history =
    update_where (is_stale now config_id threshold) (broken now stale_message) history

unfoldable pub has_running_by_config : ℕ → List BackupRecord → Bool
has_running_by_config config_id history =
    exists (λ r. of_config config_id r && is_running r.status) history

unfoldable pub list_all_by_config : ℕ → List BackupRecord → List BackupRecord
list_all_by_config config_id history = select_where (of_config config_id) history

unfoldable pub delete_all_by_config : ℕ → List BackupRecord → List BackupRecord
delete_all_by_config config_id history = delete_where (of_config config_id) history

abbrev pub is_completed_of : ℕ → BackupRecord → Bool
is_completed_of config_id r = of_config config_id r && is_completed r.status

-- The completed rows of a configuration after its `retention_count` newest ones.
unfoldable pub list_oldest_completed_by_config : ℕ → ℕ → List BackupRecord → List BackupRecord
unfolding skip
list_oldest_completed_by_config config_id retention_count history =
    skip retention_count (order_by newest_first (select_where (is_completed_of config_id) history))
