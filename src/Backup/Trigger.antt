-- ===== src/Backup/Trigger.antt =====
-- `trigger_backup` of api/backups.rs: a backup by hand. The request is answered when the row is
-- there; the work follows in the background, and other requests may come between.
use Prim.Native.String.{◌++◌ as str_append}
use simply_storage.Prelude.{ℕ, String, Option, none, some, Bool, false, if◌then◌else◌, unwrap_or}
use simply_storage.Error.{AppResult, ok, err, bad_request, ◌>>=◌, ◌>>◌}
use simply_storage.Db.Storage.{find_storage}
use simply_storage.Db.BackupConfig.{BackupConfig}
use simply_storage.Db.BackupConfig
use simply_storage.Db.BackupRecord.{
  BackupRecord, mark_stale_running_as_failed, has_running_by_config,
}
use simply_storage.World.{Env}
use simply_storage.Backup.{
  Backups, Run, begin, build_upload_path, generate_backup_filename, validate_storage_path,
  validate_storage_available, execute_backup_and_update, fail, row_for,
}
use simply_storage.Backup.Removal.{cleanup_old_backups}

pub record TriggerBackupRequest : Type 0 where
  pub config_id : Option ℕ
  pub storage_id : Option ℕ
  pub storage_path : Option String

-- What is backed up where.
pub record Target : Type 0 where
  pub config_id : Option ℕ
  pub config_name : Option String
  pub storage_id : ℕ
  pub storage_path : String

abbrev target_of : BackupConfig → Target
target_of config = record {
  config_id = some config.id;
  config_name = some config.name;
  storage_id = config.storage_id;
  storage_path = config.storage_path;
}

abbrev of_storage : Option String → Backups → Option ℕ → AppResult Target
of_storage path st none = err (bad_request "Either config_id or storage_id must be provided")
of_storage path st (some storage_id) = do
  find_storage storage_id st.world.storages
  ok (record {
    config_id = none;
    config_name = none;
    storage_id = storage_id;
    storage_path = unwrap_or path "";
  })

unfoldable pub target : TriggerBackupRequest → Backups → AppResult Target
unfolding find_storage BackupConfig.find_by_id
target body st = elim body.config_id [
  | some id ↦ do config ← BackupConfig.find_by_id id st.configs; ok (target_of config)
  | none ↦ of_storage body.storage_path st body.storage_id
]

abbrev pub clean_stale : ℕ → Option ℕ → Backups → Backups
clean_stale now none st = st
clean_stale now (some config_id) st = record st {
  history = mark_stale_running_as_failed now config_id 3600 st.history;
}

abbrev pub is_busy : Option ℕ → Backups → Bool
is_busy none st = false
is_busy (some config_id) st = has_running_by_config config_id st.history

abbrev pub path_for : Run → Target → String
path_for run t = build_upload_path t.storage_path (generate_backup_filename run)

abbrev pub checked_target : TriggerBackupRequest → Backups → AppResult Target
checked_target body st = do
  t ← target body st
  validate_storage_path t.storage_path
  validate_storage_available t.storage_id st
  ok t

abbrev pub start : Run → Target → Backups → AppResult BackupRecord × Backups
start run t st =
    if is_busy t.config_id st
    then (err (bad_request "A backup is already running for this config"), st)
    else (let (row, st') =
          begin run.started_at (row_for t.config_id t.config_name t.storage_id (path_for run t))
            st in
        (ok row, st'))

-- The request's part.
unfoldable pub trigger_backup :
    Run → TriggerBackupRequest → Backups → AppResult BackupRecord × Backups
unfolding target validate_storage_path validate_storage_available mark_stale_running_as_failed
    has_running_by_config begin build_upload_path
trigger_backup run body st = elim (checked_target body st) [
  | err e ↦ (err e, st)
  | ok t ↦ start run t (clean_stale run.started_at t.config_id st)
]

-- The answers of the advisory lock.
pub data Lock : Type 0 where
  granted held : Lock
  lock_failed no_connection : String → Lock

module _ (env : Env) where
  abbrev clean_after : Option ℕ → AppResult BackupRecord → Backups → Backups
  clean_after config_id (err _) st = st
  clean_after none (ok _) st = st
  clean_after (some config_id) (ok _) st = elim (BackupConfig.find_by_id config_id st.configs) [
    | err _ ↦ st
    | ok config ↦ (cleanup_old_backups env config_id config.retention_count st).1
  ]

  abbrev do_work : Run → ℕ → Target → Backups → Backups
  do_work run record_id t st =
      let (r, st') = execute_backup_and_update env run record_id (path_for run t) t.storage_id st in
      clean_after t.config_id r st'

  abbrev with_lock : Run → ℕ → Target → Lock → Backups → Backups
  with_lock run record_id t granted st = do_work run record_id t st
  with_lock run record_id t held st =
      fail run.marking run.started_at record_id
        "Skipped: another backup for this config is already in progress" st
  with_lock run record_id t (lock_failed e) st =
      fail run.marking run.started_at record_id (str_append "Failed to acquire advisory lock: " e)
        st
  with_lock run record_id t (no_connection e) st =
      fail run.marking run.started_at record_id
        (str_append "Failed to acquire connection for advisory lock: " e) st

  -- The background's part.
  unfoldable pub finish_trigger : Run → ℕ → Target → Lock → Backups → Backups
  unfolding execute_backup_and_update cleanup_old_backups fail build_upload_path
      BackupConfig.find_by_id
  finish_trigger run record_id t lock st = elim t.config_id [
    | none ↦ do_work run record_id t st
    | some _ ↦ with_lock run record_id t lock st
  ]
