-- ===== src/Backup/Routes.antt =====
-- api/backups.rs: the requests of an administrator about configurations and backups.
use Prim.Native.String.{len}
use simply_storage.Prelude.{
  at_least_one, saturating, ℕ, ◌+◌, ◌-◌, ◌*◌, ◌/◌, String, Option, none, some, Bool, false, not,
  List, leb, min, if◌then◌else◌, unwrap_or, ℤ, pos, below_one,
}
use simply_storage.Error.{AppResult, ok, err, ensure, bad_request, ◌>>=◌, ◌>>◌}
use simply_storage.Db.Storage.{Storage, find_storage}
use simply_storage.Db.BackupConfig.{BackupConfig, CreateBackupConfig, UpdateBackupConfig}
use simply_storage.Db.BackupConfig
use simply_storage.Db.BackupRecord.{
  BackupRecord, CreateBackupRecord, mark_stale_running_as_failed, has_running_by_config,
}
use simply_storage.Db.BackupRecord
use simply_storage.World.{Env}
use simply_storage.Backup.{Backups, validate_storage_path}
use simply_storage.Backup.Removal.{delete_all_backups_for_config}
use simply_storage.Backup.Due.{Cron}

abbrev pub when_given {ℓ} :
    {A : Type ℓ} → (A → AppResult (Unit {0})) → Option A → AppResult (Unit {0})
when_given check none = ok tt
when_given check (some a) = check a

module _ (cron : Cron) where
  abbrev parsed : Option (ℕ → Option ℕ) → AppResult (Unit {0})
  parsed none = err (bad_request "Invalid cron expression: {}")
  parsed (some _) = ok tt

  unfoldable pub validate_cron : String → AppResult (Unit {0})
  validate_cron expression = parsed (cron expression)

  abbrev pub check_name : String → AppResult (Unit {0})
  check_name name = ensure (leb (len name) 255) (bad_request "name must be at most 255 characters")

  abbrev pub check_cron_length : String → AppResult (Unit {0})
  check_cron_length expression =
      ensure (leb (len expression) 100) (bad_request "schedule_cron must be at most 100 characters")

  abbrev pub check_path_length : String → AppResult (Unit {0})
  check_path_length path =
      ensure (leb (len path) 1024) (bad_request "storage_path must be at most 1024 characters")

  abbrev pub check_retention : ℤ → AppResult (Unit {0})
  check_retention count =
      ensure (not (below_one count)) (bad_request "retention_count must be at least 1")

  abbrev pub check_storage : List Storage → ℕ → AppResult (Unit {0})
  check_storage storages storage_id = do
    storage ← find_storage storage_id storages
    ensure storage.enabled
        (bad_request "Storage is disabled. Enable it before assigning to a backup config.")

  unfoldable pub check_new : List Storage → CreateBackupConfig → AppResult (Unit {0})
  unfolding validate_cron validate_storage_path find_storage
  check_new storages body = do
    check_name body.name
    check_cron_length body.schedule_cron
    when_given check_path_length body.storage_path
    validate_cron body.schedule_cron
    when_given validate_storage_path body.storage_path
    when_given check_retention body.retention_count
    check_storage storages body.storage_id

  unfoldable pub create_backup_config :
      ℕ → CreateBackupConfig → Backups → AppResult BackupConfig × Backups
  unfolding check_new BackupConfig.create
  create_backup_config now body st = elim (check_new st.world.storages body) [
    | err e ↦ (err e, st)
    | ok _ ↦
        let (config, configs) = BackupConfig.create now st.world.next_id body st.configs in
        (
          ok config,
          record st {
            configs = configs;
            world = record st.world { next_id = st.world.next_id + 1 };
          },
        )
  ]

  unfoldable pub check_update : List Storage → UpdateBackupConfig → AppResult (Unit {0})
  unfolding validate_cron validate_storage_path find_storage
  check_update storages body = do
    when_given check_name body.name
    when_given check_cron_length body.schedule_cron
    when_given check_path_length body.storage_path
    when_given validate_cron body.schedule_cron
    when_given validate_storage_path body.storage_path
    when_given check_retention body.retention_count
    when_given (check_storage storages) body.storage_id

  unfoldable pub update_backup_config :
      ℕ → ℕ → UpdateBackupConfig → Backups → AppResult BackupConfig × Backups
  unfolding check_update BackupConfig.update
  update_backup_config now config_id body st = elim (check_update st.world.storages body) [
    | err e ↦ (err e, st)
    | ok _ ↦
        let (r, configs) = BackupConfig.update now config_id body st.configs in
        (r, record st { configs = configs })
  ]

abbrev drop_config : ℕ → Backups → AppResult (Unit {0}) × Backups
drop_config config_id st =
    let (r, configs) = BackupConfig.delete config_id st.configs in
    (r, record st { configs = configs })

abbrev pub after_cleanup : ℕ → AppResult ℕ → Backups → AppResult (Unit {0}) × Backups
after_cleanup config_id (err e) st = (err e, st)
after_cleanup config_id (ok _) st = drop_config config_id st

unfoldable pub delete_backup_config :
    Env → ℕ → Option Bool → Backups → AppResult (Unit {0}) × Backups
unfolding BackupConfig.find_by_id BackupConfig.delete delete_all_backups_for_config
delete_backup_config env config_id delete_backups st =
    elim (BackupConfig.find_by_id config_id st.configs) [
      | err e ↦ (err e, st)
      | ok _ ↦
          let (r, st') =
            (if unwrap_or delete_backups false
              then delete_all_backups_for_config env config_id st
              else (ok 0, st)) in
          after_cleanup config_id r st'
    ]

pub record BackupHistoryResponse : Type 0 where
  pub records : List BackupRecord
  pub page : ℕ
  pub per_page : ℕ
  pub total : ℕ
  pub total_pages : ℕ

unfoldable pub list_backups : Option ℕ → Option ℤ → Option ℤ → Backups → BackupHistoryResponse
unfolding BackupRecord.count BackupRecord.list
list_backups config_id page_asked per_page st =
    let limit = min 500 (at_least_one (unwrap_or per_page (pos 50))) in
    let page = at_least_one (unwrap_or page_asked (pos 1)) in
    let offset = saturating ((page - 1) * limit) in
    let total = BackupRecord.count config_id st.history in
    record {
      records = BackupRecord.list config_id limit offset st.history;
      page = page;
      per_page = limit;
      total = total;
      total_pages = (total + limit - 1) / limit;
    }
