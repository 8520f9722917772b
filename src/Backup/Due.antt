-- ===== src/Backup/Due.antt =====
-- workers/backup_worker.rs: when a backup is due, and a round over the configurations. A cron
-- expression that parses gives the next slot after a time; both are those of the crate `cron`.
use simply_storage.Prelude.{
  ℕ, ◌-◌, String, Option, none, some, Bool, true, false, List, [], ◌∷◌, ltb, leb, if◌then◌else◌,
  unwrap_or,
}
use simply_storage.Error.{AppResult, ok, err}
use simply_storage.Db.BackupConfig.{BackupConfig, list_enabled}
use simply_storage.Db.BackupRecord.{BackupRecord, is_running, find_latest_by_config, stale_message}
use simply_storage.World.{Env}
use simply_storage.Backup.{Backups, Run, create_backup, fail}
use simply_storage.Backup.Removal.{cleanup_old_backups}

-- `Schedule::from_str`, and `schedule.after(&t).next()`.
abbrev pub Cron : Type 0
Cron = String → Option (ℕ → Option ℕ)

abbrev pub stale_running_threshold_secs : ℕ
stale_running_threshold_secs = 3600

abbrev pub slot_passed : ℕ → Option ℕ → Bool
slot_passed now none = false
slot_passed now (some next_time) = leb next_time now

abbrev is_stale_since : ℕ → Option ℕ → Bool
is_stale_since now none = false
is_stale_since now (some started) = ltb stale_running_threshold_secs (now - started)

-- The latest run; the database takes the mark on a stale one.
abbrev pub decided : ℕ → (ℕ → Option ℕ) → ℕ → Option BackupRecord → Backups → Bool × Backups
decided now after created_at none st = (slot_passed now (after created_at), st)
decided now after created_at (some row) st =
    let baseline = unwrap_or row.started_at created_at in
    if is_running row.status
    then (if is_stale_since now row.started_at
        then (slot_passed now (after baseline), fail (ok tt) now row.id stale_message st)
        else (false, st))
    else (slot_passed now (after baseline), st)

-- No answer if the expression does not parse.
unfoldable pub is_backup_due : Cron → ℕ → BackupConfig → Backups → Option Bool × Backups
unfolding find_latest_by_config fail
is_backup_due cron now config st = elim (cron config.schedule_cron) [
  | none ↦ (none, st)
  | some after ↦
      let (due, st') =
        decided now after config.created_at (find_latest_by_config config.id st.history) st in
      (some due, st')
]

module _ (env : Env) (cron : Cron) where
  abbrev clean_after : BackupConfig → AppResult BackupRecord → Backups → Backups
  clean_after config (err _) st = st
  clean_after config (ok _) st = (cleanup_old_backups env config.id config.retention_count st).1

  abbrev run_scheduled : Run → BackupConfig → Backups → Backups
  run_scheduled run config st =
      let (r, st') =
        create_backup env run (some config.id) (some config.name) config.storage_id
          config.storage_path st in
      clean_after config r st'

  abbrev if_due : (Backups → Backups) → Option Bool × Backups → Backups
  if_due run (some true, st) = run st
  if_due run (some false, st) = st
  if_due run (none, st) = st

  -- `locked` answers for the advisory lock; `meanwhile` is what other replicas do until then.
  unfoldable pub process_config :
      ℕ → Run → Bool → (Backups → Backups) → BackupConfig → Backups → Backups
  unfolding is_backup_due create_backup cleanup_old_backups
  process_config now run locked meanwhile config st =
      if_due
        (λ st.
          if locked
          then if_due (run_scheduled run config) (is_backup_due cron now config (meanwhile st))
          else meanwhile st)
        (is_backup_due cron now config st)

  -- What each configuration of a round meets.
  unfoldable pub process_each :
      ℕ → (ℕ → Run) → (ℕ → Bool) → (ℕ → Backups → Backups) → List BackupConfig → Backups → Backups
  unfolding process_config
  process_each now run locked meanwhile [] st = st
  process_each now run locked meanwhile (config ∷ configs) st =
      process_each now run locked meanwhile configs
        (process_config now (run config.id) (locked config.id) (meanwhile config.id) config st)

  unfoldable pub check_and_run_backups :
      ℕ → (ℕ → Run) → (ℕ → Bool) → (ℕ → Backups → Backups) → Backups → Backups
  unfolding list_enabled process_each
  check_and_run_backups now run locked meanwhile st =
      process_each now run locked meanwhile (list_enabled st.configs) st
