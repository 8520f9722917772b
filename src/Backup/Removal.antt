-- ===== src/Backup/Removal.antt =====
-- What services/backup_service.rs deletes: one backup, the backups of a configuration, and those
-- beyond its retention count.
use simply_storage.Prelude.{ℕ, ◌+◌, List, [], ◌∷◌, str_eq, if◌then◌else◌, ℤ, below_one, count_of}
use simply_storage.Error.{AppError, AppResult, ok, err, bad_request, not_found}
use simply_storage.Error.Action.{Action, continue, ◌>>=◌, ◌>>◌}
use simply_storage.Db.Storage.{Storage, find_storage}
use simply_storage.Db.BackupRecord.{
  BackupRecord, find_by_id, list_oldest_completed_by_config, list_all_by_config,
}
use simply_storage.Backend.{Backend}
use simply_storage.Backend.Registry.{get}
use simply_storage.World.{Env}
use simply_storage.Backup.{Backups, delete_from_storage, delete_row, deleted_from}

abbrev storage_disabled : AppError
storage_disabled =
    bad_request
      "Storage '{}' is disabled. Re-enable it before deleting backups to avoid orphaning files."

-- The backend is not loaded: the row may go only if the storage is gone too.
abbrev pub allow_without : AppResult Storage → AppResult (Unit {0})
allow_without (ok _) = err storage_disabled
allow_without (err (not_found _)) = ok tt
allow_without (err e) = err e

module _ (env : Env) where
  abbrev remove_file_of : BackupRecord → AppResult Backend → Action Backups (Unit {0})
  remove_file_of row (ok backend) st =
      deleted_from env backend row.file_path (env.delete backend row.file_path) st
  remove_file_of row (err _) st =
      (allow_without (find_storage row.storage_id st.world.storages), st)

  abbrev remove_file : BackupRecord → Action Backups (Unit {0})
  remove_file row st =
      if str_eq row.file_path ""
      then (ok tt, st)
      else remove_file_of row (get row.storage_id st.world.registry) st

  unfoldable pub delete_backup : ℕ → Action Backups (Unit {0})
  unfolding find_by_id get find_storage delete_row
  delete_backup backup_id = do
    row ← λ st. (find_by_id backup_id st.history, st)
    remove_file row
    delete_row env backup_id

  -- A file that cannot be deleted keeps its row, for the next time.
  abbrev after_file : ℕ → (ℕ → Action Backups ℕ) → ℕ → AppResult (Unit {0}) → Action Backups ℕ
  after_file id next deleted (err _) st = next deleted st
  after_file id next deleted (ok _) st =
      let (r, st') = delete_row env id st in continue r (λ _. next (deleted + 1)) st'

  -- The loop over the candidates; the result counts the deleted rows.
  unfoldable pub delete_each : List BackupRecord → ℕ → Action Backups ℕ
  unfolding delete_from_storage delete_row
  delete_each [] deleted st = (ok deleted, st)
  delete_each (row ∷ rows) deleted st =
      let (r, st') = delete_from_storage env row st in
      after_file row.id (delete_each rows) deleted r st'

  unfoldable pub cleanup_old_backups : ℕ → ℤ → Action Backups ℕ
  unfolding list_oldest_completed_by_config delete_each
  cleanup_old_backups config_id retention_count st =
      if below_one retention_count
      then (ok 0, st)
      else delete_each
          (list_oldest_completed_by_config config_id (count_of retention_count) st.history) 0 st

  unfoldable pub delete_all : List BackupRecord → ℕ → Action Backups ℕ
  unfolding delete_from_storage delete_row
  delete_all [] deleted st = (ok deleted, st)
  delete_all (row ∷ rows) deleted st =
      let (r, st') =
        (if str_eq row.file_path "" then (ok tt, st) else delete_from_storage env row st) in
      after_file row.id (delete_all rows) deleted r st'

  unfoldable pub delete_all_backups_for_config : ℕ → Action Backups ℕ
  unfolding list_all_by_config delete_all
  delete_all_backups_for_config config_id st =
      delete_all (list_all_by_config config_id st.history) 0 st
