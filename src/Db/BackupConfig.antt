-- ===== src/Db/BackupConfig.antt =====
-- `BackupConfig` of db/models.rs: where and when the database is backed up.
use simply_storage.Prelude.{
  ℕ, String, Option, Bool, true, List, [], ◌∷◌, ◌++◌, ◌==◌, leb, if◌then◌else◌, select_where,
  update_where, delete_where, order_by, find, exists, unwrap_or, ℤ, pos,
}
use simply_storage.Error.{AppResult, ok, err, ok_or, not_found}

pub record BackupConfig : Type 0 where
  pub id : ℕ
  pub name : String
  pub storage_id : ℕ
  pub storage_path : String
  pub schedule_cron : String
  pub retention_count : ℤ
  pub enabled : Bool
  pub created_at : ℕ
  pub updated_at : ℕ

pub record CreateBackupConfig : Type 0 where
  pub name : String
  pub storage_id : ℕ
  pub storage_path : Option String
  pub schedule_cron : String
  pub retention_count : Option ℤ
  pub enabled : Option Bool

pub record UpdateBackupConfig : Type 0 where
  pub name : Option String
  pub storage_id : Option ℕ
  pub storage_path : Option String
  pub schedule_cron : Option String
  pub retention_count : Option ℤ
  pub enabled : Option Bool

abbrev pub new_config : ℕ → ℕ → CreateBackupConfig → BackupConfig
new_config now id input = record {
  id = id;
  name = input.name;
  storage_id = input.storage_id;
  storage_path = unwrap_or input.storage_path "backups";
  schedule_cron = input.schedule_cron;
  retention_count = unwrap_or input.retention_count (pos 7);
  enabled = unwrap_or input.enabled true;
  created_at = now;
  updated_at = now;
}

unfoldable pub create :
    ℕ → ℕ → CreateBackupConfig → List BackupConfig → BackupConfig × List BackupConfig
create now id input configs =
    let config = new_config now id input in (config, configs ++ config ∷ [])

abbrev pub has_id : ℕ → BackupConfig → Bool
has_id id c = c.id == id

unfoldable pub find_by_id : ℕ → List BackupConfig → AppResult BackupConfig
find_by_id id configs = ok_or (find (has_id id) configs) (not_found "Backup config {} not found")

abbrev newest_first : BackupConfig → BackupConfig → Bool
newest_first c d = leb d.created_at c.created_at

unfoldable pub list : List BackupConfig → List BackupConfig
list configs = order_by newest_first configs

unfoldable pub list_enabled : List BackupConfig → List BackupConfig
list_enabled configs = order_by newest_first (select_where (λ c. c.enabled) configs)

abbrev pub changed : ℕ → UpdateBackupConfig → BackupConfig → BackupConfig
changed now input current = record current {
  name = unwrap_or input.name current.name;
  storage_id = unwrap_or input.storage_id current.storage_id;
  storage_path = unwrap_or input.storage_path current.storage_path;
  schedule_cron = unwrap_or input.schedule_cron current.schedule_cron;
  retention_count = unwrap_or input.retention_count current.retention_count;
  enabled = unwrap_or input.enabled current.enabled;
  updated_at = now;
}

unfoldable pub update :
    ℕ → ℕ → UpdateBackupConfig → List BackupConfig → AppResult BackupConfig × List BackupConfig
unfolding find_by_id
update now id input configs = elim (find_by_id id configs) [
  | err e ↦ (err e, configs)
  | ok current ↦
      let row = changed now input current in (ok row, update_where (has_id id) (λ _. row) configs)
]

unfoldable pub delete : ℕ → List BackupConfig → AppResult (Unit {0}) × List BackupConfig
delete id configs = (
  if exists (has_id id) configs then ok tt else err (not_found "Backup config {} not found"),
  delete_where (has_id id) configs,
)
