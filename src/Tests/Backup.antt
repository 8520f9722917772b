-- ===== src/Tests/Backup.antt =====
-- A configuration with backups of the database.
use simply_storage.Prelude.{
  ℕ, ◌+◌, ◌≤◌, ◌≡◌, refl, none, some, true, [], ◌∷◌, arith, length, select_where, count_where,
  has_char, has_dots, pos, negsuc,
}
use simply_storage.Error.{ok}
use simply_storage.Backend.Registry.{get}
use simply_storage.Db.BackupConfig.{BackupConfig, CreateBackupConfig, UpdateBackupConfig}
use simply_storage.Db.BackupRecord.{
  BackupRecord, completed, is_completed_of, list_oldest_completed_by_config,
}
use simply_storage.Backup.{Backups, Run, create_backup, validate_storage_path}
use simply_storage.Backup.Removal.{cleanup_old_backups}
use simply_storage.Backup.Due.{Cron, is_backup_due, slot_passed}
use simply_storage.Backup.Routes.{validate_cron}
use simply_storage.Backup.Trigger.{TriggerBackupRequest}
use simply_storage.Backup.Settled.{IsSettled, create_backup-IsSettled}
use simply_storage.Backup.Slots.{is_backup_due-create_backup}
use simply_storage.Backup.Retention.{IsUnique, is_protected, cleanup_old_backups-keeps}
use simply_storage.Backup.Bounded.{cleanup_old_backups-bounded}
use simply_storage.Backup.Configs.{IsValid}
use simply_storage.Backup.Paths.{IsPlain}
use simply_storage.Tests.Samples.{fresh_world, answering}

abbrev hourly : Cron
hourly expression = some (λ t. some (t + 3600))

abbrev nightly : BackupConfig
nightly = record {
  id = 5;
  name = "nightly";
  storage_id = 10;
  storage_path = "backups";
  schedule_cron = "0 0 2 * * * *";
  retention_count = pos 1;
  enabled = true;
  created_at = 0;
  updated_at = 0;
}

abbrev done : ℕ → ℕ → BackupRecord
done id at = record {
  id = id;
  config_id = some 5;
  config_name = some "nightly";
  storage_id = 10;
  file_path = "backups/a";
  file_size_bytes = 3;
  status = completed;
  error_message = none;
  started_at = some at;
  completed_at = some at;
  created_at = at;
}

abbrev backups : Backups
backups = record {
  configs = nightly ∷ [];
  history = done 1 100 ∷ done 2 200 ∷ [];
  world = fresh_world;
}

abbrev tonight : Run
tonight = record {
  started_at = 7200;
  ended_at = 7260;
  dump = ok (1 ∷ 2 ∷ []);
  stamp = "20260101_020000";
  short_id = "0a1b2c3d";
  marking = ok tt;
}

create_backup-IsSettled_example :
    (row : BackupRecord) × IsSettled tonight
      (some 5)
      backups
      (create_backup answering tonight (some 5) (some "nightly") 10 "backups" backups)
      row
create_backup-IsSettled_example =
    create_backup-IsSettled answering tonight (some 5) (some "nightly") 10 "backups" backups
      (omega arith, (omega arith, tt))

is_backup_due-create_backup_example :
    (is_backup_due hourly 8000 nightly
      (create_backup answering tonight (some 5) (some "nightly") 10 "backups" backups).1).0
    ≡ some (slot_passed 8000 (some 10800))
is_backup_due-create_backup_example =
    is_backup_due-create_backup answering hourly (λ t. some (t + 3600)) tonight 8000 nightly backups
      (omega arith, (omega arith, tt)) (omega arith, (omega arith, tt)) refl

backups-IsUnique : IsUnique backups.history
unfolding count_where
backups-IsUnique i = ground arith

cleanup_old_backups-keeps_example :
    select_where
      (is_protected 5 1 backups.history)
      (cleanup_old_backups answering 5 (pos 1) backups).1.history
    ≡ select_where (is_protected 5 1 backups.history) backups.history
cleanup_old_backups-keeps_example = cleanup_old_backups-keeps answering 5 0 backups backups-IsUnique

cleanup_old_backups-bounded_example :
    let (r, st') = cleanup_old_backups answering 5 (pos 1) backups in
    (r ≡ ok (length (list_oldest_completed_by_config 5 1 backups.history)))
    × (count_where (is_completed_of 5) st'.history ≤ 1)
unfolding get
cleanup_old_backups-bounded_example =
    cleanup_old_backups-bounded answering 5 0 backups (λ b path. refl) backups-IsUnique
      ((_, refl), ((_, refl), tt))

abbrev no_change : UpdateBackupConfig
no_change = record {
  name = none;
  storage_id = none;
  storage_path = none;
  schedule_cron = none;
  retention_count = some (negsuc 0);
  enabled = none;
}

abbrev new_backup : CreateBackupConfig
new_backup = record {
  name = "weekly";
  storage_id = 20;
  storage_path = some "../etc";
  schedule_cron = "0 0 2 * * Mon *";
  retention_count = none;
  enabled = none;
}

nightly-IsValid : IsValid hourly nightly
unfolding validate_cron validate_storage_path has_char has_dots
nightly-IsValid = record { path_ok = refl; cron_ok = refl; keeps = refl }

abbrev by_hand : TriggerBackupRequest
by_hand = record { config_id = some 5; storage_id = none; storage_path = none }

stamp-IsPlain : IsPlain "20260101_020000"
unfolding has_char
stamp-IsPlain = record { no_null = refl; no_dot = refl; no_colon = refl }

short_id-IsPlain : IsPlain "0a1b2c3d"
unfolding has_char
short_id-IsPlain = record { no_null = refl; no_dot = refl; no_colon = refl }
