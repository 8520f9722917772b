-- ===== src/Backup/Configs.antt =====
-- What api/backups.rs asks of a configuration holds of each one in the table.
use simply_storage.Prelude.{
  ℕ, ◌+◌, ◌≡◌, refl, ◌∙◌, str_eq, Option, none, some, Bool, true, false, List, [], ◌∷◌, arith, All,
  All-append, update_where, delete_where, find, Bool-cases, Option-cases, inl, inr, ℤ, pos,
  below_one, has_char, has_dots, if◌then◌else◌, unwrap_or,
}
use simply_storage.Error.{AppResult, ok, err, Result-cases}
use simply_storage.Db.Storage.{Storage}
use simply_storage.Db.BackupConfig.{
  BackupConfig, CreateBackupConfig, UpdateBackupConfig, new_config, changed, has_id, find_by_id,
}
use simply_storage.Db.BackupConfig
use simply_storage.Db.BackupRecord.{BackupRecord, list_all_by_config}
use simply_storage.World.{Env}
use simply_storage.Backup.{Backups, validate_storage_path, delete_from_storage, delete_row}
use simply_storage.Backup.Removal.{delete_all, delete_all_backups_for_config}
use simply_storage.Backup.Due.{Cron}
use simply_storage.Backup.Routes.{
  validate_cron, check_retention, when_given, check_new, check_update, create_backup_config,
  update_backup_config, delete_backup_config, after_cleanup,
}

-- A value that is not given has a default that is right.
when_given_or {ℓ} :
    {A : Type ℓ} (check : A → AppResult (Unit {0})) (a : Option A) (default : A)
    → check default ≡ ok tt
    → when_given check a ≡ ok tt
    → check (unwrap_or a default) ≡ ok tt
when_given_or check none default d h = d
when_given_or check (some a) default d h = h

-- What the loop does with a row's file.
abbrev removal : Env → BackupRecord → Backups → AppResult (Unit {0}) × Backups
removal env row st = if str_eq row.file_path "" then (ok tt, st) else delete_from_storage env row st

All-changed {ℓ κ} :
    {A : Type ℓ} (P : A → Type κ) (p : A → Bool) (row : A) (xs : List A)
    → P row
    → All P xs
    → All P (update_where p (λ _. row) xs)
unfolding update_where
All-changed P p row [] h hs = tt
All-changed P p row (x ∷ xs) h hs = elim (Bool-cases (p x)) [
  | inl e ↦ rw e (h, All-changed P p row xs h hs.1)
  | inr e ↦ rw e (hs.0, All-changed P p row xs h hs.1)
]

All-delete_where {ℓ κ} :
    {A : Type ℓ} (P : A → Type κ) (p : A → Bool) (xs : List A)
    → All P xs
    → All P (delete_where p xs)
unfolding delete_where
All-delete_where P p [] h = tt
All-delete_where P p (x ∷ xs) h = elim (Bool-cases (p x)) [
  | inl e ↦ rw e (All-delete_where P p xs h.1)
  | inr e ↦ rw e (h.0, All-delete_where P p xs h.1)
]

All-find {ℓ κ} :
    {A : Type ℓ} (P : A → Type κ) (p : A → Bool) (xs : List A) (a : A)
    → find p xs ≡ some a
    → All P xs
    → P a
unfolding find
All-find P p [] a e h = cc
All-find P p (x ∷ xs) a e h = elim (Bool-cases (p x)) [
  | inl k ↦ let same : x ≡ a = ground (arith, k, e) in rw (← same) h.0
  | inr k ↦ All-find P p xs a (ground (arith, k, e)) h.1
]

delete_all-configs :
    (env : Env) (rows : List BackupRecord) (deleted : ℕ) (st : Backups)
    → (delete_all env rows deleted st).1.configs ≡ st.configs
unfolding delete_all
delete_all-configs env [] deleted st = refl
delete_all-configs env (row ∷ rows) deleted st = elim (Result-cases (removal env row st).0) [
  | inl (u, e) ↦ elim (Result-cases (delete_row env row.id (removal env row st).1).0) [
    | inl (v, k) ↦ rw (e, k) (delete_all-configs env rows (deleted + 1) _ ∙ same)
    | inr (x, k) ↦ rw (e, k) same
  ]
  | inr (x, e) ↦ rw e (delete_all-configs env rows deleted _ ∙ same)
]
  where
    same : (removal env row st).1.configs ≡ st.configs
    same = unfold delete_from_storage in ground arith

abbrev cleaned : Env → ℕ → Bool → Backups → AppResult ℕ × Backups
cleaned env id wanted st = if wanted then delete_all_backups_for_config env id st else (ok 0, st)

cleaned-configs :
    (env : Env) (id : ℕ) (wanted : Bool) (st : Backups)
    → (cleaned env id wanted st).1.configs ≡ st.configs
unfolding delete_all_backups_for_config
cleaned-configs env id true st = delete_all-configs env (list_all_by_config id st.history) 0 st
cleaned-configs env id false st = refl

module _ (cron : Cron) where
  -- The path stays below a storage's root, the expression parses, and a backup is kept.
  pub record IsValid (config : BackupConfig) : Type 0 where
    pub path_ok : validate_storage_path config.storage_path ≡ ok tt
    pub cron_ok : validate_cron cron config.schedule_cron ≡ ok tt
    pub keeps : below_one config.retention_count ≡ false

  check_retention_ok : (count : ℤ) → check_retention cron count ≡ ok tt → below_one count ≡ false
  check_retention_ok count h = ground (arith, h)

  check_new-parts :
      (storages : List Storage) (body : CreateBackupConfig)
      → check_new cron storages body ≡ ok tt
      → (validate_cron cron body.schedule_cron ≡ ok tt)
        × (when_given validate_storage_path body.storage_path ≡ ok tt)
        × (when_given (check_retention cron) body.retention_count ≡ ok tt)
  unfolding check_new
  check_new-parts storages body h = ground (arith, h)

  new-IsValid :
      (now id : ℕ) (storages : List Storage) (body : CreateBackupConfig)
      → check_new cron storages body ≡ ok tt
      → IsValid (new_config now id body)
  unfolding validate_storage_path has_char has_dots
  new-IsValid now id storages body h =
      let (parses, path, retention) = check_new-parts storages body h in
      record {
        path_ok = when_given_or validate_storage_path body.storage_path "backups" refl path;
        cron_ok = parses;
        keeps =
            check_retention_ok _
              (when_given_or (check_retention cron) body.retention_count (pos 7) refl retention);
      }

  check_update-parts :
      (storages : List Storage) (body : UpdateBackupConfig)
      → check_update cron storages body ≡ ok tt
      → (when_given (validate_cron cron) body.schedule_cron ≡ ok tt)
        × (when_given validate_storage_path body.storage_path ≡ ok tt)
        × (when_given (check_retention cron) body.retention_count ≡ ok tt)
  unfolding check_update
  check_update-parts storages body h = ground (arith, h)

  changed-IsValid :
      (now : ℕ) (storages : List Storage) (body : UpdateBackupConfig) (config : BackupConfig)
      → check_update cron storages body ≡ ok tt
      → IsValid config
      → IsValid (changed now body config)
  changed-IsValid now storages body config h old =
      let (parses, path, retention) = check_update-parts storages body h in
      record {
        path_ok =
            when_given_or validate_storage_path body.storage_path config.storage_path old.path_ok
              path;
        cron_ok =
            when_given_or (validate_cron cron) body.schedule_cron config.schedule_cron old.cron_ok
              parses;
        keeps = check_retention_ok _ (
            when_given_or (check_retention cron) body.retention_count config.retention_count
              (ground (arith, old.keeps)) retention);
      }

  create-IsValid :
      (now : ℕ) (body : CreateBackupConfig) (st : Backups)
      → All IsValid st.configs
      → All IsValid (create_backup_config cron now body st).1.configs
  unfolding create_backup_config BackupConfig.create
  create-IsValid now body st h = elim (Result-cases (check_new cron st.world.storages body)) [
    | inl (u, e) ↦
        rw (e, create_backup_config)
          (All-append IsValid st.configs _ h
            (new-IsValid now st.world.next_id st.world.storages body e, tt))
    | inr (x, e) ↦ rw (e, create_backup_config) h
  ]

  update-IsValid :
      (now id : ℕ) (body : UpdateBackupConfig) (st : Backups)
      → All IsValid st.configs
      → All IsValid (update_backup_config cron now id body st).1.configs
  unfolding update_backup_config BackupConfig.update find_by_id
  update-IsValid now id body st h = elim (Result-cases (check_update cron st.world.storages body)) [
    | inl (u, e) ↦ elim (Option-cases (find (has_id id) st.configs)) [
      | inl k ↦ rw (e, update_backup_config) (rw (k, BackupConfig.update) h)
      | inr (config, k) ↦
          rw (e, update_backup_config)
            (rw (k, BackupConfig.update)
              (All-changed IsValid (has_id id) _ st.configs
                (changed-IsValid now st.world.storages body config e
                  (All-find IsValid (has_id id) st.configs config k h))
                h))
    ]
    | inr (x, e) ↦ rw (e, update_backup_config) h
  ]

  after_cleanup-IsValid :
      (id : ℕ) (r : AppResult ℕ) (st : Backups)
      → All IsValid st.configs
      → All IsValid (after_cleanup id r st).1.configs
  unfolding BackupConfig.delete
  after_cleanup-IsValid id (ok n) st h = All-delete_where IsValid (has_id id) st.configs h
  after_cleanup-IsValid id (err e) st h = h

  delete-IsValid :
      (env : Env) (id : ℕ) (delete_backups : Option Bool) (st : Backups)
      → All IsValid st.configs
      → All IsValid (delete_backup_config env id delete_backups st).1.configs
  unfolding delete_backup_config
  delete-IsValid env id delete_backups st h = elim (Result-cases (find_by_id id st.configs)) [
    | inl (config, e) ↦
        rw (e, delete_backup_config)
          (after_cleanup-IsValid id (cleaned env id (unwrap_or delete_backups false) st).0
            (cleaned env id (unwrap_or delete_backups false) st).1
            (rw (cleaned-configs env id (unwrap_or delete_backups false) st) h))
    | inr (x, e) ↦ rw (e, delete_backup_config) h
  ]

  -- Every configuration in the table has a path that stays below a storage's root, an expression
  -- that parses and a retention count of at least 1, if all had before the request: a request to
  -- create, to change or to delete a configuration keeps this, whatever it asks for.
  pub backup_config_requests-IsValid :
      (env : Env) (now id : ℕ) (new : CreateBackupConfig) (change : UpdateBackupConfig)
      (delete_backups : Option Bool) (st : Backups)
      → All IsValid st.configs
      → All IsValid (create_backup_config cron now new st).1.configs
        × All IsValid (update_backup_config cron now id change st).1.configs
        × All IsValid (delete_backup_config env id delete_backups st).1.configs
  backup_config_requests-IsValid env now id new change delete_backups st h = (
    create-IsValid now new st h,
    update-IsValid now id change st h,
    delete-IsValid env id delete_backups st h,
  )
