-- ===== src/Backup/Slots.antt =====
-- When workers/backup_worker.rs runs a configuration again after a run.
use simply_storage.Prelude.{
  ℕ, ◌<◌, ◌≡◌, refl, Option, some, Bool, not, ◌&&◌, ◌||◌, ltb, ◌-◌, true, false, List, [], ◌∷◌,
  ◌++◌, arith, All, select_where, order_by, insert_by, inl, inr, ==_refl, Bool-cases, ap,
}
use simply_storage.Db.BackupConfig.{BackupConfig}
use simply_storage.Db.BackupRecord.{
  BackupRecord, of_config, newest_first, first, find_latest_by_config, is_running,
}
use simply_storage.Error.{AppResult, ok, err}
use simply_storage.World.{Env}
use simply_storage.Backup.{Backups, Run, create_backup}
use simply_storage.Backup.Due.{Cron, slot_passed, is_backup_due, decided}
use simply_storage.Backup.Settled.{IsDrawn, IsOver, create_backup-IsSettled}

module _ (at : ℕ) where
  -- Every row was made before a time.
  abbrev pub IsOlder : List BackupRecord → Type 0
  IsOlder = All (λ (r : BackupRecord). r.created_at < at)

  first-insert_by :
      (x row : BackupRecord) (rows : List BackupRecord)
      → x.created_at < row.created_at
      → first rows ≡ some row
      → first (insert_by newest_first x rows) ≡ some row
  unfolding insert_by
  first-insert_by x row [] h e = cc
  first-insert_by x row (y ∷ rows) h e =
      let same : y.created_at ≡ row.created_at = grind (arith, e) in ground (arith, h, e, same)

  first-order_by :
      (rows : List BackupRecord) (row : BackupRecord)
      → IsOlder rows
      → row.created_at ≡ at
      → first (order_by newest_first (rows ++ row ∷ [])) ≡ some row
  unfolding order_by insert_by
  first-order_by [] row h e = refl
  first-order_by (x ∷ rows) row h e =
      first-insert_by x row (order_by newest_first (rows ++ row ∷ [])) (omega (arith, h.0, e))
        (first-order_by rows row h.1 e)

  select-last :
      (config_id : ℕ) (history : List BackupRecord) (row : BackupRecord)
      → of_config config_id row ≡ true
      → IsOlder history
      → (rows : List BackupRecord) × (select_where (of_config config_id) (history ++ row ∷ [])
          ≡ rows ++ row ∷ [])
        × IsOlder rows
  unfolding select_where
  select-last config_id [] row h old = ([], rw h refl, tt)
  select-last config_id (r ∷ history) row h old =
      let (rows, e, rest) = select-last config_id history row h old.1 in
      elim (Bool-cases (of_config config_id r)) [
        | inl k ↦ (r ∷ rows, rw (k, e) refl, (old.0, rest))
        | inr k ↦ (rows, rw (k, e) refl, rest)
      ]

  find_latest-last :
      (config_id : ℕ) (history : List BackupRecord) (row : BackupRecord)
      → of_config config_id row ≡ true
      → IsOlder history
      → row.created_at ≡ at
      → find_latest_by_config config_id (history ++ row ∷ []) ≡ some row
  unfolding find_latest_by_config
  find_latest-last config_id history row h old e =
      let (rows, selected, older) = select-last config_id history row h old in
      rw selected (first-order_by rows row older e)

of_config-some : (id : ℕ) (row : BackupRecord) → row.config_id ≡ some id → of_config id row ≡ true
of_config-some id row e = rw e (==_refl id)

abbrev pub is_taken : AppResult (Unit {0}) → Bool
is_taken (ok _) = true
is_taken (err _) = false

running-not_taken :
    (marking : AppResult (Unit {0})) (answer : AppResult BackupRecord) (row : BackupRecord)
    → IsOver marking answer row
    → is_running row.status ≡ not (is_taken marking)
running-not_taken (ok _) answer row h = ground (arith, h)
running-not_taken (err x) answer row (e, refused, h) = rw h refl

-- A run that is over counts at once, and one that seems to be running when an hour is over.
decided_lem :
    (now : ℕ) (after : ℕ → Option ℕ) (created_at at : ℕ) (row : BackupRecord) (st : Backups)
    (over : Bool)
    → row.started_at ≡ some at
    → is_running row.status ≡ not over
    → (decided now after created_at (some row) st).0
      ≡ ((over || ltb 3600 (now - at)) && slot_passed now (after at))
decided_lem now after created_at at row st true e h = rw (h, e) refl
decided_lem now after created_at at row st false e h = ground (arith, h, e)

-- After a scheduled run, whether it succeeded or failed, the configuration is due again exactly when
-- the first slot after the run's start has come, and, where the database did not take the mark at
-- the end of the run, more than an hour has gone since its start: a failure is not tried again
-- before the next slot. Ids have been drawn before, the rows are older than the run, and the
-- expression parses.
pub is_backup_due-create_backup :
    (env : Env) (cron : Cron) (after : ℕ → Option ℕ) (run : Run) (now : ℕ) (config : BackupConfig)
    (st : Backups)
    → IsDrawn st
    → IsOlder run.started_at st.history
    → cron config.schedule_cron ≡ some after
    → let st' =
        (create_backup env run
          (some config.id)
          (some config.name)
          config.storage_id
          config.storage_path
          st).1 in
      (is_backup_due cron now config st').0
      ≡ some (
          (is_taken run.marking || ltb 3600 (now - run.started_at))
          && slot_passed now (after run.started_at))
unfolding is_backup_due
is_backup_due-create_backup env cron after run now config st drawn old parses =
    let (row, settled) =
      create_backup-IsSettled env run (some config.id) (some config.name) config.storage_id
        config.storage_path st drawn in
    let latest =
      find_latest-last run.started_at config.id st.history row
        (of_config-some config.id row settled.for_config) old settled.created in
    rw (parses, settled.added, latest, is_backup_due)
      (ap some (
        decided_lem now after config.created_at run.started_at row _ (is_taken run.marking)
          settled.started (running-not_taken run.marking _ row settled.over)))
