-- ===== src/Backup/Settled.antt =====
-- A run of services/backup_service.rs leaves one row, and what becomes of it.
use simply_storage.Prelude.{
  ℕ, ◌<◌, ◌≡◌, refl, ◌∙◌, String, Option, some, List, [], ◌∷◌, ◌++◌, arith, All, find, update_where,
  ◌⊎◌, inl, inr,
}
use simply_storage.Error.{AppError, AppResult, ok, err, Result-cases, to_string}
use simply_storage.Db.BackupRecord.{
  BackupRecord, completed, failed, running, has_id, finished, broken, mark_completed, mark_failed,
  find_by_id,
}
use simply_storage.World.{Env}
use simply_storage.Backup.{
  Backups, Run, begin, fail, create_backup, execute_backup, execute_backup_and_update,
  validate_storage_available, concluded,
}

-- Every row has been given an id that was drawn before.
abbrev pub IsDrawn : Backups → Type 0
IsDrawn st = All (λ (r : BackupRecord). r.id < st.world.next_id) st.history

-- An update of the row that was added last.
update-last :
    (id : ℕ) (f : BackupRecord → BackupRecord) (history : List BackupRecord) (row : BackupRecord)
    → All (λ (r : BackupRecord). r.id < id) history
    → row.id ≡ id
    → update_where (has_id id) f (history ++ row ∷ []) ≡ history ++ f row ∷ []
unfolding update_where
update-last id f [] row h e = ground (arith, e)
update-last id f (r ∷ history) row h e = ground (arith, h, update-last id f history row)

find-last :
    (id : ℕ) (history : List BackupRecord) (row : BackupRecord)
    → All (λ (r : BackupRecord). r.id < id) history
    → row.id ≡ id
    → find (has_id id) (history ++ row ∷ []) ≡ some row
unfolding find
find-last id [] row h e = ground (arith, e)
find-last id (r ∷ history) row h e = ground (arith, h, find-last id history row)

-- How the row ends, by the database's answer to the statement that marks it.
abbrev pub IsOver : AppResult (Unit {0}) → AppResult BackupRecord → BackupRecord → Type 0
IsOver (ok _) answer row =
    ((answer ≡ ok row) × (row.status ≡ completed))
    ⊎ ((e : AppError) × (answer ≡ err e) × (row.status ≡ failed))
IsOver (err _) answer row = (e : AppError) × (answer ≡ err e) × (row.status ≡ running)

-- The row that a run leaves, and what it answers.
pub record IsSettled (run : Run) (config_id : Option ℕ) (st : Backups)
    (answer : AppResult BackupRecord × Backups) (row : BackupRecord) : Type 0 where
  pub added : answer.1.history ≡ st.history ++ row ∷ []
  pub for_config : row.config_id ≡ config_id
  pub started : row.started_at ≡ some run.started_at
  pub created : row.created_at ≡ run.started_at
  pub over : IsOver run.marking answer.0 row

execute_backup-history :
    (env : Env) (run : Run) (path : String) (storage_id : ℕ) (st : Backups)
    → (execute_backup env run path storage_id st).1.history ≡ st.history
unfolding execute_backup
execute_backup-history env run path storage_id st = ground arith

-- The row of a run that has begun.
abbrev IsBegun : Run → BackupRecord → Type 0
IsBegun run row =
    (row.started_at ≡ some run.started_at)
    × (row.created_at ≡ run.started_at)
    × (row.status ≡ running)

failed-settles :
    (run : Run) (at : ℕ) (message : String) (x : AppError) (old st : Backups) (row : BackupRecord)
    (marking : AppResult (Unit {0}))
    → st.history ≡ old.history ++ row ∷ []
    → All (λ (r : BackupRecord). r.id < row.id) old.history
    → IsBegun run row
    → (row' : BackupRecord) × IsSettled
        (record run { marking = marking })
        row.config_id
        old
        (err x, fail marking at row.id message st)
        row'
unfolding fail mark_failed
failed-settles run at message x old st row (ok _) e drawn h = (
  broken at message row,
  record {
    added = rw e (update-last row.id (broken at message) old.history row drawn refl);
    for_config = refl;
    started = h.0;
    created = h.1;
    over = inr (x, refl, refl);
  },
)
failed-settles run at message x old st row (err y) e drawn h = (
  row,
  record { added = e; for_config = refl; started = h.0; created = h.1; over = (x, refl, h.2) },
)

concluded-settles :
    (env : Env) (run : Run) (path : String) (old st : Backups) (row : BackupRecord)
    (r : AppResult ℕ) (marking : AppResult (Unit {0}))
    → st.history ≡ old.history ++ row ∷ []
    → All (λ (x : BackupRecord). x.id < row.id) old.history
    → IsBegun run row
    → (row' : BackupRecord) × IsSettled
        (record run { marking = marking })
        row.config_id
        old
        (concluded env (record run { marking = marking }) row.id path r st)
        row'
unfolding mark_completed find_by_id
concluded-settles env run path old st row (ok size) (ok _) e drawn h = (
  finished run.ended_at size path row,
  record {
    added = rw e (update-last row.id (finished run.ended_at size path) old.history row drawn refl);
    for_config = refl;
    started = h.0;
    created = h.1;
    over = inl (
      rw (e, update-last row.id (finished run.ended_at size path) old.history row drawn refl)
          (rw (find-last row.id old.history (finished run.ended_at size path row) drawn refl) refl),
      refl,
    );
  },
)
concluded-settles env run path old st row (ok size) (err y) e drawn h = (
  row,
  record { added = e; for_config = refl; started = h.0; created = h.1; over = (y, refl, h.2) },
)
concluded-settles env run path old st row (err x) marking e drawn h =
    failed-settles run run.ended_at (to_string x) x old st row marking e drawn h

update-settles :
    (env : Env) (run : Run) (path : String) (storage_id : ℕ) (old st : Backups) (row : BackupRecord)
    → st.history ≡ old.history ++ row ∷ []
    → All (λ (x : BackupRecord). x.id < row.id) old.history
    → IsBegun run row
    → (row' : BackupRecord) × IsSettled run row.config_id old
        (execute_backup_and_update env run row.id path storage_id st)
        row'
unfolding execute_backup_and_update
update-settles env run path storage_id old st row e drawn h =
    let (r, st') = execute_backup env run path storage_id st in
    concluded-settles env run path old st' row r run.marking
      (execute_backup-history env run path storage_id st ∙ e) drawn h

-- Whatever fails, once the database has taken the row of a run, the run leaves exactly that one new
-- row of the configuration, whose start is the run's. Where the database also takes the mark at the
-- end, the row is completed and is the answer, or it is failed and the answer is an error; where it
-- does not, the answer is an error and the row stays running. Ids of rows have been drawn before.
pub create_backup-IsSettled :
    (env : Env) (run : Run) (config_id : Option ℕ) (config_name : Option String) (storage_id : ℕ)
    (storage_path : String) (st : Backups)
    → IsDrawn st
    → (row : BackupRecord) × IsSettled run config_id st
        (create_backup env run config_id config_name storage_id storage_path st)
        row
unfolding create_backup begin
create_backup-IsSettled env run config_id config_name storage_id storage_path st drawn =
    elim (Result-cases (validate_storage_available storage_id st)) [
      | inl (u, e) ↦
          rw (e, create_backup)
            (update-settles env run _ storage_id st _ _ refl drawn (refl, refl, refl))
      | inr (x, e) ↦
          rw (e, create_backup)
            (failed-settles run run.started_at _ x st _ _ run.marking refl drawn (refl, refl, refl))
    ]
