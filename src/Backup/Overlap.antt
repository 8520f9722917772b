-- ===== src/Backup/Overlap.antt =====
-- Backups by hand (api/backups.rs) of one configuration do not overlap.
use simply_storage.Prelude.{
  ℕ, ◌≡◌, refl, Option, none, some, Bool, false, ◌&&◌, [], ◌∷◌, ◌++◌, arith, exists, count_where,
  count-append, none_counted, Bool-cases, inl, inr, ==_refl, ap, ◌∙◌,
}
use simply_storage.Error.{ok, Result-cases}
use simply_storage.Db.BackupRecord.{
  BackupRecord, of_config, is_running, has_running_by_config, create, new_record,
}
use simply_storage.Backup.{Backups, Run, begin, row_for}
use simply_storage.Backup.Trigger.{
  TriggerBackupRequest, Target, trigger_backup, start, checked_target, is_busy, path_for,
}

ok_inj {ℓ} : {A : Type ℓ} {a b : A} → ok a ≡ ok b → a ≡ b
ok_inj e = cc

-- A row of the configuration that has not ended.
abbrev pub is_running_of : ℕ → BackupRecord → Bool
is_running_of config_id r = of_config config_id r && is_running r.status

-- The row that a request makes.
abbrev made : Run → Target → Backups → BackupRecord
made run t st =
    new_record run.started_at st.world.next_id
      (row_for t.config_id t.config_name t.storage_id (path_for run t))

start_ok :
    (run : Run) (t : Target) (st : Backups) (row : BackupRecord)
    → (start run t st).0 ≡ ok row
    → (is_busy t.config_id st ≡ false)
      × (made run t st ≡ row)
      × ((start run t st).1.history ≡ st.history ++ made run t st ∷ [])
unfolding begin create
start_ok run t st row h = elim (Bool-cases (is_busy t.config_id st)) [
  | inl e ↦ absurd (ground (arith, e, h))
  | inr e ↦ (e, ok_inj (rw e at h), rw e refl)
]

not_busy :
    (config_id : ℕ) (given : Option ℕ) (st : Backups)
    → given ≡ some config_id
    → is_busy given st ≡ false
    → exists (is_running_of config_id) st.history ≡ false
unfolding has_running_by_config
not_busy config_id none st e h = cc
not_busy config_id (some c) st e h = let same : c ≡ config_id = cc in rw (← same) h

start-single :
    (run : Run) (t : Target) (st : Backups) (row : BackupRecord) (config_id : ℕ)
    → (start run t st).0 ≡ ok row
    → row.config_id ≡ some config_id
    → count_where (is_running_of config_id) (start run t st).1.history ≡ 1
start-single run t st row config_id h of =
    let (free, same, added) = start_ok run t st row h in
    let given : t.config_id ≡ some config_id = ap (λ (r : BackupRecord). r.config_id) same ∙ of in
    let before = none_counted _ st.history (not_busy config_id t.config_id st given free) in
    let new : count_where (is_running_of config_id) (made run t st ∷ []) ≡ 1 =
      unfold count_where in rw (given, ==_refl config_id) refl in
    rw added (
      omega (
        arith,
        count-append (is_running_of config_id) st.history (made run t st ∷ []),
        before,
        new,
      ))

-- When a request for a backup by hand is accepted for a configuration, the row that it has made is
-- the only running one of that configuration.
pub trigger_backup-single :
    (run : Run) (body : TriggerBackupRequest) (st : Backups) (row : BackupRecord) (config_id : ℕ)
    → (trigger_backup run body st).0 ≡ ok row
    → row.config_id ≡ some config_id
    → count_where (is_running_of config_id) (trigger_backup run body st).1.history ≡ 1
unfolding trigger_backup
trigger_backup-single run body st row config_id h of =
    elim (Result-cases (checked_target body st)) [
      | inl (t, e) ↦
          rw (e, trigger_backup)
            (start-single run t _ row config_id (rw (e, trigger_backup) at h) of)
      | inr (x, e) ↦ absurd (ground (arith, e, h))
    ]
