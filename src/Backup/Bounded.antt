-- ===== src/Backup/Bounded.antt =====
-- `cleanup_old_backups` of services/backup_service.rs, when the storages delete what they are told.
use simply_storage.Prelude.{
  ℕ, suc, ◌+◌, ◌≤◌, ◌≡◌, refl, ap, ◌∙◌, Bool, true, ◌&&◌, not, List, [], ◌∷◌, arith, ◌==◌, String,
  &&-true, if◌then◌else◌, All, All-imp, length, select_where, delete_where, exists, order_by, skip,
  count_where, count-ext, count-order_by, count-select_where, count-delete_where, count-skip,
  count-le_skip, count_none, count-le, exists_counted, pos, All-skip, All-selected, All-order_by,
}
use simply_storage.Error.{ok}
use simply_storage.Db.BackupRecord.{
  BackupRecord, has_id, is_completed_of, newest_first, list_oldest_completed_by_config, delete,
}
use simply_storage.Backend.{Backend}
use simply_storage.Backend.Registry.{Registry, get}
use simply_storage.World.{Env}
use simply_storage.Backup.{Backups, delete_from_storage, delete_row}
use simply_storage.Backup.Removal.{delete_each, cleanup_old_backups}
use simply_storage.Backup.Retention.{IsUnique, is_among, All-is_among}

-- Every storage of the rows has a backend.
abbrev pub IsServed : Registry → List BackupRecord → Type 0
IsServed registry = All (λ (r : BackupRecord). (b : Backend) × (get r.storage_id registry ≡ ok b))

-- The rows of a list can all be deleted from a table.
abbrev IsWithin : List BackupRecord → List BackupRecord → Type 0
IsWithin rows history =
    (i : ℕ)
    → (count_where (has_id i) rows ≤ count_where (has_id i) history)
      × (count_where (has_id i) rows ≤ 1)

among_cons :
    (row : BackupRecord) (rows : List BackupRecord) (p : BackupRecord → Bool) (r : BackupRecord)
    → ((p r && not (is_among rows r)) && not (has_id row.id r))
      ≡ (p r && not (is_among (row ∷ rows) r))
unfolding exists
among_cons row rows p r = ground arith

count-has_id-deleted :
    (i k : ℕ) (history : List BackupRecord)
    → count_where (has_id i) (delete_where (has_id k) history)
      ≡ (if i == k then 0 else count_where (has_id i) history)
unfolding count_where delete_where
count-has_id-deleted i k [] = ground arith
count-has_id-deleted i k (r ∷ history) = ground (arith, count-has_id-deleted i k history)

IsWithin-delete :
    (row : BackupRecord) (rows history : List BackupRecord)
    → IsWithin (row ∷ rows) history
    → IsWithin rows (delete_where (has_id row.id) history)
unfolding count_where
IsWithin-delete row rows history h i = ground (arith, h i, count-has_id-deleted i row.id history)

IsWithin-exists :
    (row : BackupRecord) (rows history : List BackupRecord)
    → IsWithin (row ∷ rows) history
    → exists (has_id row.id) history ≡ true
unfolding count_where
IsWithin-exists row rows history h =
    exists_counted (has_id row.id) history (ground (arith, h row.id))

module _ (env : Env) (deletes : (b : Backend) (path : String) → env.delete b path ≡ ok tt) where
  delete_from_storage_served :
      (row : BackupRecord) (b : Backend) (st : Backups)
      → get row.storage_id st.world.registry ≡ ok b
      → ((delete_from_storage env row st).0 ≡ ok tt)
        × ((delete_from_storage env row st).1.history ≡ st.history)
        × ((delete_from_storage env row st).1.world.registry ≡ st.world.registry)
  unfolding delete_from_storage
  delete_from_storage_served row b st h = rw (h, deletes b row.file_path) (refl, refl, refl)

  -- The state after one round of the loop.
  abbrev dropped : BackupRecord → Backups → Backups
  dropped row st = (delete_row env row.id (delete_from_storage env row st).1).1

  delete_each_step :
      (row : BackupRecord) (rows : List BackupRecord) (deleted : ℕ) (st : Backups)
      → (delete_from_storage env row st).0 ≡ ok tt
      → exists (has_id row.id) (delete_from_storage env row st).1.history ≡ true
      → delete_each env (row ∷ rows) deleted st
        ≡ delete_each env rows (deleted + 1) (dropped row st)
  unfolding delete_each delete_row delete
  delete_each_step row rows deleted st removed there = rw (removed, there) refl

  dropped_lem :
      (row : BackupRecord) (b : Backend) (st : Backups)
      → get row.storage_id st.world.registry ≡ ok b
      → ((dropped row st).history ≡ delete_where (has_id row.id) st.history)
        × ((dropped row st).world.registry ≡ st.world.registry)
  unfolding delete_row delete
  dropped_lem row b st h =
      let (removed, same, registry) = delete_from_storage_served row b st h in
      (ap (delete_where (has_id row.id)) same, registry)

  -- The loop deletes each row.
  delete_each-counts :
      (rows : List BackupRecord) (deleted : ℕ) (st : Backups) (p : BackupRecord → Bool)
      → IsServed st.world.registry rows
      → IsWithin rows st.history
      → ((delete_each env rows deleted st).0 ≡ ok (deleted + length rows))
        × (count_where p (delete_each env rows deleted st).1.history
            ≡ count_where (λ r. p r && not (is_among rows r)) st.history)
  delete_each-counts [] deleted st p served within =
      unfold delete_each in
      (
        ap ok (omega arith),
        count-ext p (λ r. p r && not (is_among [] r)) (λ r. unfold exists in ground arith)
            st.history,
      )
  delete_each-counts (row ∷ rows) deleted st p served within =
      let (b, found) = served.0 in
      let (removed, same, registry) = delete_from_storage_served row b st found in
      let there : exists (has_id row.id) (delete_from_storage env row st).1.history ≡ true =
        ap (exists (has_id row.id)) same ∙ IsWithin-exists row rows st.history within in
      let (left, kept) = dropped_lem row b st found in
      let rest =
        delete_each-counts rows (deleted + 1) (dropped row st) p (rw kept served.1)
          (rw left (IsWithin-delete row rows st.history within)) in
      rw (delete_each_step row rows deleted st removed there) (
        rest.0 ∙ ap ok (omega arith),
        rest.1
            ∙ ap (count_where (λ r. p r && not (is_among rows r))) left
            ∙ count-delete_where _ (has_id row.id) st.history
            ∙ count-ext _ _ (among_cons row rows p) st.history,
      )

-- The rows that a clean-up deletes.
old-IsServed :
    (registry : Registry) (config_id n : ℕ) (history : List BackupRecord)
    → IsServed registry history
    → IsServed registry (list_oldest_completed_by_config config_id n history)
unfolding list_oldest_completed_by_config
old-IsServed registry config_id n history h =
    All-skip _ n _ (All-order_by _ newest_first _ (All-selected _ _ history h))

old-IsWithin :
    (config_id n : ℕ) (history : List BackupRecord)
    → IsUnique history
    → IsWithin (list_oldest_completed_by_config config_id n history) history
unfolding list_oldest_completed_by_config
old-IsWithin config_id n history unique i =
    let rows = select_where (is_completed_of config_id) history in
    let fewer = count-skip (has_id i) n (order_by newest_first rows) in
    let sorted = count-order_by (has_id i) newest_first rows in
    let selected = count-select_where (has_id i) (is_completed_of config_id) history in
    let less =
      count-le (λ r. is_completed_of config_id r && has_id i r) (has_id i)
        (λ r h. (&&-true (is_completed_of config_id r) (has_id i r) h).1) history in
    (
      omega (arith, fewer, sorted, selected, less),
      omega (arith, fewer, sorted, selected, less, unique i),
    )

-- At most `n` completed rows of the configuration are not among the others.
kept_bound :
    (config_id n : ℕ) (history : List BackupRecord)
    → let old = list_oldest_completed_by_config config_id n history in
      count_where (λ r. is_completed_of config_id r && not (is_among old r)) history ≤ n
unfolding list_oldest_completed_by_config
kept_bound config_id n history =
    let rows = select_where (is_completed_of config_id) history in
    let sorted = order_by newest_first rows in
    let old = skip n sorted in
    let others : BackupRecord → Bool = λ r. not (is_among old r) in
    let gone : count_where others old ≡ 0 =
      count_none others old (All-imp (λ r h. ground (arith, h)) old (All-is_among old)) in
    omega (
      arith,
      count-select_where others (is_completed_of config_id) history,
      count-order_by others newest_first rows,
      count-le_skip others n sorted,
      gone,
    )

-- When the storages have backends that delete what they are told, and no id is twice in the table, a
-- clean-up succeeds with the number of rows beyond the retention count, and no more completed rows
-- of the configuration than the retention count remain.
pub cleanup_old_backups-bounded :
    (env : Env) (config_id n : ℕ) (st : Backups)
    → ((b : Backend) (path : String) → env.delete b path ≡ ok tt)
    → IsUnique st.history
    → IsServed st.world.registry st.history
    → let (r, st') = cleanup_old_backups env config_id (pos (suc n)) st in
      (r ≡ ok (length (list_oldest_completed_by_config config_id (suc n) st.history)))
      × (count_where (is_completed_of config_id) st'.history ≤ suc n)
unfolding cleanup_old_backups
cleanup_old_backups-bounded env config_id n st deletes unique served =
    let old = list_oldest_completed_by_config config_id (suc n) st.history in
    let counts =
      delete_each-counts env deletes old 0 st (is_completed_of config_id)
        (old-IsServed st.world.registry config_id (suc n) st.history served)
        (old-IsWithin config_id (suc n) st.history unique) in
    (
      counts.0 ∙ ap ok (omega arith),
      omega (arith, counts.1, kept_bound config_id (suc n) st.history),
    )
