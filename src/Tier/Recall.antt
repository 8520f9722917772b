-- ===== src/Tier/Recall.antt =====
-- `restore_file` of services/tier_service.rs: an archived file is asked back from a cold storage.
use simply_storage.Prelude.{
  ℕ, ◌+◌, Option, none, some, Bool, true, false, ◌&&◌, ◌||◌, List, [], ◌∷◌, ◌==◌, leb, select_where,
  update_where, order_by, find,
}
use simply_storage.Error.{AppResult, ok, err, ok_or, not_found, ◌>>=◌, ◌>>◌}
use simply_storage.Error.Action.{Action}
use simply_storage.Db.Storage.{Storage}
use simply_storage.Db.File.{FileReference, find_by_id}
use simply_storage.Db.Location.{FileLocation, restoring, is_synced, is_archived}
use simply_storage.Db.SyncTask.{SyncTask, TaskStatus, is_pending, is_in_progress}
use simply_storage.Db.SyncTask
use simply_storage.World.{World}
use simply_storage.Tier.{on_cold, first}

abbrev is_restorable : List Storage → ℕ → FileLocation → Bool
is_restorable storages file_id l =
    l.file_id == file_id && on_cold storages l && (is_synced l.status || is_archived l.status)

abbrev latest_first : Option ℕ → Option ℕ → Bool
latest_first none none = true
latest_first none (some _) = false
latest_first (some _) none = true
latest_first (some a) (some b) = leb b a

abbrev first_location : List FileLocation → Option FileLocation
first_location [] = none
first_location (l ∷ _) = some l

unfoldable pub find_cold_location : ℕ → World → AppResult FileLocation
find_cold_location file_id w =
    ok_or
      (first_location (
        order_by (λ k l. latest_first k.synced_at l.synced_at)
          (select_where (is_restorable w.storages file_id) w.locations)))
      (not_found "No cold storage location available for restore")

unfoldable pub find_hot_storage : World → AppResult Storage
find_hot_storage w =
    ok_or
      (first (
        order_by (λ s t. leb s.created_at t.created_at)
          (select_where (λ s. s.is_hot && s.enabled) w.storages)))
      (not_found "No hot storage available for restore")

abbrev project_of : Option FileReference → Option ℕ
project_of none = none
project_of (some r) = some r.project_id

abbrev start_restore : ℕ → ℕ → FileLocation × Storage → World → SyncTask × World
start_restore now file_id (cold, hot) w =
    let (task, tasks) =
      SyncTask.create now w.next_id
        (record {
          file_id = file_id;
          source_storage_id = cold.storage_id;
          target_storage_id = hot.id;
          project_id = project_of (find (λ r. r.file_id == file_id) w.references);
        })
        w.sync_tasks in
    (
      task,
      record w {
        sync_tasks = tasks;
        next_id = w.next_id + 1;
        locations =
            update_where (λ l. l.file_id == file_id && is_archived l.status)
              (λ l. record l { status = restoring }) w.locations;
      },
    )

unfoldable pub find_restore : ℕ → World → AppResult (FileLocation × Storage)
unfolding find_cold_location find_hot_storage
find_restore file_id w = do
  find_by_id file_id w.files
  cold ← find_cold_location file_id w
  hot ← find_hot_storage w
  ok (cold, hot)

unfoldable pub restore_file : ℕ → ℕ → Action World SyncTask
unfolding find_restore
restore_file now file_id w = elim (find_restore file_id w) [
  | err e ↦ (err e, w)
  | ok found ↦ let (task, w') = start_restore now file_id found w in (ok task, w')
]
