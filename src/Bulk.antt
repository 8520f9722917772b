-- ===== src/Bulk.antt =====
-- services/bulk_service.rs: copying all files to a storage. The export is in Bulk/Export.
pub mod Export
pub mod Again
use simply_storage.Prelude.{
  ℕ, ◌+◌, String, Option, none, some, Bool, true, false, ◌&&◌, ◌||◌, not, List, [], ◌∷◌, map, ◌==◌,
  if◌then◌else◌, length, select_where, order_by, exists,
}
use simply_storage.Error.{AppResult, ok, err, ensure, bad_request, ◌>>=◌, ◌>>◌}
use simply_storage.Error.Action.{Action}
use simply_storage.Db.Storage.{Storage, find_storage}
use simply_storage.Db.File.{File}
use simply_storage.Db.Location.{
  FileLocation, LocationStatus, pending, is_synced, on_hot, on_enabled,
}
use simply_storage.Db.SyncTask.{SyncTask, is_pending, is_in_progress}
use simply_storage.Db.SyncTask
use simply_storage.FileService.BulkDelete.{unique_ids}
use simply_storage.World.{World}

pub record SyncAllResult : Type 0 where
  pub storage_id : ℕ
  pub sync_tasks_created : ℕ
  pub already_synced : ℕ

abbrev is_waiting : LocationStatus → Bool
is_waiting pending = true
is_waiting _ = false

abbrev is_copy : ℕ → FileLocation → Bool
is_copy file_id l = l.file_id == file_id && is_synced l.status

abbrev is_at_target : ℕ → ℕ → FileLocation → Bool
is_at_target target file_id l =
    l.file_id == file_id && l.storage_id == target && (is_synced l.status || is_waiting l.status)

abbrev pub is_task_for : ℕ → ℕ → SyncTask → Bool
is_task_for target file_id t =
    t.file_id == file_id
    && t.target_storage_id == target
    && (is_pending t.status || is_in_progress t.status)

-- The file is synced somewhere, not at the target, and no task is under way.
abbrev pub needs_sync : ℕ → List FileLocation → List SyncTask → File → Bool
needs_sync target locations tasks f =
    exists (is_copy f.id) locations
    && not (exists (is_at_target target f.id) locations)
    && not (exists (is_task_for target f.id) tasks)

abbrev hot_first : List Storage → FileLocation → FileLocation → Bool
hot_first storages k l = on_hot storages k || not (on_hot storages l)

abbrev first : List FileLocation → Option FileLocation
first [] = none
first (l ∷ _) = some l

-- A synced copy on an enabled storage, a hot one if there is one.
unfoldable pub find_source : List Storage → List FileLocation → ℕ → Option FileLocation
find_source storages locations file_id = first (
    order_by (hot_first storages)
      (select_where (λ l. is_copy file_id l && on_enabled storages l) locations))

-- The tasks made so far, over the table and the next id.
pub record Queued : Type 0 where
  pub created : ℕ
  pub tasks : List SyncTask
  pub next_id : ℕ

abbrev pub queue : ℕ → ℕ → ℕ → Option FileLocation → Queued → Queued
queue now target file_id none q = q
queue now target file_id (some source) q = record {
  created = q.created + 1;
  tasks =
      (SyncTask.create now q.next_id
        (record {
          file_id = file_id;
          source_storage_id = source.storage_id;
          target_storage_id = target;
          project_id = none;
        })
        q.tasks).1;
  next_id = q.next_id + 1;
}

unfoldable pub queue_each : ℕ → ℕ → (ℕ → Option FileLocation) → List File → Queued → Queued
unfolding SyncTask.create
queue_each now target source [] q = q
queue_each now target source (f ∷ files) q =
    queue_each now target source files (queue now target f.id (source f.id) q)

abbrev pub enabled_target : ℕ → World → AppResult (Unit {0})
enabled_target target w = do
  storage ← find_storage target w.storages
  ensure storage.enabled (bad_request "Target storage is disabled")

abbrev pub files_needing_sync : ℕ → World → List File
files_needing_sync target w = select_where (needs_sync target w.locations w.sync_tasks) w.files

abbrev pub queue_all : ℕ → ℕ → World → Queued
queue_all now target w =
    queue_each now target (find_source w.storages w.locations) (files_needing_sync target w)
      (record { created = 0; tasks = w.sync_tasks; next_id = w.next_id })

abbrev pub counted : ℕ → ℕ → World → SyncAllResult
counted target created w = record {
  storage_id = target;
  sync_tasks_created = created;
  already_synced = length (
      unique_ids [] (
        map (λ l. l.file_id)
          (select_where (λ l. l.storage_id == target && is_synced l.status) w.locations)));
}

abbrev pub with_queue : Queued → World → World
with_queue q w = record w { sync_tasks = q.tasks; next_id = q.next_id }

-- `files.id` is a key, so that DISTINCT drops nothing more than a row of the join.
unfoldable pub sync_all : ℕ → ℕ → Action World SyncAllResult
unfolding find_storage find_source queue_each unique_ids
sync_all now target w = elim (enabled_target target w) [
  | err e ↦ (err e, w)
  | ok _ ↦ let q = queue_all now target w in (ok (counted target q.created w), with_queue q w)
]
