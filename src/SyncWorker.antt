-- ===== src/SyncWorker.antt =====
-- workers/sync_worker.rs: a round of a worker, which claims tasks, downloads each source once and
-- uploads it to the targets. The temporary file is its content; one `now` serves a whole round.
pub mod Settled
pub mod Round
pub mod Copy
use simply_storage.Prelude.{
  ℕ, ◌+◌, String, Option, none, some, Bool, true, false, ◌&&◌, ◌||◌, List, [], ◌∷◌, ◌++◌, ltb, ◌==◌,
  if◌then◌else◌, find, map,
}
use Prim.Native.String.{◌++◌ as str_append}
use simply_storage.Error.{
  AppError, AppResult, ok, err, not_found, ok_or, is_unique_violation, ◌>>=◌, to_string,
}
use simply_storage.Error.Action
use simply_storage.Error.Action.{Action, lift, gets, handle, modify, pure, raise}
use simply_storage.Db.Storage.{find_storage}
use simply_storage.Db.Location.{
  FileLocation, CreateFileLocation, synced, find_all_for_file, update_status_by_file_and_storage,
}
use simply_storage.Db.Location
use simply_storage.Db.SyncTask.{
  SyncTask, TaskStatus, completed, claim_pending, requeue_for_retry, supersede_failed_for,
}
use simply_storage.Db.SyncTask
use simply_storage.Backend.{Backend}
use simply_storage.Backend.Registry
use simply_storage.Resolver.{resolve_project_backend}
use simply_storage.World.{World, Env, Bytes, fresh, stored}
use simply_storage.FileService.{send}

-- The key under which claimed tasks are grouped.
pub record Source : Type 0 where
  pub file_id : ℕ
  pub storage_id : ℕ
  pub project_id : Option ℕ

abbrev pub source_of : SyncTask → Source
source_of t = record {
  file_id = t.file_id;
  storage_id = t.source_storage_id;
  project_id = t.project_id;
}

abbrev option_eq : Option ℕ → Option ℕ → Bool
option_eq none none = true
option_eq (some a) (some b) = a == b
option_eq _ _ = false

-- `None` is the least.
abbrev option_lt : Option ℕ → Option ℕ → Bool
option_lt none none = false
option_lt none (some _) = true
option_lt (some _) none = false
option_lt (some a) (some b) = ltb a b

abbrev pub source_eq : Source → Source → Bool
source_eq s t =
    s.file_id == t.file_id && s.storage_id == t.storage_id && option_eq s.project_id t.project_id

abbrev pub source_lt : Source → Source → Bool
source_lt s t =
    ltb s.file_id t.file_id
    || (s.file_id == t.file_id
        && (ltb s.storage_id t.storage_id
            || (s.storage_id == t.storage_id && option_lt s.project_id t.project_id)))

-- `groups.entry(key).or_default().push(t)` on a map in the order of its keys.
unfoldable pub push_task : SyncTask → List (Source × List SyncTask) → List (Source × List SyncTask)
push_task t [] = (source_of t, t ∷ []) ∷ []
push_task t ((key, batch) ∷ groups) =
    let rest = push_task t groups in
    if source_eq (source_of t) key
    then (key, batch ++ t ∷ []) ∷ groups
    else if source_lt (source_of t) key
    then (source_of t, t ∷ []) ∷ (key, batch) ∷ groups
    else (key, batch) ∷ rest

unfoldable pub group_tasks :
    List SyncTask → List (Source × List SyncTask) → List (Source × List SyncTask)
unfolding push_task
group_tasks [] groups = groups
group_tasks (t ∷ tasks) groups = group_tasks tasks (push_task t groups)

module _ (now : ℕ) where
  abbrev pub copy_of : SyncTask → String → CreateFileLocation
  copy_of task storage_path = record {
    file_id = task.file_id;
    storage_id = task.target_storage_id;
    storage_path = storage_path;
    status = synced;
  }

  -- The row of the copy: a new one, or the one that is there already.
  unfoldable pub record_copy : SyncTask → String → Action World (Unit {0})
  record_copy task storage_path w =
      let (r, locations) = Location.create now w.next_id (copy_of task storage_path) w.locations in
      let (r', updated) =
        update_status_by_file_and_storage now task.file_id task.target_storage_id synced
          w.locations in
      elim r [
        | ok _ ↦ (ok tt, record w { locations = locations; next_id = w.next_id + 1 })
        | err e ↦
            if is_unique_violation e
            then (r' >>= λ _. ok tt, record w { locations = updated; next_id = w.next_id + 1 })
            else (err e, record w { next_id = w.next_id + 1 })
      ]

  abbrev pub complete : SyncTask → World → World
  complete task w = record w {
    sync_tasks =
        supersede_failed_for now task.file_id task.target_storage_id task.id
          (SyncTask.update_status now task.id completed none w.sync_tasks).1;
  }

  abbrev pub requeue : String → SyncTask → World → World
  requeue msg task w = record w { sync_tasks = (requeue_for_retry now task.id msg w.sync_tasks).1 }

  -- Releasing the lock does nothing.
  abbrev pub settle : AppResult (Unit {0}) → SyncTask → World → World
  settle (ok _) task w = complete task w
  settle (err e) task w = requeue (to_string e) task w

  unfoldable pub fail_all : String → List SyncTask → World → World
  fail_all msg [] w = w
  fail_all msg (t ∷ batch) w = fail_all msg batch (requeue msg t w)

module _ (env : Env) (now : ℕ) where
  unfoldable pub resolve_backend : ℕ → Option ℕ → World → AppResult Backend
  resolve_backend storage_id none w = Registry.get storage_id w.registry
  resolve_backend storage_id (some project_id) w = do
    storage ← find_storage storage_id w.storages
    resolve_project_backend env.short_id env.client w.projects w.assignments storage project_id

  -- The path at the source, and the content.
  unfoldable pub download_source : SyncTask → World → AppResult (String × Bytes)
  unfolding resolve_backend
  download_source head w = do
    backend ← resolve_backend head.source_storage_id head.project_id w
    location ←
        ok_or
          (find (λ l. l.storage_id == head.source_storage_id)
            (find_all_for_file head.file_id w.locations))
          (not_found "Source file location not found for file {} on storage {}")
    content ← env.download backend location.storage_path
    ok (location.storage_path, content)

  unfoldable pub push_copy : SyncTask → String → Bytes → Action World (Unit {0})
  unfolding resolve_backend record_copy
  push_copy task storage_path content =
      Action.◌>>=◌ (λ w. (resolve_backend task.target_storage_id task.project_id w, w))
        (λ backend.
          Action.◌>>◌ (send env backend storage_path content) (record_copy now task storage_path))

  unfoldable pub finalize_task : SyncTask → String → Bytes → World → World
  unfolding push_copy
  finalize_task task storage_path content w =
      let (r, w') = push_copy task storage_path content w in settle now r task w'

  unfoldable pub finalize_each : String → Bytes → List SyncTask → World → World
  unfolding finalize_task
  finalize_each path content [] w = w
  finalize_each path content (t ∷ batch) w =
      finalize_each path content batch (finalize_task t path content w)

  abbrev pub fan_out : AppResult (String × Bytes) → List SyncTask → World → World
  fan_out (ok (path, content)) batch w = finalize_each path content batch w
  fan_out (err e) batch w = fail_all now (to_string e) batch w

  -- `temp_dir` is the answer to the creation of the directory for temporary files.
  unfoldable pub process_batch : Option String → List SyncTask → World → World
  unfolding fail_all finalize_each download_source
  process_batch temp_dir [] w = w
  process_batch (some e) (t ∷ batch) w =
      fail_all now (str_append "Failed to create sync temp dir {:?}: " e) (t ∷ batch) w
  process_batch none (t ∷ batch) w = fan_out (download_source t w) (t ∷ batch) w

  unfoldable pub process_groups : Option String → List (Source × List SyncTask) → World → World
  unfolding process_batch
  process_groups temp_dir [] w = w
  process_groups temp_dir ((_, batch) ∷ groups) w =
      process_groups temp_dir groups (process_batch temp_dir batch w)

  -- Whether there was work, and the state after it.
  abbrev pub process_claimed : Option String → List SyncTask → World → Bool × World
  process_claimed temp_dir [] w = (false, w)
  process_claimed temp_dir (t ∷ tasks) w =
      (true, process_groups temp_dir (group_tasks (t ∷ tasks) []) w)

  unfoldable pub poll_and_process : Option String → (ℕ → Bool) → ℕ → World → Bool × World
  unfolding group_tasks process_groups
  poll_and_process temp_dir locked max_retries w =
      let (tasks, rows) = claim_pending now locked 16 max_retries w.sync_tasks in
      process_claimed temp_dir tasks (record w { sync_tasks = rows })
