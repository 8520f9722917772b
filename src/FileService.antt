-- ===== src/FileService.antt =====
-- services/file_service.rs: uploads with deduplication.
pub mod Download
pub mod Dedup
pub mod Coverage
pub mod BulkDelete
use Prim.Native.String.{slice, len, ◌++◌ as str_append}
use simply_storage.Prelude.{
  ℕ, zero, suc, ◌+◌, String, Option, none, some, Bool, true, false, ◌&&◌, ◌||◌, not, List, [], ◌∷◌,
  ◌++◌, map, ltb, ◌==◌, if◌then◌else◌, unwrap_or, or, exists, find, length,
}
use simply_storage.Error.{
  AppError, AppResult, ok, err, bad_request, not_found, internal, ok_or, is_unique_violation,
}
use simply_storage.Error.Action.{
  Action, pure, raise, lift, gets, modify, require, handle, ◌>>=◌, ◌>>◌,
}
use simply_storage.Json.{Value}
use simply_storage.Db.Storage.{Storage, list_for_project}
use simply_storage.Db.File.{
  File, CreateFile, create_or_find, FileReference, CreateFileReference, create_reference,
  find_by_id, find_by_file_id,
}
use simply_storage.Db.Location.{
  FileLocation, CreateFileLocation, LocationStatus, synced, is_synced, find_all_for_file,
  find_for_file, touch_accessed,
}
use simply_storage.Db.Location
use simply_storage.Db.SyncTask.{CreateSyncTask, SyncTask}
use simply_storage.Db.SyncTask
use simply_storage.Backend.{Backend}
use simply_storage.Backend.Registry.{Registry, contains}
use simply_storage.Resolver.{resolve_project_backend, resolve_backends_for_location}
use simply_storage.World.{World, Env, Bytes, Effect, stored, fresh}

pub record UploadResult : Type 0 where
  pub file : File
  pub file_reference : FileReference
  pub is_duplicate : Bool
  pub sync_tasks_created : ℕ

abbrev pub is_empty {ℓ} : {A : Type ℓ} → List A → Bool
is_empty [] = true
is_empty (_ ∷ _) = false

-- `&hash[..2]` and `&hash[2..4]` count bytes.
unfoldable pub content_addressed_path : String → String
content_addressed_path hash =
    if ltb (len hash) 4
    then hash
    else str_append (slice hash 0 2)
        (str_append "/" (str_append (slice hash 2 4) (str_append "/" hash)))

-- The first hot storage with a backend, or else the first one with a backend.
unfoldable pub find_primary_storage : Registry → List Storage → AppResult Storage
find_primary_storage registry storages =
    elim (find (λ s. s.is_hot && contains s.id registry) storages) [
      | some s ↦ ok s
      | none ↦ elim (find (λ s. contains s.id registry) storages) [
        | some s ↦ ok s
        | none ↦ err (bad_request "No storage backends are registered and available")
      ]
    ]

-- The loop that looks for a storage to copy from: the first usable location on a storage of the
-- project ends it, and the first usable one elsewhere is the fallback.
unfoldable pub pick_source : Registry → List Storage → List FileLocation → Option ℕ → Option ℕ
pick_source registry storages [] fallback = fallback
pick_source registry storages (loc ∷ locs) fallback =
    let usable = is_synced loc.status && contains loc.storage_id registry in
    let rest =
      pick_source registry storages locs
        (if usable then or fallback (some loc.storage_id) else fallback) in
    if usable && exists (λ s. s.id == loc.storage_id) storages then some loc.storage_id else rest

abbrev pub has_location : List FileLocation → ℕ → Bool
has_location locs storage_id = exists (λ l. l.storage_id == storage_id) locs

-- The storage gets a task unless it is the source, has a location, or has no backend.
abbrev pub needs_task : Registry → List FileLocation → ℕ → ℕ → Bool
needs_task registry existing source storage_id =
    not (storage_id == source)
    && not (has_location existing storage_id)
    && contains storage_id registry

-- The tasks made so far, over the table and the next id.
pub record Scheduled : Type 0 where
  pub created : ℕ
  pub tasks : List SyncTask
  pub next_id : ℕ

unfoldable pub schedule :
    ℕ → (ℕ → CreateSyncTask) → (ℕ → Bool) → List Storage → Scheduled → Scheduled
schedule now task_for needed [] s = s
schedule now task_for needed (storage ∷ storages) s = schedule now task_for needed storages (
    if needed storage.id
    then record {
      created = s.created + 1;
      tasks = (SyncTask.create now s.next_id (task_for storage.id) s.tasks).1;
      next_id = s.next_id + 1;
    }
    else s)

unfoldable pub record_references_and_sync :
    ℕ → ℕ → File → Bool → Storage → String → Value → List Storage → Action World UploadResult
unfolding pick_source schedule
record_references_and_sync now project_id file is_new primary original_name metadata storages = do
  id ← fresh
  reference ← λ w.
      let (r, refs) =
        create_reference now id
          (record {
            file_id = file.id;
            project_id = project_id;
            original_name = original_name;
            metadata = metadata;
          })
          w.references in
      (ok r, record w { references = refs })
  existing ← gets (λ w. find_all_for_file file.id w.locations)
  registry ← gets (λ w. w.registry)
  let source =
      if is_new
      then primary.id
      else unwrap_or (pick_source registry storages existing none) primary.id
  created ← λ w.
      let s =
        schedule now
          (λ target. record {
            file_id = file.id;
            source_storage_id = source;
            target_storage_id = target;
            project_id = some project_id;
          })
          (needs_task registry existing source) storages
          (record { created = 0; tasks = w.sync_tasks; next_id = w.next_id }) in
      (ok s.created, record w { sync_tasks = s.tasks; next_id = s.next_id })
  pure (record {
    file = file;
    file_reference = reference;
    is_duplicate = not is_new;
    sync_tasks_created = created;
  })

-- A location that another upload has made meanwhile is fine.
unfoldable pub create_primary_location : ℕ → ℕ → ℕ → String → Action World (Unit {0})
create_primary_location now file_id storage_id storage_path = do
  id ← fresh
  handle
      (λ w.
        let (r, locations) =
          Location.create now id
            (record {
              file_id = file_id;
              storage_id = storage_id;
              storage_path = storage_path;
              status = synced;
            })
            w.locations in
        (r, record w { locations = locations }))
      (λ _. pure tt) (λ e. if is_unique_violation e then pure tt else raise e)

module _ (env : Env) where
  -- `backend.upload(path, data)`
  abbrev pub send : Backend → String → Bytes → Action World (Unit {0})
  send backend path content = do
    lift (env.upload backend path content)
    modify (λ w. record w { effects = stored backend path content ∷ w.effects })

  -- A new file goes to the primary storage, into the project's container.
  unfoldable pub store_new : ℕ → ℕ → File → Storage → String → Bytes → Action World (Unit {0})
  unfolding create_primary_location
  store_new now project_id file primary path content = do
    backend ← λ w. (
      resolve_project_backend env.short_id env.client w.projects w.assignments primary project_id,
      w,
    )
    send backend path content
    create_primary_location now file.id primary.id path

  -- `meanwhile` is what other requests do to the table of files while the hash is looked up.
  unfoldable pub upload_file :
      ℕ → (List File → List File) → ℕ → String → String → Bytes → Value → Action World UploadResult
  unfolding store_new record_references_and_sync find_primary_storage content_addressed_path
  upload_file now meanwhile project_id original_name content_type content metadata = do
    let hash = env.sha256 content
    id ← fresh
    (file, is_new) ← λ w.
        let (r, files) =
          create_or_find now id
            (record { hash_sha256 = hash; size = length content; content_type = content_type })
            meanwhile w.files in
        (r, record w { files = files })
    storages ← gets (λ w. list_for_project project_id w.assignments w.storages)
    require (not (is_empty storages)) (bad_request "No enabled storages available for this project")
    primary ← λ w. (find_primary_storage w.registry storages, w)
    let path = content_addressed_path hash
    if is_new then store_new now project_id file primary path content else pure tt
    record_references_and_sync now project_id file is_new primary original_name metadata storages

  -- The same for the content of a temporary file, which may be gone.
  unfoldable pub finalize_upload :
      ℕ
      → (List File → List File)
      → ℕ
      → String
      → String
      → Option Bytes
      → Value
      → Action World UploadResult
  finalize_upload now meanwhile project_id original_name content_type none metadata =
      raise (internal "Failed to open temp file for hashing: {}")
  finalize_upload now meanwhile project_id original_name content_type (some content) metadata =
      upload_file now meanwhile project_id original_name content_type content metadata
