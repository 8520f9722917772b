-- ===== src/FileRoutes.antt =====
-- api/files.rs: the requests on files of a project. Who may ask is checked as in Access.
pub mod Enrich
pub mod Links
pub mod Requests
use Prim.Native.Char.{code}
use Prim.Native.String
use Prim.Native.String.{◌++◌ as str_append}
use simply_storage.Prelude.{
  ℕ, ◌+◌, String, Option, none, some, Bool, true, false, ◌&&◌, ◌||◌, not, List, [], ◌∷◌, ◌==◌, ltb,
  leb, str_eq, if◌then◌else◌, unwrap_or, find, exists, select_where, order_by,
}
use simply_storage.Error.{
  AppResult, ok, err, ensure, SqlError, other, database, ok_or, bad_request, not_found, ◌>>=◌, ◌>>◌,
}
use simply_storage.Error.Action.{Action}
use simply_storage.Json.{
  Value, Members, object, array, string, number, boolean, null, member, no_members,
}
use simply_storage.Db.Storage.{find_project}
use simply_storage.Db.File.{
  File, FileReference, find_by_id, delete_by_file_and_project, find_by_file_id,
}
use simply_storage.Db.Location.{FileLocation, find_all_for_file, is_synced}
use simply_storage.Db.SyncTask.{SyncTask}
use simply_storage.Db.SyncTask
use simply_storage.Access.{
  AuthenticatedUser, UserProject, check_file_access, check_file_write_access,
  require_project_write_access,
}
use simply_storage.FileService.{UploadResult, upload_file}
use simply_storage.FileService.Download.{DownloadResult, download_file}
use simply_storage.Tier.Recall.{restore_file}
use simply_storage.World.{World, Env, Bytes}

abbrev foreign_key_violation : SqlError
foreign_key_violation = other "insert or update on table violates foreign key constraint"

abbrev is_flat : Value → Bool
is_flat (object _) = false
is_flat (array _) = false
is_flat _ = true

unfoldable pub all_flat : Members → Bool
all_flat no_members = true
all_flat (member key value rest) = is_flat value && all_flat rest

abbrev flat_object : Value → AppResult (Unit {0})
flat_object (object fields) = ensure (all_flat fields) (
    bad_request
      "Metadata value for key '{}' must be a string, number, boolean, or null; nested objects and arrays are not allowed")
flat_object _ = err (bad_request "Metadata must be a JSON object")

unfoldable pub validate_flat_metadata : Value → AppResult (Unit {0})
unfolding all_flat
validate_flat_metadata value = flat_object value

-- A field of a multipart form, read to its end: metadata with its size and what it parses to, or a
-- file.
pub data Field : Type 0 where
  metadata_field : ℕ → Option Value → Field
  file_field : (filename content_type : String) → Bytes → Field

abbrev pub FilePart : Type 0
FilePart = String × String × Bytes

abbrev parsed_metadata : Option Value → AppResult Value
parsed_metadata none = err (bad_request "Invalid metadata JSON: {}")
parsed_metadata (some value) = do validate_flat_metadata value; ok value

-- The first file wins, and the last metadata.
unfoldable pub read_form :
    List Field → Option FilePart → Value → AppResult (Option FilePart × Value)
unfolding validate_flat_metadata
read_form [] part metadata = ok (part, metadata)
read_form (metadata_field size value ∷ fields) part metadata = do
  ensure (leb size 1048576) (bad_request "Metadata field too large (max 1 MB)")
  metadata' ← parsed_metadata value
  read_form fields part metadata'
read_form (file_field name content_type content ∷ fields) none metadata =
    read_form fields (some (name, content_type, content)) metadata
read_form (file_field name content_type content ∷ fields) (some part) metadata =
    read_form fields (some part) metadata

-- `"`, `\`, CR and LF are left out of the name in the header.
abbrev pub is_safe : ℕ → Bool
is_safe c = not (c == b'"' || c == b'\\' || c == 13 || c == 10)

unfoldable pub sanitised : String → String
sanitised String.[] = ""
sanitised (String.◌∷◌ c s) =
    let rest = sanitised s in if is_safe (code c) then String.◌∷◌ c rest else rest

abbrev pub failed {ℓ} : {A : Type ℓ} → AppResult (Unit {0}) → Action World A → Action World A
failed (err e) m w = (err e, w)
failed (ok _) m w = m w

pub record FileMetadata : Type 0 where
  pub file : File
  pub locations : List FileLocation
  pub references : List FileReference

pub record ForceSyncRequest : Type 0 where
  pub target_storage_id : ℕ
  pub project_id : ℕ

module _ (env : Env) (members : List UserProject) (user : AuthenticatedUser) where
  abbrev may_write : World → ℕ → AppResult (Unit {0})
  may_write w project_id = do
    project ← find_project project_id w.projects
    require_project_write_access members user project

  abbrev form : World → ℕ → List Field → AppResult (FilePart × Value)
  form w project_id fields = do
    may_write w project_id
    (part, metadata) ← read_form fields none (object no_members)
    file ← ok_or part (bad_request "No file provided")
    ok (file, metadata)

  unfoldable pub upload : ℕ → (List File → List File) → ℕ → List Field → Action World UploadResult
  unfolding find_project require_project_write_access read_form upload_file
  upload now meanwhile project_id fields w = elim (form w project_id fields) [
    | err e ↦ (err e, w)
    | ok ((name, content_type, content), metadata) ↦
        upload_file env now meanwhile project_id name content_type content metadata w
  ]

  abbrev readable : World → ℕ → AppResult (Unit {0})
  readable w file_id = check_file_access members user w.projects w.references file_id

  abbrev writable : World → ℕ → AppResult (Unit {0})
  writable w file_id = check_file_write_access members user w.projects w.references file_id

  unfoldable pub get_file_metadata : ℕ → World → AppResult FileMetadata
  unfolding check_file_access find_by_id find_all_for_file find_by_file_id
  get_file_metadata file_id w = do
    readable w file_id
    file ← find_by_id file_id w.files
    ok (record {
      file = file;
      locations = find_all_for_file file_id w.locations;
      references =
          order_by (λ r s. leb s.created_at r.created_at) (find_by_file_id file_id w.references);
    })

  unfoldable pub download : ℕ → ℕ → Action World DownloadResult
  unfolding check_file_access download_file
  download now file_id w = failed (readable w file_id) (download_file env now file_id) w

  unfoldable pub restore : ℕ → ℕ → Action World SyncTask
  unfolding check_file_write_access restore_file
  restore now file_id w = failed (writable w file_id) (restore_file now file_id) w

  unfoldable pub delete_file_reference : ℕ → ℕ → Action World (Unit {0})
  unfolding find_project require_project_write_access delete_by_file_and_project
  delete_file_reference file_id project_id w = elim (may_write w project_id) [
    | err e ↦ (err e, w)
    | ok _ ↦
        let (r, refs) = delete_by_file_and_project file_id project_id w.references in
        (r, record w { references = refs })
  ]

  -- A storage with a synced copy, other than the target.
  abbrev pub source_of : World → ℕ → ℕ → AppResult FileLocation
  source_of w file_id target = do
    writable w file_id
    ok_or
        (find (λ l. is_synced l.status && not (l.storage_id == target))
          (find_all_for_file file_id w.locations))
        (not_found "No synced source storage found for this file")

  -- The id of a project or of a target storage that does not exist violates a foreign key of
  -- `sync_tasks`.
  abbrev pub check_task_keys : ForceSyncRequest → World → AppResult (Unit {0})
  check_task_keys body w =
      ensure
        (exists (λ p. p.id == body.project_id) w.projects
          && exists (λ s. s.id == body.target_storage_id) w.storages)
        (database foreign_key_violation)

  -- The source of the copy, for a request that no test and no key refuses.
  unfoldable pub accepted : World → ℕ → ForceSyncRequest → AppResult FileLocation
  accepted w file_id body = do
    source ← source_of w file_id body.target_storage_id
    check_task_keys body w
    ok source

  unfoldable pub force_sync_to_storage : ℕ → ℕ → ForceSyncRequest → Action World SyncTask
  unfolding accepted check_file_write_access find_all_for_file SyncTask.create
  force_sync_to_storage now file_id body w = elim (accepted w file_id body) [
    | err e ↦ (err e, w)
    | ok source ↦
        let (task, tasks) =
          SyncTask.create now w.next_id
            (record {
              file_id = file_id;
              source_storage_id = source.storage_id;
              target_storage_id = body.target_storage_id;
              project_id = some body.project_id;
            })
            w.sync_tasks in
        (ok task, record w { sync_tasks = tasks; next_id = w.next_id + 1 })
  ]
