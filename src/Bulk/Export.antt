-- ===== src/Bulk/Export.antt =====
-- services/bulk_service.rs: the export of a storage as an archive, by a job in the background. The
-- formats tar and gzip come from outside.
pub mod Jobs
use Prim.Native.String.{slice, ◌++◌ as str_append}
use simply_storage.Prelude.{
  ℕ, ◌+◌, String, Option, none, some, Bool, true, false, ◌&&◌, not, List, [], ◌∷◌, ◌++◌, ◌==◌, leb,
  if◌then◌else◌, length, select_where, update_where, delete_where, order_by, find,
}
use simply_storage.Error.{
  AppError, AppResult, ok, err, ok_or, ensure, not_found, bad_request, to_string, ◌>>=◌, ◌>>◌,
}
use simply_storage.Error.Action.{Action}
use simply_storage.Db.Storage.{Storage, find_storage}
use simply_storage.Db.File.{File, find_by_id}
use simply_storage.Db.Location.{FileLocation, is_synced}
use simply_storage.Backend.{Backend}
use simply_storage.Backend.Registry.{get}
use simply_storage.World.{World, Env, Bytes}

pub data ExportState : Type 0 where
  in_progress completed failed : ExportState

abbrev pub is_completed : ExportState → Bool
is_completed completed = true
is_completed _ = false

pub record ExportJobStatus : Type 0 where
  pub job_id : ℕ
  pub storage_id : ℕ
  pub status : ExportState
  pub total_files : ℕ
  pub processed_files : ℕ
  pub total_bytes : ℕ
  pub error_text : Option String

-- The two maps of the service, which a restart empties.
pub record Exports : Type 0 where
  pub jobs : List ExportJobStatus
  pub archives : List (ℕ × Bytes)
  pub world : World

abbrev pub is_job : ℕ → ExportJobStatus → Bool
is_job job_id j = j.job_id == job_id

abbrev pub synced_on : ℕ → FileLocation → Bool
synced_on storage_id l = l.storage_id == storage_id && is_synced l.status

abbrev queued_job : ℕ → ℕ → ℕ → ExportJobStatus
queued_job job_id storage_id total = record {
  job_id = job_id;
  storage_id = storage_id;
  status = in_progress;
  total_files = total;
  processed_files = 0;
  total_bytes = 0;
  error_text = none;
}

unfoldable pub start_export : ℕ → Action Exports ℕ
unfolding find_storage
start_export storage_id st = elim (find_storage storage_id st.world.storages) [
  | err e ↦ (err e, st)
  | ok _ ↦
      let job_id = st.world.next_id in
      let total = length (select_where (synced_on storage_id) st.world.locations) in
      (
        ok job_id,
        record st {
          jobs = st.jobs ++ queued_job job_id storage_id total ∷ [];
          world = record st.world { next_id = job_id + 1 };
        },
      )
]

-- A file of the archive: its name and its content.
abbrev pub Entry : Type 0
Entry = String × Bytes

abbrev entry_path : File → String
entry_path file = str_append (slice file.hash_sha256 0 2) (str_append "/" file.hash_sha256)

-- A file that cannot be read is left out.
abbrev with_entry : File → AppResult Bytes → List Entry → List Entry
with_entry file (ok content) entries = entries ++ (entry_path file, content) ∷ []
with_entry file (err _) entries = entries

module _ (env : Env) (archive : List Entry → AppResult Bytes) where
  -- How many locations were processed, and the entries.
  unfoldable pub collect :
      Backend → List File → List FileLocation → ℕ → List Entry → ℕ × AppResult (List Entry)
  unfolding find_by_id
  collect backend files [] processed entries = (processed, ok entries)
  collect backend files (l ∷ locations) processed entries = elim (find_by_id l.file_id files) [
    | err e ↦ (processed, err e)
    | ok file ↦
        collect backend files locations (processed + 1)
          (with_entry file (env.download backend l.storage_path) entries)
  ]

  abbrev packed : ℕ × AppResult (List Entry) → ℕ × AppResult Bytes
  packed (processed, ok entries) = (processed, archive entries)
  packed (processed, err e) = (processed, err e)

  -- `ORDER BY fl.created_at ASC`
  abbrev pub export_locations : ℕ → World → List FileLocation
  export_locations storage_id w =
      order_by (λ k l. leb k.created_at l.created_at)
        (select_where (synced_on storage_id) w.locations)

  unfoldable pub build_tar_gz_archive : ℕ → World → ℕ × AppResult Bytes
  unfolding get collect
  build_tar_gz_archive storage_id w = elim (get storage_id w.registry) [
    | err e ↦ (0, err e)
    | ok backend ↦ packed (collect backend w.files (export_locations storage_id w) 0 [])
  ]

  abbrev pub finished : ℕ → ℕ → ExportJobStatus → ExportJobStatus
  finished processed bytes j = record j {
    status = completed;
    processed_files = processed;
    total_bytes = bytes;
  }

  abbrev broken : ℕ → String → ExportJobStatus → ExportJobStatus
  broken processed text j = record j {
    status = failed;
    processed_files = processed;
    error_text = some text;
  }

  abbrev pub settle : ℕ → ℕ × AppResult Bytes → Exports → Exports
  settle job_id (processed, ok content) st = record st {
    jobs = update_where (is_job job_id) (finished processed (length content)) st.jobs;
    archives = (job_id, content) ∷ delete_where (λ a. a.0 == job_id) st.archives;
  }
  settle job_id (processed, err e) st = record st {
    jobs = update_where (is_job job_id) (broken processed (to_string e)) st.jobs;
  }

  -- The background's part.
  unfoldable pub finish_export : ℕ → ℕ → Exports → Exports
  unfolding build_tar_gz_archive
  finish_export job_id storage_id st = settle job_id (build_tar_gz_archive storage_id st.world) st

unfoldable pub get_export_status : ℕ → Exports → AppResult ExportJobStatus
get_export_status job_id st =
    ok_or (find (is_job job_id) st.jobs) (not_found "Export job {} not found")

abbrev taken : ℕ → Option (ℕ × Bytes) → Action Exports Bytes
taken job_id none st = (err (not_found "Export data not found or already downloaded"), st)
taken job_id (some entry) st =
    (ok entry.1, record st { archives = delete_where (λ a. a.0 == job_id) st.archives })

abbrev checked_status : ℕ → Exports → AppResult (Unit {0})
checked_status job_id st = do
  job ← get_export_status job_id st
  ensure (is_completed job.status) (bad_request "Export is not yet completed")

-- The archive, which is removed from memory.
unfoldable pub get_export_data : ℕ → Action Exports Bytes
unfolding get_export_status
get_export_data job_id st = elim (checked_status job_id st) [
  | err e ↦ (err e, st)
  | ok _ ↦ taken job_id (find (λ a. a.0 == job_id) st.archives) st
]
