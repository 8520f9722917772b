-- ===== src/Tests/Bulk.antt =====
-- Files that are copied to a storage and exported from another.
use simply_storage.Prelude.{List, ◌≡◌, refl, none, some, [], ◌∷◌, find, select_where, order_by}
use simply_storage.Error.{ok, err, not_found, AppResult}
use simply_storage.Db.File.{File, find_by_id}
use simply_storage.Db.Location.{FileLocation, synced}
use simply_storage.Backend.Registry.{get}
use simply_storage.Bulk.Export.{
  Exports, ExportJobStatus, in_progress, completed, finish_export, get_export_status,
  get_export_data, Entry,
}
use simply_storage.Bulk.Export.Jobs.{finish_export_silent}
use simply_storage.World.{World, Env, Bytes}
use simply_storage.Tests.Samples.{fresh_world, answering, local_backend}

abbrev file : File
file = record {
  id = 7;
  hash_sha256 = "abcdef";
  size = 2;
  content_type = "text/plain";
  created_at = 0;
}

abbrev location : FileLocation
location = record {
  id = 70;
  file_id = 7;
  storage_id = 10;
  storage_path = "ab/cd/abcdef";
  status = synced;
  synced_at = some 5;
  last_accessed_at = none;
  created_at = 5;
}

abbrev one_file : World
one_file = record fresh_world { files = file ∷ []; locations = location ∷ [] }

abbrev unreadable : Env
unreadable = record answering { download = λ _ _. err (not_found "File not found") }

abbrev joined : List Entry → AppResult Bytes
joined _ = ok (31 ∷ [])

abbrev job : ExportJobStatus
job = record {
  job_id = 99;
  storage_id = 10;
  status = in_progress;
  total_files = 1;
  processed_files = 0;
  total_bytes = 0;
  error_text = none;
}

abbrev exports : Exports
exports = record { jobs = job ∷ []; archives = []; world = one_file }

finish_export_silent_example :
    let st' = finish_export unreadable joined 99 10 exports in
    (get_export_status 99 st'
      ≡ ok (record job { status = completed; processed_files = 1; total_bytes = 1 }))
    × ((get_export_data 99 st').0 ≡ ok (31 ∷ []))
unfolding get find_by_id order_by select_where find
finish_export_silent_example =
    finish_export_silent unreadable joined 99 10 exports local_backend job (31 ∷ []) refl
      (λ path. (_, refl)) ((file, refl), tt) refl refl
