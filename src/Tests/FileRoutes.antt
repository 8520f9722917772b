-- ===== src/Tests/FileRoutes.antt =====
-- A file on one of two storages, a forced copy of it, and a signed link.
use simply_storage.Prelude.{
  Option, none, some, if◌then◌else◌, str_eq, decimal, ◌≡◌, refl, String, none, some, [], ◌∷◌, find,
  exists, select_where, order_by, insert_by,
}
use simply_storage.Error.{ok}
use simply_storage.Db.File.{File, find_by_id}
use simply_storage.Db.Location.{FileLocation, synced, find_all_for_file}
use simply_storage.Db.SyncTask.{SyncTask, new_task}
use simply_storage.Backend.Registry.{get, lookup}
use simply_storage.Access.{AuthenticatedUser, check_file_write_access}
use simply_storage.FileRoutes.{force_sync_to_storage, accepted}
use simply_storage.FileRoutes.Links.{
  Link, check_link, find_served, download_local_temp, IsSigned, download_local_temp-IsSigned,
}
use simply_storage.FileRoutes.Requests.{asked, force_sync_any_project}
use simply_storage.World.{World}
use simply_storage.Tests.Samples.{fresh_world, answering}

abbrev report : File
report = record {
  id = 5;
  hash_sha256 = "abcdef";
  size = 2;
  content_type = "text/plain";
  created_at = 1;
}

abbrev copy : FileLocation
copy = record {
  id = 6;
  file_id = 5;
  storage_id = 10;
  storage_path = "ab/cd/abcdef";
  status = synced;
  synced_at = some 1;
  last_accessed_at = none;
  created_at = 1;
}

abbrev world : World
world = record fresh_world { files = report ∷ []; locations = copy ∷ [] }

abbrev admin : AuthenticatedUser
admin = record { user_id = 9; role = "admin" }

abbrev copying : SyncTask
copying =
    new_task 50 100
      (record { file_id = 5; source_storage_id = 10; target_storage_id = 20; project_id = some 1 })

force_sync_any_project_example :
    (force_sync_to_storage answering [] admin 50 5 (asked 20 2) world).0
    ≡ ok (record copying { project_id = some 2 })
unfolding force_sync_to_storage accepted exists check_file_write_access find_all_for_file find
    select_where order_by insert_by new_task
force_sync_any_project_example =
    force_sync_any_project answering [] admin 50 5 20 1 2 world copying refl refl

-- A signature that is the message itself.
abbrev plain : String → String
plain message = message

abbrev served : Link
served = record { path = "ab/cd/abcdef"; expires = 60; sig = "ab/cd/abcdef:60" }

abbrev read_a : String → Option Link
read_a url =
    if str_eq url "/download/local?path=a&expires=60&sig=a:60"
    then some (record { path = "a"; expires = 60; sig = "a:60" })
    else none

download_local_temp-IsSigned_example : IsSigned plain answering 55 served world (1 ∷ 2 ∷ [])
unfolding download_local_temp find_served check_link decimal find get lookup exists find_by_id
download_local_temp-IsSigned_example =
    download_local_temp-IsSigned plain answering 55 served world "text/plain" (1 ∷ 2 ∷ []) refl
