-- ===== src/Tests/Upload.antt =====
-- An upload of three bytes.
use simply_storage.Prelude.{◌+◌, ◌≡◌, refl, none, some, true, [], ◌∷◌, arith, find}
use simply_storage.Error.{ok, err, bad_request}
use simply_storage.Json.{null}
use simply_storage.Db.Storage.{find_project}
use simply_storage.Db.UploadSession.{UploadSession, in_progress, is_in_progress}
use simply_storage.Access.{AuthenticatedUser, require_project_write_access}
use simply_storage.Upload.TempFiles.{read}
use simply_storage.Upload.Sweep.{reconcile_orphans}
use simply_storage.Upload.{
  Uploads, UploadConfig, Creation, create, validate_creation, require_write, check_size,
  append_chunks, check_chunk, patch,
}
use simply_storage.Upload.Resume.{IsOpen, patch-advances, patch-breaks_off}
use simply_storage.Upload.Cleanup.{create-reconcile_orphans}
use simply_storage.Tests.Samples.{fresh_world, answering}

abbrev admin : AuthenticatedUser
admin = record { user_id = 9; role = "admin" }

abbrev session : UploadSession
session = record {
  id = 8;
  project_id = 1;
  user_id = 9;
  original_name = "a";
  content_type = "text/plain";
  total_size = 3;
  offset_bytes = 1;
  temp_path = 7;
  metadata = null;
  status = in_progress;
  created_at = 0;
  updated_at = 0;
  expires_at = 1000;
}

abbrev begun : Uploads
begun = record {
  sessions = session ∷ [];
  temp_files = (7, 65 ∷ []) ∷ [];
  members = [];
  world = fresh_world;
}

begun-IsOpen : IsOpen admin 8 begun session (65 ∷ [])
unfolding find read
begun-IsOpen = record { found = refl; permitted = refl; going = refl; there = refl }

patch-advances_example :
    let (r, st') = patch answering 50 (λ fs. fs) admin 8 (some 1) (some (66 ∷ []) ∷ []) begun in
    (updated : UploadSession) × (r ≡ ok updated)
    × (updated.offset_bytes ≡ 1 + 1)
    × (read 7 st'.temp_files ≡ some (65 ∷ 66 ∷ []))
    × (2 ≡ updated.offset_bytes)
unfolding append_chunks
patch-advances_example =
    patch-advances admin 8 answering 50 (λ fs. fs) begun session (65 ∷ []) (65 ∷ 66 ∷ []) 1
      (some (66 ∷ []) ∷ []) begun-IsOpen refl refl (omega arith)

patch-breaks_off_example :
    let (r, st') =
      patch answering 50 (λ fs. fs) admin 8 (some 1) (some (66 ∷ []) ∷ none ∷ []) begun in
    (r ≡ err (bad_request "Payload read error: {}"))
    × IsOpen admin 8 st' session (65 ∷ 66 ∷ [])
    × (check_chunk admin 8 (some 1) st' ≡ ok (session, 65 ∷ 66 ∷ []))
patch-breaks_off_example =
    patch-breaks_off admin 8 answering 50 (λ fs. fs) begun session (65 ∷ []) (66 ∷ []) []
      begun-IsOpen (omega arith)

abbrev config : UploadConfig
config = record { max_file_size = 0; session_ttl_secs = 60 }

abbrev request : Creation
request = record {
  project_id = 1;
  total_size = some 3;
  filename = "a";
  filetype = "";
  metadata = ok null;
}

create-reconcile_orphans_example :
    let (r, st') = create 50 config admin request begun in
    (s : UploadSession) × (r ≡ ok s)
    × (is_in_progress s.status ≡ true)
    × (read s.temp_path st'.temp_files ≡ some [])
    × (read s.temp_path (reconcile_orphans st').temp_files ≡ none)
unfolding validate_creation require_write check_size find_project find require_project_write_access
create-reconcile_orphans_example =
    create-reconcile_orphans 50 config admin request begun 3 null (omega arith, tt) refl
