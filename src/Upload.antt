-- ===== src/Upload.antt =====
-- api/uploads.rs: resumable uploads in chunks. A header that is missing or does not parse is `none`.
-- Writes to the temporary file do not fail.
pub mod TempFiles
pub mod Resume
pub mod Sweep
pub mod Cleanup
use simply_storage.Prelude.{
  ℕ, ◌+◌, ◌-◌, String, Option, none, some, Bool, true, false, ◌&&◌, ◌||◌, not, List, [], ◌∷◌, ◌++◌,
  ◌==◌, ltb, leb, if◌then◌else◌, length, str_eq,
}
use simply_storage.Error.{
  AppError, AppResult, ok, err, ok_or, ensure, bad_request, forbidden, internal, conflict, ◌>>=◌,
  ◌>>◌,
}
use simply_storage.Json.{Value}
use simply_storage.Db.Storage.{find_project}
use simply_storage.Db.File.{File}
use simply_storage.Db.UploadSession.{
  UploadSession, CreateUploadSession, completed, is_in_progress, advance_offset, mark_status,
  find_by_id, delete,
}
use simply_storage.Db.UploadSession
use simply_storage.World.{World, Env, Bytes}
use simply_storage.FileService.{finalize_upload}
use simply_storage.Access.{AuthenticatedUser, UserProject, is_admin, require_project_write_access}
use simply_storage.Upload.TempFiles.{TempDir, read, write, remove}

-- The tables and the temporary files on the local volume.
pub record Uploads : Type 0 where
  pub sessions : List UploadSession
  pub temp_files : TempDir
  pub members : List UserProject
  pub world : World

pub record UploadConfig : Type 0 where
  -- 0 is no limit.
  pub max_file_size : ℕ
  pub session_ttl_secs : ℕ

-- What `create` reads from the headers; `metadata` is what parsing and validating it answers.
pub record Creation : Type 0 where
  pub project_id : ℕ
  pub total_size : Option ℕ
  pub filename : String
  pub filetype : String
  pub metadata : AppResult Value

-- `filter(|s| !s.is_empty()).unwrap_or_else(…)`
abbrev non_empty : String → String → String
non_empty s default = if str_eq s "" then default else s

unfoldable pub require_write : AuthenticatedUser → ℕ → Uploads → AppResult (Unit {0})
require_write user project_id st = do
  project ← find_project project_id st.world.projects
  require_project_write_access st.members user project

unfoldable pub check_size : UploadConfig → Option ℕ → AppResult ℕ
check_size config declared = do
  total_size ← ok_or declared (bad_request "Missing or invalid Upload-Length")
  ensure (ltb 0 total_size) (bad_request "Upload-Length must be positive")
  ensure (not (ltb 0 config.max_file_size && ltb config.max_file_size total_size))
      (bad_request "File exceeds maximum allowed size of {} bytes")
  ok total_size

unfoldable pub validate_creation :
    UploadConfig → AuthenticatedUser → Creation → Uploads → AppResult (ℕ × Value)
unfolding require_write check_size
validate_creation config user request st = do
  require_write user request.project_id st
  total_size ← check_size config request.total_size
  metadata ← request.metadata
  ok (total_size, metadata)

-- The id in the name of the temporary file is drawn before the id of the row.
unfoldable pub open_session :
    ℕ → UploadConfig → AuthenticatedUser → Creation → ℕ → Value → Uploads → UploadSession × Uploads
open_session now config user request total_size metadata st =
    let temp_path = st.world.next_id in
    let (session, sessions) =
      UploadSession.create now (temp_path + 1)
        (record {
          project_id = request.project_id;
          user_id = user.user_id;
          original_name = non_empty request.filename "unnamed";
          content_type = non_empty request.filetype "application/octet-stream";
          total_size = total_size;
          temp_path = temp_path;
          metadata = metadata;
          expires_at = now + config.session_ttl_secs;
        })
        st.sessions in
    (
      session,
      record st {
        sessions = sessions;
        temp_files = write temp_path [] st.temp_files;
        world = record st.world { next_id = temp_path + 2 };
      },
    )

unfoldable pub create :
    ℕ → UploadConfig → AuthenticatedUser → Creation → Uploads → AppResult UploadSession × Uploads
unfolding validate_creation open_session
create now config user request st = elim (validate_creation config user request st) [
  | err e ↦ (err e, st)
  | ok (total_size, metadata) ↦
      let (session, st') = open_session now config user request total_size metadata st in
      (ok session, st')
]

unfoldable pub load_owned_session :
    AuthenticatedUser → ℕ → List UploadSession → AppResult UploadSession
load_owned_session user id sessions = do
  session ← find_by_id id sessions
  ensure (is_admin user || session.user_id == user.user_id)
      (forbidden "Access denied: not the upload owner")
  ok session

-- The offset and the length.
unfoldable pub head : AuthenticatedUser → ℕ → Uploads → AppResult (ℕ × ℕ)
unfolding load_owned_session
head user id st = do
  session ← load_owned_session user id st.sessions
  ok (session.offset_bytes, session.total_size)

-- The loop over the payload, of which `none` is a chunk that could not be read: how much it wrote,
-- or the error, and what is in the file.
unfoldable pub append_chunks : ℕ → ℕ → List (Option Bytes) → ℕ → Bytes → AppResult ℕ × Bytes
append_chunks offset total_size [] written content = (ok written, content)
append_chunks offset total_size (none ∷ payload) written content =
    (err (bad_request "Payload read error: {}"), content)
append_chunks offset total_size (some chunk ∷ payload) written content =
    let rest =
      append_chunks offset total_size payload (written + length chunk) (content ++ chunk) in
    if ltb total_size (offset + written + length chunk)
    then (err (bad_request "Chunk exceeds declared Upload-Length"), content)
    else rest

-- The session and the content of its temporary file, before anything is written.
unfoldable pub check_chunk :
    AuthenticatedUser → ℕ → Option ℕ → Uploads → AppResult (UploadSession × Bytes)
unfolding load_owned_session
check_chunk user id client_offset st = do
  session ← load_owned_session user id st.sessions
  ensure (is_in_progress session.status) (bad_request "Upload session is {}")
  offset ← ok_or client_offset (bad_request "Missing or invalid Upload-Offset")
  ensure (offset == session.offset_bytes)
      (conflict "Upload-Offset {} does not match server offset {}")
  content ← ok_or (read session.temp_path st.temp_files) (internal "Failed to open temp file: {}")
  ok (session, content)

module _ (env : Env) (now : ℕ) where
  -- The file has arrived whole: it is stored, and the session is closed when that succeeds.
  unfoldable pub complete_upload :
      (List File → List File) → UploadSession → Bytes → Uploads → AppResult UploadSession × Uploads
  complete_upload meanwhile session content st =
      let (r, world) =
        finalize_upload env now meanwhile session.project_id session.original_name
          session.content_type (some content) session.metadata st.world in
      elim r [
        | err e ↦ (err e, record st { world = world })
        | ok _ ↦ (
          ok session,
          record st {
            sessions = mark_status now session.id completed st.sessions;
            temp_files = remove session.temp_path st.temp_files;
            world = world;
          },
        )
      ]

  abbrev pub continue_or_complete :
      (List File → List File)
      → Option UploadSession
      → Bytes
      → Uploads
      → AppResult UploadSession × Uploads
  continue_or_complete meanwhile none content st =
      (err (conflict "Concurrent modification of upload session"), st)
  continue_or_complete meanwhile (some updated) content st =
      if leb updated.total_size updated.offset_bytes
      then complete_upload meanwhile updated content st
      else (ok updated, st)

  -- After the loop: the offset advances by what was written, if no other request moved it.
  unfoldable pub after_append :
      (List File → List File)
      → UploadSession
      → AppResult ℕ × Bytes
      → Uploads
      → AppResult UploadSession × Uploads
  unfolding complete_upload
  after_append meanwhile session (err e, content) st =
      (err e, record st { temp_files = write session.temp_path content st.temp_files })
  after_append meanwhile session (ok written, content) st =
      let (updated, sessions) =
        advance_offset now session.id session.offset_bytes (session.offset_bytes + written)
          st.sessions in
      continue_or_complete meanwhile updated content (record st {
        sessions = sessions;
        temp_files = write session.temp_path content st.temp_files;
      })

  unfoldable pub patch :
      (List File → List File)
      → AuthenticatedUser
      → ℕ
      → Option ℕ
      → List (Option Bytes)
      → Uploads
      → AppResult UploadSession × Uploads
  unfolding check_chunk append_chunks after_append
  patch meanwhile user id client_offset payload st = elim (check_chunk user id client_offset st) [
    | err e ↦ (err e, st)
    | ok (session, content) ↦
        after_append meanwhile session
          (append_chunks session.offset_bytes session.total_size payload 0 content) st
  ]

unfoldable pub terminate : AuthenticatedUser → ℕ → Uploads → AppResult (Unit {0}) × Uploads
unfolding load_owned_session
terminate user id st = elim (load_owned_session user id st.sessions) [
  | err e ↦ (err e, st)
  | ok session ↦ (
    ok tt,
    record st {
      sessions = delete id st.sessions;
      temp_files = remove session.temp_path st.temp_files;
    },
  )
]
