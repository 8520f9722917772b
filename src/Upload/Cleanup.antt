-- ===== src/Upload/Cleanup.antt =====
-- What the cleanup of workers/upload_cleanup_worker.rs does to an upload that has just begun.
use simply_storage.Prelude.{
  ℕ, ◌+◌, ◌<◌, ◌≡◌, refl, none, some, true, false, List, [], ◌∷◌, ◌++◌, arith, if◌then◌else◌, All,
  find, ==_refl,
}
use simply_storage.Json.{Value}
use simply_storage.Error.{ok}
use simply_storage.Db.UploadSession.{UploadSession, is_in_progress, has_id, find_by_id}
use simply_storage.Db.UploadSession
use simply_storage.Access.{AuthenticatedUser}
use simply_storage.Upload.TempFiles.{TempDir, read, read-write}
use simply_storage.Upload.Sweep.{is_live, keep_live, reconcile_orphans}
use simply_storage.Upload.{Uploads, UploadConfig, Creation, create, open_session, validate_creation}

read-keep_live :
    (sessions : List UploadSession) (path : ℕ) (files : TempDir)
    → read path (keep_live sessions files)
      ≡ (if is_live sessions path then read path files else none)
unfolding read keep_live
read-keep_live sessions path [] = ground arith
read-keep_live sessions path ((p, content) ∷ files) =
    ground (arith, read-keep_live sessions path files)

-- Every row has been given an id that was drawn before.
abbrev pub IsDrawn : Uploads → Type 0
IsDrawn st = All (λ (s : UploadSession). s.id < st.world.next_id) st.sessions

find_undrawn :
    (id : ℕ) (sessions : List UploadSession) (new : UploadSession)
    → All (λ (s : UploadSession). s.id < id) sessions
    → new.id ≡ id + 1
    → find (has_id id) (sessions ++ new ∷ []) ≡ none
unfolding find
find_undrawn id [] new h e = ground arith
find_undrawn id (s ∷ sessions) new h e = ground (arith, h, find_undrawn id sessions new)

not_live :
    (id : ℕ) (sessions : List UploadSession) (new : UploadSession)
    → All (λ (s : UploadSession). s.id < id) sessions
    → new.id ≡ id + 1
    → is_live (sessions ++ new ∷ []) id ≡ false
unfolding find_by_id
not_live id sessions new h e = rw (find_undrawn id sessions new h e, is_live) refl

-- When an upload has been created, the next round of the cleanup, on any replica, removes its
-- temporary file although the session is in progress: the file's name is not the session's id.
pub create-reconcile_orphans :
    (now : ℕ) (config : UploadConfig) (user : AuthenticatedUser) (request : Creation) (st : Uploads)
    (total_size : ℕ) (metadata : Value)
    → IsDrawn st
    → validate_creation config user request st ≡ ok (total_size, metadata)
    → let (r, st') = create now config user request st in
      (session : UploadSession) × (r ≡ ok session)
      × (is_in_progress session.status ≡ true)
      × (read session.temp_path st'.temp_files ≡ some [])
      × (read session.temp_path (reconcile_orphans st').temp_files ≡ none)
unfolding create open_session reconcile_orphans UploadSession.create
create-reconcile_orphans now config user request st total_size metadata drawn valid =
    rw (valid, create)
      (
        _,
        refl,
        refl,
        rw read-write (rw ==_refl refl),
        rw read-keep_live (
            rw
              (not_live st.world.next_id st.sessions
                (open_session now config user request total_size metadata st).0 drawn refl)
              refl),
      )
