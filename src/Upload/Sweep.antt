-- ===== src/Upload/Sweep.antt =====
-- workers/upload_cleanup_worker.rs: a round of the cleanup of abandoned uploads.
use simply_storage.Prelude.{ℕ, ◌-◌, Bool, false, List, [], ◌∷◌, if◌then◌else◌}
use simply_storage.Error.{ok, err}
use simply_storage.Db.UploadSession.{
  UploadSession, CreateUploadSession, completed, is_in_progress, advance_offset, mark_status,
  find_by_id, delete,
}
use simply_storage.Db.UploadSession
use simply_storage.Upload.TempFiles.{TempDir, remove}
use simply_storage.Upload.{Uploads}

unfoldable pub abort_each : ℕ → List UploadSession → Uploads → Uploads
abort_each now [] st = st
abort_each now (s ∷ expired) st = abort_each now expired (record st {
  sessions = UploadSession.mark_status now s.id UploadSession.aborted st.sessions;
  temp_files = remove s.temp_path st.temp_files;
})

unfoldable pub sweep_expired : ℕ → Uploads → Uploads
unfolding abort_each
sweep_expired now st = abort_each now (UploadSession.find_expired now 500 st.sessions) st

abbrev pub is_live : List UploadSession → ℕ → Bool
is_live sessions id = elim (find_by_id id sessions) [
  | ok s ↦ is_in_progress s.status
  | err _ ↦ false
]

unfoldable pub keep_live : List UploadSession → TempDir → TempDir
keep_live sessions [] = []
keep_live sessions ((path, content) ∷ files) =
    if is_live sessions path
    then (path, content) ∷ keep_live sessions files
    else keep_live sessions files

-- The name of a temporary file is read as the id of a session.
unfoldable pub reconcile_orphans : Uploads → Uploads
unfolding keep_live
reconcile_orphans st = record st { temp_files = keep_live st.sessions st.temp_files }

-- One replica at a time; the pruning of access events is left out.
unfoldable pub sweep : ℕ → ℕ → Uploads → Uploads
unfolding sweep_expired reconcile_orphans
sweep now ttl st =
    let st = sweep_expired now st in
    reconcile_orphans
      (record st { sessions = UploadSession.prune_terminal (now - ttl) st.sessions })
