-- ===== src/FileRoutes/Requests.antt =====
-- What the requests of api/files.rs do not look at, and the name in a download's header.
use simply_storage.Prelude.{
  ℕ, ◌≡◌, String, some, ◌&&◌, true, ◌==◌, exists, List, arith, has_char, inl, inr,
}
use simply_storage.Error.{ok, Result-cases}
use simply_storage.Db.Storage.{Project}
use simply_storage.Db.SyncTask
use simply_storage.Db.SyncTask.{SyncTask}
use simply_storage.Access.{AuthenticatedUser, UserProject}
use simply_storage.FileRoutes.{
  ForceSyncRequest, force_sync_to_storage, accepted, source_of, sanitised, is_safe,
}
use simply_storage.World.{World, Env}

-- The name in the header of a download has of the original name exactly the characters other than
-- quotes, backslashes and line ends.
pub sanitised-has_char :
    (c : ℕ) (name : String) → has_char c (sanitised name) ≡ (is_safe c && has_char c name)
unfolding sanitised has_char
sanitised-has_char c String.[] = ground arith
sanitised-has_char c (String.◌∷◌ d s) = ground (arith, sanitised-has_char c s)

abbrev pub asked : ℕ → ℕ → ForceSyncRequest
asked target project_id = record { target_storage_id = target; project_id = project_id }

-- When a forced copy of a file is accepted, the same request with any other project that has a row,
-- of which the user need not be a member and which need not refer to the file or be live, is
-- accepted as well, and the task names that project.
pub force_sync_any_project :
    (env : Env) (members : List UserProject) (user : AuthenticatedUser)
    (now file_id target project_id other : ℕ) (w : World) (task : SyncTask)
    → (force_sync_to_storage env members user now file_id (asked target project_id) w).0 ≡ ok task
    → exists (λ (p : Project). p.id == other) w.projects ≡ true
    → (force_sync_to_storage env members user now file_id (asked target other) w).0
      ≡ ok (record task { project_id = some other })
unfolding force_sync_to_storage accepted SyncTask.create
force_sync_any_project env members user now file_id target project_id other w task h there =
    elim (Result-cases (source_of env members user w file_id target)) [
      | inl (source, e) ↦ ground (arith, e, h, there)
      | inr (x, e) ↦ absurd (ground (arith, e, h))
    ]
