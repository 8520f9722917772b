-- ===== src/Tests/SyncWorker.antt =====
-- A worker with one task, whose source holds the file.
use simply_storage.Prelude.{
  ◌≡◌, refl, none, some, true, false, [], ◌∷◌, find, exists, arith, select_where, update_where,
  order_by, All,
}
use simply_storage.Error.{err, not_found}
use simply_storage.Json.{get, insert, string}
use simply_storage.Db.Storage.{find_project, find_storage, find_for_project_and_storage}
use simply_storage.Db.Location.{FileLocation, synced}
use simply_storage.Db.Location.Unique.{IsUnique, copies}
use simply_storage.Db.SyncTask.{SyncTask, pending, claim_pending, is_stale_failure}
use simply_storage.Backend.{Backend, create_backend, required_keys, require_keys}
use simply_storage.Resolver.{
  resolve_project_backend, container_key, apply_container_to_config, container_value,
  effective_container, trim_end_slashes,
}
use simply_storage.World.{World, Env, stored}
use simply_storage.SyncWorker.{finalize_task, process_batch, poll_and_process, resolve_backend}
use simply_storage.SyncWorker.Settled.{SettledAt}
use simply_storage.SyncWorker.Round.{poll_and_process-IsSettled}
use simply_storage.SyncWorker.Copy.{has_copy, finalize_task-copies, process_batch_own_container}
use simply_storage.Tests.Samples.{fresh_world, answering, local_backend, local_config, storage}

abbrev copy_task : SyncTask
copy_task = record {
  id = 7;
  file_id = 3;
  source_storage_id = 10;
  target_storage_id = 20;
  status = pending;
  retries = 0;
  error_msg = none;
  retry_after = none;
  project_id = some 1;
  created_at = 5;
  updated_at = 5;
}

abbrev at_source : FileLocation
at_source = record {
  id = 4;
  file_id = 3;
  storage_id = 10;
  storage_path = "ab/cd/abcdef";
  status = synced;
  synced_at = some 2;
  last_accessed_at = none;
  created_at = 2;
}

abbrev queued : World
queued = record fresh_world { locations = at_source ∷ []; sync_tasks = copy_task ∷ [] }

abbrev docs : Backend
docs = record local_backend { config = insert "path" (string "/data/docs-0a1b2c") local_config }

poll_and_process-IsSettled_example :
    All (SettledAt 100 7) (poll_and_process answering 100 none (λ _. true) 5 queued).1.sync_tasks
unfolding claim_pending exists select_where update_where order_by
poll_and_process-IsSettled_example =
    poll_and_process-IsSettled answering 100 7 none (λ _. true) 5 queued refl

finalize_task-copies_example :
    let w' = finalize_task answering 100 copy_task "ab/cd/abcdef" (1 ∷ []) queued in
    (has_copy 3 20 w'.locations ≡ true)
    × IsUnique w'.locations
    × (exists (is_stale_failure 3 20 7) w'.sync_tasks ≡ false)
    × (w'.effects ≡ stored docs "ab/cd/abcdef" (1 ∷ []) ∷ [])
unfolding find_project find_storage find_for_project_and_storage find container_key
    resolve_project_backend resolve_backend create_backend apply_container_to_config container_value
    effective_container trim_end_slashes required_keys require_keys get insert
finalize_task-copies_example =
    finalize_task-copies answering 100 copy_task queued "ab/cd/abcdef" (1 ∷ []) docs refl refl
      (unfold copies in λ file_id storage_id. ground arith)

-- The same task for a project whose container lacks the file.
abbrev empty : Env
empty = record answering { download = λ _ _. err (not_found "no such file") }

process_batch_own_container_example :
    let w' = process_batch empty 100 none (copy_task ∷ []) queued in
    (w'.effects ≡ []) × (w'.locations ≡ at_source ∷ [])
unfolding find_project find_storage find_for_project_and_storage find container_key
    resolve_project_backend create_backend apply_container_to_config container_value
    effective_container trim_end_slashes required_keys require_keys get insert
process_batch_own_container_example =
    process_batch_own_container empty 100 copy_task queued 1 (storage 10) docs
      (not_found "no such file") [] refl refl refl (λ _. refl)
