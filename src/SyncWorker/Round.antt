-- ===== src/SyncWorker/Round.antt =====
-- A whole round of workers/sync_worker.rs: every claimed task is in a batch, and every batch settles
-- its tasks.
use simply_storage.Prelude.{
  ℕ, ◌≡◌, refl, String, Option, none, some, Bool, true, ◌||◌, List, [], ◌∷◌, ◌++◌, arith, ◌==◌, All,
  exists, Bool-cases, inl, inr,
}
use simply_storage.Error.{AppResult, ok, err, to_string}
use simply_storage.Db.SyncTask.{SyncTask, claim_pending}
use simply_storage.Db.SyncTask.Claim.{has_claim}
use simply_storage.World.{World, Env, Bytes}
use simply_storage.SyncWorker.{
  Source, push_task, group_tasks, fan_out, process_batch, process_groups, process_claimed,
  poll_and_process, download_source,
}
use simply_storage.SyncWorker.Settled.{
  SettledAt, finalize_each_keeps, finalize_each-IsSettled, fail_all_keeps, fail_all-IsSettled,
}

abbrev has_group : List (Source × List SyncTask) → ℕ → Bool
has_group groups id = exists (λ g. has_claim g.1 id) groups

has_claim-append :
    (id : ℕ) (batch : List SyncTask) (t : SyncTask)
    → has_claim (batch ++ t ∷ []) id ≡ (has_claim batch id || t.id == id)
unfolding exists
has_claim-append id [] t = ground arith
has_claim-append id (b ∷ batch) t = ground (arith, has_claim-append id batch t)

has_group-push_task :
    (id : ℕ) (t : SyncTask) (groups : List (Source × List SyncTask))
    → has_group (push_task t groups) id ≡ (t.id == id || has_group groups id)
unfolding push_task exists
has_group-push_task id t [] = ground arith
has_group-push_task id t ((key, batch) ∷ groups) =
    ground (arith, has_group-push_task id t groups, has_claim-append id batch t)

-- The groups hold the tasks that are grouped, and no others.
has_group-group_tasks :
    (id : ℕ) (tasks : List SyncTask) (groups : List (Source × List SyncTask))
    → has_group (group_tasks tasks groups) id ≡ (has_claim tasks id || has_group groups id)
unfolding group_tasks exists
has_group-group_tasks id [] groups = refl
has_group-group_tasks id (t ∷ tasks) groups =
    ground
      (arith, has_group-group_tasks id tasks (push_task t groups), has_group-push_task id t groups)

module _ (env : Env) (now id : ℕ) where
  abbrev Done : World → Type 0
  Done w = All (SettledAt now id) w.sync_tasks

  fan_out_keeps :
      (r : AppResult (String × Bytes)) (batch : List SyncTask) (w : World)
      → Done w
      → Done (fan_out env now r batch w)
  fan_out_keeps (ok (path, content)) batch w = finalize_each_keeps env now id path content batch w
  fan_out_keeps (err e) batch w = fail_all_keeps env now id (to_string e) batch w

  fan_out-IsSettled :
      (r : AppResult (String × Bytes)) (batch : List SyncTask) (w : World)
      → has_claim batch id ≡ true
      → Done (fan_out env now r batch w)
  fan_out-IsSettled (ok (path, content)) batch w =
      finalize_each-IsSettled env now id path content batch w
  fan_out-IsSettled (err e) batch w = fail_all-IsSettled env now id (to_string e) batch w

  process_batch_keeps :
      (temp_dir : Option String) (batch : List SyncTask) (w : World)
      → Done w
      → Done (process_batch env now temp_dir batch w)
  unfolding process_batch
  process_batch_keeps temp_dir [] w h = h
  process_batch_keeps (some e) (t ∷ batch) w h = fail_all_keeps env now id _ (t ∷ batch) w h
  process_batch_keeps none (t ∷ batch) w h =
      fan_out_keeps (download_source env now t w) (t ∷ batch) w h

  process_batch-IsSettled :
      (temp_dir : Option String) (batch : List SyncTask) (w : World)
      → has_claim batch id ≡ true
      → Done (process_batch env now temp_dir batch w)
  unfolding process_batch
  process_batch-IsSettled temp_dir [] w h = unfold exists in cc
  process_batch-IsSettled (some e) (t ∷ batch) w h = fail_all-IsSettled env now id _ (t ∷ batch) w h
  process_batch-IsSettled none (t ∷ batch) w h =
      fan_out-IsSettled (download_source env now t w) (t ∷ batch) w h

  process_groups_keeps :
      (temp_dir : Option String) (groups : List (Source × List SyncTask)) (w : World)
      → Done w
      → Done (process_groups env now temp_dir groups w)
  unfolding process_groups
  process_groups_keeps temp_dir [] w h = h
  process_groups_keeps temp_dir ((key, batch) ∷ groups) w h =
      process_groups_keeps temp_dir groups _ (process_batch_keeps temp_dir batch w h)

  process_groups-IsSettled :
      (temp_dir : Option String) (groups : List (Source × List SyncTask)) (w : World)
      → has_group groups id ≡ true
      → Done (process_groups env now temp_dir groups w)
  unfolding process_groups exists
  process_groups-IsSettled temp_dir [] w h = cc
  process_groups-IsSettled temp_dir ((key, batch) ∷ groups) w h =
      elim (Bool-cases (has_claim batch id)) [
        | inl e ↦
            process_groups_keeps temp_dir groups _ (process_batch-IsSettled temp_dir batch w e)
        | inr e ↦ process_groups-IsSettled temp_dir groups _ (ground (arith, e, h))
      ]

  process_claimed-IsSettled :
      (temp_dir : Option String) (tasks : List SyncTask) (w : World)
      → has_claim tasks id ≡ true
      → Done (process_claimed env now temp_dir tasks w).1
  process_claimed-IsSettled temp_dir [] w h = unfold exists in cc
  process_claimed-IsSettled temp_dir (t ∷ tasks) w h =
      process_groups-IsSettled temp_dir (group_tasks (t ∷ tasks) []) w
        (ground (arith, h, has_group-group_tasks id (t ∷ tasks) []))

-- After a round of a worker, every task that it claimed is completed or waits for a later attempt,
-- whatever the backends answered, and also when the directory for temporary files was refused.
pub poll_and_process-IsSettled :
    (env : Env) (now id : ℕ) (temp_dir : Option String) (locked : ℕ → Bool) (max_retries : ℕ)
    (w : World)
    → has_claim (claim_pending now locked 16 max_retries w.sync_tasks).0 id ≡ true
    → All (SettledAt now id) (poll_and_process env now temp_dir locked max_retries w).1.sync_tasks
unfolding poll_and_process
poll_and_process-IsSettled env now id temp_dir locked max_retries w h =
    let (tasks, rows) = claim_pending now locked 16 max_retries w.sync_tasks in
    process_claimed-IsSettled env now id temp_dir tasks (record w { sync_tasks = rows }) h
