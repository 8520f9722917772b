-- ===== src/Db/SyncTask.antt =====
-- `SyncTask` of db/models.rs: the queue of file copies between storages.
pub mod Claim
pub mod Race
pub mod Attempts
use simply_storage.Prelude.{
  ℕ, suc, ◌+◌, ◌*◌, ◌^◌, min, String, Option, none, some, Bool, true, false, ◌&&◌, not, List, [],
  ◌∷◌, ◌++◌, ltb, leb, ◌==◌, if◌then◌else◌, take, select_where, update_where, order_by, find,
}
use simply_storage.Error.{AppResult, ok, err, AppError, not_found}

-- The text column `status`, by the values that the code writes.
pub data TaskStatus : Type 0 where
  pending in_progress completed failed : TaskStatus

abbrev pub is_pending : TaskStatus → Bool
is_pending pending = true
is_pending _ = false

abbrev pub is_in_progress : TaskStatus → Bool
is_in_progress in_progress = true
is_in_progress _ = false

abbrev pub is_failed : TaskStatus → Bool
is_failed failed = true
is_failed _ = false

pub record SyncTask : Type 0 where
  pub id : ℕ
  pub file_id : ℕ
  pub source_storage_id : ℕ
  pub target_storage_id : ℕ
  pub status : TaskStatus
  pub retries : ℕ
  pub error_msg : Option String
  pub retry_after : Option ℕ
  pub project_id : Option ℕ
  pub created_at : ℕ
  pub updated_at : ℕ

pub record CreateSyncTask : Type 0 where
  pub file_id : ℕ
  pub source_storage_id : ℕ
  pub target_storage_id : ℕ
  pub project_id : Option ℕ

unfoldable pub new_task : ℕ → ℕ → CreateSyncTask → SyncTask
new_task now id input = record {
  id = id;
  file_id = input.file_id;
  source_storage_id = input.source_storage_id;
  target_storage_id = input.target_storage_id;
  status = pending;
  retries = 0;
  error_msg = none;
  retry_after = none;
  project_id = input.project_id;
  created_at = now;
  updated_at = now;
}

-- The rows that it refers to exist; a request that may name one that does not checks the key first.
unfoldable pub create : ℕ → ℕ → CreateSyncTask → List SyncTask → SyncTask × List SyncTask
unfolding new_task
create now id input tasks = (new_task now id input, tasks ++ new_task now id input ∷ [])

abbrev pub older : SyncTask → SyncTask → Bool
older s t = leb s.created_at t.created_at

unfoldable pub find_pending : ℕ → List SyncTask → List SyncTask
find_pending limit tasks =
    take limit (order_by older (select_where (λ t. is_pending t.status) tasks))

-- `UPDATE … WHERE id = … RETURNING *`: not found when no row has the id.
abbrev pub has_id : ℕ → SyncTask → Bool
has_id id t = t.id == id

unfoldable pub returning : ℕ → List SyncTask → AppResult SyncTask
returning id tasks = elim (find (has_id id) tasks) [
  | none ↦ err (not_found "Sync task {} not found")
  | some t ↦ ok t
]

abbrev pub with_status : ℕ → TaskStatus → Option String → SyncTask → SyncTask
with_status now status error_msg t = record t {
  status = status;
  error_msg = error_msg;
  retries = if is_failed status then t.retries + 1 else t.retries;
  updated_at = now;
}

unfoldable pub update_status :
    ℕ → ℕ → TaskStatus → Option String → List SyncTask → AppResult SyncTask × List SyncTask
unfolding returning
update_status now id status error_msg tasks =
    let tasks' = update_where (has_id id) (with_status now status error_msg) tasks in
    (returning id tasks', tasks')

abbrev pub is_stale_failure : ℕ → ℕ → ℕ → SyncTask → Bool
is_stale_failure file_id target_storage_id winning_task_id t =
    is_failed t.status
    && t.file_id == file_id
    && t.target_storage_id == target_storage_id
    && not (t.id == winning_task_id)

abbrev pub superseded : ℕ → SyncTask → SyncTask
superseded now t = record t {
  status = completed;
  error_msg = some "Superseded by later successful sync (task {})";
  updated_at = now;
}

unfoldable pub supersede_failed_for : ℕ → ℕ → ℕ → ℕ → List SyncTask → List SyncTask
supersede_failed_for now file_id target_storage_id winning_task_id =
    update_where (is_stale_failure file_id target_storage_id winning_task_id) (superseded now)

-- 2^retries seconds, capped at 5 minutes; `retries` is the value before the increment.
unfoldable pub backoff : ℕ → ℕ
backoff retries = min (2 ^ retries) 300

abbrev pub requeued : ℕ → String → SyncTask → SyncTask
requeued now error_msg t = record t {
  status = pending;
  error_msg = some error_msg;
  retries = t.retries + 1;
  retry_after = some (now + backoff t.retries);
  updated_at = now;
}

unfoldable pub requeue_for_retry :
    ℕ → ℕ → String → List SyncTask → AppResult SyncTask × List SyncTask
unfolding returning
requeue_for_retry now id error_msg tasks =
    let tasks' = update_where (has_id id) (requeued now error_msg) tasks in
    (returning id tasks', tasks')

-- A no-op, as in the source.
unfoldable pub release_lock : ℕ → List SyncTask → AppResult (Unit {0}) × List SyncTask
release_lock _ tasks = (ok tt, tasks)

-- The three statements at the head of `claim_pending`.
abbrev pub is_stuck : ℕ → SyncTask → Bool
is_stuck now t = is_in_progress t.status && ltb (t.updated_at + 15 * 60) now

abbrev pub reclaimed : ℕ → SyncTask → SyncTask
reclaimed now t = record t {
  status = pending;
  retries = t.retries + 1;
  error_msg = some "Reclaimed from stuck in_progress";
  updated_at = now;
}

abbrev pub is_exhausted : ℕ → SyncTask → Bool
is_exhausted max_retries t = is_pending t.status && leb max_retries t.retries

abbrev pub given_up : ℕ → SyncTask → SyncTask
given_up now t = record t {
  status = failed;
  error_msg = some "Max retries exceeded";
  updated_at = now;
}

abbrev pub is_waiting : ℕ → Option ℕ → Bool
is_waiting now none = false
is_waiting now (some due) = ltb now due

abbrev pub is_due : ℕ → ℕ → SyncTask → Bool
is_due now max_retries t =
    is_pending t.status && ltb t.retries max_retries && not (is_waiting now t.retry_after)

-- The table after the recovery of stuck tasks and the marking of exhausted ones.
unfoldable pub sweep : ℕ → ℕ → List SyncTask → List SyncTask
sweep now max_retries tasks =
    update_where (is_exhausted max_retries) (given_up now)
      (update_where (is_stuck now) (reclaimed now) tasks)

-- The tasks that a worker then reads, oldest first.
unfoldable pub due_tasks : ℕ → ℕ → ℕ → List SyncTask → List SyncTask
due_tasks now limit max_retries tasks =
    take limit (order_by older (select_where (is_due now max_retries) tasks))

abbrev pub started : ℕ → SyncTask → SyncTask
started now t = record t { status = in_progress; updated_at = now }

-- The loop over the tasks read. `locked` says for which ids `pg_try_advisory_xact_lock` succeeds;
-- the row of a locked task is marked, and the task as it was read is returned with the new status.
unfoldable pub claim_each :
    ℕ → (ℕ → Bool) → List SyncTask → List SyncTask → List SyncTask × List SyncTask
claim_each now locked [] tasks = ([], tasks)
claim_each now locked (t ∷ read) tasks =
    let marked = update_where (has_id t.id) (started now) tasks in
    let (claimed, tasks') = claim_each now locked read (if locked t.id then marked else tasks) in
    (if locked t.id then record t { status = in_progress } ∷ claimed else claimed, tasks')

unfoldable pub claim_pending :
    ℕ → (ℕ → Bool) → ℕ → ℕ → List SyncTask → List SyncTask × List SyncTask
unfolding sweep due_tasks claim_each
claim_pending now locked limit max_retries tasks =
    let swept = sweep now max_retries tasks in
    claim_each now locked (due_tasks now limit max_retries swept) swept
