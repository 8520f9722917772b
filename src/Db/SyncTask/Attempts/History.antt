-- ===== src/Db/SyncTask/Attempts/History.antt =====
-- How often a task of the queue (db/models.rs) is tried.
use simply_storage.Prelude.{
  ℕ, ◌+◌, ◌≤◌, ◌≡◌, refl, String, none, some, Bool, List, [], ◌∷◌, arith, count_where,
}
use simply_storage.Db.SyncTask.{
  SyncTask, completed, failed, has_id, with_status, requeued, claim_pending, update_status,
  requeue_for_retry, superseded, is_stale_failure, supersede_failed_for,
}
use simply_storage.Db.SyncTask.Attempts.{attempts, claim_pending-attempts, update-step, attempts-le}

-- What happens to the queue: claims that do not overlap, and what follows an attempt.
pub data Event : Type 0 where
  claims : (now : ℕ) → (locked : ℕ → Bool) → (limit : ℕ) → Event
  requeues : (now id : ℕ) → String → Event
  completes : (now id : ℕ) → Event
  fails : (now id : ℕ) → String → Event
  supersedes : (now file_id target_storage_id winning_task_id : ℕ) → Event

module _ (max_retries : ℕ) where
  unfoldable pub step : Event → List SyncTask → List SyncTask
  unfolding claim_pending requeue_for_retry update_status supersede_failed_for
  step (claims now locked limit) tasks = (claim_pending now locked limit max_retries tasks).1
  step (requeues now id message) tasks = (requeue_for_retry now id message tasks).1
  step (completes now id) tasks = (update_status now id completed none tasks).1
  step (fails now id message) tasks = (update_status now id failed (some message) tasks).1
  step (supersedes now file_id target winner) tasks =
      supersede_failed_for now file_id target winner tasks

  -- How often a task is claimed.
  abbrev claimed : ℕ → Event → List SyncTask → ℕ
  claimed id (claims now locked limit) tasks =
      count_where (has_id id) (claim_pending now locked limit max_retries tasks).0
  claimed id _ tasks = 0

  unfoldable pub claims_of : ℕ → List Event → List SyncTask → ℕ
  unfolding step
  claims_of id [] tasks = 0
  claims_of id (event ∷ events) tasks =
      claimed id event tasks + claims_of id events (step event tasks)

  step-attempts :
      (id : ℕ) (event : Event) (tasks : List SyncTask)
      → count_where (has_id id) tasks ≤ 1
      → (claimed id event tasks + attempts max_retries id (step event tasks)
          ≤ attempts max_retries id tasks)
        × (count_where (has_id id) (step event tasks) ≡ count_where (has_id id) tasks)
  unfolding step
  step-attempts id (claims now locked limit) tasks once =
      claim_pending-attempts max_retries id now locked limit tasks once
  step-attempts id (requeues now k message) tasks once =
      unfold requeue_for_retry in
      update-step max_retries id (has_id k) (requeued now message) tasks (λ t. refl)
        (λ t. ground arith)
  step-attempts id (completes now k) tasks once =
      unfold update_status in
      update-step max_retries id (has_id k) (with_status now completed none) tasks (λ t. refl)
        (λ t. ground arith)
  step-attempts id (fails now k message) tasks once =
      unfold update_status in
      update-step max_retries id (has_id k) (with_status now failed (some message)) tasks
        (λ t. refl) (λ t. ground arith)
  step-attempts id (supersedes now file_id target winner) tasks once =
      unfold supersede_failed_for in
      update-step max_retries id (is_stale_failure file_id target winner) (superseded now) tasks
        (λ t. refl) (λ t. ground arith)

  claims_of-attempts :
      (id : ℕ) (events : List Event) (tasks : List SyncTask)
      → count_where (has_id id) tasks ≤ 1
      → claims_of id events tasks ≤ attempts max_retries id tasks
  unfolding claims_of
  claims_of-attempts id [] tasks once = omega arith
  claims_of-attempts id (event ∷ events) tasks once =
      let (spent, same) = step-attempts id event tasks once in
      let rest = claims_of-attempts id events (step event tasks) (omega (arith, same, once)) in
      omega (arith, spent, rest)

  -- The retries of a task end: in every history of claims that do not overlap, requeues, completions,
  -- failures and supersessions, however long and whatever fails, a task whose id is in the table once
  -- is claimed at most `max_retries` times.
  pub claims_of-le :
      (id : ℕ) (events : List Event) (tasks : List SyncTask)
      → count_where (has_id id) tasks ≤ 1
      → claims_of id events tasks ≤ max_retries
  claims_of-le id events tasks once =
      omega (arith, claims_of-attempts id events tasks once, attempts-le max_retries id tasks once)
