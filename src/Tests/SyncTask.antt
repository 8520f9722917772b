-- ===== src/Tests/SyncTask.antt =====
-- A queue with one due task.
use simply_storage.Prelude.{
  none, true, false, ◌≡◌, refl, List, [], ◌∷◌, arith, ◌≤◌, select_where, update_where, order_by,
  exists, count_where,
}
use simply_storage.Db.SyncTask.{SyncTask, pending, due_tasks, sweep, claim_pending}
use simply_storage.Db.SyncTask.Claim.{has_claim, claim_pending_disjoint}
use simply_storage.Db.SyncTask.Attempts.History.{Event, claims, requeues, claims_of, claims_of-le}
use simply_storage.Db.SyncTask.Race.{run, idle, overlap, double_claim}

abbrev copy_task : SyncTask
copy_task = record {
  id = 7;
  file_id = 1;
  source_storage_id = 10;
  target_storage_id = 20;
  status = pending;
  retries = 0;
  error_msg = none;
  retry_after = none;
  project_id = none;
  created_at = 5;
  updated_at = 5;
}

abbrev queue : List SyncTask
queue = copy_task ∷ []

-- The task is requeued after each attempt.
abbrev failing_attempts : List Event
failing_attempts =
    claims 100 (λ _. true) 16
    ∷ requeues 110 7 "disk full"
    ∷ claims 200 (λ _. true) 16
    ∷ requeues 210 7 "disk full"
    ∷ claims 300 (λ _. true) 16
    ∷ []

claims_of-le_example : claims_of 1 7 failing_attempts queue ≤ 1
unfolding count_where
claims_of-le_example = claims_of-le 1 7 failing_attempts queue (omega arith)

-- The table after a claim of the task and the arrival of another one.
abbrev claimed_and_more : List SyncTask
claimed_and_more = record copy_task { id = 9 } ∷ (claim_pending 100 (λ _. true) 16 3 queue).1

claim_pending_disjoint_example :
    has_claim (claim_pending 200 (λ _. true) 16 3 claimed_and_more).0 7 ≡ false
unfolding claim_pending exists select_where update_where order_by
claim_pending_disjoint_example =
    claim_pending_disjoint 100 200 (λ _. true) (λ _. true) 16 16 3 3 queue claimed_and_more 7
      (omega arith) refl refl

double_claim_example :
    let s = run 100 16 3 (idle queue) overlap in
    (has_claim s.first.claimed 7 ≡ true) × (has_claim s.second.claimed 7 ≡ true)
unfolding due_tasks sweep select_where update_where order_by
double_claim_example = double_claim 100 16 3 queue [] copy_task refl
