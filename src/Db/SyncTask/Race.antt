-- ===== src/Db/SyncTask/Race.antt =====
-- Two workers in `claim_pending` of db/models.rs at once. A move is one part of one of them that
-- the database runs as a whole: the statements up to the SELECT, or one round of the loop, whose
-- transaction takes and releases the advisory lock.
use simply_storage.Prelude.{ℕ, ◌≡◌, true, List, [], ◌∷◌, ◌++◌, arith}
use simply_storage.Prelude.{exists, update_where, refl}
use simply_storage.Db.SyncTask.{SyncTask, sweep, due_tasks, claim_each}
use simply_storage.Db.SyncTask.Claim.{has_claim}

-- What a worker has read and not yet tried, and what it has claimed.
pub record Worker : Type 0 where
  pub read : List SyncTask
  pub claimed : List SyncTask

pub record Workers : Type 0 where
  pub tasks : List SyncTask
  pub first : Worker
  pub second : Worker

pub data Move : Type 0 where
  first_reads second_reads first_tries second_tries : Move

module _ (now limit max_retries : ℕ) where
  -- One round of the loop, at a moment when no other transaction holds the lock.
  attempt : Worker → List SyncTask → Worker × List SyncTask
  attempt w tasks = elim w.read [
    | [] ↦ (w, tasks)
    | t ∷ rest ↦
        let (claimed, tasks') = claim_each now (λ _. true) (t ∷ []) tasks in
        (record { read = rest; claimed = w.claimed ++ claimed }, tasks')
  ]

  read_due : Worker → List SyncTask → Worker
  read_due w tasks = record w { read = due_tasks now limit max_retries tasks }

  pub move : Workers → Move → Workers
  unfolding attempt read_due
  move s first_reads =
      let tasks = sweep now max_retries s.tasks in
      record s { tasks = tasks; first = read_due s.first tasks }
  move s second_reads =
      let tasks = sweep now max_retries s.tasks in
      record s { tasks = tasks; second = read_due s.second tasks }
  move s first_tries =
      let (w, tasks) = attempt s.first s.tasks in record s { tasks = tasks; first = w }
  move s second_tries =
      let (w, tasks) = attempt s.second s.tasks in record s { tasks = tasks; second = w }

  pub run : Workers → List Move → Workers
  unfolding move
  run s [] = s
  run s (m ∷ moves) = run (move s m) moves

abbrev pub idle : List SyncTask → Workers
idle tasks = record {
  tasks = tasks;
  first = record { read = []; claimed = [] };
  second = record { read = []; claimed = [] };
}

abbrev pub overlap : List Move
overlap = first_reads ∷ second_reads ∷ first_tries ∷ second_tries ∷ []

sweep_idem :
    (now max_retries : ℕ) (tasks : List SyncTask)
    → sweep now max_retries (sweep now max_retries tasks) ≡ sweep now max_retries tasks
unfolding sweep update_where
sweep_idem now max_retries [] = refl
sweep_idem now max_retries (t ∷ tasks) = ground (arith, sweep_idem now max_retries tasks)

-- Whenever a task is due, two workers that both read before either has marked it both claim it:
-- the mark does not test that the task is still pending.
pub double_claim :
    (now limit max_retries : ℕ) (tasks rest : List SyncTask) (t : SyncTask)
    → due_tasks now limit max_retries (sweep now max_retries tasks) ≡ t ∷ rest
    → let s = run now limit max_retries (idle tasks) overlap in
      (has_claim s.first.claimed t.id ≡ true) × (has_claim s.second.claimed t.id ≡ true)
unfolding run exists claim_each
double_claim now limit max_retries tasks rest t due =
    rw (sweep_idem now max_retries tasks) (rw (due, attempt, read_due) (ground arith, ground arith))
