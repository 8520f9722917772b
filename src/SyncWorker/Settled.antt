-- ===== src/SyncWorker/Settled.antt =====
-- What a round of workers/sync_worker.rs does with the tasks that it claims: none is left behind in
-- progress, however its downloads and uploads end.
use simply_storage.Prelude.{
  ℕ, zero, suc, ◌^◌, ◌≤◌, ◌≡◌, refl, sym, subst, String, none, Bool, true, false, ◌&&◌, ◌||◌, List,
  [], ◌∷◌, arith, ◌==◌, All, exists, Bool-cases, inl, inr, update_where, ==_iff,
}
use simply_storage.Error.{AppResult, ok, err, to_string}
use simply_storage.Db.SyncTask.{
  SyncTask, TaskStatus, completed, is_pending, has_id, backoff, is_waiting, requeued, with_status,
  requeue_for_retry, update_status, supersede_failed_for, is_stale_failure, superseded,
}
use simply_storage.Db.SyncTask.Claim.{has_claim}
use simply_storage.World.{World, Env, Bytes}
use simply_storage.SyncWorker.{
  push_copy, record_copy, complete, requeue, settle, finalize_task, fail_all, finalize_each,
}

abbrev is_completed : TaskStatus → Bool
is_completed completed = true
is_completed _ = false

-- The copy is done, or the task waits for its next attempt.
abbrev pub is_settled : ℕ → SyncTask → Bool
is_settled now t = is_completed t.status || (is_pending t.status && is_waiting now t.retry_after)

abbrev pub SettledAt : ℕ → ℕ → SyncTask → Type 0
SettledAt now id t = t.id ≡ id → is_settled now t ≡ true

All-update_where {ℓ κ} :
    {A : Type ℓ} (P : A → Type κ) (p : A → Bool) (f : A → A)
    → ((a : A) → p a ≡ true → P a → P (f a))
    → (xs : List A) → All P xs
    → All P (update_where p f xs)
unfolding update_where
All-update_where P p f step [] h = tt
All-update_where P p f step (x ∷ xs) h = elim (Bool-cases (p x)) [
  | inl e ↦ rw e (step x e h.0, All-update_where P p f step xs h.1)
  | inr e ↦ rw e (h.0, All-update_where P p f step xs h.1)
]

All-update_each {ℓ κ} :
    {A : Type ℓ} (P : A → Type κ) (p : A → Bool) (f : A → A)
    → ((a : A) → p a ≡ true → P (f a))
    → ((a : A) → p a ≡ false → P a)
    → (xs : List A) → All P (update_where p f xs)
unfolding update_where
All-update_each P p f chosen others [] = tt
All-update_each P p f chosen others (x ∷ xs) = elim (Bool-cases (p x)) [
  | inl e ↦ rw e (chosen x e, All-update_each P p f chosen others xs)
  | inr e ↦ rw e (others x e, All-update_each P p f chosen others xs)
]

two_pow-pos : (n : ℕ) → 1 ≤ 2 ^ n
two_pow-pos zero = omega arith
two_pow-pos (suc n) = omega (arith, two_pow-pos n)

backoff-pos : (n : ℕ) → 1 ≤ backoff n
unfolding backoff
backoff-pos n = omega (arith, two_pow-pos n)

requeued-IsSettled :
    (now : ℕ) (msg : String) (t : SyncTask) → is_settled now (requeued now msg t) ≡ true
requeued-IsSettled now msg t = ground (arith, backoff-pos t.retries)

requeue-IsSettled :
    (now : ℕ) (msg : String) (t : SyncTask) (w : World)
    → All (SettledAt now t.id) (requeue now msg t w).sync_tasks
unfolding requeue_for_retry
requeue-IsSettled now msg t w =
    All-update_each (SettledAt now t.id) (has_id t.id) (requeued now msg)
      (λ r e same. requeued-IsSettled now msg r) (λ r e same. ground arith) w.sync_tasks

requeue_keeps :
    (now id : ℕ) (msg : String) (t : SyncTask) (w : World)
    → All (SettledAt now id) w.sync_tasks
    → All (SettledAt now id) (requeue now msg t w).sync_tasks
unfolding requeue_for_retry
requeue_keeps now id msg t w =
    All-update_where (SettledAt now id) (has_id t.id) (requeued now msg)
      (λ r e h same. requeued-IsSettled now msg r) w.sync_tasks

supersede_keeps :
    (now id file_id target winner : ℕ) (rows : List SyncTask)
    → All (SettledAt now id) rows
    → All (SettledAt now id) (supersede_failed_for now file_id target winner rows)
unfolding supersede_failed_for
supersede_keeps now id file_id target winner =
    All-update_where (SettledAt now id) (is_stale_failure file_id target winner) (superseded now)
      (λ r e h same. refl)

complete-IsSettled :
    (now : ℕ) (t : SyncTask) (w : World) → All (SettledAt now t.id) (complete now t w).sync_tasks
unfolding update_status
complete-IsSettled now t w = supersede_keeps now t.id t.file_id t.target_storage_id t.id _ (
    All-update_each (SettledAt now t.id) (has_id t.id) (with_status now completed none)
      (λ r e same. refl) (λ r e same. ground arith) w.sync_tasks)

complete_keeps :
    (now id : ℕ) (t : SyncTask) (w : World)
    → All (SettledAt now id) w.sync_tasks
    → All (SettledAt now id) (complete now t w).sync_tasks
unfolding update_status
complete_keeps now id t w h = supersede_keeps now id t.file_id t.target_storage_id t.id _ (
    All-update_where (SettledAt now id) (has_id t.id) (with_status now completed none)
      (λ r e h same. refl) w.sync_tasks h)

module _ (env : Env) (now : ℕ) where
  -- Copying a file leaves the queue alone.
  push_copy-queue :
      (t : SyncTask) (path : String) (content : Bytes) (w : World)
      → (push_copy env now t path content w).1.sync_tasks ≡ w.sync_tasks
  unfolding push_copy record_copy
  push_copy-queue t path content w = ground arith

  settle-IsSettled :
      (r : AppResult (Unit {0})) (t : SyncTask) (w : World)
      → All (SettledAt now t.id) (settle now r t w).sync_tasks
  settle-IsSettled (ok _) t w = complete-IsSettled now t w
  settle-IsSettled (err e) t w = requeue-IsSettled now (to_string e) t w

  settle_keeps :
      (id : ℕ) (r : AppResult (Unit {0})) (t : SyncTask) (w : World)
      → All (SettledAt now id) w.sync_tasks
      → All (SettledAt now id) (settle now r t w).sync_tasks
  settle_keeps id (ok _) t w h = complete_keeps now id t w h
  settle_keeps id (err e) t w h = requeue_keeps now id (to_string e) t w h

  finalize_task-IsSettled :
      (t : SyncTask) (path : String) (content : Bytes) (w : World)
      → All (SettledAt now t.id) (finalize_task env now t path content w).sync_tasks
  unfolding finalize_task
  finalize_task-IsSettled t path content w =
      let (r, w') = push_copy env now t path content w in settle-IsSettled r t w'

  finalize_task_keeps :
      (id : ℕ) (t : SyncTask) (path : String) (content : Bytes) (w : World)
      → All (SettledAt now id) w.sync_tasks
      → All (SettledAt now id) (finalize_task env now t path content w).sync_tasks
  unfolding finalize_task
  finalize_task_keeps id t path content w h =
      let (r, w') = push_copy env now t path content w in
      settle_keeps id r t w'
        (subst (All (SettledAt now id)) (sym (push_copy-queue t path content w)) h)

  pub finalize_each_keeps :
      (id : ℕ) (path : String) (content : Bytes) (batch : List SyncTask) (w : World)
      → All (SettledAt now id) w.sync_tasks
      → All (SettledAt now id) (finalize_each env now path content batch w).sync_tasks
  unfolding finalize_each
  finalize_each_keeps id path content [] w h = h
  finalize_each_keeps id path content (t ∷ batch) w h =
      finalize_each_keeps id path content batch _ (finalize_task_keeps id t path content w h)

  pub fail_all_keeps :
      (id : ℕ) (msg : String) (batch : List SyncTask) (w : World)
      → All (SettledAt now id) w.sync_tasks
      → All (SettledAt now id) (fail_all now msg batch w).sync_tasks
  unfolding fail_all
  fail_all_keeps id msg [] w h = h
  fail_all_keeps id msg (t ∷ batch) w h =
      fail_all_keeps id msg batch _ (requeue_keeps now id msg t w h)

  -- Each task of a batch is settled by its turn, and stays so.
  pub finalize_each-IsSettled :
      (id : ℕ) (path : String) (content : Bytes) (batch : List SyncTask) (w : World)
      → has_claim batch id ≡ true
      → All (SettledAt now id) (finalize_each env now path content batch w).sync_tasks
  unfolding finalize_each exists
  finalize_each-IsSettled id path content [] w h = cc
  finalize_each-IsSettled id path content (t ∷ batch) w h = elim (Bool-cases (t.id == id)) [
    | inl e ↦ finalize_each_keeps id path content batch _ (
        subst (λ k. All (SettledAt now k) (finalize_task env now t path content w).sync_tasks)
          ((==_iff t.id id).0 e) (finalize_task-IsSettled t path content w))
    | inr e ↦ finalize_each-IsSettled id path content batch _ (ground arith)
  ]

  pub fail_all-IsSettled :
      (id : ℕ) (msg : String) (batch : List SyncTask) (w : World)
      → has_claim batch id ≡ true
      → All (SettledAt now id) (fail_all now msg batch w).sync_tasks
  unfolding fail_all exists
  fail_all-IsSettled id msg [] w h = cc
  fail_all-IsSettled id msg (t ∷ batch) w h = elim (Bool-cases (t.id == id)) [
    | inl e ↦ fail_all_keeps id msg batch _ (
        subst (λ k. All (SettledAt now k) (requeue now msg t w).sync_tasks) ((==_iff t.id id).0 e)
          (requeue-IsSettled now msg t w))
    | inr e ↦ fail_all-IsSettled id msg batch _ (ground arith)
  ]
