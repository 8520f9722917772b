-- ===== src/Db/SyncTask/Attempts.antt =====
-- The attempts that a task of the queue (db/models.rs) has left.
pub mod History
use simply_storage.Prelude.{
  ℕ, suc, zero, ◌+◌, ◌-◌, ◌≤◌, ◌<◌, ◌≡◌, ◌≢◌, refl, String, Option, none, some, Bool, true, false,
  ◌&&◌, not, List, [], ◌∷◌, ◌++◌, arith, ◌==◌, ltb, leb, if◌then◌else◌, All, take, select_where,
  update_where, order_by, count_where, count-order_by, count-select_where, count-take, count-le,
  ◌∙◌, Bool-cases, inl, inr, ==_refl,
}
use simply_storage.Db.SyncTask.{
  SyncTask, TaskStatus, pending, in_progress, completed, failed, is_pending, is_in_progress,
  is_failed, has_id, older, with_status, requeued, is_stuck, reclaimed, is_exhausted, given_up,
  is_due, sweep, due_tasks, started, claim_each, claim_pending, update_status, requeue_for_retry,
  superseded, is_stale_failure, supersede_failed_for,
}

module _ (max_retries id : ℕ) where
  -- The attempts that a row has left: the one under way counts no more.
  abbrev pub left : SyncTask → ℕ
  left t = max_retries - (if is_pending t.status then t.retries else t.retries + 1)

  -- Those of the rows with the id.
  unfoldable pub attempts : List SyncTask → ℕ
  attempts [] = 0
  attempts (t ∷ tasks) = (if has_id id t then left t else 0) + attempts tasks

  -- A change of rows that gives no attempt back.
  attempts-update :
      (p : SyncTask → Bool) (f : SyncTask → SyncTask) (tasks : List SyncTask)
      → ((t : SyncTask) → p t ≡ true → ((f t).id ≡ t.id) × (left (f t) ≤ left t))
      → attempts (update_where p f tasks) ≤ attempts tasks
  unfolding attempts update_where
  attempts-update p f [] h = omega arith
  attempts-update p f (t ∷ tasks) h = ground (arith, h t, attempts-update p f tasks h)

  count-update :
      (p : SyncTask → Bool) (f : SyncTask → SyncTask) (tasks : List SyncTask)
      → ((t : SyncTask) → (f t).id ≡ t.id)
      → count_where (has_id id) (update_where p f tasks) ≡ count_where (has_id id) tasks
  unfolding count_where update_where
  count-update p f [] h = refl
  count-update p f (t ∷ tasks) h = ground (arith, h t, count-update p f tasks h)

  stuck-left : (now : ℕ) (t : SyncTask) → is_stuck now t ≡ true → left (reclaimed now t) ≤ left t
  stuck-left now t h = ground (arith, h)

  exhausted-left :
      (now : ℕ) (t : SyncTask) → is_exhausted max_retries t ≡ true → left (given_up now t) ≤ left t
  exhausted-left now t h = ground (arith, h)

  sweep-attempts :
      (now : ℕ) (tasks : List SyncTask) → attempts (sweep now max_retries tasks) ≤ attempts tasks
  unfolding sweep
  sweep-attempts now tasks = omega (
    arith,
    attempts-update (is_exhausted max_retries) (given_up now)
        (update_where (is_stuck now) (reclaimed now) tasks) (λ t h. (refl, exhausted-left now t h)),
    attempts-update (is_stuck now) (reclaimed now) tasks (λ t h. (refl, stuck-left now t h)),
  )

  count-sweep :
      (now : ℕ) (tasks : List SyncTask)
      → count_where (has_id id) (sweep now max_retries tasks) ≡ count_where (has_id id) tasks
  unfolding sweep
  count-sweep now tasks = omega (
    arith,
    count-update (is_exhausted max_retries) (given_up now)
        (update_where (is_stuck now) (reclaimed now) tasks) (λ t. refl),
    count-update (is_stuck now) (reclaimed now) tasks (λ t. refl),
  )

  -- The rows with the id that may be tried.
  abbrev is_ready : SyncTask → Bool
  is_ready t = has_id id t && is_pending t.status && ltb t.retries max_retries

  -- Marking them takes an attempt from each.
  attempts-started :
      (now : ℕ) (tasks : List SyncTask)
      → attempts (update_where (has_id id) (started now) tasks) + count_where is_ready tasks
        ≤ attempts tasks
  unfolding attempts update_where count_where
  attempts-started now [] = omega arith
  attempts-started now (t ∷ tasks) = ground (arith, attempts-started now tasks)

  attempts-started_other :
      (now k : ℕ) (tasks : List SyncTask)
      → (k == id) ≡ false
      → (attempts (update_where (has_id k) (started now) tasks) ≡ attempts tasks)
        × (count_where is_ready (update_where (has_id k) (started now) tasks)
            ≡ count_where is_ready tasks)
  unfolding attempts update_where count_where
  attempts-started_other now k [] h = (refl, refl)
  attempts-started_other now k (t ∷ tasks) h = ground (arith, h, attempts-started_other now k tasks)

  -- Claiming the tasks that were read.
  claim_each-attempts :
      (now : ℕ) (locked : ℕ → Bool) (read tasks : List SyncTask)
      → count_where (has_id id) read ≤ count_where is_ready tasks
      → count_where (has_id id) read ≤ 1
      → count_where (has_id id) (claim_each now locked read tasks).0
          + attempts (claim_each now locked read tasks).1
        ≤ attempts tasks
  unfolding claim_each count_where
  claim_each-attempts now locked [] tasks ready once = omega arith
  claim_each-attempts now locked (t ∷ read) tasks ready once = elim (Bool-cases (locked t.id)) [
    | inl e ↦ elim (Bool-cases (has_id id t)) [
      | inl k ↦
          let here : t.id ≡ id = ground (arith, k) in
          let marked = update_where (has_id t.id) (started now) tasks in
          let none_left : count_where (has_id id) read ≡ 0 = ground (arith, once, k) in
          let spent : attempts marked + count_where is_ready tasks ≤ attempts tasks =
            rw here (attempts-started now tasks) in
          let rest =
            claim_each-attempts now locked read marked (omega (arith, none_left))
              (omega (arith, none_left)) in
          let one : 1 ≤ count_where is_ready tasks = ground (arith, ready, k) in
          rw (e, k) (omega (arith, rest, spent, one))
      | inr k ↦
          let marked = update_where (has_id t.id) (started now) tasks in
          let (same, as_ready) = attempts-started_other now t.id tasks k in
          let rest =
            claim_each-attempts now locked read marked (omega (arith, as_ready, ready))
              (omega (arith, once)) in
          rw (e, k) (omega (arith, rest, same))
    ]
    | inr e ↦
        rw e
          (claim_each-attempts now locked read tasks (omega (arith, ready)) (omega (arith, once)))
  ]

  count-due :
      (now limit : ℕ) (tasks : List SyncTask)
      → (count_where (has_id id) (due_tasks now limit max_retries tasks)
          ≤ count_where is_ready tasks)
        × (count_where (has_id id) (due_tasks now limit max_retries tasks)
            ≤ count_where (has_id id) tasks)
  unfolding due_tasks
  count-due now limit tasks =
      let due = select_where (is_due now max_retries) tasks in
      let fewer = count-take (has_id id) limit (order_by older due) in
      let sorted = count-order_by (has_id id) older due in
      let selected = count-select_where (has_id id) (is_due now max_retries) tasks in
      let ready =
        count-le (λ t. is_due now max_retries t && has_id id t) is_ready (λ t h. ground (arith, h))
          tasks in
      let all =
        count-le (λ t. is_due now max_retries t && has_id id t) (has_id id)
          (λ t h. ground (arith, h)) tasks in
      (omega (arith, fewer, sorted, selected, ready), omega (arith, fewer, sorted, selected, all))

  count-claim_each :
      (now : ℕ) (locked : ℕ → Bool) (read tasks : List SyncTask)
      → count_where (has_id id) (claim_each now locked read tasks).1 ≡ count_where (has_id id) tasks
  unfolding claim_each
  count-claim_each now locked [] tasks = refl
  count-claim_each now locked (t ∷ read) tasks = elim (Bool-cases (locked t.id)) [
    | inl e ↦ rw e (
        count-claim_each now locked read (update_where (has_id t.id) (started now) tasks)
        ∙ count-update (has_id t.id) (started now) tasks (λ k. refl))
    | inr e ↦ rw e (count-claim_each now locked read tasks)
  ]

  pub claim_pending-attempts :
      (now : ℕ) (locked : ℕ → Bool) (limit : ℕ) (tasks : List SyncTask)
      → count_where (has_id id) tasks ≤ 1
      → (count_where (has_id id) (claim_pending now locked limit max_retries tasks).0
            + attempts (claim_pending now locked limit max_retries tasks).1
          ≤ attempts tasks)
        × (count_where (has_id id) (claim_pending now locked limit max_retries tasks).1
            ≡ count_where (has_id id) tasks)
  unfolding claim_pending
  claim_pending-attempts now locked limit tasks once =
      let swept = sweep now max_retries tasks in
      let same = count-sweep now tasks in
      let (ready, few) = count-due now limit swept in
      let claim =
        claim_each-attempts now locked (due_tasks now limit max_retries swept) swept ready
          (omega (arith, few, same, once)) in
      let kept = count-claim_each now locked (due_tasks now limit max_retries swept) swept in
      (omega (arith, claim, sweep-attempts now tasks), omega (arith, kept, same))

  -- One statement on rows that gives no attempt back and claims nothing.
  pub update-step :
      (p : SyncTask → Bool) (f : SyncTask → SyncTask) (tasks : List SyncTask)
      → ((t : SyncTask) → (f t).id ≡ t.id)
      → ((t : SyncTask) → left (f t) ≤ left t)
      → (0 + attempts (update_where p f tasks) ≤ attempts tasks)
        × (count_where (has_id id) (update_where p f tasks) ≡ count_where (has_id id) tasks)
  update-step p f tasks same less = (
    omega (arith, attempts-update p f tasks (λ t h. (same t, less t))),
    count-update p f tasks same,
  )

  attempts_none : (tasks : List SyncTask) → count_where (has_id id) tasks ≡ 0 → attempts tasks ≡ 0
  unfolding attempts count_where
  attempts_none [] h = refl
  attempts_none (t ∷ tasks) h = ground (arith, h, attempts_none tasks)

  pub attempts-le :
      (tasks : List SyncTask) → count_where (has_id id) tasks ≤ 1 → attempts tasks ≤ max_retries
  unfolding attempts count_where
  attempts-le [] h = omega arith
  attempts-le (t ∷ tasks) h = ground (arith, h, attempts-le tasks, attempts_none tasks)
