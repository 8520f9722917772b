-- ===== src/Bulk/Again.antt =====
-- Asking twice to copy all files to a storage (services/bulk_service.rs).
use simply_storage.Prelude.{
  ℕ, ◌≡◌, refl, ap, sym, ◌∙◌, Option, none, some, Bool, true, false, List, [], ◌∷◌, arith, ==_refl,
  All, All-imp, select_where, exists, exists-append, is_some, Bool-cases, Option-cases, inl, inr,
}
use simply_storage.Error.{ok, Result-cases}
use simply_storage.Db.File.{File}
use simply_storage.Db.Location.{FileLocation}
use simply_storage.Db.SyncTask.{SyncTask, new_task}
use simply_storage.Db.SyncTask
use simply_storage.World.{World}
use simply_storage.Bulk.{
  SyncAllResult, Queued, is_task_for, needs_sync, find_source, queue, queue_each, queue_all,
  enabled_target, files_needing_sync, counted, with_queue, sync_all,
}

module _ (now target : ℕ) (source : ℕ → Option FileLocation) where
  -- Tasks that are there stay.
  queue-keeps :
      (file_id k : ℕ) (s : Option FileLocation) (q : Queued)
      → exists (is_task_for target k) q.tasks ≡ true
      → exists (is_task_for target k) (queue now target file_id s q).tasks ≡ true
  unfolding SyncTask.create
  queue-keeps file_id k none q h = h
  queue-keeps file_id k (some l) q h = rw (exists-append, h) refl

  queue_each-keeps :
      (k : ℕ) (files : List File) (q : Queued)
      → exists (is_task_for target k) q.tasks ≡ true
      → exists (is_task_for target k) (queue_each now target source files q).tasks ≡ true
  unfolding queue_each
  queue_each-keeps k [] q h = h
  queue_each-keeps k (f ∷ files) q h =
      queue_each-keeps k files (queue now target f.id (source f.id) q)
        (queue-keeps f.id k (source f.id) q h)

  queue-adds :
      (file_id : ℕ) (l : FileLocation) (q : Queued)
      → exists (is_task_for target file_id) (queue now target file_id (some l) q).tasks ≡ true
  unfolding SyncTask.create exists
  queue-adds file_id l q = rw (exists-append, ==_refl file_id, ==_refl target) (ground arith)

  -- Each file of the list with a source has a task afterwards.
  queue_each-adds :
      (files : List File) (q : Queued)
      → All
          (λ f.
            is_some (source f.id) ≡ true
            → exists (is_task_for target f.id) (queue_each now target source files q).tasks ≡ true)
          files
  unfolding queue_each
  queue_each-adds [] q = tt
  queue_each-adds (f ∷ files) q = (
    λ h. queue_each-keeps f.id files _ (made h),
    queue_each-adds files (queue now target f.id (source f.id) q),
  )
    where
      made :
          is_some (source f.id) ≡ true
          → exists (is_task_for target f.id) (queue now target f.id (source f.id) q).tasks ≡ true
      made h = elim (Option-cases (source f.id)) [
        | inl e ↦ absurd (ground (arith, e, h))
        | inr (l, e) ↦ rw e (queue-adds f.id l q)
      ]

  -- Without a source nothing is queued.
  queue_each_idle :
      (files : List File) (q : Queued)
      → All (λ f. source f.id ≡ none) files
      → queue_each now target source files q ≡ q
  unfolding queue_each
  queue_each_idle [] q h = refl
  queue_each_idle (f ∷ files) q h = rw h.0 (queue_each_idle files q h.1)

module _ {ℓ} {A : Type 0} (p : A → Bool) (P : A → Type ℓ) where
  All-unselected : (xs : List A) → All P (select_where p xs) → All (λ x. p x ≡ true → P x) xs
  unfolding select_where
  All-unselected [] h = tt
  All-unselected (x ∷ xs) h = elim (Bool-cases (p x)) [
    | inl e ↦ let (here, rest) = (rw e at h) in (λ _. here, All-unselected xs rest)
    | inr e ↦ (λ k. absurd (ground (arith, e, k)), All-unselected xs (rw e at h))
  ]

  All-reselected : (xs : List A) → All (λ x. p x ≡ true → P x) xs → All P (select_where p xs)
  unfolding select_where
  All-reselected [] h = tt
  All-reselected (x ∷ xs) h = elim (Bool-cases (p x)) [
    | inl e ↦ rw e (h.0 e, All-reselected xs h.1)
    | inr e ↦ rw e (All-reselected xs h.1)
  ]

-- What still needs a copy needed one before, and has no task.
needs_sync_before :
    (target : ℕ) (locations : List FileLocation) (tasks tasks' : List SyncTask) (f : File)
    → (exists (is_task_for target f.id) tasks ≡ true
        → exists (is_task_for target f.id) tasks' ≡ true)
    → needs_sync target locations tasks' f ≡ true
    → (needs_sync target locations tasks f ≡ true)
      × (exists (is_task_for target f.id) tasks' ≡ false)
needs_sync_before target locations tasks tasks' f keeps h = ground (arith, h, keeps)

-- After all files have been queued, those that still need a copy have no source.
queue_all_rest :
    (now target : ℕ) (w : World)
    → let source = find_source w.storages w.locations in
      All
        (λ f. source f.id ≡ none)
        (select_where (needs_sync target w.locations (queue_all now target w).tasks) w.files)
queue_all_rest now target w =
    let source = find_source w.storages w.locations in
    let before = needs_sync target w.locations w.sync_tasks in
    let q : Queued = record { created = 0; tasks = w.sync_tasks; next_id = w.next_id } in
    let queued = files_needing_sync target w in
    let after = queue_all now target w in
    All-reselected _ _ w.files (
      All-imp
        (λ f made still.
          let (needed, idle) =
            needs_sync_before target w.locations w.sync_tasks after.tasks f
              (queue_each-keeps now target source f.id queued q) still in
          elim (Option-cases (source f.id)) [
            | inl e ↦ e
            | inr (l, e) ↦ absurd (ground (arith, idle, made needed (rw e refl)))
          ])
        w.files (All-unselected before _ w.files (queue_each-adds now target source queued q)))

ok_inj {ℓ} : {A : Type ℓ} {a b : A} → ok a ≡ ok b → a ≡ b
ok_inj e = cc

sync_all_ok :
    (now target : ℕ) (w : World)
    → enabled_target target w ≡ ok tt
    → let q = queue_all now target w in
      sync_all now target w ≡ (ok (counted target q.created w), with_queue q w)
unfolding sync_all
sync_all_ok now target w e = rw (e, sync_all) refl

-- The queue of the second request is the first one's.
queue_all_idle :
    (now later target : ℕ) (w : World)
    → let q = queue_all now target w in
      queue_all later target (with_queue q w)
      ≡ record { created = 0; tasks = q.tasks; next_id = q.next_id }
queue_all_idle now later target w =
    queue_each_idle later target (find_source w.storages w.locations) _ _
      (queue_all_rest now target w)

-- When a request to copy all files to a storage has been answered and nothing else has changed, the
-- same request makes no task,
-- at any later time: what has no task then has no copy to read from.
pub sync_all_again :
    (now later target : ℕ) (w : World) (result : SyncAllResult)
    → (sync_all now target w).0 ≡ ok result
    → let (r, w') = sync_all later target (sync_all now target w).1 in
      (r ≡ ok (record result { sync_tasks_created = 0 })) × (w' ≡ (sync_all now target w).1)
sync_all_again now later target w result h = elim (Result-cases (enabled_target target w)) [
  | inl (u, e) ↦
      let q = queue_all now target w in
      let first = sync_all_ok now target w e in
      let second = sync_all_ok later target (with_queue q w) e in
      let idle = queue_all_idle now later target w in
      let same : counted target q.created w ≡ result = ok_inj (sym (ap (λ p. p.0) first) ∙ h) in
      rw (first, second, idle, ← same) (refl, refl)
  | inr (x, e) ↦ absurd (unfold sync_all in ground (arith, e, h))
]
