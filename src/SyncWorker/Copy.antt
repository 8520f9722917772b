-- ===== src/SyncWorker/Copy.antt =====
-- What one copy of workers/sync_worker.rs does to the locations, the backends and the queue.
use simply_storage.Prelude.{
  subst, ℕ, ◌≡◌, refl, String, none, some, Bool, true, false, ◌&&◌, List, [], ◌∷◌, arith, ◌==◌,
  ==_refl, exists, exists-append, update_where, find, Bool-cases, inl, inr, Option-cases,
}
use simply_storage.Error.{AppError, AppResult, ok, err}
use simply_storage.Db.Storage.{Storage, find_storage}
use simply_storage.Db.Location.{
  FileLocation, synced, is_synced, is_at, create, with_status, update_status_by_file_and_storage,
  find_all_for_file,
}
use simply_storage.Db.Location.Unique.{IsUnique, copies-update_where, create-IsUnique}
use simply_storage.Db.SyncTask.{SyncTask, is_stale_failure, supersede_failed_for}
use simply_storage.Backend.{Backend}
use simply_storage.Resolver.{resolve_project_backend}
use simply_storage.World.{World, Env, Bytes, stored}
use simply_storage.SyncWorker.{
  copy_of, record_copy, push_copy, finalize_task, resolve_backend, download_source, fail_all,
  process_batch, requeue,
}

-- The file has a synced copy on the storage.
abbrev pub has_copy : ℕ → ℕ → List FileLocation → Bool
has_copy file_id storage_id = exists (λ l. is_at file_id storage_id l && is_synced l.status)

has_copy-update :
    (now file_id storage_id : ℕ) (ls : List FileLocation)
    → exists (is_at file_id storage_id) ls ≡ true
    → has_copy file_id storage_id
        (update_where (is_at file_id storage_id) (with_status now synced) ls)
      ≡ true
unfolding exists update_where
has_copy-update now file_id storage_id [] h = h
has_copy-update now file_id storage_id (l ∷ ls) h =
    ground (arith, has_copy-update now file_id storage_id ls)

find-update :
    (now file_id storage_id : ℕ) (ls : List FileLocation)
    → exists (is_at file_id storage_id) ls ≡ true
    → (l : FileLocation) × (find
          (is_at file_id storage_id)
          (update_where (is_at file_id storage_id) (with_status now synced) ls)
        ≡ some l)
unfolding exists update_where find
find-update now file_id storage_id [] h = cc
find-update now file_id storage_id (l ∷ ls) h = elim (Bool-cases (is_at file_id storage_id l)) [
  | inl e ↦ (with_status now synced l, ground arith)
  | inr e ↦
      let (k, found) = find-update now file_id storage_id ls (ground arith) in
      (k, ground (arith, found))
]

-- No row is left that `supersede_failed_for` would change.
no_stale_failure :
    (now file_id target winner : ℕ) (rows : List SyncTask)
    → exists
        (is_stale_failure file_id target winner)
        (supersede_failed_for now file_id target winner rows)
      ≡ false
unfolding supersede_failed_for exists update_where
no_stale_failure now file_id target winner [] = refl
no_stale_failure now file_id target winner (r ∷ rows) =
    ground (arith, no_stale_failure now file_id target winner rows)

-- The table of locations after `record_copy`, which does not fail.
record Copied (now : ℕ) (t : SyncTask) (path : String) (w : World)
    (r : AppResult (Unit {0}) × World) : Type 0 where
  succeeds : r.0 ≡ ok tt
  there : has_copy t.file_id t.target_storage_id r.1.locations ≡ true
  unique : IsUnique w.locations → IsUnique r.1.locations
  same_effects : r.1.effects ≡ w.effects

record_copy-Copied :
    (now : ℕ) (t : SyncTask) (path : String) (w : World)
    → Copied now t path w (record_copy now t path w)
unfolding record_copy update_status_by_file_and_storage create
record_copy-Copied now t path w =
    let at = is_at t.file_id t.target_storage_id in
    elim (Bool-cases (exists at w.locations)) [
      | inl e ↦
          let (l, found) = find-update now t.file_id t.target_storage_id w.locations e in
          rw (e, record_copy, create)
            (record {
              succeeds = rw found refl;
              there = has_copy-update now t.file_id t.target_storage_id w.locations e;
              unique = λ h f s.
                  rw
                    (copies-update_where f s at (with_status now synced) (λ l. (refl, refl))
                      w.locations)
                    (h f s);
              same_effects = refl;
            })
      | inr e ↦
          rw (e, record_copy, create)
            (record {
              succeeds = refl;
              there =
                  rw (e, create)
                    (rw exists-append (
                      unfold exists in
                      ground (arith, ==_refl t.file_id, ==_refl t.target_storage_id)));
              unique = λ h.
                  subst IsUnique (rw (e, create) refl)
                    (create-IsUnique now w.next_id (copy_of now t path) w.locations h);
              same_effects = refl;
            })
    ]

module _ (env : Env) (now : ℕ) (t : SyncTask) (w : World) where
  -- When the target's backend takes the file, the task ends with exactly one location of the file
  -- on the target, which is synced, and with no failed task for that copy but itself; the only call
  -- to a backend is that upload.
  pub finalize_task-copies :
      (path : String) (content : Bytes) (b : Backend)
      → resolve_backend env now t.target_storage_id t.project_id w ≡ ok b
      → env.upload b path content ≡ ok tt
      → IsUnique w.locations
      → let w' = finalize_task env now t path content w in
        (has_copy t.file_id t.target_storage_id w'.locations ≡ true)
        × IsUnique w'.locations
        × (exists (is_stale_failure t.file_id t.target_storage_id t.id) w'.sync_tasks ≡ false)
        × (w'.effects ≡ stored b path content ∷ w.effects)
  unfolding finalize_task push_copy
  finalize_task-copies path content b resolved taken unique =
      let sent = record w { effects = stored b path content ∷ w.effects } in
      let c = record_copy-Copied now t path sent in
      rw resolved (
        rw taken (
          rw c.succeeds (
            c.there,
            c.unique unique,
            no_stale_failure now t.file_id t.target_storage_id t.id _,
            c.same_effects,
          )))

  fail_all_only_queue :
      (msg : String) (batch : List SyncTask) (w : World)
      → ((fail_all now msg batch w).effects ≡ w.effects)
        × ((fail_all now msg batch w).locations ≡ w.locations)
  unfolding fail_all
  fail_all_only_queue msg [] w = (refl, refl)
  fail_all_only_queue msg (t ∷ batch) w =
      let (e, l) = fail_all_only_queue msg batch (requeue now msg t w) in (e, l)

  -- The source of a batch is read from the container of the project that its tasks name. When that
  -- container has nothing, no copy is made, whichever other containers of the same storage hold the
  -- file.
  pub process_batch_own_container :
      (p : ℕ) (s : Storage) (b : Backend) (e : AppError) (batch : List SyncTask)
      → t.project_id ≡ some p
      → find_storage t.source_storage_id w.storages ≡ ok s
      → resolve_project_backend env.short_id env.client w.projects w.assignments s p ≡ ok b
      → ((path : String) → env.download b path ≡ err e)
      → let w' = process_batch env now none (t ∷ batch) w in
        (w'.effects ≡ w.effects) × (w'.locations ≡ w.locations)
  unfolding process_batch download_source resolve_backend
  process_batch_own_container p s b e batch of_p found resolved empty =
      elim (Option-cases (
        find (λ l. l.storage_id == t.source_storage_id)
          (find_all_for_file t.file_id w.locations))) [
            | inl absent ↦
                rw (of_p, resolve_backend)
                  (rw (found, resolved) (rw absent (fail_all_only_queue _ (t ∷ batch) w)))
            | inr (l, there) ↦
                rw (of_p, resolve_backend)
                  (rw (found, resolved) (rw there (rw empty (fail_all_only_queue _ (t ∷ batch) w))))
          ]
