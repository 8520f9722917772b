-- ===== src/Tier/Restore.antt =====
-- A location that was archived and then restored (services/tier_service.rs), at the hand of the
-- worker that copies it back (workers/sync_worker.rs).
use simply_storage.Prelude.{
  ℕ, ◌≡◌, refl, String, some, Bool, true, ◌&&◌, List, [], ◌∷◌, arith, ◌==◌, exists, find, find-some,
  find-update_where, update_where, inl, inr, ◌∙◌,
}
use simply_storage.Error.{ok, Result-cases}
use simply_storage.Db.Location
use simply_storage.Db.Location.{
  FileLocation, LocationStatus, restoring, synced, is_archived, is_at, on_hot, with_status,
  update_status_by_file_and_storage,
}
use simply_storage.Db.SyncTask
use simply_storage.Db.SyncTask.{SyncTask}
use simply_storage.SyncWorker.{record_copy}
use simply_storage.World.{World}
use simply_storage.Tier.{is_archiving, is_cold_copy, is_pending_archive}
use simply_storage.Tier.Recall.{restore_file, find_restore}

exists-update_where {ℓ} :
    {A : Type ℓ} (p q : A → Bool) (f : A → A) (xs : List A)
    → ((a : A) → q a ≡ true → p a ≡ true → p (f a) ≡ true)
    → exists p xs ≡ true
    → exists p (update_where q f xs) ≡ true
unfolding exists update_where
exists-update_where p q f [] keeps h = h
exists-update_where p q f (x ∷ xs) keeps h =
    ground (arith, h, keeps x, exists-update_where p q f xs keeps)

find-exists {ℓ} :
    {A : Type ℓ} (p : A → Bool) (xs : List A) (a : A) → find p xs ≡ some a → exists p xs ≡ true
unfolding find exists
find-exists p [] a h = cc
find-exists p (x ∷ xs) a h = ground (arith, h, find-exists p xs a)

-- The columns that say whether a file is to be archived, and on what.
record SameBeside (w w' : World) : Type 0 where
  storages : w'.storages ≡ w.storages
  projects : w'.projects ≡ w.projects
  references : w'.references ≡ w.references

abbrev mark_restoring : FileLocation → FileLocation
mark_restoring l = record l { status = restoring }

abbrev is_archived_of : ℕ → FileLocation → Bool
is_archived_of file_id l = l.file_id == file_id && is_archived l.status

restore_file-ok :
    (now file_id : ℕ) (w : World) (task : SyncTask)
    → (restore_file now file_id w).0 ≡ ok task
    → let w' = (restore_file now file_id w).1 in
      (task.file_id ≡ file_id)
      × SameBeside w w'
      × (w'.locations ≡ update_where (is_archived_of file_id) mark_restoring w.locations)
unfolding restore_file SyncTask.create
restore_file-ok now file_id w task h = elim (Result-cases (find_restore file_id w)) [
  | inr (x, e) ↦ absurd (ground (arith, e, h))
  | inl (found, e) ↦ (
    ground (arith, e, h),
    rw (e, restore_file) (record { storages = refl; projects = refl; references = refl }),
    rw (e, restore_file) refl,
  )
]

record_copy-there :
    (now : ℕ) (task : SyncTask) (path : String) (w : World)
    → exists (is_at task.file_id task.target_storage_id) w.locations ≡ true
    → let w' = (record_copy now task path w).1 in
      SameBeside w w'
      × (w'.locations
          ≡ update_where
              (is_at task.file_id task.target_storage_id)
              (with_status now synced)
              w.locations)
unfolding record_copy Location.create update_status_by_file_and_storage
record_copy-there now task path w h =
    rw (h, record_copy) (record { storages = refl; projects = refl; references = refl }, refl)

-- The rows that the conditions of archiving read, when both steps have been taken.
after_copy :
    (now back file_id : ℕ) (path : String) (w : World) (task : SyncTask) (l : FileLocation)
    → (restore_file now file_id w).0 ≡ ok task
    → find (is_at file_id task.target_storage_id) w.locations ≡ some l
    → let w' = (record_copy back task path (restore_file now file_id w).1).1 in
      SameBeside w w'
      × (w'.locations
          ≡ update_where
              (is_at file_id task.target_storage_id)
              (with_status back synced)
              (update_where (is_archived_of file_id) mark_restoring w.locations))
after_copy now back file_id path w task l h found =
    let at = is_at file_id task.target_storage_id in
    let (same, beside, locations) = restore_file-ok now file_id w task h in
    let there : exists at (update_where (is_archived_of file_id) mark_restoring w.locations)
        ≡ true =
      exists-update_where at (is_archived_of file_id) mark_restoring w.locations (λ k q p. p)
        (find-exists at w.locations l found) in
    let (beside', locations') =
      record_copy-there back task path (restore_file now file_id w).1
        (rw (same, locations) there) in
    (
      record {
        storages = beside'.storages ∙ beside.storages;
        projects = beside'.projects ∙ beside.projects;
        references = beside'.references ∙ beside.references;
      },
      rw (locations', same, locations) refl,
    )

-- An archived location on a hot storage to which `restore_file` sends the copy, with its file stale
-- for a project and with a cold copy, is due for archiving again as soon as the worker has recorded
-- the copy, at every time at which it would have been due before: neither step counts as an access.
pub restore_file-is_pending_archive :
    (now back later file_id : ℕ) (path : String) (w : World) (task : SyncTask) (l : FileLocation)
    → (restore_file now file_id w).0 ≡ ok task
    → find (is_at file_id task.target_storage_id) w.locations ≡ some l
    → is_archived l.status ≡ true
    → on_hot w.storages l ≡ true
    → exists (is_cold_copy w.storages file_id) w.locations ≡ true
    → exists (is_archiving later w.projects l) w.references ≡ true
    → let w' = (record_copy back task path (restore_file now file_id w).1).1 in
      (l' : FileLocation) × (find (is_at file_id task.target_storage_id) w'.locations ≡ some l')
      × (is_pending_archive later w' l' ≡ true)
restore_file-is_pending_archive now back later file_id path w task l h found gone hot cold stale =
    let at = is_at file_id task.target_storage_id in
    let at_l = find-some at w.locations l found in
    let (beside, locations) = after_copy now back file_id path w task l h found in
    let of_file : l.file_id ≡ file_id = ground (arith, at_l) in
    let marked : find at (update_where (is_archived_of file_id) mark_restoring w.locations)
        ≡ some (mark_restoring l) =
      find-update_where at (is_archived_of file_id) mark_restoring w.locations (λ k q. refl)
      ∙ rw found (ground (arith, at_l, gone)) in
    let cold_after : exists (is_cold_copy w.storages file_id) (
          update_where at (with_status back synced)
            (update_where (is_archived_of file_id) mark_restoring w.locations))
        ≡ true =
      exists-update_where (is_cold_copy w.storages file_id) at (with_status back synced) _
        (λ k q p. ground (arith, p))
        (exists-update_where (is_cold_copy w.storages file_id) (is_archived_of file_id)
          mark_restoring w.locations (λ k q p. ground (arith, p, q)) cold) in
    (
      with_status back synced (mark_restoring l),
      rw locations (
          find-update_where at at (with_status back synced) _ (λ k q. refl)
          ∙ rw marked (ground (arith, at_l))),
      rw (beside.storages, beside.projects, beside.references, locations)
          (ground (arith, hot, stale, cold_after, of_file)),
    )
