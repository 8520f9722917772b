-- ===== src/FileService/Coverage.antt =====
-- After an upload every storage of the project has the file or will get it (the scheduling in
-- `record_references_and_sync` of services/file_service.rs).
use simply_storage.Prelude.{
  ℕ, ◌+◌, ◌≡◌, refl, String, Option, none, some, Bool, true, false, ◌&&◌, ◌||◌, not, List, [], ◌∷◌,
  arith, ◌==◌, ==_refl, if◌then◌else◌, exists, exists-append, Bool-cases, inl, inr, unwrap_or,
}
use simply_storage.Json.{Value}
use simply_storage.Db.Storage.{Storage}
use simply_storage.Db.File.{File}
use simply_storage.Db.Location.{find_all_for_file}
use simply_storage.Db.SyncTask.{SyncTask, CreateSyncTask, new_task, is_pending}
use simply_storage.Db.SyncTask
use simply_storage.Backend.Registry.{contains}
use simply_storage.World.{World}
use simply_storage.FileService.{
  Scheduled, schedule, needs_task, pick_source, record_references_and_sync,
}

-- A pending task will copy the file to the storage.
abbrev pub has_task : ℕ → ℕ → List SyncTask → Bool
has_task file_id storage_id =
    exists (λ t. t.file_id == file_id && t.target_storage_id == storage_id && is_pending t.status)

abbrev pub all {ℓ} : {A : Type ℓ} → (A → Bool) → List A → Bool
all p [] = true
all p (x ∷ xs) = p x && all p xs

both_true : {a b : Bool} → a ≡ true → b ≡ true → (a && b) ≡ true
both_true h k = rw h k

or_true : (a : Bool) {b : Bool} → b ≡ true → (a || b) ≡ true
or_true true h = refl
or_true false h = h

not_or : {a : Bool} (b : Bool) → a ≡ false → (not a || b) ≡ true
not_or b h = rw h refl

module _ (now file_id source : ℕ) (project : Option ℕ) (needed : ℕ → Bool) where
  abbrev task_for : ℕ → CreateSyncTask
  task_for target = record {
    file_id = file_id;
    source_storage_id = source;
    target_storage_id = target;
    project_id = project;
  }

  -- One round of the loop.
  stepped : Storage → Scheduled → Scheduled
  unfolding SyncTask.create
  stepped x s =
      if needed x.id
      then record {
        created = s.created + 1;
        tasks = (SyncTask.create now s.next_id (task_for x.id) s.tasks).1;
        next_id = s.next_id + 1;
      }
      else s

  stepped_keeps :
      (x : Storage) (s : Scheduled) (storage_id : ℕ)
      → has_task file_id storage_id s.tasks ≡ true
      → has_task file_id storage_id (stepped x s).tasks ≡ true
  unfolding stepped
  stepped_keeps x s storage_id h = elim (Bool-cases (needed x.id)) [
    | inl e ↦ rw (e, stepped) (rw exists-append (rw h refl))
    | inr e ↦ rw (e, stepped) h
  ]

  stepped-covers :
      (x : Storage) (s : Scheduled)
      → needed x.id ≡ true
      → has_task file_id x.id (stepped x s).tasks ≡ true
  unfolding stepped new_task
  stepped-covers x s e =
      rw (e, stepped)
        (rw exists-append (unfold exists in ground (arith, ==_refl file_id, ==_refl x.id)))

  schedule_keeps :
      (storages : List Storage) (s : Scheduled) (storage_id : ℕ)
      → has_task file_id storage_id s.tasks ≡ true
      → has_task file_id storage_id (schedule now task_for needed storages s).tasks ≡ true
  unfolding schedule stepped
  schedule_keeps [] s storage_id h = h
  schedule_keeps (x ∷ storages) s storage_id h =
      schedule_keeps storages (stepped x s) storage_id (stepped_keeps x s storage_id h)

  schedule-covers :
      (storages : List Storage) (s : Scheduled)
      → let after = (schedule now task_for needed storages s).tasks in
        all (λ x. not (needed x.id) || has_task file_id x.id after) storages ≡ true
  unfolding schedule stepped
  schedule-covers [] s = refl
  schedule-covers (x ∷ storages) s =
      let rest = schedule-covers storages (stepped x s) in
      elim (Bool-cases (needed x.id)) [
        | inl e ↦
            let first = schedule_keeps storages (stepped x s) x.id (stepped-covers x s e) in
            both_true (or_true _ first) rest
        | inr e ↦ both_true (not_or _ e) rest
      ]

all-imp {ℓ} :
    {A : Type ℓ} (p q : A → Bool)
    → ((x : A) → p x ≡ true → q x ≡ true)
    → (xs : List A) → all p xs ≡ true
    → all q xs ≡ true
all-imp p q h [] e = refl
all-imp p q h (x ∷ xs) e = ground (arith, h x, all-imp p q h xs, e)

-- When an upload has recorded its reference, each storage of the project is the source of the
-- copies, or has a location of the file, or has no backend in the registry, or is the target of a
-- pending task; the source is the primary storage when the content is new.
pub record_references_and_sync-covers :
    (now project_id : ℕ) (file : File) (is_new : Bool) (primary : Storage) (original_name : String)
    (metadata : Value) (storages : List Storage) (w : World)
    → let (r, w') =
        record_references_and_sync now project_id file is_new primary original_name metadata
          storages w in
      let existing = find_all_for_file file.id w.locations in
      let source =
        if is_new
        then primary.id
        else unwrap_or (pick_source w.registry storages existing none) primary.id in
      all
        (λ x.
          x.id == source
          || exists (λ l. l.storage_id == x.id) existing
          || not (contains x.id w.registry)
          || has_task file.id x.id w'.sync_tasks)
        storages
      ≡ true
unfolding record_references_and_sync
record_references_and_sync-covers now project_id file is_new primary original_name metadata storages
      w =
    let existing = find_all_for_file file.id w.locations in
    let source =
      if is_new
      then primary.id
      else unwrap_or (pick_source w.registry storages existing none) primary.id in
    let needed = needs_task w.registry existing source in
    let tasks =
      (record_references_and_sync now project_id file is_new primary original_name metadata storages
        w).1.sync_tasks in
    all-imp (λ (x : Storage). not (needed x.id) || has_task file.id x.id tasks)
      (λ (x : Storage).
        x.id == source
        || exists (λ l. l.storage_id == x.id) existing
        || not (contains x.id w.registry)
        || has_task file.id x.id tasks)
      (λ x e. ground (arith, e)) storages
      (schedule-covers now file.id source (some project_id) needed storages
        (record { created = 0; tasks = w.sync_tasks; next_id = w.next_id + 1 }))
