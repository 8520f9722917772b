-- ===== src/Tier.antt =====
-- services/tier_service.rs and workers/tier_worker.rs: files that are not read move from hot to cold
-- storages, and come back on demand. Times are seconds; a day has 86400 of them.
pub mod Archive
pub mod Recall
pub mod Restore
use simply_storage.Prelude.{
  ℕ, ◌+◌, ◌*◌, String, Option, none, some, Bool, true, false, ◌&&◌, ◌||◌, not, List, [], ◌∷◌, ◌++◌,
  map, ◌==◌, ltb, leb, if◌then◌else◌, length, take, select_where, update_where, order_by, find,
  exists, is_some,
}
use simply_storage.Error.{AppResult, ok, err, ok_or, not_found, ◌>>=◌, ◌>>◌}
use simply_storage.Error.Action.{Action}
use simply_storage.Db.Storage.{Project, Storage}
use simply_storage.Db.File.{File, FileReference, find_by_id}
use simply_storage.Db.Location.{
  FileLocation, LocationStatus, archived, restoring, is_synced, is_archived, on_hot, with_status,
}
use simply_storage.Db.Location
use simply_storage.Db.SyncTask.{SyncTask, TaskStatus, is_pending, is_in_progress}
use simply_storage.Db.SyncTask
use simply_storage.Backend.Registry.{contains}
use simply_storage.World.{World}

abbrev pub is_before : ℕ → ℕ → Option ℕ → Bool
is_before days now none = true
is_before days now (some at) = ltb (at + days * 86400) now

-- Some project with the file archives after a number of days that are over.
abbrev pub is_stale_for : ℕ → Option ℕ → Option ℕ → Bool
is_stale_for now accessed none = false
is_stale_for now accessed (some days) = is_before days now accessed

abbrev pub is_archiving : ℕ → List Project → FileLocation → FileReference → Bool
is_archiving now projects l r =
    r.file_id == l.file_id
    && exists (λ p. p.id == r.project_id && is_stale_for now l.last_accessed_at p.hot_to_cold_days)
        projects

abbrev pub on_cold : List Storage → FileLocation → Bool
on_cold storages l = exists (λ s. s.id == l.storage_id && not s.is_hot && s.enabled) storages

abbrev pub on_enabled_hot : List Storage → FileLocation → Bool
on_enabled_hot storages l = exists (λ s. s.id == l.storage_id && s.is_hot && s.enabled) storages

-- The file has a synced copy on an enabled cold storage.
abbrev pub is_cold_copy : List Storage → ℕ → FileLocation → Bool
is_cold_copy storages file_id l = l.file_id == file_id && is_synced l.status && on_cold storages l

abbrev pub is_active : ℕ → SyncTask → Bool
is_active file_id t = t.file_id == file_id && (is_pending t.status || is_in_progress t.status)

pub record ArchivableFile : Type 0 where
  pub file_id : ℕ
  pub hot_storage_id : ℕ
  pub project_id : ℕ

-- The rows of the query before DISTINCT.
abbrev pub is_archivable : ℕ → World → FileLocation → Bool
is_archivable now w l =
    is_synced l.status
    && on_enabled_hot w.storages l
    && exists (is_archiving now w.projects l) w.references
    && not (exists (is_cold_copy w.storages l.file_id) w.locations)
    && not (exists (is_active l.file_id) w.sync_tasks)

abbrev nulls_first : Option ℕ → Option ℕ → Bool
nulls_first none _ = true
nulls_first (some _) none = false
nulls_first (some a) (some b) = leb a b

-- `ORDER BY fl.file_id, fl.last_accessed_at ASC NULLS FIRST`
abbrev by_file : FileLocation → FileLocation → Bool
by_file k l =
    ltb k.file_id l.file_id
    || (k.file_id == l.file_id && nulls_first k.last_accessed_at l.last_accessed_at)

-- `DISTINCT ON (fl.file_id)`: the first row of each file.
unfoldable pub distinct_files : List ℕ → List FileLocation → List FileLocation
distinct_files seen [] = []
distinct_files seen (l ∷ ls) =
    let known = exists (λ id. id == l.file_id) seen in
    let rest = distinct_files (if known then seen else l.file_id ∷ seen) ls in
    if known then rest else l ∷ rest

abbrev project_of_ref : Option FileReference → ℕ
project_of_ref none = 0
project_of_ref (some r) = r.project_id

-- The joined reference is the first one that meets the condition.
unfoldable pub find_archivable_files : ℕ → ℕ → World → List ArchivableFile
unfolding distinct_files
find_archivable_files now limit w =
    map
      (λ (l : FileLocation). record {
        file_id = l.file_id;
        hot_storage_id = l.storage_id;
        project_id = project_of_ref (find (is_archiving now w.projects l) w.references);
      })
      (take limit
        (distinct_files [] (order_by by_file (select_where (is_archivable now w) w.locations))))

abbrev is_shared_or_of : List FileReference → ℕ → Storage → Bool
is_shared_or_of refs file_id s = elim s.project_id [
  | none ↦ true
  | some project_id ↦ exists (λ r. r.file_id == file_id && r.project_id == project_id) refs
]

abbrev pub first : List Storage → Option Storage
first [] = none
first (s ∷ _) = some s

unfoldable pub find_cold_storage : ℕ → World → Option Storage
find_cold_storage file_id w = first (
    order_by (λ s t. leb s.created_at t.created_at)
      (select_where (λ s. not s.is_hot && s.enabled && is_shared_or_of w.references file_id s)
        w.storages))

abbrev pub add_task : ℕ → ArchivableFile → Option Storage → ℕ × World → ℕ × World
add_task now file none (created, w) = (created, w)
add_task now file (some cold) (created, w) =
    if contains cold.id w.registry
    then (
      created + 1,
      record w {
        sync_tasks =
            (SyncTask.create now w.next_id
              (record {
                file_id = file.file_id;
                source_storage_id = file.hot_storage_id;
                target_storage_id = cold.id;
                project_id = some file.project_id;
              })
              w.sync_tasks).1;
        next_id = w.next_id + 1;
      },
    )
    else (created, w)

unfoldable pub add_tasks : ℕ → List ArchivableFile → ℕ × World → ℕ × World
unfolding find_cold_storage
add_tasks now [] st = st
add_tasks now (file ∷ files) st =
    add_tasks now files (add_task now file (find_cold_storage file.file_id st.1) st)

-- How many tasks were made.
unfoldable pub create_archive_tasks : ℕ → World → ℕ × World
unfolding find_archivable_files add_tasks
create_archive_tasks now w = add_tasks now (find_archivable_files now 100 w) (0, w)

-- A hot location whose file has a cold copy and is stale for some project.
abbrev pub is_pending_archive : ℕ → World → FileLocation → Bool
is_pending_archive now w l =
    is_synced l.status
    && on_hot w.storages l
    && exists (is_cold_copy w.storages l.file_id) w.locations
    && exists (is_archiving now w.projects l) w.references

unfoldable pub archive_each : ℕ → List FileLocation → List FileLocation → List FileLocation
archive_each now [] locations = locations
archive_each now (l ∷ pending) locations =
    archive_each now pending (Location.update_status now l.id archived locations).1

-- How many locations were archived.
unfoldable pub process_completed_archives : ℕ → World → ℕ × World
unfolding archive_each
process_completed_archives now w =
    let pending = take 100 (select_where (is_pending_archive now w) w.locations) in
    (length pending, record w { locations = archive_each now pending w.locations })

-- A round of the tier worker.
unfoldable pub scan_and_archive : ℕ → World → World
unfolding create_archive_tasks process_completed_archives
scan_and_archive now w = (process_completed_archives now (create_archive_tasks now w).1).1
