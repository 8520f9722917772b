-- ===== src/Tests/Tier.antt =====
-- A file with a stale copy on a hot storage and a copy on a cold one.
use simply_storage.Prelude.{
  ℕ, ◌≡◌, refl, none, some, true, false, [], ◌∷◌, arith, inl, inr, exists, find, select_where,
  order_by, insert_by, sym, ap, ◌∙◌,
}
use simply_storage.Json.{null}
use simply_storage.Db.Storage.{Project, Storage}
use simply_storage.Db.Location.{FileLocation, archived, synced, is_at}
use simply_storage.World.{World}
use simply_storage.Tier.{is_pending_archive, process_completed_archives}
use simply_storage.Tier.Archive.{In, is_readable, process_completed_archives_readable}
use simply_storage.Tier.Recall.{restore_file, find_restore, find_cold_location, find_hot_storage}
use simply_storage.Tier.Restore.{restore_file-is_pending_archive}
use simply_storage.SyncWorker.{record_copy}
use simply_storage.Db.SyncTask
use simply_storage.Db.SyncTask.{SyncTask, new_task}
use simply_storage.Db.File.{find_by_id}
use simply_storage.Tests.Samples.{fresh_world, project, storage}

abbrev copy_at : ℕ → ℕ → FileLocation
copy_at id storage_id = record {
  id = id;
  file_id = 3;
  storage_id = storage_id;
  storage_path = "p";
  status = synced;
  synced_at = some 1;
  last_accessed_at = none;
  created_at = 1;
}

abbrev cold_storage : Storage
cold_storage = record (storage 30) { is_hot = false }

abbrev archiving : Project
archiving = record (project 1 "docs") { hot_to_cold_days = some 30 }

abbrev both : World
both = record fresh_world {
  projects = archiving ∷ [];
  storages = storage 10 ∷ cold_storage ∷ [];
  references =
      record {
        id = 5;
        file_id = 3;
        project_id = 1;
        original_name = "a";
        metadata = null;
        created_at = 1;
      }
      ∷ [];
  locations = copy_at 1 10 ∷ copy_at 2 30 ∷ [];
}

locations-same :
    (x y : FileLocation) → In x both.locations → In y both.locations → x.id ≡ y.id → x ≡ y
locations-same x y (inl e) (inl f) same = e ∙ sym f
locations-same x y (inl e) (inr (inl f)) same =
    ground (arith, same, ap (λ (l : FileLocation). l.id) e, ap (λ (l : FileLocation). l.id) f)
locations-same x y (inr (inl e)) (inl f) same =
    ground (arith, same, ap (λ (l : FileLocation). l.id) e, ap (λ (l : FileLocation). l.id) f)
locations-same x y (inr (inl e)) (inr (inl f)) same = e ∙ sym f
locations-same x y (inr (inr i)) j same = elim i [ ]
locations-same x y i (inr (inr j)) same = elim j [ ]

storages-same : (s t : Storage) → In s both.storages → In t both.storages → s.id ≡ t.id → s ≡ t
storages-same s t (inl e) (inl f) same = e ∙ sym f
storages-same s t (inl e) (inr (inl f)) same =
    ground (arith, same, ap (λ (l : Storage). l.id) e, ap (λ (l : Storage). l.id) f)
storages-same s t (inr (inl e)) (inl f) same =
    ground (arith, same, ap (λ (l : Storage). l.id) e, ap (λ (l : Storage). l.id) f)
storages-same s t (inr (inl e)) (inr (inl f)) same = e ∙ sym f
storages-same s t (inr (inr i)) j same = elim i [ ]
storages-same s t i (inr (inr j)) same = elim j [ ]

process_completed_archives_readable_example :
    is_readable 3 (process_completed_archives 9000000 both).1 ≡ true
unfolding exists
process_completed_archives_readable_example =
    process_completed_archives_readable 9000000 both (locations-same, storages-same) 3 refl

-- The hot copy is archived, and the file is asked back.
abbrev asked_back : World
asked_back = record both {
  files =
      record {
        id = 3;
        hash_sha256 = "abcdef";
        size = 2;
        content_type = "text/plain";
        created_at = 1;
      }
      ∷ [];
  locations = record (copy_at 1 10) { status = archived } ∷ copy_at 2 30 ∷ [];
}

abbrev bringing_back : SyncTask
bringing_back =
    new_task 9000000 100
      (record { file_id = 3; source_storage_id = 30; target_storage_id = 10; project_id = some 1 })

restore_file-is_pending_archive_example :
    let w' = (record_copy 9000100 bringing_back "p" (restore_file 9000000 3 asked_back).1).1 in
    (l' : FileLocation) × (find (is_at 3 10) w'.locations ≡ some l')
    × (is_pending_archive 9000200 w' l' ≡ true)
unfolding restore_file find_restore find_cold_location find_hot_storage find_by_id select_where
    order_by insert_by exists find SyncTask.create new_task
restore_file-is_pending_archive_example =
    restore_file-is_pending_archive 9000000 9000100 9000200 3 "p" asked_back bringing_back
      (record (copy_at 1 10) { status = archived }) refl refl refl refl refl refl
