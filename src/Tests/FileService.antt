-- ===== src/Tests/FileService.antt =====
-- Uploads to a project with two storages.
use simply_storage.Prelude.{
  ◌==◌, exists, not, ◌||◌, ◌≡◌, refl, some, true, List, [], ◌∷◌, find, exists, arith, Bool,
  select_where, order_by,
}
use simply_storage.Error.{ok, err, internal}
use simply_storage.Json.{null, get, insert}
use simply_storage.Db.File.{File, CreateFile, find_by_hash, create_or_find}
use simply_storage.Db.File.Unique.{IsUnique, rows, create_or_find-IsUnique}
use simply_storage.Db.Storage.{list_for_project, find_project, find_for_project_and_storage}
use simply_storage.Backend.{create_backend, required_keys, require_keys}
use simply_storage.Backend.Registry.{contains, lookup}
use simply_storage.Resolver.{
  resolve_project_backend, container_key, apply_container_to_config, container_value,
  effective_container, trim_end_slashes,
}
use simply_storage.Backend.Registry.{contains}
use simply_storage.Db.Location.{FileLocation}
use simply_storage.World.{World}
use simply_storage.FileService.{UploadResult, find_primary_storage, record_references_and_sync}
use simply_storage.Db.Location.{find_all_for_file}
use simply_storage.FileService.Coverage.{all, has_task, record_references_and_sync-covers}
use simply_storage.FileService.Dedup.{upload, retry_stores_nothing}
use simply_storage.Tests.Samples.{fresh_world, answering, failing, storage}

abbrev letter : File
letter = record {
  id = 3;
  hash_sha256 = "abcdef";
  size = 2;
  content_type = "text/plain";
  created_at = 4;
}

abbrev asked : CreateFile
asked = record { hash_sha256 = "abcdef"; size = 2; content_type = "text/plain" }

-- Another request stores the same content between the two statements.
abbrev meanwhile : List File → List File
meanwhile files = letter ∷ files

abbrev known : World
known = record fresh_world { files = letter ∷ [] }

letter-IsUnique : IsUnique (letter ∷ [])
unfolding rows
letter-IsUnique hash = ground arith

create_or_find-IsUnique_example :
    let (r, files') = create_or_find 9 8 asked meanwhile [] in
    IsUnique files'
    × ((f : File) (is_new : Bool) → r ≡ ok (f, is_new) → find_by_hash "abcdef" files' ≡ some f)
create_or_find-IsUnique_example =
    create_or_find-IsUnique 9 8 asked meanwhile [] (unfold rows in λ hash. ground arith)
      letter-IsUnique

retry_stores_nothing_example :
    let first =
      upload failing 9 (λ fs. fs) 1 "letter.txt" "text/plain" (1 ∷ 2 ∷ []) null fresh_world in
    let again =
      upload answering 10 (λ fs. fs) 1 "letter.txt" "text/plain" (1 ∷ 2 ∷ []) null first.1 in
    (first.0 ≡ err (internal "disk full"))
    × ((result : UploadResult) × (again.0 ≡ ok result) × (result.is_duplicate ≡ true))
    × (again.1.effects ≡ [])
    × (again.1.locations ≡ [])
unfolding find_by_hash find list_for_project find_primary_storage contains lookup select_where
    order_by exists find_project find_for_project_and_storage container_key resolve_project_backend
    create_backend apply_container_to_config container_value effective_container trim_end_slashes
    required_keys require_keys get insert
retry_stores_nothing_example =
    retry_stores_nothing failing answering 9 10 1 "letter.txt" "text/plain" (1 ∷ 2 ∷ []) null
      fresh_world (internal "disk full") (storage 20) (storage 20) (storage 10 ∷ []) _ refl refl
      refl refl refl refl

record_references_and_sync-covers_example :
    let (r, w') =
      record_references_and_sync 9 1 letter true
        (storage 20)
        "letter.txt"
        null
        (storage 20 ∷ storage 10 ∷ [])
        fresh_world in
    all
      (λ x.
        x.id == 20
        || exists (λ (l : FileLocation). l.storage_id == x.id) []
        || not (contains x.id fresh_world.registry)
        || has_task 3 x.id w'.sync_tasks)
      (storage 20 ∷ storage 10 ∷ [])
    ≡ true
unfolding find_all_for_file order_by select_where
record_references_and_sync-covers_example =
    record_references_and_sync-covers 9 1 letter true (storage 20) "letter.txt" null
      (storage 20 ∷ storage 10 ∷ []) fresh_world
