-- ===== src/Tests/BulkDelete.antt =====
-- A project deletes all its references; another project keeps one of the two files.
use simply_storage.Prelude.{
  ℕ, ◌≡◌, refl, none, some, true, false, Bool, [], ◌∷◌, delete_where, exists,
}
use simply_storage.Json.{Value, null}
use simply_storage.Db.File.{File, FileReference, refers_to}
use simply_storage.Db.Location.{FileLocation, synced}
use simply_storage.Filter.BulkDelete.{
  BulkDeleteFilters, build_bulk_delete_clause, push_bounds, metadata_clause,
}
use simply_storage.World.{World}
use simply_storage.FileService.BulkDelete.{bulk_delete, is_selected}
use simply_storage.FileService.BulkDelete.Safety.{rows_of, bulk_delete_keeps}
use simply_storage.FileService.BulkDelete.Physical.{OnlyFromRegistry, bulk_delete-OnlyFromRegistry}
use simply_storage.Tests.Samples.{fresh_world, answering}

abbrev everything : BulkDeleteFilters
everything = record {
  metadata_filters = none;
  created_before = some 100;
  created_after = none;
  size_min = none;
  size_max = none;
  last_accessed_before = none;
}

abbrev file : ℕ → File
file id = record {
  id = id;
  hash_sha256 = "h";
  size = 5;
  content_type = "text/plain";
  created_at = 1;
}

abbrev reference : ℕ → ℕ → ℕ → FileReference
reference id file_id project_id = record {
  id = id;
  file_id = file_id;
  project_id = project_id;
  original_name = "a";
  metadata = null;
  created_at = 1;
}

abbrev copy_at : ℕ → ℕ → FileLocation
copy_at id file_id = record {
  id = id;
  file_id = file_id;
  storage_id = 10;
  storage_path = "p";
  status = synced;
  synced_at = some 1;
  last_accessed_at = none;
  created_at = 1;
}

abbrev full : World
full = record fresh_world {
  files = file 1 ∷ file 2 ∷ [];
  references = reference 1 1 1 ∷ reference 2 2 1 ∷ reference 3 2 2 ∷ [];
  locations = copy_at 1 1 ∷ copy_at 2 2 ∷ [];
}

abbrev never : Value → Value → Bool
never _ _ = false

bulk_delete_keeps_example :
    let w' = (bulk_delete answering never 1 everything full).1 in
    (w'.references ≡ delete_where (is_selected never 1 everything full) full.references)
    × ((file_id : ℕ)
        → exists (refers_to file_id) w'.references ≡ true
        → rows_of file_id w' ≡ rows_of file_id full)
unfolding build_bulk_delete_clause metadata_clause push_bounds
bulk_delete_keeps_example = bulk_delete_keeps answering never 1 everything full _ refl

bulk_delete-OnlyFromRegistry_example :
    OnlyFromRegistry full (bulk_delete answering never 1 everything full).1
bulk_delete-OnlyFromRegistry_example =
    bulk_delete-OnlyFromRegistry answering never 1 everything full
