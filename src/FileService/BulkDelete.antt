-- ===== src/FileService/BulkDelete.antt =====
-- `bulk_delete` of services/file_service.rs with the statements of db/models.rs that it uses. The
-- transaction takes effect as a whole. What the WHERE clause selects is `selects`, which
-- Filter/BulkDelete shows for the clause and its arguments.
pub mod Safety
pub mod Physical
use simply_storage.Prelude.{
  ℕ, ◌+◌, Option, none, some, Bool, true, false, ◌&&◌, ◌||◌, not, List, [], ◌∷◌, ◌++◌, map, ◌==◌,
  if◌then◌else◌, length, select_where, delete_where, find, exists,
}
use simply_storage.Error.{AppResult, ok, err}
use simply_storage.Error.Action.{Action}
use simply_storage.Json.{Value}
use simply_storage.Db.File.{File, FileReference, refers_to}
use simply_storage.Db.Location.{FileLocation, find_all_for_file}
use simply_storage.Backend.{Backend}
use simply_storage.Backend.Registry
use simply_storage.Filter.BulkDelete.{BulkDeleteFilters, build_bulk_delete_clause}
use simply_storage.Filter.BulkDelete.Meaning.{Row, selects}
use simply_storage.World.{World, Env, removed}

pub record BulkDeletePreview : Type 0 where
  pub matching_references : ℕ
  pub total_size : ℕ

pub record BulkDeleteResult : Type 0 where
  pub deleted_references : ℕ
  pub orphaned_files_cleaned : ℕ
  pub freed_bytes : ℕ

abbrev pub size_or_zero : Option File → ℕ
size_or_zero none = 0
size_or_zero (some f) = f.size

abbrev pub size_of : ℕ → World → ℕ
size_of file_id w = size_or_zero (find (λ f. f.id == file_id) w.files)

abbrev pub row_of : World → FileReference → Row
row_of w r = record {
  metadata = r.metadata;
  created_at = r.created_at;
  size = size_of r.file_id w;
  accesses = map (λ l. l.last_accessed_at) (select_where (λ l. l.file_id == r.file_id) w.locations);
}

-- `includes` is the operator `@>` on JSON.
module _ (includes : Value → Value → Bool) (project_id : ℕ) (filters : BulkDeleteFilters) where
  abbrev pub is_selected : World → FileReference → Bool
  is_selected w r = r.project_id == project_id && selects includes filters (row_of w r)

  abbrev pub sum_sizes : List FileReference → World → ℕ
  sum_sizes [] w = 0
  sum_sizes (r ∷ refs) w = size_of r.file_id w + sum_sizes refs w

  unfoldable pub preview_bulk_delete : World → AppResult BulkDeletePreview
  preview_bulk_delete w = elim (build_bulk_delete_clause filters 2) [
    | err e ↦ err e
    | ok _ ↦
        let rows = select_where (is_selected w) w.references in
        ok (record { matching_references = length rows; total_size = sum_sizes rows w })
  ]

  -- The files of the deleted references, and the table without them.
  unfoldable pub execute_bulk_delete : World → List ℕ × List FileReference
  execute_bulk_delete w = (
    map (λ r. r.file_id) (select_where (is_selected w) w.references),
    delete_where (is_selected w) w.references,
  )

-- `filter(|id| set.insert(*id))`: the first of equal ids stays.
unfoldable pub unique_ids : List ℕ → List ℕ → List ℕ
unique_ids seen [] = []
unique_ids seen (id ∷ ids) =
    let known = exists (λ k. k == id) seen in
    let rest = unique_ids (if known then seen else id ∷ seen) ids in
    if known then rest else id ∷ rest

abbrev pub is_orphaned : List ℕ → List FileReference → File → Bool
is_orphaned file_ids refs f =
    exists (λ id. id == f.id) file_ids && not (exists (refers_to f.id) refs)

unfoldable pub find_orphaned_from_ids : List ℕ → List FileReference → List File → List ℕ
find_orphaned_from_ids file_ids refs files =
    map (λ f. f.id) (select_where (is_orphaned file_ids refs) files)

pub record OrphanInfo : Type 0 where
  pub file_id : ℕ
  pub size : ℕ
  pub locations : List FileLocation

unfoldable pub orphan_infos : World → List ℕ → List OrphanInfo
orphan_infos w = map (λ id. record {
  file_id = id;
  size = size_of id w;
  locations = find_all_for_file id w.locations;
})

unfoldable pub delete_orphans : List OrphanInfo → World → World
delete_orphans [] w = w
delete_orphans (info ∷ infos) w = delete_orphans infos (record w {
  locations = delete_where (λ l. l.file_id == info.file_id) w.locations;
  files = delete_where (λ f. f.id == info.file_id) w.files;
})

unfoldable pub freed_bytes : List OrphanInfo → ℕ
freed_bytes [] = 0
freed_bytes (info ∷ infos) = info.size + freed_bytes infos

module _ (env : Env) where
  abbrev pub delete_at : AppResult Backend → FileLocation → World → World
  delete_at (err _) l w = w
  delete_at (ok backend) l w = elim (env.delete backend l.storage_path) [
    | err _ ↦ w
    | ok _ ↦ record w { effects = removed backend l.storage_path ∷ w.effects }
  ]

  unfoldable pub delete_copies : List FileLocation → World → World
  delete_copies [] w = w
  delete_copies (l ∷ ls) w = delete_copies ls (delete_at (Registry.get l.storage_id w.registry) l w)

  unfoldable pub delete_physical : List OrphanInfo → World → World
  unfolding delete_copies
  delete_physical [] w = w
  delete_physical (info ∷ infos) w = delete_physical infos (delete_copies info.locations w)

  -- The rest after the references are deleted.
  unfoldable pub clean_up : List ℕ → World → BulkDeleteResult × World
  unfolding unique_ids find_orphaned_from_ids orphan_infos delete_orphans delete_physical
      freed_bytes
  clean_up file_ids w =
      let orphaned = find_orphaned_from_ids (unique_ids [] file_ids) w.references w.files in
      let infos = orphan_infos w orphaned in
      (
        record {
          deleted_references = length file_ids;
          orphaned_files_cleaned = length orphaned;
          freed_bytes = freed_bytes infos;
        },
        delete_physical infos (delete_orphans infos w),
      )

  unfoldable pub bulk_delete :
      (Value → Value → Bool) → ℕ → BulkDeleteFilters → Action World BulkDeleteResult
  unfolding execute_bulk_delete clean_up
  bulk_delete includes project_id filters w = elim (build_bulk_delete_clause filters 2) [
    | err e ↦ (err e, w)
    | ok _ ↦
        let (file_ids, refs) = execute_bulk_delete includes project_id filters w in
        elim (length file_ids == 0) [
          | true ↦ (
            ok (record { deleted_references = 0; orphaned_files_cleaned = 0; freed_bytes = 0 }),
            w,
          )
          | false ↦
              let (result, w') = clean_up file_ids (record w { references = refs }) in
              (ok result, w')
        ]
  ]
