-- ===== src/Db/File.antt =====
-- `File` and `FileReference` of db/models.rs. A file is known by the hash of its content, which is
-- unique in the table; references link it to projects.
pub mod Unique
use simply_storage.Prelude.{
  ℕ, String, Option, none, some, Bool, true, false, ◌&&◌, not, List, [], ◌∷◌, ◌++◌, ◌==◌, str_eq,
  leb, if◌then◌else◌, select_where, update_where, delete_where, find, exists,
}
use simply_storage.Error.{
  AppError, AppResult, ok, err, ok_or, not_found, internal, database, unique_violation,
  is_unique_violation,
}
use simply_storage.Json.{Value}

pub record File : Type 0 where
  pub id : ℕ
  pub hash_sha256 : String
  pub size : ℕ
  pub content_type : String
  pub created_at : ℕ

pub record CreateFile : Type 0 where
  pub hash_sha256 : String
  pub size : ℕ
  pub content_type : String

abbrev pub new_file : ℕ → ℕ → CreateFile → File
new_file now id input = record {
  id = id;
  hash_sha256 = input.hash_sha256;
  size = input.size;
  content_type = input.content_type;
  created_at = now;
}

abbrev pub has_hash : String → File → Bool
has_hash hash f = str_eq f.hash_sha256 hash

-- The INSERT fails on the unique constraint when the hash is in the table already.
unfoldable pub create : ℕ → ℕ → CreateFile → List File → AppResult File × List File
create now id input files =
    if exists (has_hash input.hash_sha256) files
    then (err (database unique_violation), files)
    else (ok (new_file now id input), files ++ new_file now id input ∷ [])

unfoldable pub find_by_id : ℕ → List File → AppResult File
find_by_id id files = ok_or (find (λ f. f.id == id) files) (not_found "File {} not found")

unfoldable pub find_by_hash : String → List File → Option File
find_by_hash hash files = find (has_hash hash) files

-- After a failed INSERT: the row that another request has written meanwhile.
abbrev found_after_conflict : Option File → AppResult (File × Bool)
found_after_conflict none = err (internal "File disappeared after conflict")
found_after_conflict (some f) = ok (f, false)

abbrev created_or_found : AppResult File → String → List File → AppResult (File × Bool) × List File
created_or_found (ok f) hash files = (ok (f, true), files)
created_or_found (err e) hash files =
    (if is_unique_violation e then found_after_conflict (find_by_hash hash files) else err e, files)

-- `meanwhile` is what other requests do to the table between the SELECT and the INSERT.
unfoldable pub create_or_find :
    ℕ → ℕ → CreateFile → (List File → List File) → List File → AppResult (File × Bool) × List File
unfolding create find_by_hash
create_or_find now id input meanwhile files = elim (find_by_hash input.hash_sha256 files) [
  | some existing ↦ (ok (existing, false), files)
  | none ↦
      let (r, files') = create now id input (meanwhile files) in
      created_or_found r input.hash_sha256 files'
]

pub record FileReference : Type 0 where
  pub id : ℕ
  pub file_id : ℕ
  pub project_id : ℕ
  pub original_name : String
  pub metadata : Value
  pub created_at : ℕ

pub record CreateFileReference : Type 0 where
  pub file_id : ℕ
  pub project_id : ℕ
  pub original_name : String
  pub metadata : Value

abbrev pub new_reference : ℕ → ℕ → CreateFileReference → FileReference
new_reference now id input = record {
  id = id;
  file_id = input.file_id;
  project_id = input.project_id;
  original_name = input.original_name;
  metadata = input.metadata;
  created_at = now;
}

unfoldable pub create_reference :
    ℕ → ℕ → CreateFileReference → List FileReference → FileReference × List FileReference
create_reference now id input refs =
    (new_reference now id input, refs ++ new_reference now id input ∷ [])

abbrev pub refers_to : ℕ → FileReference → Bool
refers_to file_id r = r.file_id == file_id

unfoldable pub find_by_file_id : ℕ → List FileReference → List FileReference
find_by_file_id file_id = select_where (refers_to file_id)

unfoldable pub find_by_file_and_project : ℕ → ℕ → List FileReference → List FileReference
find_by_file_and_project file_id project_id =
    select_where (λ r. r.file_id == file_id && r.project_id == project_id)

abbrev of_project : ℕ → ℕ → FileReference → Bool
of_project file_id project_id r = r.file_id == file_id && r.project_id == project_id

unfoldable pub delete_by_file_and_project :
    ℕ → ℕ → List FileReference → AppResult (Unit {0}) × List FileReference
delete_by_file_and_project file_id project_id refs = (
  if exists (of_project file_id project_id) refs
      then ok tt
      else err (not_found "File reference not found for this file and project"),
  delete_where (of_project file_id project_id) refs,
)

unfoldable pub update_metadata :
    ℕ → Value → List FileReference → AppResult FileReference × List FileReference
update_metadata id metadata refs =
    let refs' = update_where (λ r. r.id == id) (λ r. record r { metadata = metadata }) refs in
    (ok_or (find (λ r. r.id == id) refs') (not_found "File reference {} not found"), refs')
