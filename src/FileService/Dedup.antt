-- ===== src/FileService/Dedup.antt =====
-- Deduplication in `upload_file` of services/file_service.rs: what an upload of known content does,
-- and what it does after an upload that failed half way.
use text.Mathlib.TextPositions.{eq_refl}
use simply_storage.Prelude.{
  ℕ, String, none, some, Bool, true, false, ◌≡◌, refl, List, [], ◌∷◌, ◌++◌, arith, length, find,
  exists, ◌∙◌,
}
use simply_storage.Error.{AppError, AppResult, ok, err}
use simply_storage.Json.{Value}
use simply_storage.Db.Storage.{Storage, list_for_project}
use simply_storage.Db.File.{File, CreateFile, find_by_hash, create_or_find, new_file, has_hash}
use simply_storage.Backend.{Backend}
use simply_storage.Resolver.{resolve_project_backend}
use simply_storage.World.{World, Env, Bytes}
use simply_storage.FileService.{
  UploadResult, upload_file, find_primary_storage, record_references_and_sync,
  content_addressed_path,
}

-- The result names the file and says that it was there already; the backends and the locations are
-- as they were.
pub record IsKnown (w : World) (f : File) (r : AppResult UploadResult × World) : Type 0 where
  pub result : UploadResult
  pub succeeds : r.0 ≡ ok result
  pub duplicate : result.is_duplicate ≡ true
  pub same_file : result.file ≡ f
  pub same_effects : r.1.effects ≡ w.effects
  pub same_locations : r.1.locations ≡ w.locations

module _ (env : Env) (now : ℕ) (meanwhile : List File → List File) (project_id : ℕ)
    (original_name content_type : String) (content : Bytes) (metadata : Value) where
  pub upload : World → AppResult UploadResult × World
  upload = upload_file env now meanwhile project_id original_name content_type content metadata

  -- An upload of content whose hash is in the table succeeds as a duplicate with that file, calls no
  -- backend and makes no location.
  pub upload-IsKnown :
      (w : World) (f : File) (s primary : Storage) (storages : List Storage)
      → find_by_hash (env.sha256 content) w.files ≡ some f
      → list_for_project project_id w.assignments w.storages ≡ s ∷ storages
      → find_primary_storage w.registry (s ∷ storages) ≡ ok primary
      → IsKnown w f (upload w)
  unfolding upload upload_file create_or_find record_references_and_sync
  upload-IsKnown w f s primary storages known listed found =
      rw (known, create_or_find)
        (rw listed (
          rw found (record {
            result = _;
            succeeds = refl;
            duplicate = refl;
            same_file = refl;
            same_effects = refl;
            same_locations = refl;
          })))

exists_none {ℓ} : {A : Type ℓ} (p : A → Bool) (xs : List A) → find p xs ≡ none → exists p xs ≡ false
unfolding find exists
exists_none p [] h = refl
exists_none p (x ∷ xs) h = ground (arith, exists_none p xs)

find-append {ℓ} :
    {A : Type ℓ} (p : A → Bool) (xs : List A) (a : A)
    → find p xs ≡ none
    → p a ≡ true
    → find p (xs ++ a ∷ []) ≡ some a
unfolding find
find-append p [] a h pa = rw pa refl
find-append p (x ∷ xs) a h pa = ground (arith, find-append p xs a)

-- New content gets a row of its own, when no other request interferes.
create_or_find_new :
    (now id : ℕ) (input : CreateFile) (files : List File)
    → find_by_hash input.hash_sha256 files ≡ none
    → create_or_find now id input (λ fs. fs) files
      ≡ (ok (new_file now id input, true), files ++ new_file now id input ∷ [])
unfolding create_or_find find_by_hash
create_or_find_new now id input files h =
    rw (h, create_or_find) (rw (exists_none (has_hash input.hash_sha256) files h) refl)

-- The upload failed and left the row of the file behind, with nothing stored for it.
record IsLeftBehind (w : World) (hash : String) (e : AppError) (r : AppResult UploadResult × World)
    : Type 0 where
  row : File
  fails : r.0 ≡ err e
  row_stays : find_by_hash hash r.1.files ≡ some row
  same_effects : r.1.effects ≡ w.effects
  same_locations : r.1.locations ≡ w.locations
  same_assignments : r.1.assignments ≡ w.assignments
  same_storages : r.1.storages ≡ w.storages
  same_registry : r.1.registry ≡ w.registry

module _ (env : Env) (now project_id : ℕ) (original_name content_type : String) (content : Bytes)
    (metadata : Value) where
  abbrev asked : CreateFile
  asked = record {
    hash_sha256 = env.sha256 content;
    size = length content;
    content_type = content_type;
  }

  upload_failed :
      (w : World) (e : AppError) (s primary : Storage) (storages : List Storage) (b : Backend)
      → find_by_hash (env.sha256 content) w.files ≡ none
      → list_for_project project_id w.assignments w.storages ≡ s ∷ storages
      → find_primary_storage w.registry (s ∷ storages) ≡ ok primary
      → resolve_project_backend env.short_id env.client w.projects w.assignments primary project_id
        ≡ ok b
      → env.upload b (content_addressed_path (env.sha256 content)) content ≡ err e
      → IsLeftBehind w
          (env.sha256 content)
          e
          (upload env now (λ fs. fs) project_id original_name content_type content metadata w)
  unfolding upload upload_file find_by_hash
  upload_failed w e s primary storages b new listed found resolved refused =
      rw (create_or_find_new now w.next_id asked w.files new) (
        rw listed (
          rw found (
            rw resolved (
              rw refused (record {
                row = new_file now w.next_id asked;
                fails = refl;
                row_stays =
                    find-append (has_hash (env.sha256 content)) w.files
                      (new_file now w.next_id asked) new (eq_refl (env.sha256 content));
                same_effects = refl;
                same_locations = refl;
                same_assignments = refl;
                same_storages = refl;
                same_registry = refl;
              })))))

-- When the upload of new content fails at the primary storage and the client sends it again, the
-- second upload succeeds as a duplicate whatever the storage would answer now: no backend has been
-- called and no location made, so the content that the client believes stored is nowhere.
pub retry_stores_nothing :
    (env env' : Env) (now later project_id : ℕ) (original_name content_type : String)
    (content : Bytes) (metadata : Value) (w : World) (e : AppError) (s primary : Storage)
    (storages : List Storage) (b : Backend)
    → env'.sha256 content ≡ env.sha256 content
    → find_by_hash (env.sha256 content) w.files ≡ none
    → list_for_project project_id w.assignments w.storages ≡ s ∷ storages
    → find_primary_storage w.registry (s ∷ storages) ≡ ok primary
    → resolve_project_backend env.short_id env.client w.projects w.assignments primary project_id
      ≡ ok b
    → env.upload b (content_addressed_path (env.sha256 content)) content ≡ err e
    → let first =
        upload env now (λ fs. fs) project_id original_name content_type content metadata w in
      let again =
        upload env' later
          (λ fs. fs)
          project_id
          original_name
          content_type
          content
          metadata
          first.1 in
      (first.0 ≡ err e)
      × ((result : UploadResult) × (again.0 ≡ ok result) × (result.is_duplicate ≡ true))
      × (again.1.effects ≡ w.effects)
      × (again.1.locations ≡ w.locations)
retry_stores_nothing env env' now later project_id original_name content_type content metadata w e s
      primary storages b same new listed found resolved refused =
    let h =
      upload_failed env now project_id original_name content_type content metadata w e s primary
        storages b new listed found resolved refused in
    let first =
      upload env now (λ fs. fs) project_id original_name content_type content metadata w in
    let k =
      upload-IsKnown env' later (λ fs. fs) project_id original_name content_type content metadata
        first.1 h.row s primary storages (rw same h.row_stays)
        (rw (h.same_assignments, h.same_storages) listed) (rw h.same_registry found) in
    (
      h.fails,
      (k.result, k.succeeds, k.duplicate),
      k.same_effects ∙ h.same_effects,
      k.same_locations ∙ h.same_locations,
    )
