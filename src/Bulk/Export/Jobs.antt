-- ===== src/Bulk/Export/Jobs.antt =====
-- The course of an export (services/bulk_service.rs).
use simply_storage.Prelude.{
  ℕ, ◌+◌, ◌<◌, ◌≡◌, refl, ◌∙◌, String, some, List, [], ◌∷◌, ◌++◌, arith, ==_refl, All, length,
  update_where, find,
}
use simply_storage.Error.{AppError, AppResult, ok, err}
use simply_storage.Db.File.{File, find_by_id}
use simply_storage.Db.Location.{FileLocation}
use simply_storage.Backend.{Backend}
use simply_storage.Backend.Registry.{get}
use simply_storage.World.{World, Env, Bytes}
use simply_storage.Bulk.Export.{
  ExportJobStatus, completed, Exports, Entry, is_job, collect, build_tar_gz_archive,
  export_locations, settle, finished, finish_export, get_export_status, get_export_data,
}

pair {ℓ κ} :
    {A : Type ℓ} {B : Type κ} {a a' : A} {b b' : B}
    → a ≡ a'
    → b ≡ b'
    → ◌≡◌ {A = A × B} (a, b) (a', b')
pair p q = cc

find-added :
    (id : ℕ) (jobs : List ExportJobStatus) (j : ExportJobStatus)
    → All (λ (k : ExportJobStatus). k.job_id < id) jobs
    → j.job_id ≡ id
    → find (is_job id) (jobs ++ j ∷ []) ≡ some j
unfolding find
find-added id [] j h e = ground (arith, e)
find-added id (k ∷ jobs) j h e = ground (arith, h, e, find-added id jobs j)

find-updated :
    (id : ℕ) (f : ExportJobStatus → ExportJobStatus) (jobs : List ExportJobStatus)
    (j : ExportJobStatus)
    → ((k : ExportJobStatus) → (f k).job_id ≡ k.job_id)
    → find (is_job id) jobs ≡ some j
    → find (is_job id) (update_where (is_job id) f jobs) ≡ some (f j)
unfolding find update_where
find-updated id f [] j keeps e = cc
find-updated id f (k ∷ jobs) j keeps e = ground (arith, e, keeps k, find-updated id f jobs j keeps)

-- The rows of the files are there.
abbrev pub HasFiles : List File → List FileLocation → Type 0
HasFiles files = All (λ (l : FileLocation). (f : File) × (find_by_id l.file_id files ≡ ok f))

module _ (env : Env) (archive : List Entry → AppResult Bytes) (backend : Backend) where
  abbrev pub IsSilent : Type 0
  IsSilent = (path : String) → (e : AppError) × (env.download backend path ≡ err e)

  collect_silent :
      (files : List File) (locations : List FileLocation) (processed : ℕ) (entries : List Entry)
      → IsSilent
      → HasFiles files locations
      → collect env archive backend files locations processed entries
        ≡ (processed + length locations, ok entries)
  unfolding collect
  collect_silent files [] processed entries silent there = pair (omega arith) refl
  collect_silent files (l ∷ locations) processed entries silent there =
      let (f, found) = there.0 in
      let (e, fails) = silent l.storage_path in
      rw (found, fails, collect)
        (collect_silent files locations (processed + 1) entries silent there.1
          ∙ pair (omega arith) refl)

  build_silent :
      (storage_id : ℕ) (w : World) (content : Bytes)
      → get storage_id w.registry ≡ ok backend
      → IsSilent
      → HasFiles w.files (export_locations env archive storage_id w)
      → archive [] ≡ ok content
      → build_tar_gz_archive env archive storage_id w
        ≡ (length (export_locations env archive storage_id w), ok content)
  unfolding build_tar_gz_archive
  build_silent storage_id w content there silent files packs =
      let all =
        collect_silent w.files (export_locations env archive storage_id w) 0 [] silent files in
      rw (there, build_tar_gz_archive) (rw all (pair (omega arith) packs))

  -- What is known of a job that has been settled with an archive.
  settled_job :
      (job_id n : ℕ) (st : Exports) (job : ExportJobStatus) (content : Bytes)
      → find (is_job job_id) st.jobs ≡ some job
      → let st' = settle env archive job_id (n, ok content) st in
        (get_export_status job_id st' ≡ ok (finished env archive n (length content) job))
        × ((get_export_data job_id st').0 ≡ ok content)
  unfolding get_export_status get_export_data
  settled_job job_id n st job content known =
      let found =
        find-updated job_id (finished env archive n (length content)) st.jobs job (λ k. refl)
          known in
      (
        rw (found, get_export_status) refl,
        rw (found, get_export_data) (unfold find in rw (==_refl job_id) refl),
      )

-- An export whose backend answers for no file completes: all locations count as processed, and the
-- archive that it hands out is the one without entries. The job, the rows of the files and the
-- backend are there, and the archive can be packed.
pub finish_export_silent :
    (env : Env) (archive : List Entry → AppResult Bytes) (job_id storage_id : ℕ) (st : Exports)
    (backend : Backend) (job : ExportJobStatus) (content : Bytes)
    → get storage_id st.world.registry ≡ ok backend
    → IsSilent env archive backend
    → HasFiles st.world.files (export_locations env archive storage_id st.world)
    → archive [] ≡ ok content
    → find (is_job job_id) st.jobs ≡ some job
    → let st' = finish_export env archive job_id storage_id st in
      let n = length (export_locations env archive storage_id st.world) in
      (get_export_status job_id st'
        ≡ ok (record job { status = completed; processed_files = n; total_bytes = length content }))
      × ((get_export_data job_id st').0 ≡ ok content)
unfolding finish_export
finish_export_silent env archive job_id storage_id st backend job content there silent files packs
      known =
    rw (build_silent env archive backend storage_id st.world content there silent files packs) (
      settled_job env archive backend job_id
        (length (export_locations env archive storage_id st.world)) st job content known)
