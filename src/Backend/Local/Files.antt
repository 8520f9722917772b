-- ===== src/Backend/Local/Files.antt =====
-- What storage/local.rs reads back, and where it keeps the files of services/file_service.rs.
use text.Mathlib.TextPositions.{eq_refl}
use simply_storage.Prelude.{
  ◌≡◌, ◌≢◌, refl, String, some, false, arith, str_eq, eq_iff, if◌then◌else◌, [], ◌∷◌, delete_where,
  find, inl, inr, sym, ◌∙◌,
}
use simply_storage.Error.{ok, ok_or, not_found, bind_ok, Result-cases}
use simply_storage.World.{Bytes}
use simply_storage.Backend.Local.{placed, resolve_path, Disk, upload, download, at, content_of}
use simply_storage.Backend.Local.Confined.{resolve_path_ok}

str_ne : (s t : String) → s ≢ t → str_eq s t ≡ false
str_ne s t h = ground (arith, h, eq_iff s t)

ok_inj {ℓ} : {A : Type ℓ} {a b : A} → ok a ≡ ok b → a ≡ b
ok_inj e = cc

find-delete_where :
    (base place k : String) (disk : Disk base)
    → place ≢ k
    → find (at base k) (delete_where (at base place) disk) ≡ find (at base k) disk
unfolding find delete_where
find-delete_where base place k [] h = refl
find-delete_where base place k (entry ∷ disk) h =
    ground (arith, h, eq_iff entry.0 place, eq_iff entry.0 k, find-delete_where base place k disk h)

-- The entry that an upload leaves at a place.
find-put :
    (base place k : String) (content : Bytes) (disk : Disk base)
    → find (at base k) ((place, content) ∷ delete_where (at base place) disk)
      ≡ (if str_eq place k then some (place, content) else find (at base k) disk)
unfolding find
find-put base place k content disk =
    ground (arith, eq_iff place k, find-delete_where base place k disk)

download_at :
    (base path place : String) (disk : Disk base)
    → resolve_path base path ≡ ok place
    → download base path disk
      ≡ ok_or
          (content_of base (find (at base place) disk))
          (not_found "File not found in local storage: {}")
unfolding download
download_at base path place disk h = rw h refl

download-put_same :
    (base path place : String) (content : Bytes) (disk : Disk base)
    → resolve_path base path ≡ ok place
    → download base path ((place, content) ∷ delete_where (at base place) disk) ≡ ok content
download-put_same base path place content disk h =
    rw (download_at base path place _ h, find-put base place place content disk, eq_refl place) refl

download-put_other :
    (base other place : String) (content : Bytes) (disk : Disk base)
    → place ≢ placed base other
    → download base other ((place, content) ∷ delete_where (at base place) disk)
      ≡ download base other disk
download-put_other base other place content disk apart =
    elim (Result-cases (resolve_path base other)) [
      | inl (k, e) ↦
          let differ : place ≢ k = λ same. apart (same ∙ (resolve_path_ok base other k e).1) in
          rw
            (
              download_at base other k _ e,
              find-put base place k content disk,
              str_ne place k differ,
            )
            (sym (download_at base other k disk e))
      | inr (x, e) ↦ unfold download in rw e refl
    ]

-- After an upload, a download of the same path gives the uploaded bytes, whatever was there, and a
-- path with another place on the disk reads as before.
pub download-upload :
    (base path other : String) (content : Bytes) (disk disk' : Disk base)
    → upload base path content disk ≡ ok disk'
    → (download base path disk' ≡ ok content)
      × (placed base path ≢ placed base other
          → download base other disk' ≡ download base other disk)
unfolding upload
download-upload base path other content disk disk' h =
    let (place, e, same) = bind_ok (resolve_path base path) _ disk' h in
    let there = (resolve_path_ok base path place e).1 in
    let written = ok_inj same in
    (
      rw (← written) (download-put_same base path place content disk e),
      λ apart. rw (← written, there) (download-put_other base other _ content disk apart),
    )
