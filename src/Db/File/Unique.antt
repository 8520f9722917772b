-- ===== src/Db/File/Unique.antt =====
-- `File::create_or_find` of db/models.rs when other requests write the table at the same time.
use text.Mathlib.TextPositions.{eq_refl}
use simply_storage.Prelude.{
  ℕ, ◌+◌, ◌≤◌, ◌≡◌, refl, String, none, some, Bool, true, false, List, [], ◌∷◌, ◌++◌, arith, eq_iff,
  if◌then◌else◌, find, exists, Bool-cases, Option-cases, inl, inr,
}
use simply_storage.Error.{ok}
use simply_storage.Db.File.{
  File, CreateFile, has_hash, new_file, create, find_by_hash, create_or_find,
}

unfoldable pub rows : String → List File → ℕ
rows hash [] = 0
rows hash (f ∷ fs) = (if has_hash hash f then 1 else 0) + rows hash fs

-- The unique constraint on the hash.
abbrev pub IsUnique : List File → Type 0
IsUnique files = (hash : String) → rows hash files ≤ 1

rows-append :
    (hash : String) (fs gs : List File) → rows hash (fs ++ gs) ≡ rows hash fs + rows hash gs
unfolding rows
rows-append hash [] gs = omega arith
rows-append hash (f ∷ fs) gs = omega (arith, rows-append hash fs gs)

rows_absent :
    (hash : String) (fs : List File) → exists (has_hash hash) fs ≡ false → rows hash fs ≡ 0
unfolding rows exists
rows_absent hash [] h = refl
rows_absent hash (f ∷ fs) h = ground (arith, rows_absent hash fs)

find_absent :
    (hash : String) (fs : List File)
    → exists (has_hash hash) fs ≡ false
    → find_by_hash hash fs ≡ none
unfolding find_by_hash find exists
find_absent hash [] h = refl
find_absent hash (f ∷ fs) h = ground (arith, find_absent hash fs)

find_appended :
    (hash : String) (fs : List File) (f : File)
    → find_by_hash hash fs ≡ none
    → has_hash hash f ≡ true
    → find_by_hash hash (fs ++ f ∷ []) ≡ some f
unfolding find_by_hash find
find_appended hash [] f h e = rw e refl
find_appended hash (g ∷ fs) f h e = ground (arith, find_appended hash fs f)

rows_added :
    (f : File) (files : List File) (hash : String)
    → exists (has_hash f.hash_sha256) files ≡ false
    → rows hash files ≤ 1
    → rows hash (files ++ f ∷ []) ≤ 1
unfolding rows
rows_added f files hash e h = ground (
  arith,
  rows-append hash files (f ∷ []),
  rows_absent f.hash_sha256 files e,
  eq_iff f.hash_sha256 hash,
)

-- Whatever other requests do between the SELECT and the INSERT, as long as they keep the unique
-- constraint: the constraint holds afterwards, and a file that is returned, new or not, is the row
-- of the table with the content's hash.
pub create_or_find-IsUnique :
    (now id : ℕ) (input : CreateFile) (meanwhile : List File → List File) (files : List File)
    → IsUnique files
    → IsUnique (meanwhile files)
    → let (r, files') = create_or_find now id input meanwhile files in
      IsUnique files'
      × ((f : File) (is_new : Bool)
          → r ≡ ok (f, is_new)
          → find_by_hash input.hash_sha256 files' ≡ some f)
unfolding create_or_find create
create_or_find-IsUnique now id input meanwhile files u v =
    elim (Option-cases (find_by_hash input.hash_sha256 files)) [
      | inr (g, e) ↦ rw (e, create_or_find) (u, λ f is_new h. cc e)
      | inl e ↦ elim (Bool-cases (exists (has_hash input.hash_sha256) (meanwhile files))) [
        | inl there ↦ rw (e, create_or_find) (rw there (v, λ f is_new h. ground (arith, h)))
        | inr absent ↦
            let added =
              find_appended input.hash_sha256 (meanwhile files) (new_file now id input)
                (find_absent input.hash_sha256 (meanwhile files) absent)
                (eq_refl input.hash_sha256) in
            rw (e, create_or_find)
              (rw absent (
                (λ hash. rows_added (new_file now id input) (meanwhile files) hash absent (v hash)),
                (λ f is_new h. cc (h, added)),
              ))
      ]
    ]
