-- ===== src/Upload/TempFiles.antt =====
-- The temporary files of api/uploads.rs, by the id in their names.
use simply_storage.Prelude.{
  ℕ, Option, none, some, List, [], ◌∷◌, ◌==◌, ◌≡◌, refl, if◌then◌else◌, arith,
}
use simply_storage.World.{Bytes}

abbrev pub TempDir : Type 0
TempDir = List (ℕ × Bytes)

unfoldable pub read : ℕ → TempDir → Option Bytes
read path [] = none
read path ((p, content) ∷ files) = if p == path then some content else read path files

-- Creates the file, or replaces its content.
unfoldable pub write : ℕ → Bytes → TempDir → TempDir
write path content [] = (path, content) ∷ []
write path content ((p, old) ∷ files) =
    if p == path then (path, content) ∷ files else (p, old) ∷ write path content files

unfoldable pub remove : ℕ → TempDir → TempDir
remove path [] = []
remove path ((p, content) ∷ files) =
    if p == path then remove path files else (p, content) ∷ remove path files

pub read-write :
    (path other : ℕ) (content : Bytes) (files : TempDir)
    → read other (write path content files)
      ≡ (if path == other then some content else read other files)
unfolding read write
read-write path other content [] = refl
read-write path other content ((p, old) ∷ files) =
    ground (arith, read-write path other content files)

pub read-remove :
    (path other : ℕ) (files : TempDir)
    → read other (remove path files) ≡ (if path == other then none else read other files)
unfolding read remove
read-remove path other [] = ground arith
read-remove path other ((p, old) ∷ files) = ground (arith, read-remove path other files)
