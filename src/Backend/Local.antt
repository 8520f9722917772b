-- ===== src/Backend/Local.antt =====
-- `LocalDiskBackend` of storage/local.rs: where a file of a storage lies on the disk, and the signed
-- links to it. Paths are those of Unix.
pub mod Confined
pub mod Files
pub mod Shards
use Prim.Native.Char.{code}
use Prim.Native.String
use Prim.Native.String.{len, ◌++◌ as str_append}
use simply_storage.Prelude.{
  ℕ, zero, suc, ◌+◌, String, Bool, true, false, ◌&&◌, ◌||◌, not, List, [], ◌∷◌, ◌==◌, ltb, leb,
  str_eq, if◌then◌else◌, has_char, has_dots, starts_with, find, exists, Option, none, some,
  delete_where,
}
use simply_storage.Error.{AppResult, ok, err, ok_or, ensure, bad_request, not_found, ◌>>=◌, ◌>>◌}
use simply_storage.World.{Bytes}

unfoldable pub is_invalid : String → Bool
is_invalid path =
    str_eq path ""
    || has_dots path
    || starts_with b'/' path
    || starts_with b'\\' path
    || has_char 0 path
    || has_char b':' path

unfoldable pub validate_path : String → AppResult (Unit {0})
unfolding is_invalid
validate_path path = ensure (not (is_invalid path)) (bad_request "Invalid storage path: {}")

-- `is_ascii_hexdigit`
abbrev pub is_hex_digit : ℕ → Bool
is_hex_digit c =
    (leb b'0' c && leb c b'9') || (leb b'a' c && leb c b'f') || (leb b'A' c && leb c b'F')

unfoldable pub is_hex : String → Bool
is_hex String.[] = true
is_hex (String.◌∷◌ c s) = is_hex_digit (code c) && is_hex s

-- `&path[..n]` and `&path[n..]` of a text of ASCII characters.
unfoldable pub take_chars : ℕ → String → String
take_chars zero s = ""
take_chars (suc n) String.[] = ""
take_chars (suc n) (String.◌∷◌ c s) = String.◌∷◌ c (take_chars n s)

unfoldable pub drop_chars : ℕ → String → String
drop_chars zero s = s
drop_chars (suc n) String.[] = ""
drop_chars (suc n) (String.◌∷◌ c s) = drop_chars n s

-- `PathBuf::join`: an absolute path takes the place of the whole.
unfoldable pub join : String → String → String
join base path = if starts_with b'/' path then path else str_append base (str_append "/" path)

module _ (base_path : String) where
  unfoldable pub placed : String → String
  unfolding is_hex take_chars drop_chars join
  placed path =
      if is_hex path && leb 4 (len path)
      then join (join (join base_path (take_chars 2 path)) (take_chars 2 (drop_chars 2 path))) path
      else join base_path path

  unfoldable pub resolve_path : String → AppResult String
  unfolding validate_path placed
  resolve_path path = do validate_path path; ok (placed path)

  -- The files of the disk by their paths.
  abbrev pub Disk : Type 0
  Disk = List (String × Bytes)

  abbrev pub at : String → String × Bytes → Bool
  at place entry = str_eq entry.0 place

  abbrev pub content_of : Option (String × Bytes) → Option Bytes
  content_of none = none
  content_of (some entry) = some entry.1

  unfoldable pub upload : String → Bytes → Disk → AppResult Disk
  unfolding resolve_path
  upload path content disk = do
    place ← resolve_path path
    ok ((place, content) ∷ delete_where (at place) disk)

  unfoldable pub download : String → Disk → AppResult Bytes
  unfolding resolve_path
  download path disk = do
    place ← resolve_path path
    ok_or (content_of (find (at place) disk)) (not_found "File not found in local storage: {}")

  unfoldable pub delete : String → Disk → AppResult Disk
  unfolding resolve_path
  delete path disk = do place ← resolve_path path; ok (delete_where (at place) disk)

  unfoldable pub exists_at : String → Disk → AppResult Bool
  unfolding resolve_path
  exists_at path disk = do place ← resolve_path path; ok (exists (at place) disk)
