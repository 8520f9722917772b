-- ===== src/Backup/Paths.antt =====
-- Where services/backup_service.rs puts a backup, on a storage of storage/local.rs.
use Prim.Native.Char.{Char, code}
use Prim.Native.String.append
use Prim.Native.String.{◌++◌ as str_append}
use simply_storage.Prelude.{
  ℕ, ◌≡◌, ◌≢◌, refl, String, Bool, true, false, ◌&&◌, ◌||◌, arith, ◌==◌, str_eq, eq_iff,
  if◌then◌else◌, has_char, has_dots, starts_with, has_char-append, has_dots-append,
  has_dots-append_plain, Bool-cases, inl, inr,
}
use simply_storage.Error.{ok}
use simply_storage.Resolver.{trim_end_slashes, put_unless_slash}
use simply_storage.Backend.Local.{is_invalid, validate_path}
use simply_storage.Backup.{
  Run, is_rooted, validate_storage_path, build_upload_path, generate_backup_filename,
}

-- What the validation of a path asks for.
record IsSafe (path : String) : Type 0 where
  no_null : has_char 0 path ≡ false
  no_dots : has_dots path ≡ false
  no_slash : starts_with b'/' path ≡ false
  no_backslash : starts_with b'\\' path ≡ false
  no_colon : has_char b':' path ≡ false

validate_storage_path-IsSafe : (path : String) → validate_storage_path path ≡ ok tt → IsSafe path
unfolding validate_storage_path is_rooted
validate_storage_path-IsSafe path h = record {
  no_null = ground (arith, h);
  no_dots = ground (arith, h);
  no_slash = ground (arith, h);
  no_backslash = ground (arith, h);
  no_colon = ground (arith, h);
}

IsSafe-valid : (path : String) → IsSafe path → path ≢ "" → validate_path path ≡ ok tt
unfolding validate_path is_invalid
IsSafe-valid path h some_path = ground (arith, h, eq_iff path "", some_path)

if_text :
    (P : String → Bool) (b : Bool) (s t : String)
    → P s ≡ false
    → P t ≡ false
    → P (if b then s else t) ≡ false
if_text P true s t hs ht = hs
if_text P false s t hs ht = ht

-- Trimming slashes from the end.
has_char-put_unless :
    (k : ℕ) (c : Char) (s : String)
    → (code c == k || has_char k s) ≡ false
    → has_char k (put_unless_slash c s) ≡ false
unfolding has_char
has_char-put_unless k c String.[] h =
    if_text (has_char k) (code c == b'/') "" (String.◌∷◌ c "") refl h
has_char-put_unless k c (String.◌∷◌ d s) h = h

has_char-trim :
    (k : ℕ) (s : String) → has_char k s ≡ false → has_char k (trim_end_slashes s) ≡ false
unfolding has_char trim_end_slashes
has_char-trim k String.[] h = refl
has_char-trim k (String.◌∷◌ c s) h =
    has_char-put_unless k c (trim_end_slashes s) (ground (arith, h, has_char-trim k s))

starts_with-put_unless :
    (k : ℕ) (c : Char) (s : String)
    → (code c == k) ≡ false
    → starts_with k (put_unless_slash c s) ≡ false
unfolding starts_with
starts_with-put_unless k c String.[] h =
    if_text (starts_with k) (code c == b'/') "" (String.◌∷◌ c "") refl h
starts_with-put_unless k c (String.◌∷◌ d s) h = h

starts_with-trim :
    (k : ℕ) (s : String) → starts_with k s ≡ false → starts_with k (trim_end_slashes s) ≡ false
unfolding starts_with trim_end_slashes
starts_with-trim k String.[] h = refl
starts_with-trim k (String.◌∷◌ c s) h = starts_with-put_unless k c (trim_end_slashes s) h

has_dots-put_unless :
    (c : Char) (s : String)
    → ((code c == b'.' && starts_with b'.' s) || has_dots s) ≡ false
    → has_dots (put_unless_slash c s) ≡ false
unfolding has_dots starts_with
has_dots-put_unless c String.[] h = if_text (has_dots) (code c == b'/') "" (String.◌∷◌ c "") refl h
has_dots-put_unless c (String.◌∷◌ d s) h = h

has_dots-trim : (s : String) → has_dots s ≡ false → has_dots (trim_end_slashes s) ≡ false
unfolding has_dots trim_end_slashes
has_dots-trim String.[] h = refl
has_dots-trim (String.◌∷◌ c s) h =
    has_dots-put_unless c (trim_end_slashes s)
      (ground (arith, h, has_dots-trim s, starts_with-trim b'.' s))

-- A text that does not begin with a slash keeps its first character.
trim_start :
    (k : ℕ) (c : Char) (s t : String)
    → (code c == b'/') ≡ false
    → (code c == k) ≡ false
    → starts_with k (str_append (put_unless_slash c s) t) ≡ false
unfolding starts_with
trim_start k c String.[] t slash h = rw (slash, append.cons) h
trim_start k c (String.◌∷◌ d s) t slash h = rw append.cons h

trimmed_start :
    (k : ℕ) (s t : String)
    → s ≢ ""
    → starts_with b'/' s ≡ false
    → starts_with k s ≡ false
    → starts_with k (str_append (trim_end_slashes s) t) ≡ false
unfolding starts_with trim_end_slashes
trimmed_start k String.[] t full slash h = absurd (full refl)
trimmed_start k (String.◌∷◌ c s) t full slash h = trim_start k c (trim_end_slashes s) t slash h

-- The part of a file's name that comes from outside: no dot, slash, colon or null character.
pub record IsPlain (s : String) : Type 0 where
  pub no_null : has_char 0 s ≡ false
  pub no_dot : has_char b'.' s ≡ false
  pub no_colon : has_char b':' s ≡ false

filename-has_char :
    (c : ℕ) (run : Run)
    → has_char c "backup_" ≡ false
    → has_char c "_" ≡ false
    → has_char c ".sql.gz" ≡ false
    → has_char c run.stamp ≡ false
    → has_char c run.short_id ≡ false
    → has_char c (generate_backup_filename run) ≡ false
filename-has_char c run h1 h2 h3 h4 h5 =
    rw (has_char-append, has_char-append, has_char-append, has_char-append, h1, h2, h3, h4, h5) refl

filename-has_dots :
    (run : Run)
    → IsPlain run.stamp
    → IsPlain run.short_id
    → has_dots (generate_backup_filename run) ≡ false
filename-has_dots run stamp short_id =
    rw
      (
        has_dots-append_plain "backup_" _ (unfold has_char in refl),
        has_dots-append_plain run.stamp _ stamp.no_dot,
        has_dots-append_plain "_" _ (unfold has_char in refl),
        has_dots-append_plain run.short_id _ short_id.no_dot,
      )
      (unfold has_dots in refl)

filename_start :
    (c : ℕ) (run : Run) → (c == b'b') ≡ false → starts_with c (generate_backup_filename run) ≡ false
unfolding starts_with
filename_start c run h = rw append.cons (ground (arith, h))

nonempty : (c : ℕ) (s : String) → has_char c s ≡ true → s ≢ ""
unfolding has_char
nonempty c s h e = let none_there : has_char c s ≡ false = rw e refl in cc

filename-IsSafe :
    (run : Run) → IsPlain run.stamp → IsPlain run.short_id → IsSafe (generate_backup_filename run)
unfolding has_char
filename-IsSafe run stamp short_id = record {
  no_null = filename-has_char 0 run refl refl refl stamp.no_null short_id.no_null;
  no_dots = filename-has_dots run stamp short_id;
  no_slash = filename_start b'/' run refl;
  no_backslash = filename_start b'\\' run refl;
  no_colon = filename-has_char b':' run refl refl refl stamp.no_colon short_id.no_colon;
}

below-has_char :
    (c : ℕ) (base file : String)
    → has_char c "/" ≡ false
    → has_char c base ≡ false
    → has_char c file ≡ false
    → has_char c (str_append (trim_end_slashes base) (str_append "/" file)) ≡ false
below-has_char c base file slash h k =
    rw (has_char-append, has_char-append, has_char-trim c base h, slash, k) refl

-- A safe name in a safe folder.
below-IsSafe :
    (base file : String)
    → base ≢ ""
    → IsSafe base
    → IsSafe file
    → IsSafe (str_append (trim_end_slashes base) (str_append "/" file))
unfolding has_char starts_with
below-IsSafe base file full h k = record {
  no_null = below-has_char 0 base file refl h.no_null k.no_null;
  no_dots =
      has_dots-append (trim_end_slashes base) (str_append "/" file) (has_dots-trim base h.no_dots)
        (rw (has_dots-append_plain "/" file refl) k.no_dots) (rw append.cons refl);
  no_slash = trimmed_start b'/' base _ full h.no_slash h.no_slash;
  no_backslash = trimmed_start b'\\' base _ full h.no_slash h.no_backslash;
  no_colon = below-has_char b':' base file refl h.no_colon k.no_colon;
}

under_slash : (base file : String) → str_append (trim_end_slashes base) (str_append "/" file) ≢ ""
unfolding has_char
under_slash base file = nonempty b'/' _ (rw (has_char-append, has_char-append) (ground arith))

-- A backup whose storage path has passed the validation is accepted by a local storage, which puts
-- it below its base directory; the time and the random part of its name are plain.
pub build_upload_path-valid :
    (run : Run) (storage_path : String)
    → IsPlain run.stamp
    → IsPlain run.short_id
    → validate_storage_path storage_path ≡ ok tt
    → validate_path (build_upload_path storage_path (generate_backup_filename run)) ≡ ok tt
unfolding build_upload_path
build_upload_path-valid run storage_path stamp short_id valid =
    let file = filename-IsSafe run stamp short_id in
    elim (Bool-cases (str_eq storage_path "")) [
      | inl e ↦ rw e (
          IsSafe-valid (generate_backup_filename run) file
            (nonempty b'_' _ (rw has_char-append (unfold has_char in refl))))
      | inr e ↦
          let full : storage_path ≢ "" = ground (arith, e, eq_iff storage_path "") in
          let folder = validate_storage_path-IsSafe storage_path valid in
          rw e (
            IsSafe-valid _
              (below-IsSafe storage_path (generate_backup_filename run) full folder file)
              (under_slash storage_path _))
    ]
