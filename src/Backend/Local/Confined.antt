-- ===== src/Backend/Local/Confined.antt =====
-- Files of storage/local.rs stay below the base directory.
use Prim.Native.String.{len, ◌++◌ as str_append}
use text.Mathlib.TextLemmas.{append_assoc}
use simply_storage.Prelude.{
  ℕ, zero, suc, ◌≡◌, refl, String, true, false, ◌&&◌, arith, leb, has_char, has_dots, starts_with,
  has_dots-append_plain, Bool-cases, inl, inr, &&-true,
}
use simply_storage.Error.{ok}
use simply_storage.Backend.Local.{
  is_invalid, validate_path, is_hex, is_hex_digit, take_chars, drop_chars, join, placed,
  resolve_path,
}

pub is_hex-has_char :
    (c : ℕ) (s : String) → is_hex_digit c ≡ false → is_hex s ≡ true → has_char c s ≡ false
unfolding is_hex has_char
is_hex-has_char c String.[] h e = refl
is_hex-has_char c (String.◌∷◌ d s) h e = ground (arith, h, e, is_hex-has_char c s)

pub has_char-starts_with : (c : ℕ) (s : String) → has_char c s ≡ false → starts_with c s ≡ false
unfolding starts_with has_char
has_char-starts_with c String.[] h = refl
has_char-starts_with c (String.◌∷◌ d s) h = ground (arith, h)

pub has_char-take_chars :
    (c n : ℕ) (s : String) → has_char c s ≡ false → has_char c (take_chars n s) ≡ false
unfolding take_chars has_char
has_char-take_chars c zero s h = refl
has_char-take_chars c (suc n) String.[] h = refl
has_char-take_chars c (suc n) (String.◌∷◌ d s) h = ground (arith, h, has_char-take_chars c n s)

pub has_char-drop_chars :
    (c n : ℕ) (s : String) → has_char c s ≡ false → has_char c (drop_chars n s) ≡ false
unfolding drop_chars has_char
has_char-drop_chars c zero s h = h
has_char-drop_chars c (suc n) String.[] h = refl
has_char-drop_chars c (suc n) (String.◌∷◌ d s) h = ground (arith, h, has_char-drop_chars c n s)

pub join_below :
    (base path : String)
    → starts_with b'/' path ≡ false
    → join base path ≡ str_append base (str_append "/" path)
unfolding join
join_below base path h = rw h refl

has_dots-slash : (s : String) → has_dots s ≡ false → has_dots (str_append "/" s) ≡ false
has_dots-slash s h = rw (has_dots-append_plain "/" s (unfold has_char in refl)) h

-- A text without a dot, before a slash.
plain_before :
    (s t : String)
    → has_char b'.' s ≡ false
    → has_dots t ≡ false
    → has_dots (str_append s (str_append "/" t)) ≡ false
plain_before s t hs ht = rw (has_dots-append_plain s _ hs) (has_dots-slash t ht)

abbrev pub IsBelow : String → String → Type 0
IsBelow base place =
    (rest : String) × (place ≡ str_append base (str_append "/" rest)) × (has_dots rest ≡ false)

join-IsBelow :
    (base path : String)
    → starts_with b'/' path ≡ false
    → has_dots path ≡ false
    → IsBelow base (join base path)
join-IsBelow base path h d = (path, join_below base path h, d)

-- The two folders of a hash, and the hash.
abbrev pub sharded : String → String
sharded path =
    str_append (take_chars 2 path)
      (str_append "/" (str_append (take_chars 2 (drop_chars 2 path)) (str_append "/" path)))

pub hex_place :
    (base path : String)
    → is_hex path ≡ true
    → join (join (join base (take_chars 2 path)) (take_chars 2 (drop_chars 2 path))) path
      ≡ str_append base (str_append "/" (sharded path))
hex_place base path hex =
    let slash = is_hex-has_char b'/' path refl hex in
    let one = has_char-take_chars b'/' 2 path slash in
    let two = has_char-take_chars b'/' 2 _ (has_char-drop_chars b'/' 2 path slash) in
    rw
      (
        join_below _ path (has_char-starts_with b'/' path slash),
        join_below _ (take_chars 2 (drop_chars 2 path)) (has_char-starts_with b'/' _ two),
        join_below base (take_chars 2 path) (has_char-starts_with b'/' _ one),
      )
      (simp append_assoc)

hex-IsBelow :
    (base path : String)
    → is_hex path ≡ true
    → has_dots path ≡ false
    → IsBelow base
        (join (join (join base (take_chars 2 path)) (take_chars 2 (drop_chars 2 path))) path)
hex-IsBelow base path hex d =
    let dot = is_hex-has_char b'.' path refl hex in
    let dot_two = has_char-take_chars b'.' 2 _ (has_char-drop_chars b'.' 2 path dot) in
    (
      sharded path,
      hex_place base path hex,
      plain_before (take_chars 2 path) _ (has_char-take_chars b'.' 2 path dot)
          (plain_before (take_chars 2 (drop_chars 2 path)) path dot_two d),
    )

is_invalid_parts :
    (path : String)
    → is_invalid path ≡ false
    → (has_dots path ≡ false) × (starts_with b'/' path ≡ false)
unfolding is_invalid
is_invalid_parts path h = ground (arith, h)

placed-IsBelow : (base path : String) → is_invalid path ≡ false → IsBelow base (placed base path)
unfolding placed
placed-IsBelow base path valid =
    let parts = is_invalid_parts path valid in
    elim (Bool-cases (is_hex path && leb 4 (len path))) [
      | inl hex ↦
          rw hex (hex-IsBelow base path (&&-true (is_hex path) (leb 4 (len path)) hex).0 parts.0)
      | inr other ↦ rw other (join-IsBelow base path parts.1 parts.0)
    ]

-- What `resolve_path` answers is where the path lies.
pub resolve_path_ok :
    (base path place : String)
    → resolve_path base path ≡ ok place
    → (is_invalid path ≡ false) × (place ≡ placed base path)
unfolding resolve_path validate_path
resolve_path_ok base path place h = elim (Bool-cases (is_invalid path)) [
  | inl e ↦ absurd (ground (arith, e, h))
  | inr e ↦ (e, ground (arith, e, h))
]

-- The place on the disk of a path that is accepted is the base directory, a slash, and a rest
-- without "..": an upload, a download or a deletion does not leave the base directory.
pub resolve_path-IsBelow :
    (base path place : String) → resolve_path base path ≡ ok place → IsBelow base place
resolve_path-IsBelow base path place h =
    let (valid, e) = resolve_path_ok base path place h in rw e (placed-IsBelow base path valid)
