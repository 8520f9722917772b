-- ===== src/Backend/Local/Shards.antt =====
-- The folders that storage/local.rs makes of a hash are those that services/file_service.rs writes
-- into the path.
use Prim.Native.Char.{Char, code, len_utf8, len_utf8_def}
use Prim.Native.String.append
use Prim.Native.String.len
use Prim.Native.String.{len, slice, ◌++◌ as str_append}
use text.Mathlib.TextPositions.{slice-append_left, slice-append_middle}
use simply_storage.Prelude.{
  ℕ, zero, suc, ◌+◌, ◌≤◌, ◌≡◌, refl, sym, ap, subst, ◌∙◌, String, true, false, arith, leb, ltb,
  has_char, has_char-append, &&-true, starts_with, Bool-cases, inl, inr,
}
use simply_storage.Backend.Local.{is_hex, is_hex_digit, take_chars, drop_chars, placed}
use simply_storage.Backend.Local.Confined.{
  join_below, is_hex-has_char, has_char-starts_with, sharded, hex_place,
}
use simply_storage.FileService.{content_addressed_path}

hex_width : (c : Char) → is_hex_digit (code c) ≡ true → len_utf8 c ≡ 1
hex_width c h = rw len_utf8_def (ground (arith, h))

take-drop : (n : ℕ) (s : String) → str_append (take_chars n s) (drop_chars n s) ≡ s
unfolding take_chars drop_chars
take-drop zero s = append.nil s
take-drop (suc n) String.[] = append.nil ""
take-drop (suc n) (String.◌∷◌ c s) = rw (append.cons, take-drop n s) refl

is_hex-drop_chars : (n : ℕ) (s : String) → is_hex s ≡ true → is_hex (drop_chars n s) ≡ true
unfolding is_hex drop_chars
is_hex-drop_chars zero s h = h
is_hex-drop_chars (suc n) String.[] h = refl
is_hex-drop_chars (suc n) (String.◌∷◌ c s) h = ground (arith, h, is_hex-drop_chars n s)

-- A character of a hash is one byte.
len-take_chars :
    (n : ℕ) (s : String)
    → is_hex s ≡ true
    → n ≤ len s
    → (len (take_chars n s) ≡ n) × (len (drop_chars n s) + n ≡ len s)
unfolding is_hex take_chars drop_chars
len-take_chars zero s h fits = (len.nil, omega arith)
len-take_chars (suc n) String.[] h fits = absurd (omega (arith, len.nil))
len-take_chars (suc n) (String.◌∷◌ c s) h fits =
    let (one, rest) = &&-true (is_hex_digit (code c)) (is_hex s) h in
    let width = hex_width c one in
    let tail = len-take_chars n s rest (omega (arith, len.cons c s, width, fits)) in
    (
      omega (arith, len.cons c (take_chars n s), width, tail.0),
      omega (arith, len.cons c s, width, tail.1),
    )

slices :
    (s t u : String)
    → len s ≡ 2
    → len t ≡ 2
    → (slice (str_append s (str_append t u)) 0 2 ≡ s)
      × (slice (str_append s (str_append t u)) 2 4 ≡ t)
slices s t u hs ht = (
  ap (λ k. slice (str_append s (str_append t u)) 0 k) (sym hs)
      ∙ slice-append_left s (str_append t u),
  ap (λ k. slice (str_append s (str_append t u)) k (k + 2)) (sym hs)
      ∙ ap (λ k. slice (str_append s (str_append t u)) (len s) (len s + k)) (sym ht)
      ∙ slice-append_middle s t u,
)

-- The slices that `content_addressed_path` takes.
hash-slices :
    (hash : String)
    → is_hex hash ≡ true
    → 4 ≤ len hash
    → (slice hash 0 2 ≡ take_chars 2 hash) × (slice hash 2 4 ≡ take_chars 2 (drop_chars 2 hash))
hash-slices hash hex long =
    let first = len-take_chars 2 hash hex (omega (arith, long)) in
    let second =
      len-take_chars 2 (drop_chars 2 hash) (is_hex-drop_chars 2 hash hex)
        (omega (arith, long, first.1)) in
    subst
      (λ h. (slice h 0 2 ≡ take_chars 2 hash) × (slice h 2 4 ≡ take_chars 2 (drop_chars 2 hash)))
      (ap (str_append (take_chars 2 hash)) (take-drop 2 (drop_chars 2 hash)) ∙ take-drop 2 hash)
      (slices (take_chars 2 hash) (take_chars 2 (drop_chars 2 hash))
        (drop_chars 2 (drop_chars 2 hash)) first.0 second.0)

is_hex-false : (s : String) → has_char b'/' s ≡ true → is_hex s ≡ false
is_hex-false s h = elim (Bool-cases (is_hex s)) [
  | inl e ↦ absurd (ground (arith, h, is_hex-has_char b'/' s refl e))
  | inr e ↦ e
]

sharded-not_hex : (hash : String) → is_hex (sharded hash) ≡ false
sharded-not_hex hash =
    is_hex-false (sharded hash)
      (rw (has_char-append, has_char-append) (unfold has_char in ground arith))

sharded_start :
    (hash : String) → is_hex hash ≡ true → 4 ≤ len hash → starts_with b'/' (sharded hash) ≡ false
unfolding take_chars starts_with
sharded_start String.[] hex long = absurd (omega (arith, len.nil, long))
sharded_start (String.◌∷◌ c s) hex long =
    rw (append.cons c _ _)
      (has_char-starts_with b'/' (String.◌∷◌ c s) (is_hex-has_char b'/' (String.◌∷◌ c s) refl hex))

-- The path with folders of its own is put below the base directory as it is.
sharded-placed :
    (base hash : String)
    → is_hex hash ≡ true
    → 4 ≤ len hash
    → placed base (sharded hash) ≡ str_append base (str_append "/" (sharded hash))
unfolding placed
sharded-placed base hash hex long =
    rw (sharded-not_hex hash) (join_below base (sharded hash) (sharded_start hash hex long))

content_addressed-sharded :
    (hash : String) → is_hex hash ≡ true → 4 ≤ len hash → content_addressed_path hash ≡ sharded hash
unfolding content_addressed_path
content_addressed-sharded hash hex long =
    let (one, two) = hash-slices hash hex long in
    let enough : ltb (len hash) 4 ≡ false = ground (arith, long) in rw (enough, one, two) refl

-- The path that an upload gives a hash of at least four hexadecimal digits lies at the same place on
-- the disk as the hash itself: the two ways to shard a file agree.
pub placed-content_addressed_path :
    (base hash : String)
    → is_hex hash ≡ true
    → 4 ≤ len hash
    → placed base (content_addressed_path hash) ≡ placed base hash
placed-content_addressed_path base hash hex long =
    let enough : leb 4 (len hash) ≡ true = ground (arith, long) in
    let plain : placed base hash ≡ str_append base (str_append "/" (sharded hash)) =
      unfold placed in rw (hex, enough) (hex_place base hash hex) in
    rw (content_addressed-sharded hash hex long, sharded-placed base hash hex long, plain) refl
