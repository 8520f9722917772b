-- ===== src/Prelude/Chars.antt =====
-- Tests on the characters of a text.
use Prim.Native.Nat.{ℕ}
use Prim.Native.Char.{Char, code}
use Prim.Native.String.append
use Prim.Native.String.{String, ◌++◌ as str_append}
use mathlib.Core.Path.{◌≡◌, refl}
use mathlib.Core.Bool.{Bool, false, ◌&&◌, ◌||◌}
use native.Mathlib.Omega.{arith}
use simply_storage.Prelude.Tests.{◌==◌, leb, if◌then◌else◌}

-- `path.contains(c)`
unfoldable pub has_char : ℕ → String → Bool
has_char c String.[] = false
has_char c (String.◌∷◌ d s) = code d == c || has_char c s

-- `path.starts_with(c)`
unfoldable pub starts_with : ℕ → String → Bool
starts_with c String.[] = false
starts_with c (String.◌∷◌ d s) = code d == c

-- `path.contains("..")`
unfoldable pub has_dots : String → Bool
unfolding starts_with
has_dots String.[] = false
has_dots (String.◌∷◌ d s) = (code d == b'.' && starts_with b'.' s) || has_dots s

pub has_char-append :
    (c : ℕ) (s t : String) → has_char c (str_append s t) ≡ (has_char c s || has_char c t)
unfolding has_char
has_char-append c String.[] t = rw append.nil refl
has_char-append c (String.◌∷◌ d s) t = rw append.cons (ground (arith, has_char-append c s t))

pub starts_with-append :
    (c : ℕ) (s t : String)
    → starts_with c t ≡ false
    → starts_with c (str_append s t) ≡ starts_with c s
unfolding starts_with
starts_with-append c String.[] t h = rw append.nil h
starts_with-append c (String.◌∷◌ d s) t h = rw append.cons refl

-- No two dots meet where the second text begins with something else.
pub has_dots-append :
    (s t : String)
    → has_dots s ≡ false
    → has_dots t ≡ false
    → starts_with b'.' t ≡ false
    → has_dots (str_append s t) ≡ false
unfolding has_dots
has_dots-append String.[] t hs ht start = rw append.nil ht
has_dots-append (String.◌∷◌ d s) t hs ht start =
    rw (append.cons, starts_with-append b'.' s t start)
      (ground (arith, hs, has_dots-append s t, ht, start))

-- Text without a dot adds no two of them.
pub has_dots-append_plain :
    (s t : String) → has_char b'.' s ≡ false → has_dots (str_append s t) ≡ has_dots t
unfolding has_dots has_char
has_dots-append_plain String.[] t h = rw append.nil refl
has_dots-append_plain (String.◌∷◌ d s) t h =
    rw append.cons (ground (arith, h, has_dots-append_plain s t))

-- `char::is_whitespace`: the white space of Unicode.
abbrev pub is_space : ℕ → Bool
is_space c =
    (leb 9 c && leb c 13)
    || c == 32
    || c == 133
    || c == 160
    || c == 5760
    || (leb 8192 c && leb c 8202)
    || c == 8232
    || c == 8233
    || c == 8239
    || c == 8287
    || c == 12288

unfoldable pub trim_start : String → String
trim_start String.[] = ""
trim_start (String.◌∷◌ c s) =
    let rest = trim_start s in if is_space (code c) then rest else String.◌∷◌ c s

abbrev put_unless_space : Char → String → String
put_unless_space c String.[] = if is_space (code c) then "" else String.◌∷◌ c ""
put_unless_space c (String.◌∷◌ d s) = String.◌∷◌ c (String.◌∷◌ d s)

unfoldable pub trim_end : String → String
trim_end String.[] = ""
trim_end (String.◌∷◌ c s) = put_unless_space c (trim_end s)

-- `str::trim`
unfoldable pub trim : String → String
unfolding trim_start trim_end
trim s = trim_end (trim_start s)

-- Some character of the text is white space; the first one is.
unfoldable pub has_space : String → Bool
has_space String.[] = false
has_space (String.◌∷◌ c s) = is_space (code c) || has_space s

unfoldable pub starts_with_space : String → Bool
starts_with_space String.[] = false
starts_with_space (String.◌∷◌ c s) = is_space (code c)

trim_start-plain : (s : String) → starts_with_space s ≡ false → trim_start s ≡ s
unfolding trim_start starts_with_space
trim_start-plain String.[] h = refl
trim_start-plain (String.◌∷◌ c s) h = rw h refl

trim_end-plain : (s : String) → has_space s ≡ false → trim_end s ≡ s
unfolding trim_end has_space
trim_end-plain String.[] h = refl
trim_end-plain (String.◌∷◌ c String.[]) h = ground (arith, h)
trim_end-plain (String.◌∷◌ c (String.◌∷◌ d s)) h =
    rw
      (let rest : trim_end (String.◌∷◌ d s) ≡ String.◌∷◌ d s =
          trim_end-plain (String.◌∷◌ d s) (ground (arith, h)) in
        rest)
      refl

-- White space is not lost before text without any.
trim_end-append :
    (s : String) (c : Char) (t : String)
    → has_space (String.◌∷◌ c t) ≡ false
    → trim_end (str_append s (String.◌∷◌ c t)) ≡ str_append s (String.◌∷◌ c t)
unfolding trim_end
trim_end-append String.[] c t h = rw append.nil (trim_end-plain (String.◌∷◌ c t) h)
trim_end-append (String.◌∷◌ d String.[]) c t h =
    rw append.cons (rw append.nil (rw (trim_end-plain (String.◌∷◌ c t) h) refl))
trim_end-append (String.◌∷◌ d (String.◌∷◌ e s)) c t h =
    rw append.cons (rw (trim_end-append (String.◌∷◌ e s) c t h) (rw append.cons refl))

starts-append :
    (s : String) (c : Char) (t : String)
    → starts_with_space s ≡ false
    → is_space (code c) ≡ false
    → starts_with_space (str_append s (String.◌∷◌ c t)) ≡ false
unfolding starts_with_space
starts-append String.[] c t hs hc = rw append.nil hc
starts-append (String.◌∷◌ d s) c t hs hc = rw append.cons hs

-- Text that does not begin with white space keeps all of it, with a part without any at its end.
pub trim-append :
    (s : String) (c : Char) (t : String)
    → starts_with_space s ≡ false
    → has_space (String.◌∷◌ c t) ≡ false
    → trim (str_append s (String.◌∷◌ c t)) ≡ str_append s (String.◌∷◌ c t)
unfolding trim starts_with_space has_space
trim-append s c t hs ht =
    rw
      (
        trim_start-plain (str_append s (String.◌∷◌ c t))
            (starts-append s c t hs (ground (arith, ht))),
        trim_end-append s c t ht,
      )
      refl

pub trim-dashed :
    (s t : String)
    → starts_with_space s ≡ false
    → has_space t ≡ false
    → trim (str_append s (str_append "-" t)) ≡ str_append s (str_append "-" t)
unfolding has_space
trim-dashed s t hs ht = rw (append.cons, append.nil) (trim-append s "-" t hs ht)
