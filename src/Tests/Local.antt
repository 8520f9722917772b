-- ===== src/Tests/Local.antt =====
-- Paths on a local disk, and those of a backup.
use simply_storage.Prelude.{refl, has_dots, has_char}
use simply_storage.Backend.Local.{resolve_path}
use simply_storage.Backend.Local.Confined.{IsBelow, resolve_path-IsBelow}

resolve_path-IsBelow_example : IsBelow "/data" "/data/ab/cd/abcdef"
unfolding resolve_path has_dots has_char
resolve_path-IsBelow_example = resolve_path-IsBelow "/data" "abcdef" "/data/ab/cd/abcdef" refl
