-- ===== src/Prelude/Decimal.antt =====
-- The decimal text of a number, as `format!("{}", n)` writes it.
use Prim.Native.Nat.{ℕ, zero, suc, ◌+◌, ◌*◌, ◌/◌, ◌%◌, ◌^◌, ◌<◌}
use Prim.Native.String.{String, ◌++◌ as str_append, slice}
use mathlib.Core.Path.{◌≡◌}
use mathlib.Core.List.{List, [], ◌∷◌}
use native.Mathlib.Omega.{arith}
use simply_storage.Prelude.Tests.{ltb, if◌then◌else◌}

-- The digits, the last one first.
unfoldable digits : ℕ → ℕ → List ℕ
digits zero n = []
digits (suc fuel) n = let rest = digits fuel (n / 10) in if ltb n 10 then n ∷ [] else n % 10 ∷ rest

unfoldable value : List ℕ → ℕ
value [] = 0
value (d ∷ ds) = d + 10 * value ds

-- As many digits as the fuel are enough for the number.
value-digits : (fuel n : ℕ) → n < 10 ^ fuel → value (digits fuel n) ≡ n
unfolding digits value
value-digits zero n h = omega (arith, h)
value-digits (suc fuel) n h =
    let smaller : n / 10 < 10 ^ fuel = omega (arith, h) in
    ground (arith, value-digits fuel (n / 10) smaller)

unfoldable written : List ℕ → String
written [] = ""
written (d ∷ ds) = str_append (written ds) (slice "0123456789" d (d + 1))

-- A `u64` has at most twenty digits.
unfoldable pub decimal : ℕ → String
unfolding digits written
decimal n = written (digits 20 n)
