-- ===== src/Base/Decimal.antt =====
-- Decimal text, as `std::to_string` and `%d` write it.
use Prim.Native.Nat.{ℕ, zero, suc, ◌+◌, ◌/◌, ◌%◌}
use mathlib.Core.List.{[], ◌∷◌, ◌++◌}
use esp_v.Base.Tests.{Str, ltb, if◌then◌else◌}
use esp_v.Base.Int.{ℤ, pos, negsuc}

-- The digits of n, at most `fuel` + 1 of them.
unfoldable pub digits : ℕ → ℕ → Str
digits zero n = (48 + n % 10) ∷ []
digits (suc fuel) n =
    let rest = digits fuel (n / 10) in
    if ltb n 10 then (48 + n) ∷ [] else rest ++ (48 + n % 10) ∷ []

-- A 64-bit number has at most 20 digits.
unfoldable pub decimal : ℕ → Str
decimal n = digits 19 n

unfoldable pub decimal_ℤ : ℤ → Str
decimal_ℤ (pos n) = decimal n
decimal_ℤ (negsuc n) = b'-' ∷ decimal (suc n)
