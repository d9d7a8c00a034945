-- ===== src/Base/Decimal.antt =====
-- `str(n)` of a number that is not negative.
use Prim.Native.Nat.{ℕ, zero, suc, ◌/◌, ◌%◌}
use Prim.Native.String.{String, ◌++◌}
use mathlib.Core.List.{List, [], ◌∷◌}
use mlx_spark.Base.Equality.{◌==◌, nat_eq}
use mlx_spark.Base.Tests.{if◌then◌else◌}

nth : List String → ℕ → String
nth [] i = ""
nth (s ∷ ss) zero = s
nth (s ∷ ss) (suc i) = nth ss i

abbrev digits : List String
digits = "0" ∷ "1" ∷ "2" ∷ "3" ∷ "4" ∷ "5" ∷ "6" ∷ "7" ∷ "8" ∷ "9" ∷ []

-- The fuel is above the number, so above its count of digits.
show_onto : ℕ → ℕ → String → String
unfolding nth
show_onto zero n s = s
show_onto (suc fuel) n s =
    let more = nth digits (n % 10) ++ s in
    let rest = show_onto fuel (n / 10) more in if n / 10 == 0 then more else rest

unfoldable pub show : ℕ → String
unfolding show_onto
show n = show_onto (suc n) n ""
