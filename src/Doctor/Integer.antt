-- ===== src/Doctor/Integer.antt =====
-- `int(text)`: signs, digits with single underscores between them, and the limit on their number.
use mlx_spark.Base.{
  ℕ, zero, suc, ◌+◌, ◌*◌, List, [], ◌∷◌, Option, none, some, nat_eq, ◌==◌, leb, length,
  if◌then◌else◌,
}
use mlx_spark.Base.Maybe.{◌>>=◌, when}
use mlx_spark.Base.Int.{ℤ, pos, negsuc}
use mlx_spark.Base.Lines.{strip}
use mlx_spark.Doctor.{Text}

-- The value of a decimal digit, of any script, is a parameter.
module _ (digit : ℕ → Option ℕ) where
  -- The values of the digits; an underscore stands between two of them.
  unfoldable pub digits : Text → Option (List ℕ)
  digits [] = none
  digits (c ∷ []) = digit c >>= λ d. some (d ∷ [])
  digits (c ∷ d ∷ cs) =
      let rest = digits (d ∷ cs) in
      let after = digits cs in
      digit c >>= λ value. (if d == b'_' then after else rest) >>= λ values. some (value ∷ values)

  abbrev pub number_of : ℕ → List ℕ → ℕ
  number_of n [] = n
  number_of n (d ∷ ds) = number_of (n * 10 + d) ds

  -- More digits than the interpreter's limit raise ValueError.
  unfoldable pub natural : Text → Option ℕ
  unfolding digits
  natural cs = do ds ← digits cs; when (leb (length ds) 4300) (number_of 0 ds)

  abbrev pub negated : ℕ → ℤ
  negated zero = pos 0
  negated (suc n) = negsuc n

  abbrev pub signed : Text → Option ℤ
  signed [] = none
  signed (c ∷ cs) =
      if c == b'-'
      then (natural cs >>= λ n. some (negated n))
      else ((if c == b'+' then natural cs else natural (c ∷ cs)) >>= λ n. some (pos n))

  -- `int(text)`, with `none` where it raises ValueError
  unfoldable pub int_of : Text → Option ℤ
  unfolding natural strip
  int_of text = signed (strip text)
