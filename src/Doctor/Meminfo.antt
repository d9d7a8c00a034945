-- ===== src/Doctor/Meminfo.antt =====
-- `_memory`: the four sizes of /proc/meminfo, in bytes.
use mlx_spark.Base.{ℕ, List, [], ◌∷◌, Option, none, some, nat_eq, ◌==◌, if◌then◌else◌}
use mlx_spark.Base.Maybe.{◌>>=◌}
use mlx_spark.Base.Int.{ℤ, scale}
use mlx_spark.Base.Text.{codes, codes_eq}
use mlx_spark.Base.Lines.{split_lines, cut, strip, words, at}
use mlx_spark.Doctor.{Text}
use mlx_spark.Doctor.Integer.{int_of}

-- A key that is there has a size, or None.
pub record Meminfo : Type 0 where
  pub total : Option (Option ℤ)
  pub available : Option (Option ℤ)
  pub swap_total : Option (Option ℤ)
  pub swap_free : Option (Option ℤ)

-- `line.partition(":")`
unfoldable pub partition_colon : Text → Text × Text
unfolding cut
partition_colon line = elim (cut (codes ":") line) [
  | none ↦ (line, [])
  | some (key, value) ↦ (key, value)
]

-- `int(value.strip().split()[0]) * 1024`, with `none` where it raises IndexError or ValueError
unfoldable pub size_of : (ℕ → Option ℕ) → Text → Option ℤ
unfolding strip words int_of
size_of digit value = do
  first ← at 0 (words (strip value))
  n ← int_of digit first
  some (scale n 10)

abbrev pub set_size : Text → Option ℤ → Meminfo → Meminfo
set_size key size m =
    if key == codes "MemTotal"
    then record m { total = some size }
    else if key == codes "MemAvailable"
    then record m { available = some size }
    else if key == codes "SwapTotal"
    then record m { swap_total = some size }
    else if key == codes "SwapFree"
    then record m { swap_free = some size }
    else m

unfoldable pub size_lines : (ℕ → Option ℕ) → List Text → Meminfo → Meminfo
unfolding partition_colon size_of
size_lines digit [] m = m
size_lines digit (line ∷ lines) m =
    let (key, value) = partition_colon line in
    size_lines digit lines (set_size key (size_of digit value) m)

-- `none` for the status unavailable
unfoldable pub memory : (ℕ → Option ℕ) → Option Text → Option Meminfo
unfolding size_lines split_lines
memory digit none = none
memory digit (some text) = some (
    size_lines digit (split_lines text)
      (record { total = none; available = none; swap_total = none; swap_free = none }))
