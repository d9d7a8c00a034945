-- ===== src/Doctor/Gpu.antt =====
-- `_parse_gpu_csv` and `_gpu_inventory`: the devices that nvidia-smi lists.
pub mod Fields
pub mod Rows
use mlx_spark.Base.{
  ℕ, zero, suc, ◌/◌, ◌^◌, List, [], ◌∷◌, map, Option, none, some, nat_eq, ◌==◌, length,
  if◌then◌else◌,
}
use mlx_spark.Base.Result.{Result, ok, err, ◌>>=◌}
use mlx_spark.Base.Int.{ℤ, pos, negsuc, scale}
use mlx_spark.Json.{Float, nan, infinite, finite}
use mlx_spark.Base.Text.{codes, codes_eq}
use mlx_spark.Base.Lines.{split_lines, split_most, strip}
use mlx_spark.Doctor.{Text}

pub record Device : Type 0 where
  pub name : Text
  pub driver_version : Text
  pub compute_capability : Text
  pub memory_total_bytes : Option ℤ
  pub memory_free_bytes : Option ℤ

-- What `int` raises on an infinite float, and `_mib_to_bytes` does not catch.
pub data GpuError : Type 0 where
  overflow_error : GpuError

-- `int(x)` of a float, towards zero; `none` where it raises ValueError
abbrev pub truncated : Float → Result GpuError (Option ℤ)
truncated (finite (pos n) k) = ok (some (pos (n / 2 ^ k)))
truncated (finite (negsuc n) k) =
    ok (some (elim (suc n / 2 ^ k) [ zero ↦ pos 0 | suc m ↦ negsuc m ]))
truncated (infinite up) = err overflow_error
truncated nan = ok none

abbrev pub in_bytes : Option ℤ → Option ℤ
in_bytes none = none
in_bytes (some n) = some (scale n 20)

-- The status is unknown, or ok with as many visible devices as are listed.
pub data GpuReport : Type 0 where
  unavailable failed unexpected_csv : GpuReport
  exited : ℤ → GpuReport
  listed : ℕ → List Device → GpuReport

-- What `_gpu_inventory` sees of the command.
pub data Query : Type 0 where
  not_installed raised : Query
  finished : ℤ → Text → Query

-- `float(text)` is a parameter, with `none` where it raises ValueError.
module _ (float_of : Text → Option Float) where
  unfoldable pub mib_to_bytes : Text → Result GpuError (Option ℤ)
  mib_to_bytes value = elim (float_of value) [
    | none ↦ ok none
    | some x ↦ truncated x >>= λ n. ok (in_bytes n)
  ]

  -- The five fields of a line, where there are five.
  unfoldable pub device_of : List Text → Result GpuError (Option Device)
  unfolding mib_to_bytes
  device_of (name ∷ driver ∷ capability ∷ total ∷ free ∷ []) = do
    total_bytes ← mib_to_bytes total
    free_bytes ← mib_to_bytes free
    ok (
        some (record {
          name = name;
          driver_version = driver;
          compute_capability = capability;
          memory_total_bytes = total_bytes;
          memory_free_bytes = free_bytes;
        }))
  device_of fields = ok none

  abbrev pub consed :
      Option Device
      → Result GpuError (Option (List Device))
      → Result GpuError (Option (List Device))
  consed none later = ok none
  consed (some device) later =
      later >>= λ rest. elim rest [ none ↦ ok none | some ds ↦ ok (some (device ∷ ds)) ]

  -- The loop over the lines; `none` after a line that does not have five fields
  unfoldable pub devices_of : List Text → Result GpuError (Option (List Device))
  unfolding split_most strip device_of
  devices_of [] = ok (some [])
  devices_of (line ∷ lines) =
      let later = devices_of lines in
      if strip line == []
      then later
      else (device_of (map strip (split_most 4 (codes ",") line)) >>= λ device. consed device later)

  unfoldable pub parse_gpu_csv : Text → Result GpuError GpuReport
  unfolding devices_of split_lines
  parse_gpu_csv text = do
    found ← devices_of (split_lines text)
    ok (elim found [ none ↦ unexpected_csv | some ds ↦ listed (length ds) ds ])

  unfoldable pub gpu_inventory : Query → Result GpuError GpuReport
  unfolding parse_gpu_csv
  gpu_inventory not_installed = ok unavailable
  gpu_inventory raised = ok failed
  gpu_inventory (finished (pos zero) stdout) = parse_gpu_csv stdout
  gpu_inventory (finished code stdout) = ok (exited code)
