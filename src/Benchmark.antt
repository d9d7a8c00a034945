-- ===== src/Benchmark.antt =====
-- src/mlx_spark/benchmark.py: the checks of a series of times, and which records may be compared.
pub mod Comparable
pub mod Times
mod Tests
use mlx_spark.Base.{
  ℕ, zero, suc, ◌-◌, ◌^◌, String, List, [], ◌∷◌, Bool, true, false, Option, none, some, not, ◌&&◌,
  ◌||◌, leb, length, if◌then◌else◌,
}
use mlx_spark.Base.Result.{Result, ok, err, ◌>>=◌, ◌>>◌, require}
use mlx_spark.Base.Int.{ℤ, pos, negsuc, is_positive}
use mlx_spark.Json.{
  Json, Float, nan, infinite, finite, null, bool, int, float, str, Fields, find, get, py_eq,
  is_text, is_bool, is_null,
}

-- ContractError by its message, and what `isfinite` raises.
pub data BenchmarkError : Type 0 where
  synthetic not_measured many_nodes not_synchronized bad_times bad_tokens type_error
        overflow_error :
      BenchmarkError
  missing : String → BenchmarkError
  mismatch : List String → BenchmarkError

abbrev pub identity_fields : List String
identity_fields =
    "model_revision" ∷ "input_ids_sha256" ∷ "weight_format" ∷ "kv_dtype" ∷ "state_dtype"
    ∷ "prompt_tokens" ∷ "generated_tokens" ∷ "batch" ∷ "math_mode" ∷ "sampling_hash" ∷ "warm_state"
    ∷ []

-- `for k in IDENTITY_FIELDS`: each is there, and is not None
unfoldable pub identified : Fields → List String → Result BenchmarkError (Unit {0})
identified rec [] = ok tt
identified rec (k ∷ ks) = do require (not (is_null (get rec k))) (missing k); identified rec ks

unfoldable pub check_record : Fields → Result BenchmarkError (Unit {0})
unfolding identified
check_record rec = do
  require (is_bool false (get rec "synthetic")) synthetic
  require (is_text (get rec "kind") "spark_measured") not_measured
  require
      (py_eq (get rec "nodes") (int (pos 1)) && is_text (get rec "gpu_compute_capability") "12.1")
      many_nodes
  require (is_bool true (get rec "synchronized")) not_synchronized
  identified rec identity_fields

-- `[k for k in IDENTITY_FIELDS if a[k] != b[k]]`
unfoldable pub mismatched : Fields → Fields → List String → List String
mismatched a b [] = []
mismatched a b (k ∷ ks) =
    let rest = mismatched a b ks in if py_eq (get a k) (get b k) then rest else k ∷ rest

abbrev pub none_mismatched : List String → Result BenchmarkError (Unit {0})
none_mismatched [] = ok tt
none_mismatched (k ∷ ks) = err (mismatch (k ∷ ks))

unfoldable pub validate_comparison : Fields → Fields → Result BenchmarkError (Unit {0})
unfolding check_record mismatched
validate_comparison a b = do
  check_record a
  check_record b
  none_mismatched (mismatched a b identity_fields)

-- From here on an integer is rounded above the largest double, and `isfinite` raises on it.
unfoldable pub double_limit : ℕ
double_limit = 2 ^ 1024 - 2 ^ 970

-- `not isfinite(x) or x <= 0`
abbrev pub bad_time : Json → Result BenchmarkError Bool
bad_time (bool b) = ok (not b)
bad_time (int (pos n)) = if leb double_limit n then err overflow_error else ok (leb n 0)
bad_time (int (negsuc n)) = if leb double_limit (suc n) then err overflow_error else ok true
bad_time (float (finite n k)) = ok (not (is_positive n))
bad_time (float x) = ok true
bad_time v = err type_error

unfoldable pub any_bad : List Json → Result BenchmarkError Bool
any_bad [] = ok false
any_bad (v ∷ vs) = let rest = any_bad vs in bad_time v >>= λ bad. if bad then ok true else rest

abbrev pub positive_tokens : Json → Result BenchmarkError ℕ
positive_tokens (int (pos (suc n))) = ok (suc n)
positive_tokens v = err bad_tokens

-- What `TimingSeries` keeps.
pub record TimingSeries : Type 0 where
  pub seconds : List Json
  pub tokens : ℕ

unfoldable pub timing_series : List Json → Json → Result BenchmarkError TimingSeries
unfolding any_bad
timing_series seconds tokens = do
  bad ← if leb (length seconds) 1 then ok true else any_bad seconds
  require (not bad) bad_times
  n ← positive_tokens tokens
  ok (record { seconds = seconds; tokens = n })
