-- ===== src/Benchmark/Tests.antt =====
-- Two records of one measurement, and a series of three times.
use mlx_spark.Base.{
  String, List, [], ◌∷◌, ◌++◌, map, Bool, true, false, ◌≡◌, ◌↔◌, All, refl, string_eq, nat_eq,
}
use mlx_spark.Base.Result.{ok, err}
use mlx_spark.Base.Int.{pos, negsuc, int_eq}
use mlx_spark.Json.{
  Json, finite, int, str, bool, float, Fields, fields_of, find, get, py_eq, scalar_eq, float_eq,
}
use mlx_spark.Benchmark.{
  identity_fields, identified, check_record, mismatched, validate_comparison, mismatch,
  not_synchronized, any_bad, timing_series, bad_times, double_limit,
}
use mlx_spark.Benchmark.Comparable.{IsMeasured, Agree, validate_comparison_iff}
use mlx_spark.Benchmark.Times.{IsSeries, timing_series_iff}

abbrev measured : String → Bool → Fields
measured format synchronized = fields_of (
    ("weight_format", str format)
    ∷ ("kind", str "spark_measured")
    ∷ ("synthetic", bool false)
    ∷ ("nodes", int (pos 1))
    ∷ ("gpu_compute_capability", str "12.1")
    ∷ ("synchronized", bool synchronized)
    ∷ map (λ k. (k, str "x")) identity_fields)

comparable : validate_comparison (measured "x" true) (measured "x" true) ≡ ok tt
unfolding validate_comparison check_record identified mismatched find get py_eq scalar_eq float_eq
    string_eq nat_eq int_eq
comparable = refl

another_format :
    validate_comparison (measured "x" true) (measured "y" true)
    ≡ err (mismatch ("weight_format" ∷ []))
unfolding validate_comparison check_record identified mismatched find get py_eq scalar_eq float_eq
    string_eq nat_eq int_eq
another_format = refl

unsynchronized : validate_comparison (measured "x" true) (measured "x" false) ≡ err not_synchronized
unfolding validate_comparison check_record identified find get py_eq scalar_eq float_eq string_eq
    nat_eq int_eq
unsynchronized = refl

validate_comparison_iff_example :
    (validate_comparison (measured "x" true) (measured "y" true) ≡ ok tt) ↔ (
      IsMeasured (measured "x" true)
      × IsMeasured (measured "y" true)
      × All (Agree (measured "x" true) (measured "y" true)) identity_fields)
validate_comparison_iff_example = validate_comparison_iff (measured "x" true) (measured "y" true)

-- 1.5, 2 and 0.25 seconds
abbrev times : List Json
times = float (finite (pos 3) 1) ∷ int (pos 2) ∷ float (finite (pos 1) 2) ∷ []

three_times : timing_series times (int (pos 120)) ≡ ok (record { seconds = times; tokens = 120 })
unfolding timing_series any_bad double_limit
three_times = refl

negative :
    timing_series (times ++ (float (finite (negsuc 0) 0) ∷ [])) (int (pos 120)) ≡ err bad_times
unfolding timing_series any_bad double_limit
negative = refl

timing_series_iff_example :
    (timing_series times (int (pos 120)) ≡ ok (record { seconds = times; tokens = 120 }))
    ↔ IsSeries times (int (pos 120)) (record { seconds = times; tokens = 120 })
timing_series_iff_example =
    timing_series_iff times (int (pos 120)) (record { seconds = times; tokens = 120 })
