-- ===== src/Gate/Tests.antt =====
-- Evidence with one required check, whose artifact is one file.
use mlx_spark.Base.{String, [], ◌∷◌, true, false, ◌≡◌, ◌↔◌, refl, string_eq, nat_eq, ◌==◌}
use mlx_spark.Base.Result.{ok, err}
use mlx_spark.Base.Int.{pos, int_eq}
use mlx_spark.Base.Text.{is_sha40}
use mlx_spark.Json.{Json, int, str, bool, object, array, find, get, py_eq, scalar_eq, float_eq}
use mlx_spark.Gate.{
  Root, attribute_error, get_or, iterate, artifact_errors, artifacts_errors, passed_errors,
  check_errors, checks_errors, hardware, validate,
}
use mlx_spark.Gate.Closed.{IsClosed, validate_iff}

abbrev root : Root
root = record { within = λ rel. true; is_file = λ rel. rel == "proof.txt"; hash = λ rel. "aa" }

abbrev evidence : String → Json → Json
evidence hash skipped = object (
    ("schema_version", int (pos 1))
    ∷ ("gate", str "single_spark_v1")
    ∷ ("synthetic", bool false)
    ∷ ("hardware", hardware)
    ∷ ("implementation_commit", str "0123456789abcdef0123456789abcdef01234567")
    ∷ ("reviewer", str "a")
    ∷ ("implementer", str "b")
    ∷ (
      "checks",
      object (
          (
            "demo",
            object (
                ("status", str "pass")
                ∷ ("skipped", skipped)
                ∷ (
                  "artifacts",
                  array (object (("path", str "proof.txt") ∷ ("sha256", str hash) ∷ []) ∷ []),
                )
                ∷ []),
          )
          ∷ []),
    )
    ∷ [])

closed : validate root ("demo" ∷ []) (evidence "aa" (int (pos 0))) ≡ ok []
unfolding validate get_or checks_errors check_errors passed_errors iterate artifacts_errors
    artifact_errors get find py_eq scalar_eq float_eq string_eq nat_eq int_eq is_sha40
closed = refl

skipped_and_changed :
    validate root ("demo" ∷ []) (evidence "bb" (int (pos 1)))
    ≡ ok ("demo: skipped cases do not close a gate" ∷ "demo: artifact hash mismatch" ∷ [])
unfolding validate get_or checks_errors check_errors passed_errors iterate artifacts_errors
    artifact_errors get find py_eq scalar_eq float_eq string_eq nat_eq int_eq is_sha40
skipped_and_changed = refl

not_a_dict : validate root [] (array []) ≡ err attribute_error
unfolding validate get_or
not_a_dict = refl

validate_iff_example :
    (validate root ("demo" ∷ []) (evidence "aa" (int (pos 0))) ≡ ok [])
    ↔ IsClosed root ("demo" ∷ []) (evidence "aa" (int (pos 0)))
validate_iff_example = validate_iff root ("demo" ∷ []) (evidence "aa" (int (pos 0)))
