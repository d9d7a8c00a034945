-- ===== src/Gate.antt =====
-- tools/check_gate.py: the errors of the evidence for a release. The files below the root, and what
-- the release gates require, are parameters.
pub mod Exact
pub mod Checks
pub mod Closed
mod Tests
use mlx_spark.Base.{
  ℕ, String, ◌<>◌, List, [], ◌∷◌, ◌++◌, map, Bool, true, false, Option, none, some, not, ◌&&◌, ◌||◌,
  string_eq, ◌==◌, if◌then◌else◌,
}
use mlx_spark.Base.Result.{Result, ok, err, ◌>>=◌, ◌>>◌}
use mlx_spark.Base.Text.{is_sha40}
use mlx_spark.Base.Decimal.{show}
use mlx_spark.Base.Int.{pos}
use mlx_spark.Json
use mlx_spark.Json.{
  Json, null, int, str, list, dict, Items, nil, cons, Fields, end, find, get, keys, elements, py_eq,
  is_text, is_bool, truthy, object,
}

-- What Python raises on evidence of another shape.
pub data GateError : Type 0 where
  attribute_error type_error : GateError

-- `within`: the resolved path is below the root. `is_file` and `hash` are of the resolved path.
pub record Root : Type 0 where
  pub within : String → Bool
  pub is_file : String → Bool
  pub hash : String → String

-- `if not good: errors.append(message)`
abbrev pub unless : Bool → String → List String
unless good message = if good then [] else message ∷ []

-- `v.get(key, default)`
abbrev pub or_default : Option Json → Json → Json
or_default none default = default
or_default (some v) default = v

unfoldable pub get_or : Json → String → Json → Result GateError Json
get_or (dict fs) key default = ok (or_default (find key fs) default)
get_or v key default = err attribute_error

-- `re.fullmatch('[0-9a-f]{40}', str(v))`: the text of any other value is too short or has a
-- character that is not of the class.
abbrev pub is_commit : Json → Bool
is_commit (str s) = is_sha40 s
is_commit (int (pos n)) = is_sha40 (show n)
is_commit v = false

abbrev pub hardware : Json
hardware = object (
    ("platform", str "DGX Spark")
    ∷ ("compute_capability", str "12.1")
    ∷ ("nodes", int (pos 1))
    ∷ [])

-- `for item in artifacts`; the keys of a dict and the characters of a text are texts
pub iterate : Json → Result GateError (List Json)
iterate (list xs) = ok (elements xs)
iterate (dict fs) = ok (map str (keys fs))
iterate (str s) = if s == "" then ok [] else ok (str s ∷ [])
iterate v = err type_error

-- `root/rel`
abbrev pub path_text : Json → Result GateError String
path_text (str s) = ok s
path_text v = err type_error

module _ (root : Root) where
  -- The errors of one artifact.
  pub artifact_errors : String → Json → Result GateError (List String)
  unfolding get_or
  artifact_errors name item = do
    path ← get_or item "path" (str "")
    rel ← path_text path
    sha ← get_or item "sha256" null
    ok (
        if rel == "" || not (root.within rel) || not (root.is_file rel)
        then (name <> ": missing/unsafe artifact") ∷ []
        else unless (is_text sha (root.hash rel)) (name <> ": artifact hash mismatch"))

  pub artifacts_errors : String → List Json → Result GateError (List String)
  unfolding artifact_errors
  artifacts_errors name [] = ok []
  artifacts_errors name (item ∷ items) = do
    first ← artifact_errors name item
    later ← artifacts_errors name items
    ok (first ++ later)

  -- A check that passed: its skipped cases and its artifacts.
  pub passed_errors : String → Json → Result GateError (List String)
  unfolding get_or iterate artifacts_errors
  passed_errors name rec = do
    skipped ← get_or rec "skipped" (int (pos 0))
    artifacts ← get_or rec "artifacts" (list nil)
    items ← iterate artifacts
    later ← artifacts_errors name items
    ok (
        unless (py_eq skipped (int (pos 0))) (name <> ": skipped cases do not close a gate")
        ++ (unless (truthy artifacts) (name <> ": no artifacts") ++ later))

  -- The body of the loop over the required checks.
  pub check_errors : Json → String → Result GateError (List String)
  unfolding get_or passed_errors
  check_errors records name = do
    rec ← get_or records name (dict end)
    status ← get_or rec "status" null
    let passed = passed_errors name rec
    if is_text status "pass" then passed else ok ((name <> ": not passed") ∷ [])

  pub checks_errors : Json → List String → Result GateError (List String)
  unfolding check_errors
  checks_errors records [] = ok []
  checks_errors records (name ∷ names) = do
    first ← check_errors records name
    later ← checks_errors records names
    ok (first ++ later)

  -- `records` is looked at only in the loop.
  unfoldable pub validate : List String → Json → Result GateError (List String)
  unfolding get_or checks_errors
  validate required evidence = do
    version ← get_or evidence "schema_version" null
    gate ← get_or evidence "gate" null
    synthetic ← get_or evidence "synthetic" null
    declared ← get_or evidence "hardware" null
    commit ← get_or evidence "implementation_commit" (str "")
    reviewer ← get_or evidence "reviewer" null
    implementer ← get_or evidence "implementer" null
    records ← get_or evidence "checks" (dict end)
    later ← checks_errors records required
    ok (
        unless (py_eq version (int (pos 1))) "schema_version must be 1"
        ++ (unless (is_text gate "single_spark_v1") "wrong gate"
            ++ (unless (is_bool false synthetic) "synthetic/missing evidence cannot pass"
                ++ (unless (py_eq declared hardware)
                      "real single-Spark hardware declaration required"
                    ++ (unless (is_commit commit) "immutable implementation commit required"
                        ++ (unless (truthy reviewer && not (py_eq reviewer implementer))
                              "independent reviewer required"
                            ++ later))))))
