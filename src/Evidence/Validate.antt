-- ===== src/Evidence/Validate.antt =====
-- `validate` and `main`: the tests in their order, and what is printed.
pub mod Accepted
pub mod Fresh
use mlx_spark.Base.{
  ℕ, String, List, [], ◌∷◌, Bool, true, false, Option, none, some, not, ◌||◌, string_eq, ◌==◌,
  length, if◌then◌else◌,
}
use mlx_spark.Base.Result.{Result, ok, err, ◌>>=◌, ◌>>◌}
use mlx_spark.Base.Int.{pos}
use mlx_spark.Json.{Json, int, str, list, dict, Fields, get, py_eq, object}
use mlx_spark.Evidence.{
  EvidenceError, invalid, unreadable, os_error, key_error, type_error, attribute_error, index_error,
  Files, read_key, subscript,
}
use mlx_spark.Evidence.Tables.{
  lock_path, run_path, cache_path, provenance_path, pinned_input_path, expected_revisions,
  expected_artifact_hashes, expected_transitive_revisions,
}
use mlx_spark.Evidence.Checks.{Check, require_that, require_fields, require_all}
use mlx_spark.Evidence.Lock.{exactly_named, check_revisions, check_hashes, check_pinned_input}
use mlx_spark.Evidence.Refs.{strings_of, check_strings}
use mlx_spark.Evidence.Model.{
  check, load_dict, check_metadata, check_config, check_weights, check_mlx, check_transformers,
  safety_checks,
}
use mlx_spark.Evidence.Records.{check_cache, check_provenance, check_run, check_review}

-- The review evidence of an approved lock.
unfoldable pub check_evidence : Files → Json → Result EvidenceError (Unit {0})
check_evidence files (str path) = do
  require_that (not (path == "")) "approved lock has no review evidence"
  require_that (files.is_file path) "source lock review evidence is missing"
check_evidence files v = err (invalid "approved lock has no review evidence")

-- `v in {"resolved_unreviewed", "approved"}`
unfoldable pub is_candidate_state : Json → Result EvidenceError Bool
is_candidate_state (list xs) = err type_error
is_candidate_state (dict fs) = err type_error
is_candidate_state v = ok (py_eq v (str "resolved_unreviewed") || py_eq v (str "approved"))

abbrev pub state_checks : List Check
state_checks =
    check "review_state" (str "approved") "source lock is not independently approved" ∷ []

unfoldable pub check_state : Files → Bool → Fields → Result EvidenceError (Unit {0})
unfolding require_fields is_candidate_state check_evidence
check_state files true lock = do
  candidate ← is_candidate_state (get lock "review_state")
  require_that candidate "invalid candidate review state"
check_state files false lock = do
  require_fields lock state_checks
  check_evidence files (get lock "review_evidence")

abbrev pub version_checks : List Check
version_checks = check "schema_version" (int (pos 2)) "source lock schema is not 2" ∷ []

-- The tests of the lock before the audits; what is left of it are its sources.
unfoldable pub check_lock : Files → Bool → Fields → Result EvidenceError Fields
unfolding require_fields check_state check_pinned_input exactly_named check_revisions check_hashes
    strings_of check_strings
check_lock files allow_unreviewed lock = do
  require_fields lock version_checks
  check_state files allow_unreviewed lock
  check_pinned_input files lock
  sources ← exactly_named (get lock "sources") expected_revisions "unexpected source set"
  check_revisions sources expected_revisions
  check_hashes sources expected_artifact_hashes
  check_strings files (strings_of (dict lock))
  ok sources

-- The audits of the sources; what is left is the manifest of the weights.
unfoldable pub check_audits : Files → Fields → Fields → Result EvidenceError Json
unfolding subscript check_metadata check_config check_weights check_mlx check_transformers
    require_all
check_audits files lock sources = do
  model ← subscript (dict sources) "qwen3_8_27b"
  audit ← subscript model "audit"
  exact ← subscript model "exact_revision_metadata"
  selected ← check_metadata files exact
  check_config files audit
  manifest ← check_weights audit selected
  check_mlx sources
  check_transformers sources
  require_all (get lock "safety") safety_checks
  ok manifest

abbrev pub summary : Json → Json
summary state = object (
    ("schema_version", int (pos 1))
    ∷ ("task", str "FND-03")
    ∷ ("source_lock", str "valid")
    ∷ ("metadata_hashes", int (pos (length expected_artifact_hashes)))
    ∷ ("top_level_revisions", int (pos (length expected_revisions)))
    ∷ ("transitive_revisions", int (pos (length expected_transitive_revisions)))
    ∷ ("qwen_config", str "structurally_equal")
    ∷ ("cache", str "complete_exact_revision")
    ∷ ("cache_shards", int (pos 18))
    ∷ ("scope", str "single_spark")
    ∷ ("review", state)
    ∷ [])

-- `review.get("status")` is looked at only where unreviewed evidence is not allowed.
abbrev pub check_final : Bool → Fields → Fields → Result EvidenceError (Unit {0})
check_final true run lock = ok tt
check_final false run lock = check_review run lock

unfoldable pub validate_evidence : Bool → Files → Result EvidenceError Json
unfolding load_dict check_lock check_audits check_cache check_provenance check_run check_review
    subscript
validate_evidence allow_unreviewed files = do
  lock ← load_dict files lock_path
  run ← load_dict files run_path
  cache ← load_dict files cache_path
  provenance ← load_dict files provenance_path
  pinned_input ← load_dict files pinned_input_path
  sources ← check_lock files allow_unreviewed lock
  manifest ← check_audits files lock sources
  check_cache files cache manifest
  check_provenance provenance pinned_input
  check_run files run
  check_final allow_unreviewed run lock
  state ← subscript (dict lock) "review_state"
  ok (summary state)

-- How the command ends: it prints the summary, exits with a message, or does not catch what is
-- raised.
pub data Outcome : Type 0 where
  printed : Json → Outcome
  exits raises : EvidenceError → Outcome

abbrev pub caught : EvidenceError → Bool
caught os_error = false
caught attribute_error = false
caught index_error = false
caught e = true

abbrev pub outcome_of : Result EvidenceError Json → Outcome
outcome_of (ok summary) = printed summary
outcome_of (err e) = if caught e then exits e else raises e

unfoldable pub main_outcome : Bool → Files → Outcome
unfolding validate_evidence
main_outcome allow_unreviewed files = outcome_of (validate_evidence allow_unreviewed files)
