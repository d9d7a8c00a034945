-- ===== src/Evidence/Records.antt =====
-- The other records: the probe of the cache, the provenance, and the run with its commands.
pub mod Logged
use mlx_spark.Base.{
  ℕ, String, ◌<>◌, List, [], ◌∷◌, Bool, true, false, Option, none, some, not, ◌&&◌, string_eq,
  nat_eq, ◌==◌,
}
use mlx_spark.Base.Result.{Result, ok, err, ◌>>=◌, ◌>>◌}
use mlx_spark.Base.Int.{pos}
use mlx_spark.Base.Text.{codes, includes, is_sha40}
use mlx_spark.Json.{
  Json, int, str, list, dict, nil, cons, Fields, end, find, get, py_eq, array, elements,
}
use mlx_spark.Evidence.{
  EvidenceError, invalid, attribute_error, Files, found_or, read_or, subscript, size_of, first_item,
  at_least, full_match, is_log_path,
}
use mlx_spark.Evidence.Tables.{qwen_revision, config_hash, weight_index_hash, tokenizer_config_hash}
use mlx_spark.Evidence.Checks.{Check, require_that, require_fields, require_all}
use mlx_spark.Evidence.Model.{check, check_true, check_false}

abbrev pub cache_checks : List Check
cache_checks =
    check "model_id" (str "Qwen/Qwen3.8-27B") "cache probe model mismatch"
    ∷ check "snapshot_revisions" (array (str qwen_revision ∷ [])) "cache revision mismatch"
    ∷ check_true "complete" "cache probe incomplete or networked"
    ∷ check_false "network_used" "cache probe incomplete or networked"
    ∷ check_false "files_modified" "unsafe cache probe"
    ∷ check_false "sensitive_fields_emitted" "unsafe cache probe"
    ∷ []

abbrev pub snapshot_checks : List Check
snapshot_checks =
    check "expected_shard_count" (int (pos 18)) "cache expected-shard mismatch"
    ∷ check "present_shard_count" (int (pos 18)) "cache present-shard mismatch"
    ∷ check "aggregate_present_bytes" (int (pos 55563006776)) "cache aggregate size mismatch"
    ∷ check_true "metadata_hashes_match" "cache metadata hashes were not authenticated"
    ∷ check_true "all_exact_index_shards_present"
        "exact audited index shard set is not complete in cache"
    ∷ check "config_sha256" (str config_hash) "cached config hash differs from exact metadata"
    ∷ check "index_sha256" (str weight_index_hash) "cached index hash differs from exact metadata"
    ∷ check "tokenizer_config_sha256" (str tokenizer_config_hash)
        "cached tokenizer config hash differs from exact metadata"
    ∷ []

unfoldable pub check_cache : Files → Fields → Json → Result EvidenceError (Unit {0})
unfolding require_fields require_all size_of subscript first_item at_least
check_cache files cache manifest = do
  require_fields cache cache_checks
  count ← size_of (found_or (find "snapshots" cache) (list nil))
  require_that (count == 1) "unexpected cache snapshot count"
  snapshots ← subscript (dict cache) "snapshots"
  snapshot ← first_item snapshots
  require_all snapshot snapshot_checks
  present ← subscript snapshot "aggregate_present_bytes"
  payload ← subscript manifest "tensor_payload_bytes"
  enough ← at_least present payload
  require_that enough "cache smaller than payload"
  let rendered = files.dumps (dict cache)
  require_that
      (not (includes rendered (codes "/home/")) && not (includes rendered (codes "/Users/")))
      "cache evidence leaks a path"

abbrev pub provenance_checks : List Check
provenance_checks =
    check "immutable_revision" (str qwen_revision) "provenance revision mismatch"
    ∷ check "exact_config_sha256" (str config_hash) "provenance config mismatch"
    ∷ check_true "structurally_equal" "provenance diff mismatch"
    ∷ check "changed_paths" (list nil) "provenance diff mismatch"
    ∷ []

unfoldable pub check_provenance : Fields → Fields → Result EvidenceError (Unit {0})
unfolding require_fields subscript
check_provenance provenance pinned_input = do
  require_fields provenance provenance_checks
  sources ← subscript (dict pinned_input) "sources"
  source ← subscript sources "qwen3_8_27b"
  revision ← subscript source "revision"
  require_that (py_eq revision (str qwen_revision)) "input pin mismatch"

abbrev pub hardware_checks : List Check
hardware_checks =
    check "selected_spark_label" (str "DGX2") "run node scope mismatch"
    ∷ check "scope" (str "single_spark") "run node scope mismatch"
    ∷ check_false "second_node_contacted" "run distributed scope violated"
    ∷ check_false "tp2_touched" "run distributed scope violated"
    ∷ check_false "gpu_workload_executed" "run claims a GPU workload"
    ∷ []

-- A log: a file at a path that starts with the name of the run's directory.
unfoldable pub check_log : Files → Json → String → String → Result EvidenceError (Unit {0})
unfolding is_log_path
check_log files (str path) unsafe missing = do
  require_that (is_log_path (str path)) unsafe
  require_that (files.is_file path) (missing <> path)
check_log files v unsafe missing = err (invalid unsafe)

-- The body of the loop over the commands.
unfoldable pub check_command : Files → Json → Result EvidenceError (Unit {0})
unfolding read_or check_log
check_command files command = do
  path ← read_or command "log_path" (str "")
  check_log files path "unsafe command log path" "missing command log: "
  out_path ← read_or command "stdout_log_path" (str "")
  check_log files out_path "missing or unsafe stdout_log_path" "missing command stream log: "
  err_path ← read_or command "stderr_log_path" (str "")
  check_log files err_path "missing or unsafe stderr_log_path" "missing command stream log: "

unfoldable pub check_commands : Files → List Json → Result EvidenceError (Unit {0})
unfolding check_command
check_commands files [] = ok tt
check_commands files (command ∷ rest) = check_command files command >> check_commands files rest

-- `isinstance(commands, list) and commands`
unfoldable pub require_commands : Json → Result EvidenceError (List Json)
require_commands (list (cons command rest)) = ok (command ∷ elements rest)
require_commands v = err (invalid "run commands missing")

abbrev pub task_checks : List Check
task_checks = check "task" (str "FND-03") "run task mismatch" ∷ []

unfoldable pub check_run : Files → Fields → Result EvidenceError (Unit {0})
unfolding require_fields require_all full_match is_sha40 require_commands check_commands
check_run files run = do
  require_fields run task_checks
  full ← full_match is_sha40 (found_or (find "implementation_commit" run) (str ""))
  require_that full "run implementation commit is not full SHA"
  require_all (found_or (find "hardware" run) (dict end)) hardware_checks
  commands ← require_commands (get run "commands")
  check_commands files commands

-- The review of the run, which names the evidence of the lock.
abbrev pub review_checks : Fields → List Check
review_checks lock =
    check "status" (str "approved") "run review is not approved"
    ∷ check "review_evidence" (get lock "review_evidence") "review evidence disagreement"
    ∷ []

unfoldable pub check_review : Fields → Fields → Result EvidenceError (Unit {0})
unfolding require_all
check_review run lock = require_all (found_or (find "review" run) (dict end)) (review_checks lock)
