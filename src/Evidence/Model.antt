-- ===== src/Evidence/Model.antt =====
-- The audits of the lock: the model, MLX with its transitive sources, Transformers, and the scope.
use mlx_spark.Base.{String, ◌<>◌, List, [], ◌∷◌, ◌==◌, string_eq}
use mlx_spark.Base.Result.{Result, ok, err, ◌>>=◌, ◌>>◌}
use mlx_spark.Base.Int.{pos}
use mlx_spark.Json.{Json, int, str, list, dict, nil, Fields, end, find, py_eq, object}
use mlx_spark.Evidence.{
  EvidenceError, type_error, attribute_error, Files, found_or, read_or, read_key, subscript,
  require_dict, members, require_hashable, all_among,
}
use mlx_spark.Evidence.Tables.{
  local_snapshot_raw_sha256, canonical_config_sha256, hf_selected_metadata_sha256, snapshot_path,
  expected_transitive_revisions,
}
use mlx_spark.Evidence.Checks.{Check, equals, is_true, is_false, require_that, require_all}
use mlx_spark.Evidence.Lock.{exactly_named}

abbrev pub check : String → Json → String → Check
check key value message = record { key = key; expected = equals value; message = message }

abbrev pub check_true : String → String → Check
check_true key message = record { key = key; expected = is_true; message = message }

abbrev pub check_false : String → String → Check
check_false key message = record { key = key; expected = is_false; message = message }

-- `_load(path)`
unfoldable pub load_dict : Files → String → Result EvidenceError Fields
unfolding require_dict
load_dict files path = do
  value ← files.load path
  require_dict value ("Expected JSON object: " <> path)

abbrev pub metadata_checks : List Check
metadata_checks =
    check "license" (str "apache-2.0") "retained Qwen API license mismatch"
    ∷ check "pipeline_tag" (str "image-text-to-text") "retained Qwen pipeline mismatch"
    ∷ check "library_name" (str "transformers") "retained Qwen library mismatch"
    ∷ []

-- The selected metadata of the model.
unfoldable pub check_metadata : Files → Json → Result EvidenceError Fields
unfolding read_key require_dict require_all
check_metadata files exact = do
  value ← read_key exact "selected_metadata"
  selected ← require_dict value "retained Qwen API metadata is missing"
  require_all (dict selected) metadata_checks
  hash ← files.canonical_sha256 (dict selected)
  require_that (hash == hf_selected_metadata_sha256) "retained Qwen API metadata hash mismatch"
  recorded ← read_key exact "selected_metadata_sha256"
  require_that (py_eq recorded (str hf_selected_metadata_sha256))
      "recorded Qwen API metadata hash mismatch"
  ok selected

abbrev pub config_checks : List Check
config_checks =
    check_true "equal" "Qwen config differs"
    ∷ check "changed_paths" (list nil) "Qwen config differs"
    ∷ check "local_snapshot_sha256" (str local_snapshot_raw_sha256) "local snapshot hash mismatch"
    ∷ check "remote_config_canonical_json_sha256" (str canonical_config_sha256)
        "remote canonical config hash mismatch"
    ∷ []

-- The comparison of the configuration, and the local snapshot.
unfoldable pub check_config : Files → Json → Result EvidenceError (Unit {0})
unfolding subscript require_all load_dict
check_config files audit = do
  comparison ← subscript audit "config_comparison"
  require_all comparison config_checks
  raw ← files.sha256 snapshot_path
  require_that (raw == local_snapshot_raw_sha256) "local snapshot bytes changed"
  snapshot ← load_dict files snapshot_path
  canonical ← files.canonical_sha256 (dict snapshot)
  require_that (canonical == canonical_config_sha256) "local canonical config changed"

abbrev pub weight_checks : List Check
weight_checks =
    check "shard_count" (int (pos 18)) "Qwen index shard count mismatch"
    ∷ check "tensor_count" (int (pos 1199)) "Qwen index tensor count mismatch"
    ∷ check "tensor_payload_bytes" (int (pos 55562855904)) "Qwen tensor payload size mismatch"
    ∷ check_false "weight_payload_downloaded" "lock claims a weight download"
    ∷ check_false "weight_payload_hashed" "lock claims unperformed weight hashing"
    ∷ []

-- The manifest of the weights, whose shards are among the files of the metadata.
unfoldable pub check_weights : Json → Fields → Result EvidenceError Json
unfolding subscript require_all members require_hashable all_among
check_weights audit selected = do
  manifest ← subscript audit "weight_manifest"
  require_all manifest weight_checks
  shards ← subscript manifest "shard_filenames"
  shard_members ← members shards
  names ← require_hashable shard_members
  sibling_members ← members (found_or (find "sibling_filenames" selected) (list nil))
  listed ← require_hashable sibling_members
  require_that (all_among names listed)
      "Qwen index shards are absent from retained exact API metadata"
  ok manifest

abbrev pub mlx_checks : List Check
mlx_checks =
    check "license_id" (str "MIT") "MLX license audit mismatch"
    ∷ check_false "networked_build_allowed" "unsafe networked build is allowed"
    ∷ []

-- `v.get(key, {})`, for a key that may be any value
unfoldable pub read_by : Json → Json → Result EvidenceError Json
read_by (dict fs) (str key) = ok (found_or (find key fs) (dict end))
read_by (dict fs) (list xs) = err type_error
read_by (dict fs) (dict gs) = err type_error
read_by (dict fs) key = ok (dict end)
read_by v key = err attribute_error

abbrev pub pin_checks : String → String → List Check
pin_checks name revision =
    check "revision" (str revision) ("transitive revision mismatch for " <> name)
    ∷ check_true "declaration_verified" ("unverified declaration for " <> name)
    ∷ []

-- The body of the loop over EXPECTED_TRANSITIVE_REVISIONS.
unfoldable pub check_pin : Fields → Fields → String → String → Result EvidenceError (Unit {0})
unfolding subscript read_key read_by require_all
check_pin sources transitive name revision = do
  pin ← subscript (dict transitive) name
  require_all pin (pin_checks name revision)
  declaration ← read_key pin "declared_in_artifact"
  source ← subscript (dict sources) "mlx"
  artifacts ← subscript source "artifacts"
  artifact ← read_by artifacts declaration
  hash ← read_key artifact "sha256"
  recorded ← read_key pin "declaration_artifact_sha256"
  require_that (py_eq recorded hash) ("declaration artifact hash mismatch for " <> name)
  require_all pin
      (check_false "upstream_declaration_content_addressed" ("false CMake claim for " <> name) ∷ [])

unfoldable pub check_pins :
    Fields → Fields → List (String × String) → Result EvidenceError (Unit {0})
unfolding check_pin
check_pins sources transitive [] = ok tt
check_pins sources transitive ((name, revision) ∷ rest) =
    check_pin sources transitive name revision >> check_pins sources transitive rest

unfoldable pub check_mlx : Fields → Result EvidenceError (Unit {0})
unfolding subscript require_all read_key exactly_named check_pins
check_mlx sources = do
  source ← subscript (dict sources) "mlx"
  audit ← subscript source "audit"
  require_all audit mlx_checks
  pins ← read_key audit "transitive_source_pins"
  transitive ← exactly_named pins expected_transitive_revisions "transitive set mismatch"
  check_pins sources transitive expected_transitive_revisions

abbrev pub transformers_checks : List Check
transformers_checks =
    check_true "qwen3_5_conditional_generation_source_present" "oracle model source missing"
    ∷ check_true "qwen3_5_multimodal_processor_mappings_present" "oracle processors missing"
    ∷ check "oracle_runtime_validation" (str "not_performed") "oracle runtime claim is not honest"
    ∷ check "oracle_required_environment" (object (("USE_HUB_KERNELS", str "NO") ∷ []))
        "unsafe Hub kernel policy"
    ∷ []

unfoldable pub check_transformers : Fields → Result EvidenceError (Unit {0})
unfolding subscript require_all read_or
check_transformers sources = do
  source ← subscript (dict sources) "transformers"
  audit ← subscript source "audit"
  require_all audit transformers_checks
  arguments ← read_or audit "oracle_required_arguments" (dict end)
  require_all arguments (check_false "trust_remote_code" "remote code allowed" ∷ [])

abbrev pub safety_checks : List Check
safety_checks =
    check_true "metadata_only" "source resolution not metadata-only"
    ∷ check_false "remote_code_executed" "remote code execution claimed"
    ∷ check_false "weight_payload_downloaded" "resolver weight download claimed"
    ∷ check "cuda_hardware_validation" (str "not_performed") "CUDA validation falsely claimed"
    ∷ check_false "second_node_contacted" "scope boundary violated"
    ∷ check_false "tp2_touched" "scope boundary violated"
    ∷ []
