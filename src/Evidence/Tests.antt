-- ===== src/Evidence/Tests.antt =====
-- Evidence that is accepted, and evidence that is not.
use mlx_spark.Base.{
  ℕ, String, ◌<>◌, List, [], ◌∷◌, true, false, ◌||◌, string_eq, nat_eq, ◌==◌, ==_self, ◌≡◌, refl,
  if◌then◌else◌,
}
use mlx_spark.Base.Result.{Result, ok, err}
use mlx_spark.Base.Int.{pos, int_eq}
use mlx_spark.Base.Text.{codes_eq, is_sha40}
use mlx_spark.Json.{
  Json, null, int, str, bool, list, dict, nil, Fields, end, field, object, array, texts, find, get,
  py_eq, scalar_eq, float_eq,
}
use mlx_spark.Evidence
use mlx_spark.Evidence.{EvidenceError, invalid, key_error, attribute_error, Files}
use mlx_spark.Evidence.Tables
use mlx_spark.Evidence.Checks
use mlx_spark.Evidence.Lock
use mlx_spark.Evidence.Refs
use mlx_spark.Evidence.Model
use mlx_spark.Evidence.Records
use mlx_spark.Evidence.Validate
use mlx_spark.Evidence.Refs.Immutable.{StandsIn, IsStable}
use mlx_spark.Evidence.Records.Logged.{IsRecorded}
use mlx_spark.Evidence.Validate.Accepted.{
  IsPinnedLock, IsReviewed, validate_evidence-IsPinnedLock, validate_evidence-IsStable,
  validate_evidence-IsReviewed,
}
use mlx_spark.Evidence.Validate.{Outcome, validate_evidence, main_outcome, summary, raises}

abbrev some_hash : String
some_hash = "ccfab7ccb2ea306f71531c8ca77bb55507606cd90768b1e32b8b52ab5b48cf01"

abbrev artifact : String → String → Json
artifact revision hash = object (
    ("url", str ("https://example.org/" <> revision <> "/x"))
    ∷ ("bytes", int (pos 1))
    ∷ ("sha256", str hash)
    ∷ [])

abbrev artifacts : String → String → List (String × String × String) → Fields
unfolding string_eq
artifacts source revision [] = end
artifacts source revision ((name, a, hash) ∷ rest) =
    let later = artifacts source revision rest in
    if name == source then field a (artifact revision hash) later else later

abbrev selected : Json
selected = object (
    ("license", str "apache-2.0")
    ∷ ("pipeline_tag", str "image-text-to-text")
    ∷ ("library_name", str "transformers")
    ∷ ("sibling_filenames", texts ("a.safetensors" ∷ "config.json" ∷ []))
    ∷ [])

abbrev exact : String → Json
exact revision = object (
    ("verified_revision", str revision)
    ∷ ("identity_sha256", str some_hash)
    ∷ ("selected_metadata", selected)
    ∷ ("selected_metadata_sha256", str Tables.hf_selected_metadata_sha256)
    ∷ [])

abbrev source : String → String → Json → String × Json
source name revision audit = (
  name,
  object (
      ("revision", str revision)
      ∷ ("exact_revision_metadata", exact revision)
      ∷ ("artifacts", dict (artifacts name revision Tables.expected_artifact_hashes))
      ∷ ("audit", audit)
      ∷ []),
)

abbrev pins : List (String × String) → Fields
pins [] = end
pins ((name, revision) ∷ rest) =
    field name
      (object (
        ("revision", str revision)
        ∷ ("declaration_verified", bool true)
        ∷ ("declared_in_artifact", str "license")
        ∷ ("declaration_artifact_sha256", str some_hash)
        ∷ ("upstream_declaration_content_addressed", bool false)
        ∷ []))
      (pins rest)

abbrev mlx_audit : Json
mlx_audit = object (
    ("license_id", str "MIT")
    ∷ ("networked_build_allowed", bool false)
    ∷ ("transitive_source_pins", dict (pins Tables.expected_transitive_revisions))
    ∷ [])

abbrev transformers_audit : Json
transformers_audit = object (
    ("qwen3_5_conditional_generation_source_present", bool true)
    ∷ ("qwen3_5_multimodal_processor_mappings_present", bool true)
    ∷ ("oracle_runtime_validation", str "not_performed")
    ∷ ("oracle_required_environment", object (("USE_HUB_KERNELS", str "NO") ∷ []))
    ∷ ("oracle_required_arguments", object (("trust_remote_code", bool false) ∷ []))
    ∷ [])

abbrev qwen_audit : Json
qwen_audit = object (
    (
      "config_comparison",
      object (
          ("equal", bool true)
          ∷ ("changed_paths", list nil)
          ∷ ("local_snapshot_sha256", str Tables.local_snapshot_raw_sha256)
          ∷ ("remote_config_canonical_json_sha256", str Tables.canonical_config_sha256)
          ∷ []),
    )
    ∷ (
      "weight_manifest",
      object (
          ("shard_count", int (pos 18))
          ∷ ("tensor_count", int (pos 1199))
          ∷ ("tensor_payload_bytes", int (pos 55562855904))
          ∷ ("weight_payload_downloaded", bool false)
          ∷ ("weight_payload_hashed", bool false)
          ∷ ("shard_filenames", texts ("a.safetensors" ∷ []))
          ∷ []),
    )
    ∷ [])

abbrev sources : Json
sources = object (
    source "mlx" "365bd0fbac2e96631a1b2c4a34ca5a0771cdfde5" mlx_audit
    ∷ source "mlx_lm" "7fb4be44d560e5b74595210f83cb6003a57e52a7" null
    ∷ source "transformers" "0df4ef369d324d4072e2910c673671eed4e92459" transformers_audit
    ∷ source "qwen3_8_27b" Tables.qwen_revision qwen_audit
    ∷ [])

abbrev safety : Json
safety = object (
    ("metadata_only", bool true)
    ∷ ("remote_code_executed", bool false)
    ∷ ("weight_payload_downloaded", bool false)
    ∷ ("cuda_hardware_validation", str "not_performed")
    ∷ ("second_node_contacted", bool false)
    ∷ ("tp2_touched", bool false)
    ∷ [])

-- The lock with a state, and with any further keys.
abbrev lock : String → List (String × Json) → Json
lock state rest = object (
    ("schema_version", int (pos 2))
    ∷ ("review_state", str state)
    ∷ ("review_evidence", str "review.md")
    ∷ ("candidate_sha256", str some_hash)
    ∷ ("sources", sources)
    ∷ rest)

abbrev snapshot : Json
snapshot = object (
    ("expected_shard_count", int (pos 18))
    ∷ ("present_shard_count", int (pos 18))
    ∷ ("aggregate_present_bytes", int (pos 55563006776))
    ∷ ("metadata_hashes_match", bool true)
    ∷ ("all_exact_index_shards_present", bool true)
    ∷ ("config_sha256", str Tables.config_hash)
    ∷ ("index_sha256", str Tables.weight_index_hash)
    ∷ ("tokenizer_config_sha256", str Tables.tokenizer_config_hash)
    ∷ [])

abbrev cache : Json
cache = object (
    ("model_id", str "Qwen/Qwen3.8-27B")
    ∷ ("snapshot_revisions", texts (Tables.qwen_revision ∷ []))
    ∷ ("complete", bool true)
    ∷ ("network_used", bool false)
    ∷ ("files_modified", bool false)
    ∷ ("sensitive_fields_emitted", bool false)
    ∷ ("snapshots", array (snapshot ∷ []))
    ∷ [])

abbrev provenance : Json
provenance = object (
    ("immutable_revision", str Tables.qwen_revision)
    ∷ ("exact_config_sha256", str Tables.config_hash)
    ∷ ("structurally_equal", bool true)
    ∷ ("changed_paths", list nil)
    ∷ [])

abbrev pinned_input : Json
pinned_input = object (
    ("sources", object (("qwen3_8_27b", object (("revision", str Tables.qwen_revision) ∷ [])) ∷ []))
    ∷ [])

abbrev log : String
log = "evidence/runs/fnd-03/a.log"

abbrev run : Json
run = object (
    ("task", str "FND-03")
    ∷ ("implementation_commit", str "bb90847652028350a144bc738d7a50c12c57cbe1")
    ∷ (
      "hardware",
      object (
          ("selected_spark_label", str "DGX2")
          ∷ ("scope", str "single_spark")
          ∷ ("second_node_contacted", bool false)
          ∷ ("tp2_touched", bool false)
          ∷ ("gpu_workload_executed", bool false)
          ∷ []),
    )
    ∷ (
      "commands",
      array (
          object (
            ("log_path", str log)
            ∷ ("stdout_log_path", str log)
            ∷ ("stderr_log_path", str log)
            ∷ [])
          ∷ []),
    )
    ∷ ("review", object (("status", str "approved") ∷ ("review_evidence", str "review.md") ∷ []))
    ∷ [])

abbrev load_from : Json → String → Result EvidenceError Json
unfolding string_eq
load_from value path =
    if path == Tables.lock_path
    then ok value
    else if path == Tables.run_path
    then ok run
    else if path == Tables.cache_path
    then ok cache
    else if path == Tables.provenance_path
    then ok provenance
    else if path == Tables.pinned_input_path
    then ok pinned_input
    else ok (dict end)

abbrev canonical : Json → String
canonical (dict end) = Tables.canonical_config_sha256
canonical v = Tables.hf_selected_metadata_sha256

abbrev files : Json → Files
unfolding string_eq nat_eq
files value = record {
  load = load_from value;
  sha256 = λ path.
      ok (if path == Tables.snapshot_path then Tables.local_snapshot_raw_sha256 else some_hash);
  is_file = λ path. path == log || path == "review.md";
  canonical_sha256 = λ v. ok (canonical v);
  dumps = λ v. [];
  lower = λ cs. cs;
  same = λ c d. c == d;
}

abbrev approved : Json
approved = lock "approved" (("safety", safety) ∷ [])

accepted : validate_evidence false (files approved) ≡ ok (summary (str "approved"))
unfolding validate_evidence Validate.check_lock Validate.check_audits Validate.check_state
    Validate.check_evidence Model.load_dict Model.check_metadata Model.check_config
    Model.check_weights Model.read_by Model.check_pin Model.check_pins Model.check_mlx
    Model.check_transformers Records.check_cache Records.check_provenance Records.check_log
    Records.check_command Records.check_commands Records.require_commands Records.check_run
    Records.check_review Lock.exactly_named Lock.check_artifact Lock.check_artifacts
    Lock.require_artifacts Lock.check_declared Lock.check_identity Lock.check_exact
    Lock.check_listed Lock.check_revision Lock.check_revisions Lock.check_hash Lock.check_hashes
    Lock.check_pinned_input Refs.strings_of Refs.part_at Refs.mutable_url Refs.check_strings
    Checks.require_fields Checks.require_all Evidence.read_or Evidence.read_key Evidence.subscript
    Evidence.require_dict Evidence.is_sha256 Evidence.full_match Evidence.occurs_in
    Evidence.exceeds_zero Evidence.at_least Evidence.members Evidence.size_of Evidence.first_item
    Evidence.require_hashable Evidence.all_among Evidence.is_log_path get find py_eq scalar_eq
    float_eq string_eq nat_eq int_eq codes_eq is_sha40
accepted = refl

validate_evidence-IsPinnedLock_example :
    (fields : Fields) × ((files approved).load Tables.lock_path ≡ ok (dict fields))
    × IsPinnedLock fields
validate_evidence-IsPinnedLock_example =
    validate_evidence-IsPinnedLock false (files approved) (summary (str "approved")) accepted

same_self : (c : ℕ) → (files approved).same c c ≡ true
unfolding files nat_eq
same_self c = ==_self c

validate_evidence-IsStable_example :
    (fields : Fields) × ((files approved).load Tables.lock_path ≡ ok (dict fields))
    × ((t : String) → StandsIn t (dict fields) → IsStable (files approved) t)
validate_evidence-IsStable_example =
    validate_evidence-IsStable false (files approved) (summary (str "approved")) same_self accepted

validate_evidence-IsReviewed_example :
    (fields record_of : Fields) × ((files approved).load Tables.lock_path ≡ ok (dict fields))
    × ((files approved).load Tables.run_path ≡ ok (dict record_of))
    × IsReviewed (files approved) fields record_of
    × IsRecorded (files approved) record_of
validate_evidence-IsReviewed_example =
    validate_evidence-IsReviewed (files approved) (summary (str "approved")) accepted

-- A text on a branch that moves, in another case of letters or deep in a list, is refused.
abbrev moving : Json
moving = lock "approved" (("note", array (str "https://example.org/tree/main" ∷ [])) ∷ [])

-- Without the key `safety`, the lookup on None is an error that the command does not catch.
abbrev unsafe : Json
unsafe = lock "approved" []

refused_ref : validate_evidence false (files moving) ≡ err (invalid "mutable ref URL in lock")
unfolding validate_evidence Validate.check_lock Validate.check_audits Validate.check_state
    Validate.check_evidence Model.load_dict Model.check_metadata Model.check_config
    Model.check_weights Model.read_by Model.check_pin Model.check_pins Model.check_mlx
    Model.check_transformers Records.check_cache Records.check_provenance Records.check_log
    Records.check_command Records.check_commands Records.require_commands Records.check_run
    Records.check_review Lock.exactly_named Lock.check_artifact Lock.check_artifacts
    Lock.require_artifacts Lock.check_declared Lock.check_identity Lock.check_exact
    Lock.check_listed Lock.check_revision Lock.check_revisions Lock.check_hash Lock.check_hashes
    Lock.check_pinned_input Refs.strings_of Refs.part_at Refs.mutable_url Refs.check_strings
    Checks.require_fields Checks.require_all Evidence.read_or Evidence.read_key Evidence.subscript
    Evidence.require_dict Evidence.is_sha256 Evidence.full_match Evidence.occurs_in
    Evidence.exceeds_zero Evidence.at_least Evidence.members Evidence.size_of Evidence.first_item
    Evidence.require_hashable Evidence.all_among Evidence.is_log_path get find py_eq scalar_eq
    float_eq string_eq nat_eq int_eq codes_eq is_sha40
refused_ref = refl

raised : main_outcome false (files unsafe) ≡ raises attribute_error
unfolding main_outcome validate_evidence Validate.check_lock Validate.check_audits
    Validate.check_state Validate.check_evidence Model.load_dict Model.check_metadata
    Model.check_config Model.check_weights Model.read_by Model.check_pin Model.check_pins
    Model.check_mlx Model.check_transformers Records.check_cache Records.check_provenance
    Records.check_log Records.check_command Records.check_commands Records.require_commands
    Records.check_run Records.check_review Lock.exactly_named Lock.check_artifact
    Lock.check_artifacts Lock.require_artifacts Lock.check_declared Lock.check_identity
    Lock.check_exact Lock.check_listed Lock.check_revision Lock.check_revisions Lock.check_hash
    Lock.check_hashes Lock.check_pinned_input Refs.strings_of Refs.part_at Refs.mutable_url
    Refs.check_strings Checks.require_fields Checks.require_all Evidence.read_or Evidence.read_key
    Evidence.subscript Evidence.require_dict Evidence.is_sha256 Evidence.full_match
    Evidence.occurs_in Evidence.exceeds_zero Evidence.at_least Evidence.members Evidence.size_of
    Evidence.first_item Evidence.require_hashable Evidence.all_among Evidence.is_log_path get find
    py_eq scalar_eq float_eq string_eq nat_eq int_eq codes_eq is_sha40
raised = refl
