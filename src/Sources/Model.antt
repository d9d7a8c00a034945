-- ===== src/Sources/Model.antt =====
-- `audit_qwen_source`: the license, the identity, the configuration and the weights of the model.
pub mod Same
use mlx_spark.Base.{
  ℕ, String, ◌<>◌, List, [], ◌∷◌, Bool, true, false, Option, none, some, ◌&&◌, string_eq, ◌==◌,
  length, if◌then◌else◌,
}
use mlx_spark.Base.Result.{Result, ok, err, ◌>>=◌, ◌>>◌, require}
use mlx_spark.Base.Dict.{Dict, lookup}
use mlx_spark.Base.Text.{codes, ends_with}
use mlx_spark.Base.Int.{pos}
use mlx_spark.Json.{
  Json, null, str, bool, int, Fields, object, texts, as_dict, find, get, is_text, py_eq,
}
use mlx_spark.Compare.{json_diff}
use mlx_spark.Sources.{
  SourceError, key_error, type_error, not_apache, config_not_object, unexpected_model,
  config_differs,
}
use mlx_spark.Sources.Library.{
  Library, Bytes, max_metadata_bytes, number_of, artifact_record, require_markers, parse_json,
  canonical_json_sha256,
}
use mlx_spark.Sources.Revision.{Entry}
use mlx_spark.Sources.Tables.{qwen_paths}
use mlx_spark.Sources.Audit.{check_markers, artifact_sha256}
use mlx_spark.Sources.Weights.{WeightManifest, weight_manifest}

-- The artifact records, the payloads and the parsed documents, by artifact name.
pub record Documents : Type 0 where
  pub artifacts : Dict Json
  pub payloads : Dict Bytes
  pub parsed : Dict Json

-- `d[name]`
unfoldable pub item : Dict Json → String → Result SourceError Json
item d name = elim (lookup name d) [ none ↦ err key_error | some v ↦ ok v ]

-- `artifacts[name][key]`
unfoldable pub artifact_field : Dict Json → String → String → Result SourceError Json
artifact_field artifacts name key = elim (lookup name artifacts) [
  | none ↦ err key_error
  | some record_ ↦ elim (as_dict record_) [
    | none ↦ err type_error
    | some fields ↦ elim (find key fields) [ none ↦ err key_error | some v ↦ ok v ]
  ]
]

-- The manifest with its constants.
unfoldable pub manifest_json : WeightManifest → Json
manifest_json m = object (
    ("format", str "safetensors")
    ∷ ("shard_count", number_of (length m.shard_filenames))
    ∷ ("tensor_count", number_of m.tensor_count)
    ∷ ("tensor_payload_bytes", number_of m.tensor_payload_bytes)
    ∷ ("shard_filenames", texts m.shard_filenames)
    ∷ ("weight_payload_downloaded", bool false)
    ∷ ("weight_payload_hashed", bool false)
    ∷ [])

-- `not isinstance(card_data, dict) or card_data.get("license") != "apache-2.0"`, negated
unfoldable pub declares_apache : Json → Bool
declares_apache card = elim (as_dict card) [
  | none ↦ false
  | some fields ↦ is_text (get fields "license") "apache-2.0"
]

unfoldable pub as_config : Json → Result SourceError Fields
as_config v = elim (as_dict v) [ none ↦ err config_not_object | some fields ↦ ok fields ]

abbrev pub architectures : Json
architectures = texts ("Qwen3_5ForConditionalGeneration" ∷ [])

unfoldable pub require_same : List String → Result SourceError (Unit {0})
require_same [] = ok tt
require_same (path ∷ paths) = err (config_differs (path ∷ paths))

module _ (lib : Library) (is_decimal : ℕ → Bool) where
  unfoldable pub parse_if_json : String → Bytes → Result SourceError (Option Json)
  unfolding parse_json
  parse_if_json source_path content =
      if ends_with (codes source_path) (codes ".json")
      then (do value ← parse_json lib content ("Qwen " <> source_path); ok (some value))
      else ok none

  abbrev pub parsed_entry : String → Option Json → Dict Json → Dict Json
  parsed_entry name none parsed = parsed
  parsed_entry name (some value) parsed = (name, value) ∷ parsed

  -- The loop over QWEN_AUDIT_PATHS.
  unfoldable pub fetch_documents :
      (String → String) → List (String × String) → Result SourceError Documents
  unfolding parse_if_json
  fetch_documents url_of [] = ok (record { artifacts = []; payloads = []; parsed = [] })
  fetch_documents url_of ((name, source_path) ∷ paths) = do
    content ← lib.fetch (url_of source_path) max_metadata_bytes
    value ← parse_if_json source_path content
    rest ← fetch_documents url_of paths
    ok (record {
      artifacts =
          (name, artifact_record lib (url_of source_path) source_path content value)
          ∷ rest.artifacts;
      payloads = (name, content) ∷ rest.payloads;
      parsed = parsed_entry name value rest.parsed;
    })

  -- `audit["config_comparison"]`
  unfoldable pub config_comparison : Bytes → Json → Json → Json → Json
  config_comparison snapshot_bytes snapshot raw canonical = object (
      ("equal", bool true)
      ∷ ("changed_paths", texts [])
      ∷ ("local_snapshot_sha256", str (lib.sha256 snapshot_bytes))
      ∷ ("local_snapshot_canonical_json_sha256", str (canonical_json_sha256 lib snapshot))
      ∷ ("remote_config_raw_sha256", raw)
      ∷ ("remote_config_canonical_json_sha256", canonical)
      ∷ [])

  -- From the configuration on: its identity, the comparison with the snapshot, the weights.
  unfoldable pub audit_config : Fields → Bytes → Documents → Json → Result SourceError Json
  audit_config metadata snapshot_bytes docs value = do
    config ← as_config value
    require
        (is_text (get config "model_type") "qwen3_5"
          && py_eq (get config "architectures") architectures)
        unexpected_model
    snapshot ← parse_json lib snapshot_bytes "local normalized Qwen snapshot"
    require_same (json_diff snapshot value "")
    index ← item docs.parsed "weight_index"
    manifest ← weight_manifest is_decimal index (get metadata "siblings")
    raw ← artifact_field docs.artifacts "config" "sha256"
    canonical ← artifact_field docs.artifacts "config" "canonical_json_sha256"
    ok (
        object (
          ("license_id", str "Apache-2.0")
          ∷ ("license_notice_verified", bool true)
          ∷ ("model_type", get config "model_type")
          ∷ ("architectures", get config "architectures")
          ∷ ("pipeline_tag", get metadata "pipeline_tag")
          ∷ ("library_name", get metadata "library_name")
          ∷ ("config_comparison", config_comparison snapshot_bytes snapshot raw canonical)
          ∷ ("weight_manifest", manifest_json manifest)
          ∷ ("remote_code_executed", bool false)
          ∷ []))

  abbrev pub resolve_url : String → String → String → String
  resolve_url repository revision source_path =
      "https://huggingface.co/" <> repository <> "/resolve/" <> revision <> "/" <> source_path

  unfoldable pub audit_qwen_source :
      Entry → String → Fields → Bytes → Result SourceError (Dict Json × Json)
  unfolding fetch_documents audit_config config_comparison as_config require_same item
      artifact_field declares_apache manifest_json
  audit_qwen_source entry revision metadata snapshot_bytes = do
    docs ← fetch_documents (resolve_url entry.repository revision) qwen_paths
    check_markers docs.payloads "license" "Qwen license"
        ("Apache License" ∷ "Version 2.0, January 2004" ∷ [])
    check_markers docs.payloads "model_card" "Qwen model card"
        ("license: apache-2.0" ∷ "Qwen3.8-27B" ∷ [])
    require (declares_apache (get metadata "cardData")) not_apache
    config ← item docs.parsed "config"
    audit ← audit_config metadata snapshot_bytes docs config
    ok (docs.artifacts, audit)
