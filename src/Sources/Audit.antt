-- ===== src/Sources/Audit.antt =====
-- `audit_git_source` and `resolve_mlx_transitive_sources`: the artifacts of the three Git sources
-- and the markers that they must hold.
pub mod Pinned
use mlx_spark.Base.{
  String, ◌<>◌, List, [], ◌∷◌, true, false, none, some, string_eq, ◌==◌, if◌then◌else◌,
}
use mlx_spark.Base.Result.{Result, ok, err, ◌>>=◌, ◌>>◌}
use mlx_spark.Base.Dict.{Dict, lookup}
use mlx_spark.Json.{Json, str, bool, object, as_dict, find}
use mlx_spark.Sources.{SourceError, key_error, type_error}
use mlx_spark.Sources.Library.{Library, Bytes, max_metadata_bytes, artifact_record, require_markers}
use mlx_spark.Sources.Revision.{Entry, resolve_git_revision}
use mlx_spark.Sources.Tables.{
  Transitive, transitive_sources, mlx_paths, mlx_lm_paths, transformers_paths,
}

-- GIT_AUDIT_PATHS[name]
abbrev pub git_paths : String → Result SourceError (List (String × String))
git_paths name =
    if name == "mlx"
    then ok mlx_paths
    else if name == "mlx_lm"
    then ok mlx_lm_paths
    else if name == "transformers"
    then ok transformers_paths
    else err key_error

-- The artifact records and the payloads, by artifact name.
abbrev pub Collected : Type 0
Collected = Dict Json × Dict Bytes

abbrev pub raw_url : String → String → String → String
raw_url repository revision source_path =
    "https://raw.githubusercontent.com/" <> repository <> "/" <> revision <> "/" <> source_path

-- `payloads[name]`
unfoldable pub payload : Dict Bytes → String → Result SourceError Bytes
payload payloads name = elim (lookup name payloads) [
  | none ↦ err key_error
  | some content ↦ ok content
]

-- `require_markers(payloads[name], label, markers)`
unfoldable pub check_markers :
    Dict Bytes → String → String → List String → Result SourceError (Unit {0})
unfolding payload require_markers
check_markers payloads name label markers = do
  content ← payload payloads name
  require_markers content label markers

-- `artifacts[name]["sha256"]`
unfoldable pub artifact_sha256 : Dict Json → String → Result SourceError Json
artifact_sha256 artifacts name = elim (lookup name artifacts) [
  | none ↦ err key_error
  | some record_ ↦ elim (as_dict record_) [
    | none ↦ err type_error
    | some fields ↦ elim (find "sha256" fields) [ none ↦ err key_error | some hash ↦ ok hash ]
  ]
]

unfoldable pub mlx_license_markers : List String
mlx_license_markers = "MIT License" ∷ "Permission is hereby granted, free of charge" ∷ []

unfoldable pub apache_markers : List String
apache_markers = "Apache License" ∷ "Version 2.0, January 2004" ∷ []

unfoldable pub root_cmake_markers : List String
root_cmake_markers =
    "find_package(CUDAToolkit REQUIRED)" ∷ "find_package(CUDNN REQUIRED)"
    ∷ "VERSION_GREATER_EQUAL \"13.1\"" ∷ "VERSION_LESS \"13.2\""
    ∷ "CUDA Toolkit 13.1 is not supported." ∷ []

unfoldable pub cuda_cmake_markers : List String
cuda_cmake_markers =
    "MLX_CUDA_ARCHITECTURES" ∷ "__nvcc_device_query" ∷ "CUDA_ARCHITECTURES"
    ∷ "CMAKE_CUDA_COMPILER_VERSION VERSION_GREATER_EQUAL 12.8.0"
    ∷ "MLX_CUDA_ARCHITECTURES GREATER_EQUAL 90" ∷ "--compress-mode=size" ∷ []

-- audit["cuda_source_constraints"]
unfoldable pub cuda_source_constraints : Json
cuda_source_constraints = object (
    ("cuda_toolkit_required", bool true)
    ∷ ("cudnn_required", bool true)
    ∷ ("cuda_13_1_rejected", bool true)
    ∷ ("native_arch_query_default", bool true)
    ∷ ("arch_90_or_newer_uses_accelerated_suffix", bool true)
    ∷ ("compression_flag_enabled_from_cuda_12_8", bool true)
    ∷ ("cudnn_frontend_git_tag", str "v1.16.0")
    ∷ ("transitive_fetches_content_addressed", bool false)
    ∷ ("dgx2_cuda_toolkit_compatibility", str "unknown_nvcc_unavailable")
    ∷ ("hardware_validation", str "not_performed")
    ∷ [])

module _ (lib : Library) where
  -- The loop over the paths; `url_of` is the URL of a source path.
  unfoldable pub fetch_artifacts :
      (String → String) → List (String × String) → Result SourceError Collected
  fetch_artifacts url_of [] = ok ([], [])
  fetch_artifacts url_of ((name, source_path) ∷ paths) = do
    content ← lib.fetch (url_of source_path) max_metadata_bytes
    (artifacts, payloads) ← fetch_artifacts url_of paths
    ok (
      (name, artifact_record lib (url_of source_path) source_path content none) ∷ artifacts,
      (name, content) ∷ payloads,
    )

  abbrev pub transitive_entry : Transitive → Entry
  transitive_entry t = record {
    kind = "git";
    repository = t.repository;
    revision = none;
    ref_to_resolve = some t.ref;
    role = "";
  }

  -- The loop of `resolve_mlx_transitive_sources`.
  unfoldable pub resolve_transitive :
      Dict Bytes → Dict Json → List Transitive → Result SourceError (List (String × Json))
  resolve_transitive payloads artifacts [] = ok []
  resolve_transitive payloads artifacts (t ∷ ts) = do
    check_markers payloads t.declared_in ("MLX transitive declaration " <> t.name) t.markers
    (revision, _, exact_url) ← resolve_git_revision lib (transitive_entry t)
    hash ← artifact_sha256 artifacts t.declared_in
    resolved ← resolve_transitive payloads artifacts ts
    ok (
        (
          t.name,
          object (
              ("kind", str "git")
              ∷ ("repository", str t.repository)
              ∷ ("revision", str revision)
              ∷ ("exact_revision_url", str exact_url)
              ∷ ("declared_in_artifact", str t.declared_in)
              ∷ ("declaration_artifact_sha256", hash)
              ∷ ("declaration_verified", bool true)
              ∷ ("upstream_declaration_content_addressed", bool false)
              ∷ []),
        )
        ∷ resolved)

  unfoldable pub audit_mlx : Dict Json → Dict Bytes → Result SourceError Json
  unfolding root_cmake_markers cuda_cmake_markers cuda_source_constraints resolve_transitive
      check_markers
  audit_mlx artifacts payloads = do
    check_markers payloads "root_cmake" "MLX root CMake" root_cmake_markers
    check_markers payloads "cuda_cmake" "MLX CUDA CMake" cuda_cmake_markers
    check_markers payloads "find_cudnn" "MLX cuDNN discovery"
        ("CUDNN_MAJOR_VERSION" ∷ "CUDNN::cudnn_all" ∷ [])
    pins ← resolve_transitive payloads artifacts transitive_sources
    ok (
        object (
          ("license_id", str "MIT")
          ∷ ("license_notice_verified", bool true)
          ∷ ("cuda_source_constraints", cuda_source_constraints)
          ∷ ("transitive_source_pins", object pins)
          ∷ ("networked_build_allowed", bool false)
          ∷ (
            "networked_build_block_reason",
            str
                "Upstream CMake declarations use tags or archives without content hashes; materialize or override the exact transitive revisions before a networked build.",
          )
          ∷ []))

  unfoldable pub audit_mlx_lm : Dict Bytes → Result SourceError Json
  unfolding check_markers
  audit_mlx_lm payloads = do
    check_markers payloads "qwen3_5_reference" "MLX-LM Qwen3.5 reference"
        ("class Qwen3_5TextModel" ∷ "class GatedDeltaNet" ∷ "class Model" ∷ [])
    ok (
        object (
          ("license_id", str "MIT")
          ∷ ("license_notice_verified", bool true)
          ∷ ("reference_only", bool true)
          ∷ ("remote_code_executed", bool false)
          ∷ []))

  unfoldable pub audit_transformers : Dict Bytes → Result SourceError Json
  unfolding check_markers apache_markers
  audit_transformers payloads = do
    check_markers payloads "license" "Transformers license" apache_markers
    check_markers payloads "qwen3_5_config" "Transformers Qwen3.5 config"
        ("class Qwen3_5Config" ∷ "model_type = \"qwen3_5\"" ∷ [])
    check_markers payloads "qwen3_5_modeling" "Transformers Qwen3.5 modeling"
        ("class Qwen3_5GatedDeltaNet" ∷ "class Qwen3_5ForConditionalGeneration" ∷ [])
    check_markers payloads "auto_mappings" "Transformers config auto mappings"
        ("(\"qwen3_5\", \"Qwen3_5Config\")" ∷ [])
    check_markers payloads "auto_modeling" "Transformers model auto mappings"
        ("(\"qwen3_5\", \"Qwen3_5ForConditionalGeneration\")" ∷ [])
    check_markers payloads "auto_processing" "Transformers processor auto mappings"
        ("(\"qwen3_5\", \"Qwen3VLProcessor\")" ∷ [])
    check_markers payloads "auto_image_processing" "Transformers image processor auto mappings"
        ("(\"qwen3_5\", {\"torchvision\": \"Qwen2VLImageProcessor\"" ∷ [])
    check_markers payloads "auto_video_processing" "Transformers video processor auto mappings"
        ("(\"qwen3_5\", \"Qwen3VLVideoProcessor\")" ∷ [])
    check_markers payloads "hub_kernels" "Transformers Hub-kernel integration"
        ("USE_HUB_KERNELS" ∷ "use_kernels" ∷ [])
    ok (
        object (
          ("license_id", str "Apache-2.0")
          ∷ ("license_notice_verified", bool true)
          ∷ ("qwen3_5_config_source_present", bool true)
          ∷ ("qwen3_5_conditional_generation_source_present", bool true)
          ∷ ("qwen3_5_auto_config_registered", bool true)
          ∷ ("qwen3_5_auto_model_registered", bool true)
          ∷ ("qwen3_5_multimodal_processor_mappings_present", bool true)
          ∷ ("oracle_runtime_validation", str "not_performed")
          ∷ ("oracle_required_environment", object (("USE_HUB_KERNELS", str "NO") ∷ []))
          ∷ (
            "oracle_required_arguments",
            object (
                ("use_kernels", bool false)
                ∷ ("trust_remote_code", bool false)
                ∷ ("local_files_only", bool true)
                ∷ []),
          )
          ∷ ("remote_code_executed", bool false)
          ∷ []))

  -- The branches on the name of the source.
  unfoldable pub audit_of : String → Dict Json → Dict Bytes → Result SourceError Json
  unfolding audit_mlx audit_mlx_lm audit_transformers mlx_license_markers
  audit_of name artifacts payloads =
      if name == "mlx"
      then (do
        check_markers payloads "license" (name <> " license") mlx_license_markers
        audit_mlx artifacts payloads)
      else if name == "mlx_lm"
      then (do
        check_markers payloads "license" (name <> " license") mlx_license_markers
        audit_mlx_lm payloads)
      else audit_transformers payloads

  unfoldable pub audit_git_source : String → Entry → String → Result SourceError (Dict Json × Json)
  unfolding fetch_artifacts audit_of
  audit_git_source name entry revision = do
    paths ← git_paths name
    (artifacts, payloads) ← fetch_artifacts (raw_url entry.repository revision) paths
    audit ← audit_of name artifacts payloads
    ok (artifacts, audit)
