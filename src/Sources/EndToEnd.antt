-- ===== src/Sources/EndToEnd.antt =====
-- A whole run at a library whose every document is the same: it is the candidate, the metadata of
-- each host, the configuration and the weight index, and it holds every marker.
use mlx_spark.Base.{
  String, List, [], ◌∷◌, ◌++◌, Bool, true, false, Option, none, some, ◌≡◌, refl, string_eq, nat_eq,
  ◌==◌, if◌then◌else◌,
}
use mathlib.Core.Path.{subst}
use mlx_spark.Base.Int.{pos, int_eq}
use mlx_spark.Base.Sort.{sorted, distinct}
use mlx_spark.Base.Result.{Result, ok, err}
use mlx_spark.Base.Dict.{Dict, lookup, insert}
use mlx_spark.Base.Text.{codes, codes_eq, is_digit, split, is_sha40}
use mlx_spark.Json.{
  Json, null, int, str, dict, Fields, end, field, get, find, object, array, texts, py_eq,
}
use mlx_spark.Json.Lawful.{IsJson}
use mlx_spark.Compare.{json_diff}
use mlx_spark.Evidence
use mlx_spark.Evidence.{invalid}
use mlx_spark.Evidence.Tables.{lock_path, run_path, cache_path, provenance_path, pinned_input_path}
use mlx_spark.Evidence.Validate.{main_outcome, exits}
use mlx_spark.Evidence.Validate.Fresh.{main_outcome-build_lock}
use mlx_spark.Sources.{SourceError}
use mlx_spark.Sources.Library.{
  Library, Bytes, json_document, parse_json, require_markers, artifact_record,
  canonical_json_sha256, optional_hash, as_object,
}
use mlx_spark.Sources.Candidate.{
  validate_candidate, validate_sources, check_sources, check_source, check_fields, is_safe_ref,
  expected_sources,
}
use mlx_spark.Sources.Candidate.Exact.{IsCandidate}
use mlx_spark.Sources.Revision.{
  Entry, immutable, resolve_git_revision, resolve_hf_revision, discover_git, discover_hf,
}
use mlx_spark.Sources.Audit.{
  payload, check_markers, artifact_sha256, fetch_artifacts, resolve_transitive, mlx_license_markers,
  apache_markers, root_cmake_markers, cuda_cmake_markers, audit_mlx, audit_mlx_lm,
  audit_transformers, audit_of, audit_git_source,
}
use mlx_spark.Sources.Audit.Pinned.{ArePinned, resolve_transitive-ArePinned}
use mlx_spark.Sources.Tables.{transitive_sources}
use mlx_spark.Sources.Weights.{
  weight_manifest, shard_values, total_size_of, sibling_names, is_safe_shard,
}
use mlx_spark.Sources.Model.{
  item, artifact_field, declares_apache, as_config, require_same, parse_if_json, fetch_documents,
  audit_config, audit_qwen_source, resolve_url,
}
use mlx_spark.Sources.Model.Same.{IsAudited, audit_qwen_source-IsAudited}
use mlx_spark.Sources.Lock.{
  candidate_entry, text_field, read_entry, card_license, lock_git, selected, lock_model,
  lock_source, lock_sources, lock_of, timestamp, build_lock,
}
use mlx_spark.Sources.Lock.Locked.{AreLocked, build_lock-AreLocked}
use mlx_spark.Sources.Write.{
  Step, OsError, Files, Arguments, RunError, run, prepare, read_bytes, atomic_write_new, fill,
  then_link, link_new, clean_up, without,
}
use mlx_spark.Sources.Write.Run.{IsPrepared, run-IsPrepared}

abbrev sha : String
sha = "0123456789abcdef0123456789abcdef01234567"

abbrev shard : String
shard = "model-00001-of-00001.safetensors"

abbrev entry_of : String → String → Json
entry_of kind repository = object (
    ("kind", str kind)
    ∷ ("repository", str repository)
    ∷ ("ref_to_resolve", str "main")
    ∷ ("role", str "source")
    ∷ [])

abbrev document : Fields
document = field "schema_version" (int (pos 1)) (
    field "sources"
      (object (
        ("mlx", entry_of "git" "ml-explore/mlx")
        ∷ ("mlx_lm", entry_of "git" "ml-explore/mlx-lm")
        ∷ ("transformers", entry_of "git" "huggingface/transformers")
        ∷ ("qwen3_8_27b", entry_of "hf_model" "Qwen/Qwen3.8-27B")
        ∷ []))
      (field "sha" (str sha) (
        field "cardData" (object (("license", str "apache-2.0") ∷ [])) (
          field "model_type" (str "qwen3_5") (
            field "architectures" (texts ("Qwen3_5ForConditionalGeneration" ∷ [])) (
              field "weight_map" (object (("layer", str shard) ∷ [])) (
                field "metadata" (object (("total_size", int (pos 7)) ∷ [])) (
                  field "siblings" (array (object (("rfilename", str shard) ∷ []) ∷ [])) end))))))))

abbrev content : Bytes
content =
    codes "https://github.com/nlohmann/json/releases/download/v3.11.3/"
    ++ codes "GIT_REPOSITORY https://github.com/NVIDIA/cudnn-frontend.git"
    ++ codes "(\"qwen3_5\", {\"torchvision\": \"Qwen2VLImageProcessor\""
    ++ codes "CMAKE_CUDA_COMPILER_VERSION VERSION_GREATER_EQUAL 12.8.0"
    ++ codes "https://github.com/NVIDIA/cccl/releases/download/v3.1.3/"
    ++ codes "GIT_REPOSITORY https://github.com/wjakob/nanobind.git"
    ++ codes "GIT_REPOSITORY https://github.com/NVIDIA/cutlass.git"
    ++ codes "(\"qwen3_5\", \"Qwen3_5ForConditionalGeneration\")"
    ++ codes "GIT_REPOSITORY https://github.com/NVIDIA/NVTX.git"
    ++ codes "GIT_REPOSITORY https://github.com/fmtlib/fmt.git"
    ++ codes "Permission is hereby granted, free of charge"
    ++ codes "(\"qwen3_5\", \"Qwen3VLVideoProcessor\")"
    ++ codes "MLX_CUDA_ARCHITECTURES GREATER_EQUAL 90"
    ++ codes "class Qwen3_5ForConditionalGeneration"
    ++ codes "CUDA Toolkit 13.1 is not supported."
    ++ codes "(\"qwen3_5\", \"Qwen3VLProcessor\")"
    ++ codes "find_package(CUDAToolkit REQUIRED)"
    ++ codes "(\"qwen3_5\", \"Qwen3_5Config\")"
    ++ codes "VERSION_GREATER_EQUAL \"13.1\""
    ++ codes "find_package(CUDNN REQUIRED)"
    ++ codes "class Qwen3_5GatedDeltaNet"
    ++ codes "Version 2.0, January 2004"
    ++ codes "model_type = \"qwen3_5\""
    ++ codes "class Qwen3_5TextModel"
    ++ codes "VERSION_LESS \"13.2\""
    ++ codes "--compress-mode=size"
    ++ codes "class Qwen3_5Config"
    ++ codes "license: apache-2.0"
    ++ codes "__nvcc_device_query"
    ++ codes "CUDNN_MAJOR_VERSION"
    ++ codes "class GatedDeltaNet"
    ++ codes "CUDNN::cudnn_all"
    ++ codes "GIT_TAG v1.16.0"
    ++ codes "USE_HUB_KERNELS"
    ++ codes "Apache License"
    ++ codes "GIT_TAG 12.1.0"
    ++ codes "GIT_TAG v3.1.1"
    ++ codes "GIT_TAG v3.0.1"
    ++ codes "GIT_TAG v4.4.2"
    ++ codes "Qwen3.8-27B"
    ++ codes "class Model"
    ++ codes "use_kernels"
    ++ codes "MIT License"

abbrev library : Library
library = record {
  loads = λ bytes. some (dict document);
  canonical = λ v. [];
  sha256 = λ bytes. "";
  quote = λ ref. ref;
  fetch = λ url limit. ok content;
}

abbrev json_of : Result SourceError Json → Json
json_of (ok v) = v
json_of (err e) = null

abbrev is_ok : Result SourceError Json → Bool
is_ok (ok v) = true
is_ok (err e) = false

some-injective : {a b : Json} → ◌≡◌ {A = Option Json} (some a) (some b) → a ≡ b
some-injective h = cc

is_ok-json_of : (r : Result SourceError Json) → is_ok r ≡ true → r ≡ ok (json_of r)
is_ok-json_of (ok v) h = refl
is_ok-json_of (err e) h = cc

abbrev lock_result : Result SourceError Json
lock_result = build_lock library is_digit content content (some "2026") "2027"

builds : is_ok lock_result ≡ true
unfolding build_lock lock_sources lock_source candidate_entry read_entry text_field lock_git
    lock_model card_license selected validate_candidate validate_sources check_sources check_source
    check_fields is_safe_ref is_sha40 split resolve_git_revision resolve_hf_revision discover_git
    discover_hf immutable json_document parse_json as_object audit_git_source fetch_artifacts
    audit_of audit_mlx audit_mlx_lm audit_transformers resolve_transitive check_markers payload
    artifact_sha256 mlx_license_markers apache_markers root_cmake_markers cuda_cmake_markers
    require_markers artifact_record optional_hash canonical_json_sha256 audit_qwen_source
    fetch_documents parse_if_json declares_apache item audit_config as_config require_same
    artifact_field json_diff weight_manifest shard_values total_size_of sibling_names is_safe_shard
    sorted distinct lookup get find py_eq string_eq nat_eq int_eq codes_eq
builds = refl

build_lock-AreLocked_example :
    (value : Json) × (candidate : Fields) × (library.loads content ≡ some value)
    × ((c : IsCandidate value candidate) × (records : List (String × Json)) × (json_of lock_result
          ≡ lock_of library is_digit content content (timestamp (some "2026") "2027") records)
        × AreLocked library is_digit content c.sources expected_sources records)
build_lock-AreLocked_example =
    build_lock-AreLocked library is_digit content content (some "2026") "2027" (json_of lock_result)
      (is_ok-json_of lock_result builds)

lawful : IsJson (dict document)
unfolding string_eq
lawful = (
  refl,
  tt,
  (
    refl,
    (
      refl,
      (refl, tt, (refl, tt, (refl, tt, (refl, tt, tt)))),
      (
        refl,
        (refl, tt, (refl, tt, (refl, tt, (refl, tt, tt)))),
        (
          refl,
          (refl, tt, (refl, tt, (refl, tt, (refl, tt, tt)))),
          (refl, (refl, tt, (refl, tt, (refl, tt, (refl, tt, tt)))), tt),
        ),
      ),
    ),
    (
      refl,
      tt,
      (
        refl,
        (refl, tt, tt),
        (
          refl,
          tt,
          (
            refl,
            (tt, tt),
            (refl, (refl, tt, tt), (refl, (refl, tt, tt), (refl, ((refl, tt, tt), tt), tt))),
          ),
        ),
      ),
    ),
  ),
)

lawful_loads : (bytes : Bytes) (v : Json) → library.loads bytes ≡ some v → IsJson v
lawful_loads bytes v h = subst IsJson (some-injective h) lawful

abbrev entry : Entry
entry = record {
  kind = "hf_model";
  repository = "Qwen/Qwen3.8-27B";
  revision = none;
  ref_to_resolve = some "main";
  role = "source";
}

abbrev audit_result : Result SourceError (Dict Json × Json)
audit_result = audit_qwen_source library is_digit entry sha document content

abbrev audit_of_result : Result SourceError (Dict Json × Json) → Dict Json × Json
audit_of_result (ok v) = v
audit_of_result (err e) = ([], null)

abbrev is_audit : Result SourceError (Dict Json × Json) → Bool
is_audit (ok v) = true
is_audit (err e) = false

is_audit-audit_of_result :
    (r : Result SourceError (Dict Json × Json)) → is_audit r ≡ true → r ≡ ok (audit_of_result r)
is_audit-audit_of_result (ok v) h = refl
is_audit-audit_of_result (err e) h = cc

audits : is_audit audit_result ≡ true
unfolding audit_qwen_source fetch_documents parse_if_json parse_json declares_apache item
    audit_config as_config require_same artifact_field check_markers payload require_markers
    artifact_record optional_hash canonical_json_sha256 json_diff weight_manifest shard_values
    total_size_of sibling_names is_safe_shard sorted distinct lookup get find py_eq string_eq nat_eq
    int_eq codes_eq
audits = refl

audit_qwen_source-IsAudited_example :
    IsAudited library is_digit
      (resolve_url library is_digit "Qwen/Qwen3.8-27B" sha)
      document
      content
audit_qwen_source-IsAudited_example =
    audit_qwen_source-IsAudited library is_digit lawful_loads entry sha document content
      (audit_of_result audit_result) (is_audit-audit_of_result audit_result audits)

abbrev no_fault : Step → Option OsError
no_fault s = none

abbrev files : Files
files = ("candidate", content) ∷ ("snapshot", content) ∷ []

abbrev arguments : Arguments
arguments = record {
  allow_network = true;
  candidate = "candidate";
  snapshot = "snapshot";
  output = "out";
}

abbrev run_result : Result RunError (Unit {0}) × Files
run_result =
    run library is_digit "2027" (λ lock. codes "lock") no_fault [] ".out.tmp" arguments files

abbrev is_done : Result RunError (Unit {0}) × Files → Bool
is_done (ok _, out) = true
is_done (err e, out) = false

is_done-eq-ok : (m : Result RunError (Unit {0}) × Files) → is_done m ≡ true → m ≡ (ok tt, m.1)
is_done-eq-ok (ok tt, out) h = refl
is_done-eq-ok (err e, out) h = cc

runs : is_done run_result ≡ true
unfolding run prepare read_bytes atomic_write_new fill then_link link_new clean_up without insert
    build_lock lock_sources lock_source candidate_entry read_entry text_field lock_git lock_model
    card_license selected validate_candidate validate_sources check_sources check_source
    check_fields is_safe_ref is_sha40 split resolve_git_revision resolve_hf_revision discover_git
    discover_hf immutable json_document parse_json as_object audit_git_source fetch_artifacts
    audit_of audit_mlx audit_mlx_lm audit_transformers resolve_transitive check_markers payload
    artifact_sha256 mlx_license_markers apache_markers root_cmake_markers cuda_cmake_markers
    require_markers artifact_record optional_hash canonical_json_sha256 audit_qwen_source
    fetch_documents parse_if_json declares_apache item audit_config as_config require_same
    artifact_field json_diff weight_manifest shard_values total_size_of sibling_names is_safe_shard
    sorted distinct lookup get find py_eq string_eq nat_eq int_eq codes_eq
runs = refl

apart : ◌==◌ {A = String} ".out.tmp" "out" ≡ false
unfolding string_eq
apart = refl

fresh : lookup ".out.tmp" files ≡ none
unfolding lookup string_eq
fresh = refl

run-IsPrepared_example :
    (bytes : Bytes) × IsPrepared library is_digit "2027"
      (λ lock. codes "lock")
      arguments
      files
      bytes
    × (lookup "out" run_result.1 ≡ some bytes)
    × ((p : String) → ("out" == p) ≡ false → lookup p run_result.1 ≡ lookup p files)
run-IsPrepared_example =
    run-IsPrepared library is_digit "2027" (λ lock. codes "lock") no_fault [] ".out.tmp" arguments
      files run_result.1 apart refl fresh (is_done-eq-ok run_result runs)

abbrev payloads : Dict Bytes
payloads = ("root_cmake", content) ∷ ("cuda_cmake", content) ∷ []

abbrev hashed : Json
hashed = object (("sha256", str "") ∷ [])

abbrev artifacts : Dict Json
artifacts = ("root_cmake", hashed) ∷ ("cuda_cmake", hashed) ∷ []

abbrev pins_result : Result SourceError (List (String × Json))
pins_result = resolve_transitive library payloads artifacts transitive_sources

abbrev pins_of : Result SourceError (List (String × Json)) → List (String × Json)
pins_of (ok v) = v
pins_of (err e) = []

abbrev are_pins : Result SourceError (List (String × Json)) → Bool
are_pins (ok v) = true
are_pins (err e) = false

are_pins-pins_of :
    (r : Result SourceError (List (String × Json))) → are_pins r ≡ true → r ≡ ok (pins_of r)
are_pins-pins_of (ok v) h = refl
are_pins-pins_of (err e) h = cc

pins : are_pins pins_result ≡ true
unfolding resolve_transitive check_markers payload require_markers artifact_sha256
    resolve_git_revision discover_git immutable json_document parse_json as_object is_sha40 lookup
    get find py_eq string_eq nat_eq int_eq codes_eq
pins = refl

resolve_transitive-ArePinned_example :
    ArePinned library payloads transitive_sources (pins_of pins_result)
resolve_transitive-ArePinned_example =
    resolve_transitive-ArePinned library payloads artifacts transitive_sources (pins_of pins_result)
      (are_pins-pins_of pins_result pins)

-- The lock that was built, beside records that are empty dicts.
abbrev evidence_files : Evidence.Files
unfolding string_eq
evidence_files = record {
  load = λ path. if path == lock_path then ok (json_of lock_result) else ok (dict end);
  sha256 = λ path. ok "";
  is_file = λ path. true;
  canonical_sha256 = λ v. ok "";
  dumps = λ v. [];
  lower = λ cs. cs;
  same = λ c d. true;
}

loads_lock : evidence_files.load lock_path ≡ ok (json_of lock_result)
unfolding evidence_files string_eq
loads_lock = refl

abbrev LoadsEmpty : String → Type 0
LoadsEmpty path = evidence_files.load path ≡ ok (dict end)

loads_others :
    LoadsEmpty run_path
    × LoadsEmpty cache_path
    × LoadsEmpty provenance_path
    × LoadsEmpty pinned_input_path
unfolding evidence_files string_eq
loads_others = (refl, refl, refl, refl)

main_outcome-build_lock_example :
    main_outcome false evidence_files ≡ exits (invalid "source lock is not independently approved")
main_outcome-build_lock_example =
    main_outcome-build_lock library is_digit content content (some "2026") "2027"
      (json_of lock_result) evidence_files end end end end (is_ok-json_of lock_result builds)
      loads_lock loads_others.0 loads_others.1 loads_others.2 loads_others.3
