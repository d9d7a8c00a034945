-- ===== src/Sources/Tests.antt =====
-- A small library of answers, and the theorems at it.
use mlx_spark.Base.{
  String, ◌<>◌, [], ◌∷◌, false, Option, none, some, ◌≡◌, ◌↔◌, refl, string_eq, nat_eq, ◌==◌,
}
use mlx_spark.Base.Int.{pos, int_eq}
use mlx_spark.Base.Result.{ok}
use mlx_spark.Base.Sort.{sorted, distinct}
use mlx_spark.Base.Dict.{Dict, lookup}
use mlx_spark.Base.Text.{codes, codes_eq, is_digit, split, is_sha40}
use mlx_spark.Json.{
  Json, null, int, str, list, dict, Fields, Items, nil, cons, end, field, get, object, py_eq,
}
use mlx_spark.Sources.Library.{Library, Bytes, json_document}
use mlx_spark.Sources.Candidate.{
  validate_candidate, validate_sources, check_sources, check_source, check_fields, is_safe_ref,
}
use mlx_spark.Sources.Candidate.Exact.{IsCandidate, validate_candidate_iff}
use mlx_spark.Sources.Revision.{
  Entry, immutable, commit_url, model_url, resolve_git_revision, resolve_hf_revision,
}
use mlx_spark.Sources.Revision.Verified.{
  IsResolved, IsModel, resolve_git_revision-IsResolved, resolve_hf_revision-IsModel,
}
use mlx_spark.Sources.Weights.{
  shard_values, total_size_of, sibling_names, is_safe_shard, WeightManifest, weight_manifest,
}
use mlx_spark.Sources.Weights.Sound.{IsManifest, weight_manifest-IsManifest}
use mlx_spark.Sources.Write.{Step, OsError, other, link, atomic_write_new}
use mlx_spark.Sources.Write.Untouched.{Stage, atomic_write_new-Stage}

abbrev sha : String
sha = "0123456789abcdef0123456789abcdef01234567"

abbrev entry_of : String → String → Json
entry_of kind repository = object (
    ("kind", str kind)
    ∷ ("repository", str repository)
    ∷ ("revision", null)
    ∷ ("ref_to_resolve", str "main")
    ∷ ("role", str "source")
    ∷ [])

abbrev sources : Json
sources = object (
    ("mlx", entry_of "git" "ml-explore/mlx")
    ∷ ("mlx_lm", entry_of "git" "ml-explore/mlx-lm")
    ∷ ("transformers", entry_of "git" "huggingface/transformers")
    ∷ ("qwen3_8_27b", entry_of "hf_model" "Qwen/Qwen3.8-27B")
    ∷ [])

abbrev candidate : Fields
candidate = field "schema_version" (int (pos 1)) (field "sources" sources end)

accepted : validate_candidate (dict candidate) ≡ ok candidate
unfolding validate_candidate validate_sources check_sources check_source check_fields is_safe_ref
    string_eq nat_eq int_eq codes_eq is_sha40 split py_eq get
accepted = refl

validate_candidate_iff_example :
    (validate_candidate (dict candidate) ≡ ok candidate) ↔ IsCandidate (dict candidate) candidate
validate_candidate_iff_example = validate_candidate_iff (dict candidate) candidate

abbrev answer : Fields
answer = field "sha" (str sha) end

-- Every document is the same.
abbrev library : Library
library = record {
  loads = λ content. some (dict answer);
  canonical = λ v. [];
  sha256 = λ content. "";
  quote = λ ref. ref;
  fetch = λ url limit. ok (codes "answer");
}

abbrev entry : Entry
entry = record {
  kind = "git";
  repository = "ml-explore/mlx";
  revision = none;
  ref_to_resolve = some "main";
  role = "source";
}

resolve_git_revision-IsResolved_example :
    IsResolved library entry (sha, codes "answer", commit_url "ml-explore/mlx" sha)
unfolding resolve_git_revision string_eq nat_eq is_sha40 py_eq get json_document immutable
resolve_git_revision-IsResolved_example =
    resolve_git_revision-IsResolved library entry
      (sha, codes "answer", commit_url "ml-explore/mlx" sha) refl

resolve_hf_revision-IsModel_example :
    IsModel library entry
      (sha, codes "answer", answer, model_url "ml-explore/mlx" <> "/revision/" <> sha)
unfolding resolve_hf_revision string_eq nat_eq is_sha40 py_eq get json_document immutable
resolve_hf_revision-IsModel_example =
    resolve_hf_revision-IsModel library entry
      (sha, codes "answer", answer, model_url "ml-explore/mlx" <> "/revision/" <> sha) refl

abbrev shard : String
shard = "model-00001-of-00001.safetensors"

abbrev weights : Fields
weights = field "layer" (str shard) end

abbrev index : Fields
index =
    field "weight_map" (dict weights)
      (field "metadata" (dict (field "total_size" (int (pos 7)) end)) end)

abbrev siblings : Items
siblings = cons (dict (field "rfilename" (str shard) end)) nil

abbrev manifest : WeightManifest
manifest = record { tensor_count = 1; tensor_payload_bytes = 7; shard_filenames = shard ∷ [] }

weight_manifest-IsManifest_example :
    (fields : Fields) × (weight_map : Fields) × (xs : Items) × (dict index ≡ dict fields)
    × (get fields "weight_map" ≡ dict weight_map)
    × (list siblings ≡ list xs)
    × IsManifest is_digit weight_map xs manifest
unfolding weight_manifest shard_values total_size_of sibling_names is_safe_shard sorted distinct
    string_eq nat_eq codes_eq get
weight_manifest-IsManifest_example =
    weight_manifest-IsManifest is_digit (dict index) (list siblings) manifest refl

abbrev no_fault : Step → Option OsError
no_fault s = none

abbrev only_link : Step → Option OsError
only_link link = some other
only_link s = none

abbrev old_files : Dict Bytes
old_files = ("a", codes "old") ∷ []

apart : ◌==◌ {A = String} ".out.tmp" "out" ≡ false
unfolding string_eq
apart = refl

fresh : lookup ".out.tmp" old_files ≡ none
unfolding lookup string_eq
fresh = refl

vacant : lookup "out" old_files ≡ none
unfolding lookup string_eq
vacant = refl

atomic_write_new-Stage_example :
    Stage only_link [] ".out.tmp" "out"
      (codes "new")
      old_files
      (atomic_write_new only_link [] ".out.tmp" "out" (codes "new") old_files)
    × (lookup ".out.tmp" (atomic_write_new only_link [] ".out.tmp" "out" (codes "new") old_files).1
        ≡ none)
atomic_write_new-Stage_example =
    atomic_write_new-Stage only_link [] ".out.tmp" "out" (codes "new") apart refl old_files fresh
