-- ===== src/Evidence/Tables.antt =====
-- The pinned revisions and hashes of tools/validate_fnd03_evidence.py, and its paths.
use mlx_spark.Base.{String, List, [], ◌∷◌}

-- EXPECTED_REVISIONS
abbrev pub expected_revisions : List (String × String)
expected_revisions =
    ("mlx", "365bd0fbac2e96631a1b2c4a34ca5a0771cdfde5")
    ∷ ("mlx_lm", "7fb4be44d560e5b74595210f83cb6003a57e52a7")
    ∷ ("transformers", "0df4ef369d324d4072e2910c673671eed4e92459")
    ∷ ("qwen3_8_27b", "1d4bf0f2ff6012fd82039f2fa52739d0dd7c60c0")
    ∷ []

-- EXPECTED_REVISIONS["qwen3_8_27b"]
abbrev pub qwen_revision : String
qwen_revision = "1d4bf0f2ff6012fd82039f2fa52739d0dd7c60c0"

-- EXPECTED_ARTIFACT_HASHES
abbrev pub expected_artifact_hashes : List (String × String × String)
expected_artifact_hashes =
    ("mlx", "license", "ccfab7ccb2ea306f71531c8ca77bb55507606cd90768b1e32b8b52ab5b48cf01")
    ∷ ("mlx", "root_cmake", "40d6674414f415096ebe3624ac91fbee9ea7069a69afcb44d60b7bfa56e331d6")
    ∷ ("mlx", "cuda_cmake", "7fe1af509fecffdeb6bdd7d88cfa83f2164ba7676e518e61021a4f1a69e6e676")
    ∷ ("mlx", "find_cudnn", "7a945752c982bc7cb029629eac833033944bd71a0d688d73ad71ff5a365c6173")
    ∷ ("mlx_lm", "license", "ccfab7ccb2ea306f71531c8ca77bb55507606cd90768b1e32b8b52ab5b48cf01")
    ∷ (
      "mlx_lm", "qwen3_5_reference",
      "14c4898a03567998e825cb1817942001871e979b9e0cefd3b4383cbbb61eddf3",
    )
    ∷ (
      "mlx_lm", "gated_delta_reference",
      "2b58508fc85875b28ba49defd34c9a9264e9502de171fa8114e5cb0598a447b2",
    )
    ∷ (
      "transformers", "license", "77fd4710def9ec3c0f6225800e0235f15a425abd4a8b03559127fcd782612049",
    )
    ∷ (
      "transformers", "qwen3_5_config",
      "19966c3200cee92cc4bccaef5f94550c56d731dbf03858a9bd2ed6aebcc3f7da",
    )
    ∷ (
      "transformers", "qwen3_5_modeling",
      "458360c8072e6130580639170ad3e645b975512dbabae31eab5f92de5f0f09ef",
    )
    ∷ (
      "transformers", "auto_mappings",
      "72fd4f61324bd4281e153a9ed8485c556a31a550df07b266ed83d24303428e1a",
    )
    ∷ (
      "transformers", "auto_modeling",
      "31d0fc246babd6eb78800123782ad1e0a0dc67481d8de12c7d246f7fb06148b1",
    )
    ∷ (
      "transformers", "auto_processing",
      "2ac6d6c9837e25eda9184c7a619708187aa564fcea96baf13ea7ff260e197517",
    )
    ∷ (
      "transformers", "auto_image_processing",
      "23c3a6fe0c7f1b9d520856379c80210ffb1c0868d1b892a730029da9610da251",
    )
    ∷ (
      "transformers", "auto_video_processing",
      "2dabbaf2fb5574631c6d08146035b8a25bd0e430a9eb5da0dcfe3746a1b14c06",
    )
    ∷ (
      "transformers", "hub_kernels",
      "c1eafefe0cbdf7f0deaa21b1ef6cb6d7c6082b3f486651d069ff38fcf3e53c95",
    )
    ∷ ("qwen3_8_27b", "license", "bbedc3fda3305820b977265f01b8619d87570a6739de3a5582c3464840f1e57a")
    ∷ (
      "qwen3_8_27b", "model_card",
      "57e4bdb258ee1a7d2635c5174ebd4e56abe392505cdb5f8bbb356b0dc4293641",
    )
    ∷ ("qwen3_8_27b", "config", "191e0af232104ed8b65258cf3fb2b842e288008baca7633c11b82a1ac7203aab")
    ∷ (
      "qwen3_8_27b", "weight_index",
      "77042094076611b69791a610065f28b7013b8c621795fa86ddccc8bac7d1b9df",
    )
    ∷ (
      "qwen3_8_27b", "tokenizer_config",
      "b11349aafa7cdc6a320767cf7ceb29ed82f7eda5d65e8e0819e76f0ce947bf27",
    )
    ∷ (
      "qwen3_8_27b", "generation_config",
      "e70c136c1b78ddc1fb0905bac8e733a4dc448d4f852a5dd75143fffc70be550e",
    )
    ∷ (
      "qwen3_8_27b", "image_preprocessor_config",
      "27225450ac9c6529872ee1924fcb0962ff5634834f817040f444118116f4e516",
    )
    ∷ (
      "qwen3_8_27b", "video_preprocessor_config",
      "7768af27c1fafa9cc9011c1dc20067e03f8915e03b63504550e11d5066986d13",
    )
    ∷ []

-- EXPECTED_ARTIFACT_HASHES[("qwen3_8_27b", "config")]
abbrev pub config_hash : String
config_hash = "191e0af232104ed8b65258cf3fb2b842e288008baca7633c11b82a1ac7203aab"

-- EXPECTED_ARTIFACT_HASHES[("qwen3_8_27b", "weight_index")]
abbrev pub weight_index_hash : String
weight_index_hash = "77042094076611b69791a610065f28b7013b8c621795fa86ddccc8bac7d1b9df"

-- EXPECTED_ARTIFACT_HASHES[("qwen3_8_27b", "tokenizer_config")]
abbrev pub tokenizer_config_hash : String
tokenizer_config_hash = "b11349aafa7cdc6a320767cf7ceb29ed82f7eda5d65e8e0819e76f0ce947bf27"

-- EXPECTED_TRANSITIVE_REVISIONS
abbrev pub expected_transitive_revisions : List (String × String)
expected_transitive_revisions =
    ("cccl", "d69eb55e0a0f6d55ca2af4c4edb2c7055c003993")
    ∷ ("nvtx", "6230bdf710bc94f44d433acceba735aaa9090ba5")
    ∷ ("cudnn_frontend", "be6c079be8aaffa0fc079fcf039887e637c289c7")
    ∷ ("cutlass", "da5e086dab31d63815acafdac9a9c5893b1c69e2")
    ∷ ("nlohmann_json", "9cca280a4d0ccf0c08f47a99aa71d1b0e52f8d03")
    ∷ ("fmt", "407c905e45ad75fc29bf0f9bb7c5c2fd3475976f")
    ∷ ("nanobind", "db4827f06f6f1680e5d4004c95fc8d69299dba8b")
    ∷ []

abbrev pub local_snapshot_raw_sha256 : String
local_snapshot_raw_sha256 = "7718cd6bf3d6521d5550966d4ab8484fc81a01347d74b7e52163070f35ca7f35"

abbrev pub canonical_config_sha256 : String
canonical_config_sha256 = "137754ebd46991bec0c0d9e660dc98256be0b20f0e825b28c95c31de6142d041"

abbrev pub hf_selected_metadata_sha256 : String
hf_selected_metadata_sha256 = "427e7b48ad24338145516b7dffc3a1f64b833a1c9ef07d1297fbbd79eeeaccc8"

abbrev pub lock_path : String
lock_path = "configs/source-lock.resolved.json"

abbrev pub run_path : String
run_path = "evidence/runs/fnd-03/run.json"

abbrev pub cache_path : String
cache_path = "evidence/runs/fnd-03/weight-cache-probe.stdout.log"

abbrev pub provenance_path : String
provenance_path = "configs/models/qwen3.8-27b.provenance.json"

abbrev pub pinned_input_path : String
pinned_input_path = "evidence/runs/fnd-03/source-lock.pinned-input.json"

abbrev pub snapshot_path : String
snapshot_path = "configs/models/qwen3.8-27b.config.snapshot.json"

-- the names of a table
abbrev pub names_of : List (String × String) → List String
names_of [] = []
names_of ((name, value) ∷ rest) = name ∷ names_of rest
