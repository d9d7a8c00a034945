-- ===== src/Sources/Tables.antt =====
-- The audited paths, transitive sources and markers of tools/resolve_sources.py.
use mlx_spark.Base.{String, List, [], ◌∷◌}

-- GIT_AUDIT_PATHS, for "mlx", "mlx_lm" and "transformers": artifact name and source path
abbrev pub mlx_paths : List (String × String)
mlx_paths =
    ("license", "LICENSE")
    ∷ ("root_cmake", "CMakeLists.txt")
    ∷ ("cuda_cmake", "mlx/backend/cuda/CMakeLists.txt")
    ∷ ("find_cudnn", "cmake/FindCUDNN.cmake")
    ∷ []

abbrev pub mlx_lm_paths : List (String × String)
mlx_lm_paths =
    ("license", "LICENSE")
    ∷ ("qwen3_5_reference", "mlx_lm/models/qwen3_5.py")
    ∷ ("gated_delta_reference", "mlx_lm/models/gated_delta.py")
    ∷ []

abbrev pub transformers_paths : List (String × String)
transformers_paths =
    ("license", "LICENSE")
    ∷ ("qwen3_5_config", "src/transformers/models/qwen3_5/configuration_qwen3_5.py")
    ∷ ("qwen3_5_modeling", "src/transformers/models/qwen3_5/modeling_qwen3_5.py")
    ∷ ("auto_mappings", "src/transformers/models/auto/auto_mappings.py")
    ∷ ("auto_modeling", "src/transformers/models/auto/modeling_auto.py")
    ∷ ("auto_processing", "src/transformers/models/auto/processing_auto.py")
    ∷ ("auto_image_processing", "src/transformers/models/auto/image_processing_auto.py")
    ∷ ("auto_video_processing", "src/transformers/models/auto/video_processing_auto.py")
    ∷ ("hub_kernels", "src/transformers/integrations/hub_kernels.py")
    ∷ []

-- QWEN_AUDIT_PATHS; the flag is `source_path.endswith(".json")`
abbrev pub qwen_paths : List (String × String)
qwen_paths =
    ("license", "LICENSE")
    ∷ ("model_card", "README.md")
    ∷ ("config", "config.json")
    ∷ ("weight_index", "model.safetensors.index.json")
    ∷ ("tokenizer_config", "tokenizer_config.json")
    ∷ ("generation_config", "generation_config.json")
    ∷ ("image_preprocessor_config", "preprocessor_config.json")
    ∷ ("video_preprocessor_config", "video_preprocessor_config.json")
    ∷ []

-- An entry of MLX_TRANSITIVE_SOURCES with its MLX_TRANSITIVE_DECLARATION_MARKERS.
pub record Transitive : Type 0 where
  pub name : String
  pub repository : String
  pub ref : String
  pub declared_in : String
  pub markers : List String

abbrev pub transitive_sources : List Transitive
transitive_sources =
    record {
      name = "cccl";
      repository = "NVIDIA/cccl";
      ref = "v3.1.3";
      declared_in = "cuda_cmake";
      markers = "https://github.com/NVIDIA/cccl/releases/download/v3.1.3/" ∷ [];
    }
    ∷ record {
      name = "nvtx";
      repository = "NVIDIA/NVTX";
      ref = "v3.1.1";
      declared_in = "cuda_cmake";
      markers = "GIT_REPOSITORY https://github.com/NVIDIA/NVTX.git" ∷ "GIT_TAG v3.1.1" ∷ [];
    }
    ∷ record {
      name = "cudnn_frontend";
      repository = "NVIDIA/cudnn-frontend";
      ref = "v1.16.0";
      declared_in = "cuda_cmake";
      markers =
          "GIT_REPOSITORY https://github.com/NVIDIA/cudnn-frontend.git" ∷ "GIT_TAG v1.16.0" ∷ [];
    }
    ∷ record {
      name = "cutlass";
      repository = "NVIDIA/cutlass";
      ref = "v4.4.2";
      declared_in = "cuda_cmake";
      markers = "GIT_REPOSITORY https://github.com/NVIDIA/cutlass.git" ∷ "GIT_TAG v4.4.2" ∷ [];
    }
    ∷ record {
      name = "nlohmann_json";
      repository = "nlohmann/json";
      ref = "v3.11.3";
      declared_in = "root_cmake";
      markers = "https://github.com/nlohmann/json/releases/download/v3.11.3/" ∷ [];
    }
    ∷ record {
      name = "fmt";
      repository = "fmtlib/fmt";
      ref = "12.1.0";
      declared_in = "root_cmake";
      markers = "GIT_REPOSITORY https://github.com/fmtlib/fmt.git" ∷ "GIT_TAG 12.1.0" ∷ [];
    }
    ∷ record {
      name = "nanobind";
      repository = "wjakob/nanobind";
      ref = "v3.0.1";
      declared_in = "root_cmake";
      markers = "GIT_REPOSITORY https://github.com/wjakob/nanobind.git" ∷ "GIT_TAG v3.0.1" ∷ [];
    }
    ∷ []
