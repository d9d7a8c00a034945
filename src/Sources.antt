-- ===== src/Sources.antt =====
-- tools/resolve_sources.py: from the source candidate to the source lock. What the program takes
-- from elsewhere is the section parameter `Library`: JSON and SHA-256, and URL quoting.
pub mod Candidate
pub mod Library
pub mod Revision
pub mod Tables
pub mod Audit
pub mod Weights
pub mod Model
pub mod Lock
pub mod Write
mod Tests
mod EndToEnd
use mlx_spark.Base.{ℕ, String, List, Option, Bool}
use mlx_spark.Json.{Json}

-- The exceptions: SourceAuditError by its message, and those that Python itself raises.
pub data SourceError : Type 0 where
  schema_version allowlist key_error type_error overflow_error no_weight_map unsafe_shards
        no_total_size bad_total_size no_siblings absent_shards not_apache config_not_object
        unexpected_model :
      SourceError
  config_differs : List String → SourceError
  not_an_object unexpected_identity neither revision_not_text revision_not_sha unsafe_ref both
        no_role invalid_json not_a_json_object missing_markers non_immutable pin_mismatch
        verification_failed :
      String → SourceError
