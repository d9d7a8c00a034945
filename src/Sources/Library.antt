-- ===== src/Sources/Library.antt =====
-- What tools/resolve_sources.py takes from elsewhere, and its helpers over that: `fetch` as it is
-- handed in, JSON and SHA-256 from Python's library.
use mlx_spark.Base.{arith, ℕ, String, ◌≡◌, List, [], ◌∷◌, Option, none, some, ◌*◌, length}
use mlx_spark.Base.Result.{Result, ok, err, ◌>>=◌, ◌>>◌, require, >>=-eq-ok}
use mlx_spark.Base.Text.{includes, codes}
use mlx_spark.Base.Int.{pos}
use mlx_spark.Json.{Json, null, str, int, dict, Fields, as_dict, object}
use mlx_spark.Sources.{SourceError, invalid_json, not_a_json_object, missing_markers}

abbrev pub Bytes : Type 0
Bytes = List ℕ

-- `loads` is `none` where `json.loads` raises; `canonical` is the compact encoding with sorted
-- keys; `quote` is `urllib.parse.quote` with no safe characters; `fetch` may raise.
pub record Library : Type 0 where
  pub loads : Bytes → Option Json
  pub canonical : Json → Bytes
  pub sha256 : Bytes → String
  pub quote : String → String
  pub fetch : String → ℕ → Result SourceError Bytes

abbrev pub max_api_bytes : ℕ
max_api_bytes = 8 * 1024 * 1024

abbrev pub max_metadata_bytes : ℕ
max_metadata_bytes = 16 * 1024 * 1024

abbrev pub number_of : ℕ → Json
number_of n = int (pos n)

-- `require_markers`: every marker stands in the data.
unfoldable pub require_markers : Bytes → String → List String → Result SourceError (Unit {0})
require_markers content label [] = ok tt
require_markers content label (m ∷ ms) = do
  require (includes content (codes m)) (missing_markers label)
  require_markers content label ms

module _ (lib : Library) where
  unfoldable pub canonical_json_sha256 : Json → String
  canonical_json_sha256 value = lib.sha256 (lib.canonical value)

  unfoldable pub parse_json : Bytes → String → Result SourceError Json
  parse_json content label = elim (lib.loads content) [
    | none ↦ err (invalid_json label)
    | some value ↦ ok value
  ]

  -- `if json_value is not None`, where a document that is null is None too
  unfoldable pub optional_hash : Option Json → List (String × Json)
  unfolding canonical_json_sha256
  optional_hash none = []
  optional_hash (some null) = []
  optional_hash (some value) = ("canonical_json_sha256", str (canonical_json_sha256 value)) ∷ []

  unfoldable pub artifact_record : String → String → Bytes → Option Json → Json
  unfolding optional_hash
  artifact_record url source_path content json_value = object (
      ("source_path", str source_path)
      ∷ ("url", str url)
      ∷ ("bytes", number_of (length content))
      ∷ ("sha256", str (lib.sha256 content))
      ∷ optional_hash json_value)

  unfoldable pub optional_metadata : Option Json → List (String × Json)
  unfolding canonical_json_sha256
  optional_metadata none = []
  optional_metadata (some metadata) =
      ("selected_metadata", metadata)
      ∷ ("selected_metadata_sha256", str (canonical_json_sha256 metadata))
      ∷ []

  unfoldable pub exact_revision_record : String → String → String → String → Option Json → Json
  unfolding optional_metadata canonical_json_sha256
  exact_revision_record url source_path repository revision selected_metadata =
      let identity = object (("repository", str repository) ∷ ("revision", str revision) ∷ []) in
      object (
        ("source_path", str source_path)
        ∷ ("url", str url)
        ∷ ("verified_revision", str revision)
        ∷ ("identity_sha256", str (canonical_json_sha256 identity))
        ∷ optional_metadata selected_metadata)

  unfoldable pub as_object : Bytes → String → Json → Result SourceError (Bytes × Fields)
  as_object content label value = elim (as_dict value) [
    | none ↦ err (not_a_json_object label)
    | some fields ↦ ok (content, fields)
  ]

  -- `_json_document`
  unfoldable pub json_document : String → String → Result SourceError (Bytes × Fields)
  unfolding parse_json as_object
  json_document url label = do
    content ← lib.fetch url max_api_bytes
    value ← parse_json content label
    as_object content label value

  as_object-eq-ok :
      (content c : Bytes) (label : String) (value : Json) (fields : Fields)
      → as_object c label value ≡ ok (content, fields)
      → (c ≡ content) × (value ≡ dict fields)
  unfolding as_object
  as_object-eq-ok content c label (dict fs) fields h = (ground arith, ground arith)
  as_object-eq-ok content c label value fields h = cc

  pub parse_json-eq-ok :
      (content : Bytes) (label : String) (value : Json)
      → parse_json content label ≡ ok value
      → lib.loads content ≡ some value
  unfolding parse_json
  parse_json-eq-ok content label value h = ground arith

  pub json_document-eq-ok :
      (url label : String) (content : Bytes) (fields : Fields)
      → json_document url label ≡ ok (content, fields)
      → (lib.fetch url max_api_bytes ≡ ok content) × (lib.loads content ≡ some (dict fields))
  unfolding json_document
  json_document-eq-ok url label content fields h =
      let (c, fetched, h₁) = >>=-eq-ok (lib.fetch url max_api_bytes) _ h in
      let (value, parsed, h₂) = >>=-eq-ok (parse_json c label) _ h₁ in
      let (same, is_dict) = as_object-eq-ok content c label value fields h₂ in
      let loaded = parse_json-eq-ok c label value parsed in
      (rw same at fetched, rw (same, is_dict) at loaded)
