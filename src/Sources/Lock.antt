-- ===== src/Sources/Lock.antt =====
-- `build_lock`: the source lock, from the candidate and the snapshot.
pub mod Locked
use mlx_spark.Base.{
  ℕ, String, ◌<>◌, List, [], ◌∷◌, Bool, true, false, Option, none, some, not, string_eq, ◌==◌,
  if◌then◌else◌,
}
use mlx_spark.Base.Result.{Result, ok, err, ◌>>=◌, ◌>>◌}
use mlx_spark.Base.Dict.{Dict}
use mlx_spark.Base.Sort.{sorted}
use mlx_spark.Json.{
  Json, null, str, bool, Fields, object, texts, as_dict, as_str, find, get, elements,
}
use mlx_spark.Sources.{SourceError, key_error, type_error, not_apache}
use mlx_spark.Sources.Library.{Library, Bytes, number_of, parse_json, exact_revision_record}
use mlx_spark.Sources.Candidate.{Expected, expected_sources, validate_candidate}
use mlx_spark.Sources.Revision.{Entry, resolve_git_revision, resolve_hf_revision}
use mlx_spark.Sources.Audit.{audit_git_source}
use mlx_spark.Sources.Weights.{sibling_list, sibling_names}
use mlx_spark.Sources.Model.{audit_qwen_source}

-- `candidate["sources"][name]`
unfoldable pub candidate_entry : Fields → String → Result SourceError Fields
candidate_entry candidate name = elim (as_dict (get candidate "sources")) [
  | none ↦ err type_error
  | some sources ↦ elim (find name sources) [
    | none ↦ err key_error
    | some v ↦ elim (as_dict v) [ none ↦ err type_error | some fields ↦ ok fields ]
  ]
]

-- `entry[key]` for the fields that the code puts into a text
unfoldable pub text_field : Fields → String → Result SourceError String
text_field entry key = elim (as_str (get entry key)) [ none ↦ err type_error | some s ↦ ok s ]

-- The entry with its fields at the types that `validate_candidate` checked.
unfoldable pub read_entry : Fields → Result SourceError Entry
unfolding text_field
read_entry entry = do
  kind ← text_field entry "kind"
  repository ← text_field entry "repository"
  role ← text_field entry "role"
  ok (record {
    kind = kind;
    repository = repository;
    revision = as_str (get entry "revision");
    ref_to_resolve = as_str (get entry "ref_to_resolve");
    role = role;
  })

-- `exact_model_metadata.get("cardData", {}).get("license")`
unfoldable pub card_license : Fields → Result SourceError Json
card_license metadata = elim (as_dict (get metadata "cardData")) [
  | none ↦ err type_error
  | some card ↦ ok (get card "license")
]

-- `resolved_at or now`
abbrev pub timestamp : Option String → String → String
timestamp none now = now
timestamp (some at) now = if at == "" then now else at

abbrev pub source_record : Entry → String → Json → Dict Json → Json → Json
source_record entry revision exact artifacts audit = object (
    ("kind", str entry.kind)
    ∷ ("repository", str entry.repository)
    ∷ ("revision", str revision)
    ∷ ("role", str entry.role)
    ∷ ("exact_revision_metadata", exact)
    ∷ ("artifacts", object artifacts)
    ∷ ("audit", audit)
    ∷ [])

abbrev pub safety : Json
safety = object (
    ("network_opt_in_required", bool true)
    ∷ ("metadata_only", bool true)
    ∷ ("remote_code_executed", bool false)
    ∷ ("weight_payload_downloaded", bool false)
    ∷ ("cuda_hardware_validation", str "not_performed")
    ∷ ("second_node_contacted", bool false)
    ∷ ("tp2_touched", bool false)
    ∷ [])

module _ (lib : Library) (is_decimal : ℕ → Bool) (snapshot_bytes : Bytes) where
  -- The branch for a Git source.
  unfoldable pub lock_git : String → Entry → Result SourceError Json
  lock_git name entry = do
    (revision, _, exact_url) ← resolve_git_revision lib entry
    (artifacts, audit) ← audit_git_source lib name entry revision
    ok (
        source_record entry revision
          (exact_revision_record lib exact_url "commit-api.json" entry.repository revision none)
          artifacts audit)

  -- `selected_metadata`
  unfoldable pub selected : Entry → String → Fields → Json → List String → Json
  selected entry revision metadata license siblings = object (
      ("repository", str entry.repository)
      ∷ ("revision", str revision)
      ∷ ("license", license)
      ∷ ("pipeline_tag", get metadata "pipeline_tag")
      ∷ ("library_name", get metadata "library_name")
      ∷ ("sibling_filenames", texts siblings)
      ∷ [])

  -- The branch for the model.
  unfoldable pub lock_model : Entry → Result SourceError Json
  unfolding card_license selected
  lock_model entry = do
    (revision, _, metadata, exact_url) ← resolve_hf_revision lib entry
    (artifacts, audit) ← audit_qwen_source lib is_decimal entry revision metadata snapshot_bytes
    siblings ← sibling_list (get metadata "siblings")
    license ← card_license metadata
    ok (
        source_record entry revision
          (exact_revision_record lib exact_url "model-api.json" entry.repository revision (
            some (
              selected entry revision metadata license
                (sorted (sibling_names (elements siblings))))))
          artifacts audit)

  -- The body of the loop.
  unfoldable pub lock_source : Fields → String → Result SourceError Json
  unfolding candidate_entry read_entry lock_git lock_model
  lock_source candidate name = do
    fields ← candidate_entry candidate name
    entry ← read_entry fields
    if entry.kind == "git" then lock_git name entry else lock_model entry

  -- The loop over EXPECTED_SOURCES.
  unfoldable pub lock_sources : Fields → List Expected → Result SourceError (List (String × Json))
  unfolding lock_source
  lock_sources candidate [] = ok []
  lock_sources candidate (x ∷ xs) = do
    source ← lock_source candidate x.name
    rest ← lock_sources candidate xs
    ok ((x.name, source) ∷ rest)

  abbrev pub lock_of : Bytes → String → List (String × Json) → Json
  lock_of candidate_bytes at sources = object (
      ("schema_version", number_of 2)
      ∷ ("scope", str "single_spark_source_metadata")
      ∷ ("resolved_at", str at)
      ∷ ("review_state", str "resolved_unreviewed")
      ∷ ("review_evidence", null)
      ∷ ("candidate_sha256", str (lib.sha256 candidate_bytes))
      ∷ ("sources", object sources)
      ∷ ("safety", safety)
      ∷ (
        "warning",
        str "Source-level audit is not a CUDA build/runtime or model-correctness validation.",
      )
      ∷ [])

  unfoldable pub build_lock : Bytes → Option String → String → Result SourceError Json
  unfolding lock_sources
  build_lock candidate_bytes resolved_at now = do
    value ← parse_json lib candidate_bytes "source candidate"
    candidate ← validate_candidate value
    sources ← lock_sources candidate expected_sources
    ok (lock_of candidate_bytes (timestamp resolved_at now) sources)
