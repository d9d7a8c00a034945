-- ===== src/Sources/Candidate.antt =====
-- `validate_candidate`: the reviewed candidate names exactly the audited sources, each pinned by a
-- full revision or by a safe ref.
pub mod Exact
use mlx_spark.Base.{
  ℕ, zero, suc, ◌≤◌, String, List, [], ◌∷◌, ◌++◌, Bool, true, false, not, ◌&&◌, ◌||◌, Option, none,
  some, ◌==◌, string_eq, nat_eq, contains, length, all, leb, if◌then◌else◌,
}
use mlx_spark.Base.Result.{Result, ok, err, ◌>>=◌, ◌>>◌, require}
use mlx_spark.Base.Text.{codes, split, starts_with, codes_eq, is_alphanumeric, is_sha40}
use mlx_spark.Base.Int.{pos}
use mlx_spark.Json.{
  Json, str, int, dict, Fields, get, find, keys, py_eq, is_text, is_null, text_or, as_dict, null,
}
use mlx_spark.Sources.{
  SourceError, key_error, schema_version, allowlist, not_an_object, unexpected_identity, neither,
  revision_not_text, revision_not_sha, unsafe_ref, both, no_role,
}

-- An entry of EXPECTED_SOURCES.
pub record Expected : Type 0 where
  pub name : String
  pub kind : String
  pub repository : String

abbrev pub expected_sources : List Expected
expected_sources =
    record { name = "mlx"; kind = "git"; repository = "ml-explore/mlx" }
    ∷ record { name = "mlx_lm"; kind = "git"; repository = "ml-explore/mlx-lm" }
    ∷ record { name = "transformers"; kind = "git"; repository = "huggingface/transformers" }
    ∷ record { name = "qwen3_8_27b"; kind = "hf_model"; repository = "Qwen/Qwen3.8-27B" }
    ∷ []

abbrev pub names : List Expected → List String
names [] = []
names (x ∷ xs) = x.name ∷ names xs

-- `set(xs) == set(ys)`
abbrev pub same_members : List String → List String → Bool
same_members xs ys = all (λ k. contains ys k) xs && all (λ k. contains xs k) ys

-- SAFE_REF_RE, `[A-Za-z0-9._/-]{1,200}`
pub is_ref_char : ℕ → Bool
is_ref_char c = is_alphanumeric c || c == b'.' || c == b'_' || c == b'/' || c == b'-'

-- The ref matches, is not absolute and has no component `..`.
unfoldable pub is_safe_ref : String → Bool
unfolding is_ref_char
is_safe_ref ref =
    let cs = codes ref in
    leb 1 (length cs)
    && leb (length cs) 200
    && all is_ref_char cs
    && not (starts_with cs (codes "/"))
    && all (λ part. not (part == codes "..")) (split b'/' cs)

-- The body of the loop over EXPECTED_SOURCES, for an entry that is a dict.
unfoldable pub check_fields : Expected → Fields → Result SourceError (Unit {0})
check_fields x entry =
    let revision = get entry "revision" in
    let ref = get entry "ref_to_resolve" in
    let name = x.name in
    do
      require (is_text (get entry "kind") x.kind && is_text (get entry "repository") x.repository)
          (unexpected_identity name)
      require (not (is_null revision && is_null ref)) (neither name)
      require (is_null revision || text_or (λ s. true) revision) (revision_not_text name)
      require (is_null revision || text_or is_sha40 revision) (revision_not_sha name)
      require (is_null ref || text_or is_safe_ref ref) (unsafe_ref name)
      require (is_null revision || is_null ref) (both name)
      require (text_or (λ s. not (s == "")) (get entry "role")) (no_role name)

unfoldable pub check_source : Fields → Expected → Result SourceError (Unit {0})
check_source sources x = elim (find x.name sources) [
  | none ↦ err key_error
  | some entry ↦ elim (as_dict entry) [
    | none ↦ err (not_an_object x.name)
    | some fields ↦ check_fields x fields
  ]
]

unfoldable pub check_sources : Fields → List Expected → Result SourceError (Unit {0})
check_sources sources [] = ok tt
check_sources sources (x ∷ xs) = do check_source sources x; check_sources sources xs

unfoldable pub validate_sources : Fields → Json → Result SourceError Fields
validate_sources candidate sources = elim (as_dict sources) [
  | none ↦ err allowlist
  | some fields ↦ do
    require (same_members (keys fields) (names expected_sources)) allowlist
    check_sources fields expected_sources
    ok candidate
]

unfoldable pub validate_candidate : Json → Result SourceError Fields
validate_candidate candidate = elim (as_dict candidate) [
  | none ↦ err schema_version
  | some fields ↦ do
    require (py_eq (get fields "schema_version") (int (pos 1))) schema_version
    validate_sources fields (get fields "sources")
]
