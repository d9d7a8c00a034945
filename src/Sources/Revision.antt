-- ===== src/Sources/Revision.antt =====
-- The revisions of the sources, verified against the hosts.
pub mod Verified
use mlx_spark.Base.{
  ℕ, String, ◌<>◌, List, Bool, not, Option, none, some, string_eq, ◌==◌, if◌then◌else◌,
}
use mlx_spark.Base.Result.{Result, ok, err, ◌>>=◌, ◌>>◌, require}
use mlx_spark.Base.Text.{is_sha40}
use mlx_spark.Json.{Json, str, Fields, get, is_text, as_str}
use mlx_spark.Sources.{SourceError, key_error, non_immutable, pin_mismatch, verification_failed}
use mlx_spark.Sources.Library.{Library, Bytes, json_document}

-- A candidate entry, narrowed to the types that `validate_candidate` checked.
pub record Entry : Type 0 where
  pub kind : String
  pub repository : String
  pub revision : Option String
  pub ref_to_resolve : Option String
  pub role : String

-- `isinstance(revision, str)` and SHA_RE, for what a host returned
unfoldable pub immutable : String → Json → Result SourceError String
immutable repository revision = elim (as_str revision) [
  | none ↦ err (non_immutable repository)
  | some sha ↦ do require (is_sha40 sha) (non_immutable repository); ok sha
]

-- The URL of a commit at GitHub's API.
abbrev pub commit_url : String → String → String
commit_url repository revision =
    "https://api.github.com/repos/" <> repository <> "/commits/" <> revision

abbrev pub model_url : String → String
model_url repository = "https://huggingface.co/api/models/" <> repository

module _ (lib : Library) where
  unfoldable pub discover_git : Entry → Option String → Result SourceError String
  discover_git entry (some revision) = ok revision
  discover_git entry none = elim entry.ref_to_resolve [
    | none ↦ err key_error
    | some requested ↦ do
      (_, discovery) ←
          json_document lib (commit_url entry.repository (lib.quote requested))
            (entry.repository <> " revision discovery")
      immutable entry.repository (get discovery "sha")
  ]

  abbrev mismatch : Entry → SourceError
  mismatch entry = elim entry.revision [
    | none ↦ verification_failed entry.repository
    | some pinned ↦ pin_mismatch entry.repository
  ]

  unfoldable pub resolve_git_revision : Entry → Result SourceError (String × Bytes × String)
  unfolding discover_git
  resolve_git_revision entry = do
    revision ← discover_git entry entry.revision
    let exact_url = commit_url entry.repository revision
    (exact_bytes, exact) ← json_document lib exact_url (entry.repository <> " exact revision")
    require (is_text (get exact "sha") revision) (mismatch entry)
    ok (revision, exact_bytes, exact_url)

  unfoldable pub discover_hf : Entry → Option String → Result SourceError Json
  discover_hf entry (some revision) = ok (str revision)
  discover_hf entry none = do
    (_, discovery) ←
        json_document lib (model_url entry.repository) (entry.repository <> " revision discovery")
    ok (get discovery "sha")

  unfoldable pub resolve_hf_revision : Entry → Result SourceError (String × Bytes × Fields × String)
  unfolding discover_hf
  resolve_hf_revision entry = do
    candidate ← discover_hf entry entry.revision
    revision ← immutable entry.repository candidate
    let exact_url = model_url entry.repository <> "/revision/" <> revision
    (exact_bytes, exact) ← json_document lib exact_url (entry.repository <> " exact revision")
    require (is_text (get exact "sha") revision) (verification_failed entry.repository)
    ok (revision, exact_bytes, exact, exact_url)
