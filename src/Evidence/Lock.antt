-- ===== src/Evidence/Lock.antt =====
-- The sources of the lock: the pinned revisions, the artifacts and their hashes.
pub mod Fixed
pub mod Pinned
use mlx_spark.Base.{String, ◌<>◌, List, [], ◌∷◌, Bool, true, false}
use mlx_spark.Base.Result.{Result, ok, err, ◌>>=◌, ◌>>◌}
use mlx_spark.Base.Int.{pos}
use mlx_spark.Base.Text.{is_sha40}
use mlx_spark.Json.{Json, int, str, dict, Fields, end, field, find, get, keys, py_eq}
use mlx_spark.Sources.Candidate.{same_members}
use mlx_spark.Evidence.{
  EvidenceError, Files, found_or, read_or, read_key, subscript, require_dict, is_sha256, full_match,
  occurs_in, exceeds_zero,
}
use mlx_spark.Evidence.Tables.{names_of, pinned_input_path}
use mlx_spark.Evidence.Checks.{require_that}

-- `isinstance(v, dict) and set(v) == set(table)`
unfoldable pub exactly_named : Json → List (String × String) → String → Result EvidenceError Fields
unfolding require_dict
exactly_named v table message = do
  fields ← require_dict v message
  require_that (same_members (keys fields) (names_of table)) message
  ok fields

-- The body of the loop over the artifacts of a source.
unfoldable pub check_artifact : String → String → Json → String → Result EvidenceError (Unit {0})
unfolding read_or occurs_in exceeds_zero full_match is_sha256
check_artifact source revision artifact name = do
  let label = source <> "/" <> name
  url ← read_or artifact "url" (str "")
  immutable ← occurs_in revision url
  require_that immutable ("non-immutable artifact URL for " <> label)
  bytes ← read_or artifact "bytes" (int (pos 0))
  filled ← exceeds_zero bytes
  require_that filled ("empty artifact for " <> label)
  sha ← read_or artifact "sha256" (str "")
  hashed ← full_match is_sha256 sha
  require_that hashed ("invalid artifact hash for " <> label)

unfoldable pub check_artifacts : String → String → Fields → Result EvidenceError (Unit {0})
unfolding check_artifact
check_artifacts source revision end = ok tt
check_artifacts source revision (field name artifact rest) = do
  check_artifact source revision artifact name
  check_artifacts source revision rest

-- `isinstance(artifacts, dict) and artifacts`
unfoldable pub require_artifacts : Json → String → Result EvidenceError Fields
unfolding require_dict
require_artifacts artifacts message = do
  fields ← require_dict artifacts message
  require_that (elim fields [ end ↦ false | field k v rest ↦ true ]) message
  ok fields

-- The revision of a source.
unfoldable pub check_declared : Json → String → String → Result EvidenceError (Unit {0})
unfolding subscript read_key full_match is_sha40
check_declared source name revision = do
  declared ← read_key source "revision"
  require_that (py_eq declared (str revision)) ("unexpected revision for " <> name)
  again ← subscript source "revision"
  full ← full_match is_sha40 again
  require_that full ("non-full revision for " <> name)

-- `SHA256.fullmatch(exact.get("identity_sha256", ""))`
unfoldable pub check_identity : Fields → String → Result EvidenceError (Unit {0})
unfolding full_match is_sha256
check_identity exact name = do
  hashed ← full_match is_sha256 (found_or (find "identity_sha256" exact) (str ""))
  require_that hashed ("invalid identity hash for " <> name)

-- What was read at the revision.
unfoldable pub check_exact : Json → String → String → Result EvidenceError (Unit {0})
unfolding read_key require_dict check_identity
check_exact source name revision = do
  metadata ← read_key source "exact_revision_metadata"
  exact ← require_dict metadata ("missing exact revision metadata for " <> name)
  require_that (py_eq (get exact "verified_revision") (str revision))
      ("unverified exact revision for " <> name)
  check_identity exact name

-- The artifacts of a source.
unfoldable pub check_listed : Json → String → String → Result EvidenceError (Unit {0})
unfolding read_key require_artifacts check_artifacts
check_listed source name revision = do
  listed ← read_key source "artifacts"
  artifacts ← require_artifacts listed ("missing artifacts for " <> name)
  check_artifacts name revision artifacts

-- The body of the loop over EXPECTED_REVISIONS.
unfoldable pub check_revision : Fields → String → String → Result EvidenceError (Unit {0})
unfolding subscript check_declared check_exact check_listed
check_revision sources name revision = do
  source ← subscript (dict sources) name
  check_declared source name revision
  check_exact source name revision
  check_listed source name revision

unfoldable pub check_revisions : Fields → List (String × String) → Result EvidenceError (Unit {0})
unfolding check_revision
check_revisions sources [] = ok tt
check_revisions sources ((name, revision) ∷ rest) =
    check_revision sources name revision >> check_revisions sources rest

-- The body of the loop over EXPECTED_ARTIFACT_HASHES.
unfoldable pub check_hash : Fields → String → String → String → Result EvidenceError (Unit {0})
unfolding subscript
check_hash sources source name hash = do
  entry ← subscript (dict sources) source
  artifacts ← subscript entry "artifacts"
  artifact ← subscript artifacts name
  observed ← subscript artifact "sha256"
  require_that (py_eq observed (str hash)) ("unexpected hash for " <> source <> "/" <> name)

unfoldable pub check_hashes :
    Fields → List (String × String × String) → Result EvidenceError (Unit {0})
unfolding check_hash
check_hashes sources [] = ok tt
check_hashes sources ((source, name, hash) ∷ rest) =
    check_hash sources source name hash >> check_hashes sources rest

-- The hash of the pinned candidate.
unfoldable pub check_pinned_input : Files → Fields → Result EvidenceError (Unit {0})
check_pinned_input files lock = do
  hash ← files.sha256 pinned_input_path
  require_that (py_eq (get lock "candidate_sha256") (str hash)) "pinned input hash mismatch"
