-- ===== src/Evidence/Lock/Fixed.antt =====
-- What the tests of the artifacts of a source tell of them.
use mlx_spark.Base.{String, true, false, some, nat_eq, ◌≡◌, refl, ap, ◌∙◌}
use mlx_spark.Base.Result.{ok, >>=-eq-ok, ok-injective}
use mlx_spark.Base.Int.{pos}
use mlx_spark.Json.{Json, int, str, dict, Fields, end, field, find}
use mlx_spark.Evidence.{
  found_or, read_or, require_dict, full_match, is_sha256, occurs_in, exceeds_zero,
}
use mlx_spark.Evidence.Checks.Met.{
  require_that-eq-ok, require_that-true, read_or-dict, read_or-eq-ok, require_dict-eq-ok,
  full_match-eq-ok, found_or-eq-text,
}
use mlx_spark.Evidence.Lock.{check_artifact, check_artifacts, require_artifacts}

-- An artifact that is not empty, with a hash, at a URL with the revision.
pub record IsFixed (revision : String) (artifact : Json) : Type 0 where
  pub fields : Fields
  pub is_dict : artifact ≡ dict fields
  pub url : occurs_in revision (found_or (find "url" fields) (str "")) ≡ ok true
  pub filled : exceeds_zero (found_or (find "bytes" fields) (int (pos 0))) ≡ ok true
  pub hash : String
  pub hashed : find "sha256" fields ≡ some (str hash)
  pub full : is_sha256 hash ≡ true

abbrev pub AreFixed : String → Fields → Type 0
AreFixed revision end = Unit
AreFixed revision (field name artifact rest) = IsFixed revision artifact × AreFixed revision rest

pub full-empty : is_sha256 "" ≡ false
unfolding is_sha256 nat_eq
full-empty = refl

check_artifact-IsFixed :
    (source revision name : String) (artifact : Json)
    → check_artifact source revision artifact name ≡ ok tt
    → IsFixed revision artifact
unfolding check_artifact
check_artifact-IsFixed source revision name artifact h =
    let (url, e₁, h₁) = >>=-eq-ok (read_or artifact "url" (str "")) _ h in
    let (immutable, e₂, h₂) = >>=-eq-ok (occurs_in revision url) _ h₁ in
    let (is_immutable, h₃) = require_that-eq-ok immutable _ _ h₂ in
    let (bytes, e₃, h₄) = >>=-eq-ok (read_or artifact "bytes" (int (pos 0))) _ h₃ in
    let (filled, e₄, h₅) = >>=-eq-ok (exceeds_zero bytes) _ h₄ in
    let (is_filled, h₆) = require_that-eq-ok filled _ _ h₅ in
    let (sha, e₅, h₇) = >>=-eq-ok (read_or artifact "sha256" (str "")) _ h₆ in
    let (hashed, e₆, h₈) = >>=-eq-ok (full_match is_sha256 sha) _ h₇ in
    let (fs, is_fs, is_url) = read_or-eq-ok artifact "url" (str "") e₁ in
    let (hash, is_hash, full) =
      full_match-eq-ok is_sha256 sha (e₆ ∙ ap ok (require_that-true hashed _ h₈)) in
    record {
      fields = fs;
      is_dict = is_fs;
      url = ap (occurs_in revision) is_url ∙ (e₂ ∙ ap ok is_immutable);
      filled =
          ap exceeds_zero (read_or-dict artifact fs "bytes" (int (pos 0)) is_fs e₃)
          ∙ (e₄ ∙ ap ok is_filled);
      hash = hash;
      hashed =
          found_or-eq-text (find "sha256" fs) is_sha256 hash full-empty
            (read_or-dict artifact fs "sha256" (str "") is_fs e₅ ∙ is_hash) full;
      full = full;
    }

pub check_artifacts-AreFixed :
    (source revision : String) (artifacts : Fields)
    → check_artifacts source revision artifacts ≡ ok tt
    → AreFixed revision artifacts
unfolding check_artifacts
check_artifacts-AreFixed source revision end h = tt
check_artifacts-AreFixed source revision (field name artifact rest) h =
    let (u, first, later) = >>=-eq-ok (check_artifact source revision artifact name) _ h in
    (
      check_artifact-IsFixed source revision name artifact first,
      check_artifacts-AreFixed source revision rest later,
    )

pub require_artifacts-eq-ok :
    (v : Json) (message : String) {fs : Fields} → require_artifacts v message ≡ ok fs → v ≡ dict fs
unfolding require_artifacts
require_artifacts-eq-ok v message h =
    let (gs, e, h₁) = >>=-eq-ok (require_dict v message) _ h in
    let (_, h₂) = require_that-eq-ok _ message _ h₁ in
    require_dict-eq-ok v message e ∙ ap dict (ok-injective h₂)
