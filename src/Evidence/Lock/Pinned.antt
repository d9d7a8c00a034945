-- ===== src/Evidence/Lock/Pinned.antt =====
-- What the tests of the sources of a lock tell of them.
use mlx_spark.Base.{String, List, [], ◌∷◌, true, some, All, nat_eq, ◌≡◌, refl, ap, sym, ◌∙◌}
use mathlib.Core.Path.{subst}
use mlx_spark.Base.Result.{ok, >>=-eq-ok, ok-injective}
use mlx_spark.Base.Text.{is_sha40}
use mlx_spark.Json.{Json, str, dict, Fields, get, find, keys, py_eq, or_null}
use mlx_spark.Json.Views.{is_text_iff}
use mlx_spark.Sources.Candidate.{same_members}
use mlx_spark.Evidence.{found_or, read_key, subscript, require_dict, full_match, is_sha256}
use mlx_spark.Evidence.Tables.{names_of}
use mlx_spark.Evidence.Checks.Met.{
  require_that-eq-ok, require_that-true, read_key-dict, subscript-dict, subscript-eq-ok,
  read_key-eq-ok, require_dict-eq-ok, full_match-eq-ok, found_or-eq-text,
}
use mlx_spark.Evidence.Lock.{
  exactly_named, require_artifacts, check_declared, check_identity, check_exact, check_listed,
  check_revision, check_revisions, check_hash, check_hashes,
}
use mlx_spark.Evidence.Lock.Fixed.{
  AreFixed, full-empty, check_artifacts-AreFixed, require_artifacts-eq-ok,
}

get-find : (fs : Fields) (key : String) (w : Json) → find key fs ≡ some w → get fs key ≡ w
unfolding get
get-find fs key w h = ap or_null h

-- A source at the revision, which is a full one, and was verified.
pub record IsPinned (sources : Fields) (name revision : String) : Type 0 where
  pub source : Fields
  pub listed : find name sources ≡ some (dict source)
  pub declared : get source "revision" ≡ str revision
  pub full : is_sha40 revision ≡ true
  pub exact : Fields
  pub recorded : get source "exact_revision_metadata" ≡ dict exact
  pub verified : get exact "verified_revision" ≡ str revision
  pub identity : String
  pub has_identity : find "identity_sha256" exact ≡ some (str identity)
  pub is_hash : is_sha256 identity ≡ true
  pub artifacts : Fields
  pub has_artifacts : get source "artifacts" ≡ dict artifacts
  pub each : AreFixed revision artifacts

-- The artifact of the source has the hash.
pub record HasHash (sources : Fields) (name artifact hash : String) : Type 0 where
  pub source : Fields
  pub listed : find name sources ≡ some (dict source)
  pub artifacts : Fields
  pub has_artifacts : find "artifacts" source ≡ some (dict artifacts)
  pub fields : Fields
  pub recorded : find artifact artifacts ≡ some (dict fields)
  pub hashed : find "sha256" fields ≡ some (str hash)

str-injective : {s t : String} → str s ≡ str t → s ≡ t
str-injective h = cc

check_declared-eq-ok :
    (source : Json) (name revision : String)
    → check_declared source name revision ≡ ok tt
    → (fs : Fields) × (source ≡ dict fs)
      × (get fs "revision" ≡ str revision)
      × (is_sha40 revision ≡ true)
unfolding check_declared
check_declared-eq-ok source name revision h =
    let (declared, e₁, h₁) = >>=-eq-ok (read_key source "revision") _ h in
    let (is_declared, h₂) = require_that-eq-ok (py_eq declared (str revision)) _ _ h₁ in
    let (again, e₃, h₃) = >>=-eq-ok (subscript source "revision") _ h₂ in
    let (full, e₄, h₄) = >>=-eq-ok (full_match is_sha40 again) _ h₃ in
    let is_full = require_that-true full _ h₄ in
    let (fs, is_fs, is_revision) = read_key-eq-ok source "revision" e₁ in
    let is_text = (is_text_iff declared revision).0 is_declared in
    let (text, is_again, is_sha) = full_match-eq-ok is_sha40 again (e₄ ∙ ap ok is_full) in
    let found = get-find fs "revision" again (subscript-dict source fs "revision" is_fs e₃) in
    let same : text ≡ revision =
      str-injective (sym is_again ∙ (sym found ∙ (is_revision ∙ is_text))) in
    (fs, is_fs, is_revision ∙ is_text, subst (λ s. is_sha40 s ≡ true) same is_sha)

check_identity-eq-ok :
    (exact : Fields) (name : String)
    → check_identity exact name ≡ ok tt
    → (s : String) × (find "identity_sha256" exact ≡ some (str s)) × (is_sha256 s ≡ true)
unfolding check_identity
check_identity-eq-ok exact name h =
    let v = found_or (find "identity_sha256" exact) (str "") in
    let (hashed, e, h₁) = >>=-eq-ok (full_match is_sha256 v) _ h in
    let (s, is_s, full) =
      full_match-eq-ok is_sha256 v (e ∙ ap ok (require_that-true hashed _ h₁)) in
    (s, found_or-eq-text (find "identity_sha256" exact) is_sha256 s full-empty is_s full, full)

check_exact-eq-ok :
    (source : Json) (fs : Fields) (name revision : String)
    → source ≡ dict fs
    → check_exact source name revision ≡ ok tt
    → (exact : Fields) × (get fs "exact_revision_metadata" ≡ dict exact)
      × (get exact "verified_revision" ≡ str revision)
      × (s : String) × (find "identity_sha256" exact ≡ some (str s))
      × (is_sha256 s ≡ true)
unfolding check_exact
check_exact-eq-ok source fs name revision is_fs h =
    let (metadata, e₁, h₁) = >>=-eq-ok (read_key source "exact_revision_metadata") _ h in
    let (exact, e₂, h₂) = >>=-eq-ok (require_dict metadata _) _ h₁ in
    let v = get exact "verified_revision" in
    let (verified, h₃) = require_that-eq-ok (py_eq v (str revision)) _ _ h₂ in
    let (s, is_s, full) = check_identity-eq-ok exact name h₃ in
    (
      exact,
      read_key-dict source fs "exact_revision_metadata" is_fs e₁ ∙ require_dict-eq-ok metadata _ e₂,
      (is_text_iff v revision).0 verified,
      s,
      is_s,
      full,
    )

check_listed-eq-ok :
    (source : Json) (fs : Fields) (name revision : String)
    → source ≡ dict fs
    → check_listed source name revision ≡ ok tt
    → (artifacts : Fields) × (get fs "artifacts" ≡ dict artifacts) × AreFixed revision artifacts
unfolding check_listed
check_listed-eq-ok source fs name revision is_fs h =
    let (listed, e₁, h₁) = >>=-eq-ok (read_key source "artifacts") _ h in
    let (artifacts, e₂, h₂) = >>=-eq-ok (require_artifacts listed _) _ h₁ in
    (
      artifacts,
      read_key-dict source fs "artifacts" is_fs e₁ ∙ require_artifacts-eq-ok listed _ e₂,
      check_artifacts-AreFixed name revision artifacts h₂,
    )

check_revision-IsPinned :
    (sources : Fields) (name revision : String)
    → check_revision sources name revision ≡ ok tt
    → IsPinned sources name revision
unfolding check_revision
check_revision-IsPinned sources name revision h =
    let (source, e₁, h₁) = >>=-eq-ok (subscript (dict sources) name) _ h in
    let (_, e₂, h₂) = >>=-eq-ok (check_declared source name revision) _ h₁ in
    let (_, e₃, h₃) = >>=-eq-ok (check_exact source name revision) _ h₂ in
    let (fs, is_fs, declared, full) = check_declared-eq-ok source name revision e₂ in
    let (exact, recorded, verified, identity, has_identity, is_hash) =
      check_exact-eq-ok source fs name revision is_fs e₃ in
    let (artifacts, has_artifacts, each) = check_listed-eq-ok source fs name revision is_fs h₃ in
    record {
      source = fs;
      listed = subscript-dict (dict sources) sources name refl e₁ ∙ ap some is_fs;
      declared = declared;
      full = full;
      exact = exact;
      recorded = recorded;
      verified = verified;
      identity = identity;
      has_identity = has_identity;
      is_hash = is_hash;
      artifacts = artifacts;
      has_artifacts = has_artifacts;
      each = each;
    }

abbrev pub ArePinned : Fields → List (String × String) → Type 0
ArePinned sources table = All (λ (row : String × String). IsPinned sources row.0 row.1) table

pub check_revisions-ArePinned :
    (sources : Fields) (table : List (String × String))
    → check_revisions sources table ≡ ok tt
    → ArePinned sources table
unfolding check_revisions
check_revisions-ArePinned sources [] h = tt
check_revisions-ArePinned sources ((name, revision) ∷ rest) h =
    let (u, first, later) = >>=-eq-ok (check_revision sources name revision) _ h in
    (
      check_revision-IsPinned sources name revision first,
      check_revisions-ArePinned sources rest later,
    )

check_hash-HasHash :
    (sources : Fields) (source name hash : String)
    → check_hash sources source name hash ≡ ok tt
    → HasHash sources source name hash
unfolding check_hash
check_hash-HasHash sources source name hash h =
    let (entry, e₁, h₁) = >>=-eq-ok (subscript (dict sources) source) _ h in
    let (listed, e₂, h₂) = >>=-eq-ok (subscript entry "artifacts") _ h₁ in
    let (artifact, e₃, h₃) = >>=-eq-ok (subscript listed name) _ h₂ in
    let (observed, e₄, h₄) = >>=-eq-ok (subscript artifact "sha256") _ h₃ in
    let (fs, is_fs, found) = subscript-eq-ok entry "artifacts" e₂ in
    let (gs, is_gs, has_name) = subscript-eq-ok listed name e₃ in
    let (ks, is_ks, has_hash) = subscript-eq-ok artifact "sha256" e₄ in
    record {
      source = fs;
      listed = subscript-dict (dict sources) sources source refl e₁ ∙ ap some is_fs;
      artifacts = gs;
      has_artifacts = found ∙ ap some is_gs;
      fields = ks;
      recorded = has_name ∙ ap some is_ks;
      hashed = has_hash ∙ ap some ((is_text_iff observed hash).0 (require_that-true _ _ h₄));
    }

abbrev pub HaveHashes : Fields → List (String × String × String) → Type 0
HaveHashes sources table =
    All (λ (row : String × String × String). HasHash sources row.0 row.1 row.2) table

pub check_hashes-HaveHashes :
    (sources : Fields) (table : List (String × String × String))
    → check_hashes sources table ≡ ok tt
    → HaveHashes sources table
unfolding check_hashes
check_hashes-HaveHashes sources [] h = tt
check_hashes-HaveHashes sources ((source, name, hash) ∷ rest) h =
    let (u, first, later) = >>=-eq-ok (check_hash sources source name hash) _ h in
    (check_hash-HasHash sources source name hash first, check_hashes-HaveHashes sources rest later)

-- A dict with exactly the names of a table.
pub exactly_named-eq-ok :
    (v : Json) (table : List (String × String)) (message : String) {fs : Fields}
    → exactly_named v table message ≡ ok fs
    → (v ≡ dict fs) × (same_members (keys fs) (names_of table) ≡ true)
unfolding exactly_named
exactly_named-eq-ok v table message h =
    let (gs, e, h₁) = >>=-eq-ok (require_dict v message) _ h in
    let (named, h₂) = require_that-eq-ok (same_members (keys gs) (names_of table)) message _ h₁ in
    let same = ok-injective h₂ in
    (
      require_dict-eq-ok v message e ∙ ap dict same,
      subst (λ ks. same_members (keys ks) (names_of table) ≡ true) same named,
    )
