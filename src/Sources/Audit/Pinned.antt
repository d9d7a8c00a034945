-- ===== src/Sources/Audit/Pinned.antt =====
-- `resolve_mlx_transitive_sources`: what a resolved transitive source is worth.
use mlx_spark.Base.{String, ◌<>◌, List, [], ◌∷◌, All, true, some, ◌≡◌, refl, arith, string_eq}
use mathlib.Core.Path.{subst}
use mlx_spark.Base.Result.{ok, >>=-eq-ok, require-eq-ok, ok-injective}
use mlx_spark.Base.Dict.{Dict, lookup}
use mlx_spark.Base.Text.{codes, includes, is_sha40}
use mlx_spark.Json.{Json, str, dict, Fields, get}
use mlx_spark.Sources.{missing_markers}
use mlx_spark.Sources.Library.{Library, Bytes, require_markers}
use mlx_spark.Sources.Revision.{commit_url, resolve_git_revision}
use mlx_spark.Sources.Revision.Verified.{IsVerified, resolve_git_revision-IsResolved}
use mlx_spark.Sources.Tables.{Transitive}
use mlx_spark.Sources.Audit.{
  payload, check_markers, artifact_sha256, transitive_entry, resolve_transitive,
}

-- Every marker stands in the content.
abbrev pub HasMarkers : Bytes → List String → Type 0
HasMarkers content ms = All (λ m. includes content (codes m) ≡ true) ms

require_markers-HasMarkers :
    (content : Bytes) (label : String) (ms : List String)
    → require_markers content label ms ≡ ok tt
    → HasMarkers content ms
unfolding require_markers
require_markers-HasMarkers content label [] h = tt
require_markers-HasMarkers content label (m ∷ ms) h =
    let (here, h₁) = require-eq-ok (includes content (codes m)) (missing_markers label) _ h in
    (here, require_markers-HasMarkers content label ms h₁)

payload-eq-ok :
    (payloads : Dict Bytes) (name : String) (content : Bytes)
    → payload payloads name ≡ ok content
    → lookup name payloads ≡ some content
unfolding payload
payload-eq-ok payloads name content h = ground arith

check_markers-HasMarkers :
    (payloads : Dict Bytes) (name label : String) (ms : List String)
    → check_markers payloads name label ms ≡ ok tt
    → (content : Bytes) × (lookup name payloads ≡ some content) × HasMarkers content ms
unfolding check_markers
check_markers-HasMarkers payloads name label ms h =
    let (content, found, h₁) = >>=-eq-ok (payload payloads name) _ h in
    (
      content,
      payload-eq-ok payloads name content found,
      require_markers-HasMarkers content label ms h₁,
    )

-- The declaring artifact holds the markers; the recorded revision is a full SHA that the document
-- at its own URL names.
pub record IsPinned (lib : Library) (payloads : Dict Bytes) (t : Transitive) (value : Json)
    : Type 0 where
  pub declaration : Bytes
  pub fetched : lookup t.declared_in payloads ≡ some declaration
  pub declared : HasMarkers declaration t.markers
  pub revision : String
  pub sha : is_sha40 revision ≡ true
  pub content : Bytes
  pub document : Fields
  pub verified : IsVerified lib (commit_url t.repository revision) revision content document
  pub fields : Fields
  pub is_dict : value ≡ dict fields
  pub recorded : get fields "revision" ≡ str revision

module _ (lib : Library) (payloads : Dict Bytes) where
  -- The records are those of the declared sources, in order.
  abbrev pub ArePinned : List Transitive → List (String × Json) → Type 0
  ArePinned [] [] = Unit
  ArePinned (t ∷ ts) ((name, value) ∷ rest) =
      (name ≡ t.name) × IsPinned lib payloads t value × ArePinned ts rest
  ArePinned _ _ = ⊥

  -- If the transitive sources are resolved, each is recorded in order under its name: its markers
  -- stand in the artifact that declares it, and its revision is a full SHA that the document at the
  -- URL of that commit names.
  pub resolve_transitive-ArePinned :
      (artifacts : Dict Json) (ts : List Transitive) (out : List (String × Json))
      → resolve_transitive lib payloads artifacts ts ≡ ok out
      → ArePinned ts out
  unfolding resolve_transitive get string_eq
  resolve_transitive-ArePinned artifacts [] out h = subst (ArePinned []) (ok-injective h) tt
  resolve_transitive-ArePinned artifacts (t ∷ ts) out h =
      let (_, marked, h₁) =
        >>=-eq-ok
          (check_markers payloads t.declared_in ("MLX transitive declaration " <> t.name) t.markers)
          _ h in
      let (declaration, fetched, declared) =
        check_markers-HasMarkers payloads t.declared_in _ t.markers marked in
      let ((revision, content, url), resolved, h₂) =
        >>=-eq-ok (resolve_git_revision lib (transitive_entry lib t)) _ h₁ in
      let (is_url, (document, verified), fresh, _) =
        resolve_git_revision-IsResolved lib (transitive_entry lib t) (revision, content, url)
          resolved in
      let (hash, _, h₃) = >>=-eq-ok (artifact_sha256 artifacts t.declared_in) _ h₂ in
      let (rest, later, h₄) = >>=-eq-ok (resolve_transitive lib payloads artifacts ts) _ h₃ in
      subst (ArePinned (t ∷ ts)) (ok-injective h₄) (
        refl,
        record {
          declaration = declaration;
          fetched = fetched;
          declared = declared;
          revision = revision;
          sha = fresh refl;
          content = content;
          document = document;
          verified = subst (λ u. IsVerified lib u revision content document) is_url verified;
          fields = _;
          is_dict = refl;
          recorded = refl;
        },
        resolve_transitive-ArePinned artifacts ts rest later,
      )
