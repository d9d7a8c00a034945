-- ===== src/Sources/Revision/Verified.antt =====
-- What a resolved revision is worth.
use mlx_spark.Base.{
  String, ◌<>◌, true, Option, none, some, ◌≡◌, refl, arith, string_eq, Option-cases, inl, inr,
}
use mathlib.Core.Path.{subst}
use mlx_spark.Sources.{verification_failed}
use mlx_spark.Base.Result.{ok, >>=-eq-ok, require-eq-ok, ok-injective}
use mlx_spark.Base.Text.{is_sha40}
use mlx_spark.Json.{Json, str, dict, Fields, get, is_text}
use mlx_spark.Json.Views.{is_text_iff}
use mlx_spark.Sources.Library.{Library, Bytes, max_api_bytes, json_document, json_document-eq-ok}
use mlx_spark.Sources.Revision.{
  Entry, immutable, commit_url, model_url, mismatch, discover_git, discover_hf,
  resolve_git_revision, resolve_hf_revision,
}

-- The document at the exact URL was fetched, is a dict and names the revision.
pub record IsVerified (lib : Library) (url revision : String) (content : Bytes) (fields : Fields)
    : Type 0 where
  pub fetched : lib.fetch url max_api_bytes ≡ ok content
  pub parsed : lib.loads content ≡ some (dict fields)
  pub named : get fields "sha" ≡ str revision

immutable-eq-ok :
    (repository : String) (v : Json) (sha : String)
    → immutable repository v ≡ ok sha
    → (v ≡ str sha) × (is_sha40 sha ≡ true)
unfolding immutable
immutable-eq-ok repository (str s) sha h = (ground arith, ground arith)
immutable-eq-ok repository v sha h = cc

-- A result of `resolve_git_revision`.
abbrev pub IsResolved : Library → Entry → String × Bytes × String → Type 0
IsResolved lib entry (revision, content, url) =
    (url ≡ commit_url entry.repository revision)
    × ((fields : Fields) × IsVerified lib url revision content fields)
    × (entry.revision ≡ none → is_sha40 revision ≡ true)
    × ((p : String) → entry.revision ≡ some p → revision ≡ p)

-- A result of `resolve_hf_revision`.
abbrev pub IsModel : Library → Entry → String × Bytes × Fields × String → Type 0
IsModel lib entry (revision, content, fields, url) =
    (url ≡ model_url entry.repository <> "/revision/" <> revision)
    × IsVerified lib url revision content fields
    × (is_sha40 revision ≡ true)
    × ((p : String) → entry.revision ≡ some p → revision ≡ p)

module _ (lib : Library) (entry : Entry) where
  discover_git-eq-ok :
      (o : Option String) (revision : String)
      → discover_git lib entry o ≡ ok revision
      → (o ≡ none → is_sha40 revision ≡ true) × ((p : String) → o ≡ some p → revision ≡ p)
  unfolding discover_git
  discover_git-eq-ok (some q) revision h = (λ e. cc, λ p e. cc)
  discover_git-eq-ok none revision h = elim (Option-cases entry.ref_to_resolve) [
    | inl missing ↦ cc (rw (missing, discover_git) at h)
    | inr (requested, e) ↦
        let (_, _, h₁) =
          >>=-eq-ok
            (json_document lib (commit_url entry.repository (lib.quote requested))
              (entry.repository <> " revision discovery"))
            _ (rw (e, discover_git) at h) in
        (λ _. (immutable-eq-ok entry.repository _ revision h₁).1, λ p f. cc)
  ]

  -- If `resolve_git_revision` returns, the document at the commit's own URL was fetched and names
  -- the revision; a pinned revision is returned as it is, and a discovered one is a full SHA.
  pub resolve_git_revision-IsResolved :
      (out : String × Bytes × String)
      → resolve_git_revision lib entry ≡ ok out
      → IsResolved lib entry out
  unfolding resolve_git_revision
  resolve_git_revision-IsResolved out h =
      let (r, found, h₁) = >>=-eq-ok (discover_git lib entry entry.revision) _ h in
      let url = commit_url entry.repository r in
      let label = entry.repository <> " exact revision" in
      let ((bytes, fields), read, h₂) = >>=-eq-ok (json_document lib url label) _ h₁ in
      let (named, h₃) = require-eq-ok (is_text (get fields "sha") r) (mismatch lib entry) _ h₂ in
      let (fetched, parsed) = json_document-eq-ok lib url label bytes fields read in
      let (fresh, pinned) = discover_git-eq-ok entry.revision r found in
      subst (IsResolved lib entry) (ok-injective h₃) (
        refl,
        (fields, record { fetched = fetched; parsed = parsed; named = (is_text_iff _ r).0 named }),
        fresh,
        pinned,
      )

  discover_hf-eq-ok :
      (o : Option String) (v : Json) (revision : String)
      → discover_hf lib entry o ≡ ok v
      → v ≡ str revision
      → (p : String) → o ≡ some p
      → revision ≡ p
  unfolding discover_hf
  discover_hf-eq-ok (some q) v revision h e p f = ground arith
  discover_hf-eq-ok none v revision h e p f = cc

  -- If `resolve_hf_revision` returns, the revision is a full SHA, the pinned one if there is one,
  -- and the model document at the URL of that revision was fetched and names it.
  pub resolve_hf_revision-IsModel :
      (out : String × Bytes × Fields × String)
      → resolve_hf_revision lib entry ≡ ok out
      → IsModel lib entry out
  unfolding resolve_hf_revision
  resolve_hf_revision-IsModel out h =
      let (v, found, h₁) = >>=-eq-ok (discover_hf lib entry entry.revision) _ h in
      let (r, checked, h₂) = >>=-eq-ok (immutable entry.repository v) _ h₁ in
      let url = model_url entry.repository <> "/revision/" <> r in
      let label = entry.repository <> " exact revision" in
      let ((bytes, fields), read, h₃) = >>=-eq-ok (json_document lib url label) _ h₂ in
      let (named, h₄) =
        require-eq-ok (is_text (get fields "sha") r) (verification_failed entry.repository) _ h₃ in
      let (fetched, parsed) = json_document-eq-ok lib url label bytes fields read in
      let (is_r, sha) = immutable-eq-ok entry.repository v r checked in
      subst (IsModel lib entry) (ok-injective h₄) (
        refl,
        record { fetched = fetched; parsed = parsed; named = (is_text_iff _ r).0 named },
        sha,
        discover_hf-eq-ok entry.revision v r found is_r,
      )
