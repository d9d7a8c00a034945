-- ===== src/Sources/Lock/Locked.antt =====
-- What a source lock promises.
use mlx_spark.Base.{
  ℕ, String, List, [], ◌∷◌, Bool, true, none, some, Option, ◌≡◌, refl, ap, ◌∙◌, sym, ◌==◌,
  string_eq, ◌<>◌, Bool-cases, inl, inr, ◌⊎◌,
}
use mlx_spark.Base.{All}
use mlx_spark.Sources.Library.{exact_revision_record}
use mlx_spark.Sources.Audit.{audit_git_source}
use mlx_spark.Sources.Model.{audit_qwen_source}
use mlx_spark.Sources.Weights.{sibling_list}
use mathlib.Core.Path.{subst}
use mlx_spark.Base.Result.{ok, >>=-eq-ok, ok-injective}
use mlx_spark.Base.Text.{is_sha40}
use mlx_spark.Json.{Json, str, dict, Fields, get, as_str}
use mlx_spark.Sources.Library.{Library, Bytes, parse_json, parse_json-eq-ok}
use mlx_spark.Sources.Candidate.{Expected, expected_sources, validate_candidate}
use mlx_spark.Sources.Candidate.Exact.{
  IsCandidate, IsSource, IsEntry, IsPin, validate_candidate_iff,
}
use mlx_spark.Sources.Revision.{
  Entry, commit_url, model_url, resolve_git_revision, resolve_hf_revision,
}
use mlx_spark.Sources.Revision.Verified.{
  IsVerified, resolve_git_revision-IsResolved, resolve_hf_revision-IsModel,
}
use mlx_spark.Sources.Lock.{
  candidate_entry, text_field, read_entry, lock_git, lock_model, lock_source, lock_sources, lock_of,
  timestamp, build_lock, source_record, card_license,
}

text_field_ok :
    (entry : Fields) (key s : String) → get entry key ≡ str s → text_field entry key ≡ ok s
unfolding text_field
text_field_ok entry key s h = rw (h, text_field) refl

-- The narrowed fields are those of the candidate.
pub record Narrows (fields : Fields) (entry : Entry) : Type 0 where
  pub kind : get fields "kind" ≡ str entry.kind
  pub repository : get fields "repository" ≡ str entry.repository
  pub role : get fields "role" ≡ str entry.role
  pub revision : as_str (get fields "revision") ≡ entry.revision
  pub ref_to_resolve : as_str (get fields "ref_to_resolve") ≡ entry.ref_to_resolve

-- The fields of a valid candidate always narrow.
pub read_entry_ok :
    (x : Expected) (fields : Fields)
    → IsEntry x fields
    → (entry : Entry) × (read_entry fields ≡ ok entry) × Narrows fields entry
unfolding read_entry
read_entry_ok x fields i =
    let (role, is_role, _) = i.role in
    let entry : Entry = record {
      kind = x.kind;
      repository = x.repository;
      revision = as_str (get fields "revision");
      ref_to_resolve = as_str (get fields "ref_to_resolve");
      role = role;
    } in
    (
      entry,
      rw
          (
            text_field_ok fields "kind" x.kind i.kind,
            text_field_ok fields "repository" x.repository i.repository,
            text_field_ok fields "role" role is_role,
          )
          refl,
      record {
        kind = i.kind;
        repository = i.repository;
        role = is_role;
        revision = refl;
        ref_to_resolve = refl;
      },
    )

-- A record of the lock: its revision is a full SHA, the pinned one if there is one, and the
-- document at the URL of that revision was fetched and names it.
pub record IsLocked (lib : Library) (fields : Fields) (value : Json) : Type 0 where
  pub entry : Entry
  pub narrows : Narrows fields entry
  pub revision : String
  pub exact : Json
  pub artifacts : List (String × Json)
  pub audit : Json
  pub is_record : value ≡ source_record entry revision exact artifacts audit
  pub sha : is_sha40 revision ≡ true
  pub pinned : (p : String) → get fields "revision" ≡ str p → revision ≡ p
  pub url : String
  pub at_revision :
      (url ≡ commit_url entry.repository revision)
      ⊎ (url ≡ model_url entry.repository <> "/revision/" <> revision)
  pub verified :
      (content : Bytes) × (document : Fields) × IsVerified lib url revision content document

pin-is_sha40 :
    (fields : Fields) (entry : Entry) (revision : String)
    → IsPin (get fields "revision") (get fields "ref_to_resolve")
    → Narrows fields entry
    → (entry.revision ≡ none → is_sha40 revision ≡ true)
    → ((p : String) → entry.revision ≡ some p → revision ≡ p)
    → is_sha40 revision ≡ true
pin-is_sha40 fields entry revision (inl (r, is_r, sha, _)) n fresh same =
    subst (λ r. is_sha40 r ≡ true) (sym (same r (sym n.revision ∙ ap as_str is_r))) sha
pin-is_sha40 fields entry revision (inr (r, is_null, _, _)) n fresh same =
    fresh (sym n.revision ∙ ap as_str is_null)

module _ (lib : Library) (is_decimal : ℕ → Bool) (snapshot_bytes : Bytes) where
  module _ (fields : Fields) (entry : Entry)
      (pin : IsPin (get fields "revision") (get fields "ref_to_resolve"))
      (n : Narrows fields entry) where
    lock_git-IsLocked :
        (name : String) (value : Json)
        → lock_git lib is_decimal snapshot_bytes name entry ≡ ok value
        → IsLocked lib fields value
    unfolding lock_git
    lock_git-IsLocked name value h =
        let ((revision, content, url), resolved, h₁) =
          >>=-eq-ok (resolve_git_revision lib entry) _ h in
        let (is_url, (document, verified), fresh, same) =
          resolve_git_revision-IsResolved lib entry (revision, content, url) resolved in
        let ((artifacts, audit), _, h₂) =
          >>=-eq-ok (audit_git_source lib name entry revision) _ h₁ in
        record {
          entry = entry;
          narrows = n;
          revision = revision;
          exact = exact_revision_record lib url "commit-api.json" entry.repository revision none;
          artifacts = artifacts;
          audit = audit;
          is_record = sym (ok-injective h₂);
          sha = pin-is_sha40 fields entry revision pin n fresh same;
          pinned = λ p e. same p (sym n.revision ∙ ap as_str e);
          url = url;
          at_revision = inl is_url;
          verified = (content, document, verified);
        }

    lock_model-IsLocked :
        (value : Json)
        → lock_model lib is_decimal snapshot_bytes entry ≡ ok value
        → IsLocked lib fields value
    unfolding lock_model
    lock_model-IsLocked value h =
        let ((revision, content, document, url), resolved, h₁) =
          >>=-eq-ok (resolve_hf_revision lib entry) _ h in
        let (is_url, verified, sha, same) =
          resolve_hf_revision-IsModel lib entry (revision, content, document, url) resolved in
        let ((artifacts, audit), _, h₂) =
          >>=-eq-ok (audit_qwen_source lib is_decimal entry revision document snapshot_bytes) _
            h₁ in
        let (siblings, _, h₃) = >>=-eq-ok (sibling_list (get document "siblings")) _ h₂ in
        let (license, _, h₄) = >>=-eq-ok (card_license document) _ h₃ in
        record {
          entry = entry;
          narrows = n;
          revision = revision;
          exact = _;
          artifacts = artifacts;
          audit = audit;
          is_record = sym (ok-injective h₄);
          sha = sha;
          pinned = λ p e. same p (sym n.revision ∙ ap as_str e);
          url = url;
          at_revision = inr is_url;
          verified = (content, document, verified);
        }

  candidate_entry_ok :
      (candidate sources : Fields) (x : Expected) (s : IsSource sources x)
      → get candidate "sources" ≡ dict sources
      → candidate_entry candidate x.name ≡ ok s.entry
  unfolding candidate_entry
  candidate_entry_ok candidate sources x s h = rw (h, candidate_entry, s.listed) refl

  lock_source-IsLocked :
      (candidate sources : Fields) (x : Expected) (value : Json) (s : IsSource sources x)
      → get candidate "sources" ≡ dict sources
      → lock_source lib is_decimal snapshot_bytes candidate x.name ≡ ok value
      → IsLocked lib s.entry value
  unfolding lock_source
  lock_source-IsLocked candidate sources x value s listed h =
      let (entry, reads, n) = read_entry_ok x s.entry s.pinned in
      let h₁ = rw (candidate_entry_ok candidate sources x s listed, reads) at h in
      elim (Bool-cases (entry.kind == "git")) [
        | inl git ↦ lock_git-IsLocked s.entry entry s.pinned.pin n x.name value (rw git at h₁)
        | inr model ↦ lock_model-IsLocked s.entry entry s.pinned.pin n value (rw model at h₁)
      ]

  -- The records of the lock are those of the audited sources, in order.
  abbrev pub AreLocked : (sources : Fields) → List Expected → List (String × Json) → Type 0
  AreLocked sources [] [] = Unit
  AreLocked sources (x ∷ xs) ((name, value) ∷ rest) =
      (name ≡ x.name)
      × ((s : IsSource sources x) × IsLocked lib s.entry value)
      × AreLocked sources xs rest
  AreLocked sources _ _ = ⊥

  lock_sources-AreLocked :
      (candidate sources : Fields) (xs : List Expected) (out : List (String × Json))
      → get candidate "sources" ≡ dict sources
      → All (IsSource sources) xs
      → lock_sources lib is_decimal snapshot_bytes candidate xs ≡ ok out
      → AreLocked sources xs out
  unfolding lock_sources
  lock_sources-AreLocked candidate sources [] out listed each h =
      subst (AreLocked sources []) (ok-injective h) tt
  lock_sources-AreLocked candidate sources (x ∷ xs) out listed each h =
      let (value, locked, h₁) =
        >>=-eq-ok (lock_source lib is_decimal snapshot_bytes candidate x.name) _ h in
      let (rest, later, h₂) =
        >>=-eq-ok (lock_sources lib is_decimal snapshot_bytes candidate xs) _ h₁ in
      subst (AreLocked sources (x ∷ xs)) (ok-injective h₂) (
        refl,
        (each.0, lock_source-IsLocked candidate sources x value each.0 listed locked),
        lock_sources-AreLocked candidate sources xs rest listed each.1 later,
      )

  -- If a lock is built, the candidate parses and is accepted, and the lock records exactly the
  -- audited sources in order, each with a full SHA as revision, the pinned one if the candidate pins
  -- one; the document at the URL of that revision was fetched and names it.
  pub build_lock-AreLocked :
      (candidate_bytes : Bytes) (resolved_at : Option String) (now : String) (lock : Json)
      → build_lock lib is_decimal snapshot_bytes candidate_bytes resolved_at now ≡ ok lock
      → (value : Json) × (candidate : Fields) × (lib.loads candidate_bytes ≡ some value)
        × ((c : IsCandidate value candidate) × (records : List (String × Json)) × (lock
              ≡ lock_of lib is_decimal snapshot_bytes candidate_bytes
                  (timestamp resolved_at now)
                  records)
            × AreLocked c.sources expected_sources records)
  unfolding build_lock
  build_lock-AreLocked candidate_bytes resolved_at now lock h =
      let (value, parsed, h₁) = >>=-eq-ok (parse_json lib candidate_bytes "source candidate") _ h in
      let (candidate, accepted, h₂) = >>=-eq-ok (validate_candidate value) _ h₁ in
      let c = (validate_candidate_iff value candidate).0 accepted in
      let (records, locked, h₃) =
        >>=-eq-ok (lock_sources lib is_decimal snapshot_bytes candidate expected_sources) _ h₂ in
      (
        value,
        candidate,
        parse_json-eq-ok lib candidate_bytes _ value parsed,
        (
          c,
          records,
          sym (ok-injective h₃),
          lock_sources-AreLocked candidate c.sources expected_sources records c.listed c.each
              locked,
        ),
      )
