-- ===== src/Sources/Candidate/Exact.antt =====
-- The candidates that are accepted.
use mlx_spark.Base.{
  String, List, [], ◌∷◌, Bool, true, not, ◌&&◌, ◌||◌, some, ◌≡◌, ◌≢◌, ◌↔◌, ◌⊎◌, inl, inr, refl, ap,
  ◌∙◌, arith, ◌==◌, string_eq, nat_eq, All, Bool-cases, Option-cases,
}
use mlx_spark.Base.Result.{ok, >>=-eq-ok}
use mlx_spark.Base.Text.{is_sha40}
use mlx_spark.Base.Int.{pos}
use mlx_spark.Json.{
  Json, str, null, int, dict, Fields, get, find, keys, py_eq, is_text, is_null, text_or, as_dict,
}
use mlx_spark.Json.Views.{is_text_iff, is_null_iff, as_dict-eq-some}
use mlx_spark.Sources.Candidate.{
  Expected, expected_sources, names, same_members, is_safe_ref, check_fields, check_source,
  check_sources, validate_sources, validate_candidate,
}

-- A full revision and no ref, or a safe ref and no revision.
abbrev pub IsPin : Json → Json → Type 0
IsPin revision ref =
    ((r : String) × (revision ≡ str r) × (is_sha40 r ≡ true) × (ref ≡ null))
    ⊎ ((r : String) × (revision ≡ null) × (ref ≡ str r) × (is_safe_ref r ≡ true))

pub record IsEntry (x : Expected) (entry : Fields) : Type 0 where
  pub kind : get entry "kind" ≡ str x.kind
  pub repository : get entry "repository" ≡ str x.repository
  pub pin : IsPin (get entry "revision") (get entry "ref_to_resolve")
  pub role : (r : String) × (get entry "role" ≡ str r) × (r ≢ "")

pub text_or-eq-true :
    (p : String → Bool) (v : Json) → text_or p v ≡ true → (s : String) × (v ≡ str s) × (p s ≡ true)
text_or-eq-true p (str s) h = (s, refl, h)
text_or-eq-true p null h = cc
text_or-eq-true p v h = cc

full_or_safe :
    (revision ref : Json)
    → not (is_null revision && is_null ref) ≡ true
    → (is_null revision || text_or is_sha40 revision) ≡ true
    → (is_null ref || text_or is_safe_ref ref) ≡ true
    → (is_null revision || is_null ref) ≡ true
    → IsPin revision ref
full_or_safe revision ref some_pin sha safe one = elim (Bool-cases (is_null revision)) [
  | inl absent ↦
      let (r, e, s) = text_or-eq-true is_safe_ref ref (ground arith) in
      inr (r, (is_null_iff revision).0 absent, e, s)
  | inr present ↦
      let (r, e, s) = text_or-eq-true is_sha40 revision (ground arith) in
      inl (r, e, s, (is_null_iff ref).0 (ground arith))
]

check_fields-eq-ok :
    (x : Expected) (entry : Fields)
    → check_fields x entry ≡ ok tt
    → (is_text (get entry "kind") x.kind ≡ true)
      × (is_text (get entry "repository") x.repository ≡ true)
      × (not (is_null (get entry "revision") && is_null (get entry "ref_to_resolve")) ≡ true)
      × ((is_null (get entry "revision") || text_or is_sha40 (get entry "revision")) ≡ true)
      × ((is_null (get entry "ref_to_resolve") || text_or is_safe_ref (get entry "ref_to_resolve"))
          ≡ true)
      × ((is_null (get entry "revision") || is_null (get entry "ref_to_resolve")) ≡ true)
      × (text_or (λ s. not (s == "")) (get entry "role") ≡ true)
unfolding check_fields
check_fields-eq-ok x entry e = ground arith

check_fields-IsEntry :
    (x : Expected) (entry : Fields) → check_fields x entry ≡ ok tt → IsEntry x entry
check_fields-IsEntry x entry h =
    let revision = get entry "revision" in
    let ref = get entry "ref_to_resolve" in
    let (kind, repository, some_pin, sha, safe, one, named) = check_fields-eq-ok x entry h in
    let (r, e, s) = text_or-eq-true (λ s. not (s == "")) (get entry "role") named in
    record {
      kind = (is_text_iff _ _).0 kind;
      repository = (is_text_iff _ _).0 repository;
      pin = full_or_safe revision ref some_pin sha safe one;
      role = (r, e, ground arith);
    }

check_fields_ok :
    (x : Expected) (entry : Fields)
    → (is_text (get entry "kind") x.kind ≡ true)
    → (is_text (get entry "repository") x.repository ≡ true)
    → (not (is_null (get entry "revision") && is_null (get entry "ref_to_resolve")) ≡ true)
    → ((is_null (get entry "revision") || text_or is_sha40 (get entry "revision")) ≡ true)
    → ((is_null (get entry "ref_to_resolve") || text_or is_safe_ref (get entry "ref_to_resolve"))
        ≡ true)
    → ((is_null (get entry "revision") || is_null (get entry "ref_to_resolve")) ≡ true)
    → (text_or (λ s. not (s == "")) (get entry "role") ≡ true)
    → check_fields x entry ≡ ok tt
unfolding check_fields
check_fields_ok x entry h₀ h₁ h₂ h₃ h₄ h₅ h₆ = ground arith

IsEntry-check_fields :
    (x : Expected) (entry : Fields) → IsEntry x entry → check_fields x entry ≡ ok tt
IsEntry-check_fields x entry i =
    let (r, e, s) = i.role in
    let kind = (is_text_iff _ _).1 i.kind in
    let repository = (is_text_iff _ _).1 i.repository in
    let named : text_or (λ s. not (s == "")) (get entry "role") ≡ true = rw e (ground arith) in
    elim i.pin [
      | inl (v, p, sha, q) ↦
          check_fields_ok x entry kind repository (ground arith) (ground arith) (ground arith)
            (ground arith) named
      | inr (v, p, q, safe) ↦
          check_fields_ok x entry kind repository (ground arith) (ground arith) (ground arith)
            (ground arith) named
    ]

-- An entry of the sources is listed under its name, and is a pinned dict.
pub record IsSource (sources : Fields) (x : Expected) : Type 0 where
  pub entry : Fields
  pub listed : find x.name sources ≡ some (dict entry)
  pub pinned : IsEntry x entry

check_source-IsSource :
    (sources : Fields) (x : Expected) → check_source sources x ≡ ok tt → IsSource sources x
unfolding check_source
check_source-IsSource sources x h = elim (Option-cases (find x.name sources)) [
  | inl missing ↦ cc (rw (missing, check_source) at h)
  | inr (v, found) ↦ elim (Option-cases (as_dict v)) [
    | inl other ↦ cc (rw (found, check_source, other) at h)
    | inr (entry, e) ↦ record {
      entry = entry;
      listed = rw found (ap some (as_dict-eq-some v e));
      pinned = check_fields-IsEntry x entry (rw (found, check_source, e) at h);
    }
  ]
]

IsSource-check_source :
    (sources : Fields) (x : Expected) → IsSource sources x → check_source sources x ≡ ok tt
unfolding check_source
IsSource-check_source sources x s =
    rw (s.listed, check_source) (IsEntry-check_fields x s.entry s.pinned)

check_sources_iff :
    (sources : Fields) (xs : List Expected)
    → (check_sources sources xs ≡ ok tt) ↔ All (IsSource sources) xs
unfolding check_sources
check_sources_iff sources [] = (λ h. tt, λ h. refl)
check_sources_iff sources (x ∷ xs) = (
  λ h.
      let (_, first, later) =
        >>=-eq-ok (check_source sources x) (λ _. check_sources sources xs) h in
      (check_source-IsSource sources x first, (check_sources_iff sources xs).0 later),
  λ h. rw (IsSource-check_source sources x h.0) ((check_sources_iff sources xs).1 h.1),
)

-- What the repository accepts as a source candidate.
pub record IsCandidate (candidate : Json) (fields : Fields) : Type 0 where
  pub is_dict : candidate ≡ dict fields
  pub version : py_eq (get fields "schema_version") (int (pos 1)) ≡ true
  pub sources : Fields
  pub listed : get fields "sources" ≡ dict sources
  pub exactly : same_members (keys sources) (names expected_sources) ≡ true
  pub each : All (IsSource sources) expected_sources

validate_sources-eq-ok :
    (fields out : Fields) (v : Json)
    → validate_sources fields v ≡ ok out
    → (sources : Fields) × (v ≡ dict sources)
      × (same_members (keys sources) (names expected_sources) ≡ true)
      × (check_sources sources expected_sources ≡ ok tt)
      × (fields ≡ out)
unfolding validate_sources
validate_sources-eq-ok fields out (dict sources) h =
    (sources, refl, ground arith, ground arith, ground arith)
validate_sources-eq-ok fields out v h = cc

validate_sources_ok :
    (fields sources : Fields)
    → same_members (keys sources) (names expected_sources) ≡ true
    → check_sources sources expected_sources ≡ ok tt
    → validate_sources fields (dict sources) ≡ ok fields
unfolding validate_sources
validate_sources_ok fields sources exactly each = ground arith

validate_candidate-eq-ok :
    (candidate : Json) (out : Fields)
    → validate_candidate candidate ≡ ok out
    → (fields : Fields) × (candidate ≡ dict fields)
      × (py_eq (get fields "schema_version") (int (pos 1)) ≡ true)
      × (validate_sources fields (get fields "sources") ≡ ok out)
unfolding validate_candidate
validate_candidate-eq-ok (dict fields) out h = (fields, refl, ground arith, ground arith)
validate_candidate-eq-ok v out h = cc

module _ (candidate : Json) (fields : Fields) where
  accepted→IsCandidate : validate_candidate candidate ≡ ok fields → IsCandidate candidate fields
  accepted→IsCandidate h =
      let (fs, is_dict, version, h₁) = validate_candidate-eq-ok candidate fields h in
      let (sources, listed, exactly, each, same) =
        validate_sources-eq-ok fs fields (get fs "sources") h₁ in
      record {
        is_dict = is_dict ∙ ap dict same;
        version = rw same at version;
        sources = sources;
        listed = rw same at listed;
        exactly = exactly;
        each = (check_sources_iff sources expected_sources).0 each;
      }

  IsCandidate→accepted : IsCandidate candidate fields → validate_candidate candidate ≡ ok fields
  unfolding validate_candidate
  IsCandidate→accepted c =
      let checked =
        validate_sources_ok fields c.sources c.exactly
          ((check_sources_iff c.sources expected_sources).1 c.each) in
      rw c.is_dict (rw (c.version, c.listed) checked)

  -- A candidate is accepted exactly when it is a dict of schema version 1 whose sources are the
  -- audited four, each of the audited kind and repository, with a role, and with either a full
  -- lowercase revision or a safe ref, not both.
  pub validate_candidate_iff :
      (validate_candidate candidate ≡ ok fields) ↔ IsCandidate candidate fields
  validate_candidate_iff = (accepted→IsCandidate, IsCandidate→accepted)
