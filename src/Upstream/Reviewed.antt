-- ===== src/Upstream/Reviewed.antt =====
-- Nothing is done before the review is checked, and what is left is the reviewed revision.
use mlx_spark.Base.{
  String, Bool, true, false, not, Option, none, some, string_eq, ◌≡◌, refl, ap, ◌∙◌, Bool-cases,
  Option-cases, inl, inr,
}
use mathlib.Core.Path.{subst}
use mlx_spark.Base.Result.{ok, >>=-eq-ok, require-eq-ok, ok-injective}
use mlx_spark.Base.Text.{codes_eq, is_sha40}
use mlx_spark.Json.{Json, str, dict, Fields, find, get, is_text, truthy}
use mlx_spark.Json.Views.{is_text_iff}
use mlx_spark.Upstream.{
  network_disabled, not_approved, no_review_evidence, destination_exists, Host, item, lock_of,
  immutable_revision, reviewed_revision,
}

-- The network is allowed, and the lock is approved with evidence and pins the repository at the
-- full revision; the destination is new.
pub record IsReviewed (allow_network : Bool) (host : Host) (sha : String) : Type 0 where
  pub allowed : allow_network ≡ true
  pub lock : Fields
  pub is_lock : host.lock ≡ some (dict lock)
  pub approved : get lock "review_state" ≡ str "approved"
  pub evidence : truthy (get lock "review_evidence") ≡ true
  pub sources : Fields
  pub is_sources : find "sources" lock ≡ some (dict sources)
  pub entry : Fields
  pub is_entry : find "mlx" sources ≡ some (dict entry)
  pub repository : find "repository" entry ≡ some (str "ml-explore/mlx")
  pub revision : find "revision" entry ≡ some (str sha)
  pub full : is_sha40 sha ≡ true
  pub new_destination : host.exists ≡ false

find-item :
    (fs : Fields) (key : String) (w : Json) → item (dict fs) key ≡ ok w → find key fs ≡ some w
unfolding item
find-item fs key w h = elim (Option-cases (find key fs)) [
  | inl missing ↦ cc (rw (item, missing) at h)
  | inr (u, found) ↦ found ∙ ap some (ok-injective (rw (item, found) at h))
]

item-eq-ok :
    (v : Json) (key : String) (w : Json)
    → item v key ≡ ok w
    → (fs : Fields) × (v ≡ dict fs) × (find key fs ≡ some w)
unfolding item
item-eq-ok (dict fs) key w h = (fs, refl, find-item fs key w h)
item-eq-ok v key w h = cc

lock_of-eq-ok : (o : Option Json) (fs : Fields) → lock_of o ≡ ok fs → o ≡ some (dict fs)
lock_of-eq-ok none fs h = cc
lock_of-eq-ok (some (dict gs)) fs h = ap (λ x. some (dict x)) (ok-injective h)
lock_of-eq-ok (some v) fs h = cc

immutable_revision-eq-ok :
    (repository v : Json) (sha : String)
    → immutable_revision repository v ≡ ok sha
    → (repository ≡ str "ml-explore/mlx") × (v ≡ str sha) × (is_sha40 sha ≡ true)
immutable_revision-eq-ok repository (str s) sha h =
    elim (Bool-cases (is_text repository "ml-explore/mlx")) [
      | inr other ↦ cc (rw other at h)
      | inl same ↦ elim (Bool-cases (is_sha40 s)) [
        | inr short ↦ cc (rw (same, short) at h)
        | inl full ↦
            let is_sha : s ≡ sha = ok-injective (rw (same, full) at h) in
            (
              (is_text_iff repository "ml-explore/mlx").0 same,
              ap str is_sha,
              subst (λ t. is_sha40 t ≡ true) is_sha full,
            )
      ]
    ]
immutable_revision-eq-ok repository v sha h =
    elim (Bool-cases (is_text repository "ml-explore/mlx")) [
      | inl same ↦ cc (rw same at h)
      | inr other ↦ cc (rw other at h)
    ]

pub reviewed_revision-IsReviewed :
    (allow_network : Bool) (host : Host) (sha : String)
    → reviewed_revision allow_network host ≡ ok sha
    → IsReviewed allow_network host sha
unfolding reviewed_revision
reviewed_revision-IsReviewed allow_network host sha h =
    let (allowed, h₁) = require-eq-ok allow_network network_disabled _ h in
    let (lock, e₂, h₂) = >>=-eq-ok (lock_of host.lock) _ h₁ in
    let (approved, h₃) =
      require-eq-ok (is_text (get lock "review_state") "approved") not_approved _ h₂ in
    let (evidence, h₄) =
      require-eq-ok (truthy (get lock "review_evidence")) no_review_evidence _ h₃ in
    let (sources, e₅, h₅) = >>=-eq-ok (item (dict lock) "sources") _ h₄ in
    let (entry, e₆, h₆) = >>=-eq-ok (item sources "mlx") _ h₅ in
    let (revision, e₇, h₇) = >>=-eq-ok (item entry "revision") _ h₆ in
    let (repository, e₈, h₈) = >>=-eq-ok (item entry "repository") _ h₇ in
    let (found, e₉, h₉) = >>=-eq-ok (immutable_revision repository revision) _ h₈ in
    let (absent, h₁₀) = require-eq-ok (not host.exists) destination_exists _ h₉ in
    let (source_fields, is_sources, find_mlx) = item-eq-ok sources "mlx" entry e₆ in
    let (entry_fields, is_entry, find_revision) = item-eq-ok entry "revision" revision e₇ in
    let find_repository =
      find-item entry_fields "repository" repository
        (subst (λ v. item v "repository" ≡ ok repository) is_entry e₈) in
    let (is_repository, is_revision, full) =
      immutable_revision-eq-ok repository revision found e₉ in
    subst (IsReviewed allow_network host) (ok-injective h₁₀) (record {
      allowed = allowed;
      lock = lock;
      is_lock = lock_of-eq-ok host.lock lock e₂;
      approved = (is_text_iff _ _).0 approved;
      evidence = evidence;
      sources = source_fields;
      is_sources = find-item lock "sources" sources e₅ ∙ ap some is_sources;
      entry = entry_fields;
      is_entry = find_mlx ∙ ap some is_entry;
      repository = find_repository ∙ ap some is_repository;
      revision = find_revision ∙ ap some is_revision;
      full = full;
      new_destination = not-eq-true host.exists absent;
    })
  where
    not-eq-true : (b : Bool) → not b ≡ true → b ≡ false
    not-eq-true true h = cc
    not-eq-true false h = refl
