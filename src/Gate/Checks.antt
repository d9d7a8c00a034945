-- ===== src/Gate/Checks.antt =====
-- Which checks, and so which evidence, have no errors.
use mlx_spark.Base.{
  String, ◌<>◌, List, [], ◌∷◌, ◌++◌, Bool, true, false, Option, none, some, string_eq, ◌==◌, All,
  append-eq-nil, ◌≡◌, ◌≢◌, ◌↔◌, refl, sym, ap, ◌∙◌, Bool-cases, inl, inr,
}
use mathlib.Core.Path.{subst}
use mlx_spark.Base.Result.{ok, >>=-eq-ok, ok-injective}
use mlx_spark.Base.Int.{pos}
use mlx_spark.Json.{
  Json, null, int, str, list, dict, Items, nil, cons, Fields, end, field, find, get, elements,
  py_eq, is_text, truthy,
}
use mlx_spark.Json.Views.{is_text_iff}
use mlx_spark.Gate.{
  Root, unless, or_default, get_or, iterate, artifacts_errors, passed_errors, check_errors,
  checks_errors,
}
use mlx_spark.Gate.Exact.{IsArtifact, get_or-eq-ok, get_or_ok, or_default-get, artifacts_errors_iff}

-- A check that passed, with no skipped case and at least one artifact, all of them sound.
pub record IsPassed (root : Root) (rec : Fields) : Type 0 where
  pub status : get rec "status" ≡ str "pass"
  pub skipped : py_eq (or_default (find "skipped" rec) (int (pos 0))) (int (pos 0)) ≡ true
  pub artifacts : Items
  pub listed : find "artifacts" rec ≡ some (list artifacts)
  pub some_artifact : artifacts ≢ nil
  pub each : All (IsArtifact root) (elements artifacts)

-- The required check is recorded as passed.
pub record IsChecked (root : Root) (records : Json) (name : String) : Type 0 where
  pub checks : Fields
  pub is_dict : records ≡ dict checks
  pub rec : Fields
  pub recorded : find name checks ≡ some (dict rec)
  pub passed : IsPassed root rec

text-ne-IsArtifact : (root : Root) (s : String) → IsArtifact root (str s) → ⊥
text-ne-IsArtifact root s i = cc (i.is_dict)

-- What can be iterated without an error of an artifact is a list, or is empty.
iterate_sound :
    (root : Root) (name : String) (v : Json) (items : List Json)
    → iterate v ≡ ok items
    → artifacts_errors root name items ≡ ok []
    → truthy v ≡ true
    → (xs : Items) × (v ≡ list xs) × (xs ≢ nil) × All (IsArtifact root) (elements xs)
unfolding iterate
iterate_sound root name (list nil) items h e t = cc
iterate_sound root name (list (cons x xs)) items h e t = (
  cons x xs,
  refl,
  λ z. cc,
  (artifacts_errors_iff root name (elements (cons x xs))).0
      (ap (artifacts_errors root name) (ok-injective h) ∙ e),
)
iterate_sound root name (dict end) items h e t = cc
iterate_sound root name (dict (field k v fs)) items h e t =
    let all_good = (artifacts_errors_iff root name items).0 e in
    absurd
      (text-ne-IsArtifact root k (subst (All (IsArtifact root)) (sym (ok-injective h)) all_good).0)
iterate_sound root name (str s) items h e t = elim (Bool-cases (s == "")) [
  | inl empty ↦ cc (rw empty at t)
  | inr other ↦
      let all_good = (artifacts_errors_iff root name items).0 e in
      let same : str s ∷ [] ≡ items = ok-injective (rw other at h) in
      absurd (text-ne-IsArtifact root s (subst (All (IsArtifact root)) (sym same) all_good).0)
]
iterate_sound root name v items h e t = cc

-- Three lists of messages are empty together.
two_tests :
    (a b : Bool) (first second : String) (later : List String)
    → (unless a first ++ (unless b second ++ later) ≡ []) ↔ ((a ≡ true) × (b ≡ true) × (later ≡ []))
two_tests true true first second later = (λ h. (refl, refl, h), λ (_, _, h). h)
two_tests true false first second later = (λ h. cc, λ (_, h, _). cc)
two_tests false b first second later = (λ h. cc, λ (h, _, _). cc)

or_default-some :
    (o : Option Json) (v : Json) → or_default o (list nil) ≡ v → truthy v ≡ true → o ≡ some v
or_default-some none v h t = cc (subst (λ w. truthy w ≡ true) (sym h) t)
or_default-some (some w) v h t = ap some h

end-not_passed : (fields : Fields) → dict end ≡ dict fields → get fields "status" ≡ str "pass" → ⊥
unfolding get find
end-not_passed end same h = cc
end-not_passed (field k v rest) same h = cc

-- The default of a missing record has not passed.
or_default-eq-dict :
    (o : Option Json) (rec : Json) (fields : Fields)
    → rec ≡ or_default o (dict end)
    → rec ≡ dict fields
    → get fields "status" ≡ str "pass"
    → o ≡ some (dict fields)
or_default-eq-dict none rec fields is_rec is_fields passed =
    absurd (end-not_passed fields (sym is_rec ∙ is_fields) passed)
or_default-eq-dict (some v) rec fields is_rec is_fields passed = ap some (sym is_rec ∙ is_fields)

truthy-list : (xs : Items) → xs ≢ nil → truthy (list xs) ≡ true
truthy-list nil h = absurd (h refl)
truthy-list (cons x xs) h = refl

-- What `get_or` reads of a dict.
pub get_or-dict :
    (v : Json) (fields : Fields) (key : String) (default w : Json)
    → v ≡ dict fields
    → get_or v key default ≡ ok w
    → or_default (find key fields) default ≡ w
get_or-dict v fields key default w is_dict h =
    ok-injective
      (sym (get_or_ok fields key default) ∙ (ap (λ u. get_or u key default) (sym is_dict) ∙ h))

module _ (root : Root) where
  passed_errors-eq-nil :
      (name : String) (v : Json) (rec : Fields)
      → v ≡ dict rec
      → get rec "status" ≡ str "pass"
      → passed_errors root name v ≡ ok []
      → IsPassed root rec
  unfolding passed_errors
  passed_errors-eq-nil name v rec is_dict status h =
      let (skipped, e₁, h₁) = >>=-eq-ok (get_or v "skipped" (int (pos 0))) _ h in
      let (artifacts, e₂, h₂) = >>=-eq-ok (get_or v "artifacts" (list nil)) _ h₁ in
      let (items, e₃, h₃) = >>=-eq-ok (iterate artifacts) _ h₂ in
      let (later, e₄, h₄) = >>=-eq-ok (artifacts_errors root name items) _ h₃ in
      let (none_skipped, some_listed, no_errors) =
        (two_tests (py_eq skipped (int (pos 0))) (truthy artifacts)
            (name <> ": skipped cases do not close a gate") (name <> ": no artifacts") later).0
          (ok-injective h₄) in
      let is_artifacts = get_or-dict v rec "artifacts" (list nil) artifacts is_dict e₂ in
      let (xs, is_list, ne, each) =
        iterate_sound root name artifacts items e₃ (e₄ ∙ ap ok no_errors) some_listed in
      record {
        status = status;
        skipped =
            subst (λ v. py_eq v (int (pos 0)) ≡ true)
              (sym (get_or-dict v rec "skipped" (int (pos 0)) skipped is_dict e₁)) none_skipped;
        artifacts = xs;
        listed =
            or_default-some (find "artifacts" rec) artifacts is_artifacts some_listed
            ∙ ap some is_list;
        some_artifact = ne;
        each = each;
      }

  IsPassed-passed_errors :
      (name : String) (rec : Fields)
      → IsPassed root rec
      → passed_errors root name (dict rec) ≡ ok []
  unfolding passed_errors get_or iterate
  IsPassed-passed_errors name rec p =
      rw
        (
          p.listed,
          (artifacts_errors_iff root name (elements p.artifacts)).1 p.each,
          p.skipped,
          truthy-list p.artifacts p.some_artifact,
        )
        refl

  check_errors-eq-nil :
      (records : Json) (name : String)
      → check_errors root records name ≡ ok []
      → IsChecked root records name
  unfolding check_errors
  check_errors-eq-nil records name h =
      let (rec, e₁, h₁) = >>=-eq-ok (get_or records name (dict end)) _ h in
      let (status, e₂, h₂) = >>=-eq-ok (get_or rec "status" null) _ h₁ in
      let (checks, is_checks, is_rec) = get_or-eq-ok records name (dict end) rec e₁ in
      let (fields, is_fields, is_status) = get_or-eq-ok rec "status" null status e₂ in
      elim (Bool-cases (is_text status "pass")) [
        | inr other ↦ cc (rw other at h₂)
        | inl pass ↦
            let passed : get fields "status" ≡ str "pass" =
              sym (or_default-get fields "status")
              ∙ (sym is_status ∙ (is_text_iff status "pass").0 pass) in
            record {
              checks = checks;
              is_dict = is_checks;
              rec = fields;
              recorded = or_default-eq-dict (find name checks) rec fields is_rec is_fields passed;
              passed = passed_errors-eq-nil name rec fields is_fields passed (rw pass at h₂);
            }
      ]

  IsChecked-check_errors :
      (records : Json) (name : String)
      → IsChecked root records name
      → check_errors root records name ≡ ok []
  unfolding check_errors get_or
  IsChecked-check_errors records name c =
      let status : or_default (find "status" c.rec) null ≡ str "pass" =
        or_default-get c.rec "status" ∙ c.passed.status in
      rw (c.is_dict, c.recorded, status, (is_text_iff (str "pass") "pass").1 refl)
        (IsPassed-passed_errors name c.rec c.passed)

  pub checks_errors_iff :
      (records : Json) (names : List String)
      → (checks_errors root records names ≡ ok []) ↔ All (IsChecked root records) names
  unfolding checks_errors
  checks_errors_iff records [] = (λ h. tt, λ h. refl)
  checks_errors_iff records (name ∷ names) = (
    λ h.
        let (first, e₁, h₁) = >>=-eq-ok (check_errors root records name) _ h in
        let (later, e₂, h₂) = >>=-eq-ok (checks_errors root records names) _ h₁ in
        let (nil₁, nil₂) = append-eq-nil first later (ok-injective h₂) in
        (
          check_errors-eq-nil records name (e₁ ∙ ap ok nil₁),
          (checks_errors_iff records names).0 (e₂ ∙ ap ok nil₂),
        ),
    λ (first, later).
        rw (IsChecked-check_errors records name first, (checks_errors_iff records names).1 later)
          refl,
  )
