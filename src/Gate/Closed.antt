-- ===== src/Gate/Closed.antt =====
-- Which evidence closes the release gate.
use mlx_spark.Base.{
  String, List, [], ◌++◌, Bool, true, false, not, ◌&&◌, All, ◌≡◌, ◌↔◌, refl, sym, ap, ◌∙◌,
}
use mathlib.Core.Path.{subst}
use mlx_spark.Base.Result.{ok, >>=-eq-ok, ok-injective}
use mlx_spark.Base.Int.{pos}
use mlx_spark.Json.{
  Json, null, int, bool, str, dict, Fields, end, find, get, py_eq, is_text, is_bool, truthy,
}
use mlx_spark.Json.Views.{is_text_iff, is_bool_iff}
use mlx_spark.Gate.{Root, unless, or_default, get_or, is_commit, hardware, checks_errors, validate}
use mlx_spark.Gate.Exact.{get_or-eq-ok, or_default-get}
use mlx_spark.Gate.Checks.{IsChecked, get_or-dict, checks_errors_iff}

-- The declaration of the evidence: a commit, and a reviewer other than the implementer.
pub record IsDeclared (fields : Fields) : Type 0 where
  pub version : py_eq (get fields "schema_version") (int (pos 1)) ≡ true
  pub gate : get fields "gate" ≡ str "single_spark_v1"
  pub synthetic : get fields "synthetic" ≡ bool false
  pub hardware_equal : py_eq (get fields "hardware") hardware ≡ true
  pub commit : is_commit (or_default (find "implementation_commit" fields) (str "")) ≡ true
  pub reviewed : truthy (get fields "reviewer") ≡ true
  pub independent : py_eq (get fields "reviewer") (get fields "implementer") ≡ false

-- Evidence that is declared, and passed each required check.
pub record IsClosed (root : Root) (required : List String) (evidence : Json) : Type 0 where
  pub fields : Fields
  pub is_dict : evidence ≡ dict fields
  pub declared : IsDeclared fields
  pub checked : All (IsChecked root (or_default (find "checks" fields) (dict end))) required

-- Six tests without a message, and none of the checks.
six_tests :
    (a b c d e r i : Bool) (m₁ m₂ m₃ m₄ m₅ m₆ : String) (later : List String)
    → (unless a m₁
          ++ (unless b m₂
              ++ (unless c m₃
                  ++ (unless d m₄ ++ (unless e m₅ ++ (unless (r && not i) m₆ ++ later)))))
        ≡ [])
      ↔ ((a ≡ true)
          × (b ≡ true)
          × (c ≡ true)
          × (d ≡ true)
          × (e ≡ true)
          × (r ≡ true)
          × (i ≡ false)
          × (later ≡ []))
six_tests true true true true true true false m₁ m₂ m₃ m₄ m₅ m₆ later =
    (λ h. (refl, refl, refl, refl, refl, refl, refl, h), λ (_, _, _, _, _, _, _, h). h)
six_tests true true true true true true true m₁ m₂ m₃ m₄ m₅ m₆ later =
    (λ h. cc, λ (_, _, _, _, _, _, h, _). cc)
six_tests true true true true true false i m₁ m₂ m₃ m₄ m₅ m₆ later =
    (λ h. cc, λ (_, _, _, _, _, h, _, _). cc)
six_tests true true true true false r i m₁ m₂ m₃ m₄ m₅ m₆ later =
    (λ h. cc, λ (_, _, _, _, h, _, _, _). cc)
six_tests true true true false e r i m₁ m₂ m₃ m₄ m₅ m₆ later =
    (λ h. cc, λ (_, _, _, h, _, _, _, _). cc)
six_tests true true false d e r i m₁ m₂ m₃ m₄ m₅ m₆ later =
    (λ h. cc, λ (_, _, h, _, _, _, _, _). cc)
six_tests true false c d e r i m₁ m₂ m₃ m₄ m₅ m₆ later = (λ h. cc, λ (_, h, _, _, _, _, _, _). cc)
six_tests false b c d e r i m₁ m₂ m₃ m₄ m₅ m₆ later = (λ h. cc, λ (h, _, _, _, _, _, _, _). cc)

module _ (root : Root) (required : List String) where
  -- The value of a key that has no default.
  read :
      (evidence : Json) (fields : Fields) (key : String) (w : Json)
      → evidence ≡ dict fields
      → get_or evidence key null ≡ ok w
      → get fields key ≡ w
  read evidence fields key w is_dict h =
      sym (or_default-get fields key) ∙ get_or-dict evidence fields key null w is_dict h

  validate-eq-nil :
      (evidence : Json) → validate root required evidence ≡ ok [] → IsClosed root required evidence
  unfolding validate
  validate-eq-nil evidence h =
      let (version, e₁, h₁) = >>=-eq-ok (get_or evidence "schema_version" null) _ h in
      let (gate, e₂, h₂) = >>=-eq-ok (get_or evidence "gate" null) _ h₁ in
      let (synthetic, e₃, h₃) = >>=-eq-ok (get_or evidence "synthetic" null) _ h₂ in
      let (declared, e₄, h₄) = >>=-eq-ok (get_or evidence "hardware" null) _ h₃ in
      let (commit, e₅, h₅) = >>=-eq-ok (get_or evidence "implementation_commit" (str "")) _ h₄ in
      let (reviewer, e₆, h₆) = >>=-eq-ok (get_or evidence "reviewer" null) _ h₅ in
      let (implementer, e₇, h₇) = >>=-eq-ok (get_or evidence "implementer" null) _ h₆ in
      let (records, e₈, h₈) = >>=-eq-ok (get_or evidence "checks" (dict end)) _ h₇ in
      let (later, e₉, h₉) = >>=-eq-ok (checks_errors root records required) _ h₈ in
      let (a, b, c, d, e, r, i, none_later) =
        (six_tests (py_eq version (int (pos 1))) (is_text gate "single_spark_v1")
            (is_bool false synthetic) (py_eq declared hardware) (is_commit commit) (truthy reviewer)
            (py_eq reviewer implementer) _ _ _ _ _ _ later).0
          (ok-injective h₉) in
      let (fields, is_dict, _) = get_or-eq-ok evidence "schema_version" null version e₁ in
      let is_read = read evidence fields in
      let is_reviewer = is_read "reviewer" reviewer is_dict e₆ in
      record {
        fields = fields;
        is_dict = is_dict;
        declared = record {
          version =
              subst (λ v. py_eq v (int (pos 1)) ≡ true)
                (sym (is_read "schema_version" version is_dict e₁)) a;
          gate = is_read "gate" gate is_dict e₂ ∙ (is_text_iff gate "single_spark_v1").0 b;
          synthetic = is_read "synthetic" synthetic is_dict e₃ ∙ (is_bool_iff false synthetic).0 c;
          hardware_equal =
              subst (λ v. py_eq v hardware ≡ true) (sym (is_read "hardware" declared is_dict e₄)) d;
          commit =
              subst (λ v. is_commit v ≡ true)
                (sym
                  (get_or-dict evidence fields "implementation_commit" (str "") commit is_dict e₅))
                e;
          reviewed = subst (λ v. truthy v ≡ true) (sym is_reviewer) r;
          independent =
              ap (λ v. py_eq v (get fields "implementer")) is_reviewer
              ∙ (ap (py_eq reviewer) (is_read "implementer" implementer is_dict e₇) ∙ i);
        };
        checked =
            subst (λ v. All (IsChecked root v) required)
              (sym (get_or-dict evidence fields "checks" (dict end) records is_dict e₈))
              ((checks_errors_iff root records required).0 (e₉ ∙ ap ok none_later));
      }

  IsClosed-validate :
      (evidence : Json) → IsClosed root required evidence → validate root required evidence ≡ ok []
  unfolding validate get_or
  IsClosed-validate evidence closed =
      let fields = closed.fields in
      let d = closed.declared in
      let at = or_default-get fields in
      rw
        (
          closed.is_dict,
          at "schema_version",
          at "gate",
          at "synthetic",
          at "hardware",
          at "reviewer",
          at "implementer",
          (checks_errors_iff root (or_default (find "checks" fields) (dict end)) required).1
              closed.checked,
        )
        (ap ok (
          (six_tests _ _ _ _ _ _ _ _ _ _ _ _ _ _).1 (
            d.version,
            (is_text_iff _ "single_spark_v1").1 d.gate,
            (is_bool_iff false _).1 d.synthetic,
            d.hardware_equal,
            d.commit,
            d.reviewed,
            d.independent,
            refl,
          )))

  -- The validation reports no error exactly when the evidence is a dict with the version, gate and
  -- hardware of the release, not synthetic, with a commit and a reviewer other than the
  -- implementer, and every required check is recorded as passed, with none skipped and at least one
  -- artifact, each a file below the root that has the recorded hash.
  pub validate_iff :
      (evidence : Json)
      → (validate root required evidence ≡ ok []) ↔ IsClosed root required evidence
  validate_iff evidence = (validate-eq-nil evidence, IsClosed-validate evidence)
