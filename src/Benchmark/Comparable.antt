-- ===== src/Benchmark/Comparable.antt =====
-- Which records are comparable, and which times make a series.
use mlx_spark.Base.{
  String, List, [], ◌∷◌, Bool, true, false, not, ◌&&◌, All, ◌≡◌, ◌≢◌, ◌↔◌, inl, inr, refl,
  Bool-cases,
}
use mlx_spark.Base.Result.{ok, >>=-eq-ok, require-eq-ok}
use mlx_spark.Base.Int.{pos}
use mlx_spark.Json.{Json, null, bool, int, str, Fields, get, py_eq, is_text, is_bool, is_null}
use mlx_spark.Json.Views.{is_text_iff, is_bool_iff}
use mlx_spark.Benchmark.{
  missing, synthetic, not_measured, many_nodes, not_synchronized, identity_fields, identified,
  check_record, mismatched, none_mismatched, validate_comparison,
}

-- A measured record of one node, with each field of its identity.
pub record IsMeasured (rec : Fields) : Type 0 where
  pub real : get rec "synthetic" ≡ bool false
  pub measured : get rec "kind" ≡ str "spark_measured"
  pub one_node : py_eq (get rec "nodes") (int (pos 1)) ≡ true
  pub capability : get rec "gpu_compute_capability" ≡ str "12.1"
  pub synchronized : get rec "synchronized" ≡ bool true
  pub identity : All (λ k. get rec k ≢ null) identity_fields

abbrev pub Agree : Fields → Fields → String → Type 0
Agree a b k = py_eq (get a k) (get b k) ≡ true

not_null_iff : (v : Json) → (not (is_null v) ≡ true) ↔ (v ≢ null)
not_null_iff null = (λ h. cc, λ h. absurd (h refl))
not_null_iff v = (λ h e. cc, λ h. refl)

identified_iff :
    (rec : Fields) (ks : List String) → (identified rec ks ≡ ok tt) ↔ All (λ k. get rec k ≢ null) ks
unfolding identified
identified_iff rec [] = (λ h. tt, λ h. refl)
identified_iff rec (k ∷ ks) = (
  λ h.
      let (first, later) =
        require-eq-ok (not (is_null (get rec k))) (missing k) (identified rec ks) h in
      ((not_null_iff (get rec k)).0 first, (identified_iff rec ks).0 later),
  λ (first, later). rw ((not_null_iff (get rec k)).1 first, (identified_iff rec ks).1 later) refl,
)

mismatched_iff : (a b : Fields) (ks : List String) → (mismatched a b ks ≡ []) ↔ All (Agree a b) ks
unfolding mismatched
mismatched_iff a b [] = (λ h. tt, λ h. refl)
mismatched_iff a b (k ∷ ks) = (
  λ h. elim (Bool-cases (py_eq (get a k) (get b k))) [
    | inl same ↦ (same, (mismatched_iff a b ks).0 (rw same at h))
    | inr other ↦ cc (rw other at h)
  ],
  λ (first, later). rw first ((mismatched_iff a b ks).1 later),
)

none_mismatched_iff : (ks : List String) → (none_mismatched ks ≡ ok tt) ↔ (ks ≡ [])
none_mismatched_iff [] = (λ h. refl, λ h. refl)
none_mismatched_iff (k ∷ ks) = (λ h. cc, λ h. cc)

and_iff : (a b : Bool) → (a && b ≡ true) ↔ ((a ≡ true) × (b ≡ true))
and_iff true b = (λ h. (refl, h), λ (_, h). h)
and_iff false b = (λ h. cc, λ (h, _). cc)

check_record_iff : (rec : Fields) → (check_record rec ≡ ok tt) ↔ IsMeasured rec
unfolding check_record
check_record_iff rec = (
  λ h.
      let (real, h₁) = require-eq-ok (is_bool false (get rec "synthetic")) synthetic _ h in
      let (measured, h₂) =
        require-eq-ok (is_text (get rec "kind") "spark_measured") not_measured _ h₁ in
      let (single, h₃) =
        require-eq-ok
          (py_eq (get rec "nodes") (int (pos 1))
            && is_text (get rec "gpu_compute_capability") "12.1")
          many_nodes _ h₂ in
      let (synchronized, h₄) =
        require-eq-ok (is_bool true (get rec "synchronized")) not_synchronized _ h₃ in
      let (one_node, capability) = (and_iff _ _).0 single in
      record {
        real = (is_bool_iff false _).0 real;
        measured = (is_text_iff _ _).0 measured;
        one_node = one_node;
        capability = (is_text_iff _ _).0 capability;
        synchronized = (is_bool_iff true _).0 synchronized;
        identity = (identified_iff rec identity_fields).0 h₄;
      },
  λ m.
      rw
        (
          (is_bool_iff false _).1 m.real,
          (is_text_iff _ _).1 m.measured,
          m.one_node,
          (is_text_iff _ _).1 m.capability,
          (is_bool_iff true _).1 m.synchronized,
        )
        ((identified_iff rec identity_fields).1 m.identity),
)

-- Two records are accepted for comparison exactly when both are measured records of one node, not
-- synthetic and synchronized, with every field of the identity, and the two agree on each of them.
pub validate_comparison_iff :
    (a b : Fields)
    → (validate_comparison a b ≡ ok tt)
      ↔ (IsMeasured a × IsMeasured b × All (Agree a b) identity_fields)
unfolding validate_comparison
validate_comparison_iff a b = (
  λ h.
      let (_, e₁, h₁) = >>=-eq-ok (check_record a) _ h in
      let (_, e₂, h₂) = >>=-eq-ok (check_record b) _ h₁ in
      (
        (check_record_iff a).0 e₁,
        (check_record_iff b).0 e₂,
        (mismatched_iff a b identity_fields).0
            ((none_mismatched_iff (mismatched a b identity_fields)).0 h₂),
      ),
  λ (first, second, same).
      rw
        (
          (check_record_iff a).1 first,
          (check_record_iff b).1 second,
          (mismatched_iff a b identity_fields).1 same,
        )
        refl,
)
