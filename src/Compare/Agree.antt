-- ===== src/Compare/Agree.antt =====
-- Where the two tools agree on whether a snapshot differs.
use mlx_spark.Base.{
  String, none, some, List, [], ◌≡◌, ◌↔◌, refl, ◌==◌, string_eq, inl, inr, Bool-cases, Option, ◌<>◌,
}
use mlx_spark.Json.{Json, list, dict, Fields, end, field, find, py_eq}
use mlx_spark.Json.NanFree.{IsNanFree, AreFieldsNanFree}
use mlx_spark.Json.Lawful.{IsJson, AreFields, find-IsJson}
use mlx_spark.Compare.{json_diff, field_diff, diff, under_key, or_root, all_keys, over_keys}
use mlx_spark.Compare.Keys.{over_keys-eq-nil, over_keys-nil}
use mlx_spark.Compare.Exact.{unless_equal-eq-nil, json_diff-eq-nil}

over_keys_iff :
    (f g : String → List String) (ks : List String)
    → ((k : String) → (f k ≡ []) ↔ (g k ≡ []))
    → (over_keys f ks ≡ []) ↔ (over_keys g ks ≡ [])
over_keys_iff f g ks h = (
  λ e. over_keys-nil g ks (λ k m. (h k).0 (over_keys-eq-nil f ks e k m)),
  λ e. over_keys-nil f ks (λ k m. (h k).1 (over_keys-eq-nil g ks e k m)),
)

mutual
  unfolding json_diff diff

  agree :
      (a b : Json) (p q : String)
      → IsJson a
      → IsJson b
      → IsNanFree a
      → (diff a b p ≡ []) ↔ (json_diff a b q ≡ [])
  agree (list xs) (list ys) p q wa wb free =
      let d = unless_equal-eq-nil (py_eq (list xs) (list ys)) p in
      let j = json_diff-eq-nil (list xs) (list ys) q wa wb in
      (λ e. j.1 (d.0 e, free), λ e. d.1 (j.0 e).0)
  agree (dict fs) (dict gs) p q wa wb free = over_keys_iff _ _ (all_keys fs gs) (λ k.
      agree_fields fs k (find k gs) (p <> "/" <> k) (q <> "/" <> k) wa free
        (λ w found. find-IsJson gs k w wb found))
  agree a b p q wa wb free =
      let d = unless_equal-eq-nil (py_eq a b) p in
      let j = unless_equal-eq-nil (py_eq a b) (or_root q) in (λ e. j.1 (d.0 e), λ e. d.1 (j.0 e))

  agree_fields :
      (fs : Fields) (k : String) (o : Option Json) (c c' : String)
      → AreFields fs
      → AreFieldsNanFree fs
      → ((w : Json) → o ≡ some w → IsJson w)
      → (under_key fs k o c ≡ []) ↔ (field_diff fs k o c' ≡ [])
  agree_fields end k o c c' wa free wo = (λ e. cc, λ e. cc)
  agree_fields (field j v fs) k none c c' wa free wo = elim (Bool-cases (j == k)) [
    | inl same ↦ rw same (λ e. cc, λ e. cc)
    | inr other ↦ rw other (agree_fields fs k none c c' wa.2 free.1 wo)
  ]
  agree_fields (field j v fs) k (some w) c c' wa free wo = elim (Bool-cases (j == k)) [
    | inl same ↦ rw same (agree v w c c' wa.1 (wo w refl) free.0)
    | inr other ↦ rw other (agree_fields fs k (some w) c c' wa.2 free.1 wo)
  ]

-- For values whose dicts have distinct keys, `json_diff` of the source resolver reports no path
-- exactly when `diff` of compare_config.py reports none and the first value holds no NaN at any
-- depth.
pub diff-json_diff :
    (a b : Json) (path : String)
    → IsJson a
    → IsJson b
    → (json_diff a b path ≡ []) ↔ ((diff a b path ≡ []) × IsNanFree a)
diff-json_diff a b path wa wb = (
  λ h.
      let free = ((json_diff-eq-nil a b path wa wb).0 h).1 in
      ((agree a b path path wa wb free).1 h, free),
  λ (quiet, free). (agree a b path path wa wb free).0 quiet,
)
