-- ===== src/Json/Views.antt =====
-- What the tests on JSON values say of them.
use mlx_spark.Base.{String, Bool, true, false, ◌≡◌, ◌↔◌, refl, arith, string_eq, some}
use mlx_spark.Json.{Json, null, bool, str, dict, Fields, as_dict, is_null, is_text, is_bool, py_eq}

pub is_text_iff : (v : Json) (s : String) → (is_text v s ≡ true) ↔ (v ≡ str s)
unfolding py_eq
is_text_iff (str t) s = ground arith
is_text_iff null s = (λ h. cc, λ h. cc)
is_text_iff (bool true) s = (λ h. cc, λ h. cc)
is_text_iff (bool false) s = (λ h. cc, λ h. cc)
is_text_iff v s = (λ h. cc, λ h. cc)

pub is_null_iff : (v : Json) → (is_null v ≡ true) ↔ (v ≡ null)
is_null_iff null = (λ h. refl, λ h. refl)
is_null_iff v = (λ h. cc, λ h. cc)

pub as_dict-eq-some : (v : Json) {fs : Fields} → as_dict v ≡ some fs → v ≡ dict fs
as_dict-eq-some (dict gs) h = ground arith
as_dict-eq-some v h = cc

-- `v is True` and `v is False` say which value it is.
pub is_bool_iff : (b : Bool) (v : Json) → (is_bool b v ≡ true) ↔ (v ≡ bool b)
is_bool_iff true (bool true) = (λ h. refl, λ h. refl)
is_bool_iff true (bool false) = (λ h. cc, λ h. cc)
is_bool_iff true v = (λ h. cc, λ h. cc)
is_bool_iff false (bool true) = (λ h. cc, λ h. cc)
is_bool_iff false (bool false) = (λ h. refl, λ h. refl)
is_bool_iff false v = (λ h. cc, λ h. cc)
