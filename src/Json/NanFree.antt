-- ===== src/Json/NanFree.antt =====
-- Values without a float that is not a number, at every depth, and `==` on the others.
use mlx_spark.Base.{true, false, ◌||◌, ◌≡◌, refl}
use mlx_spark.Json.{
  Json, bool, float, nan, list, dict, Items, nil, cons, Fields, end, field, py_eq, both_nan,
}

abbrev mutual
  pub IsNanFree : Json → Type 0
  IsNanFree (float nan) = ⊥
  IsNanFree (list xs) = AreItemsNanFree xs
  IsNanFree (dict fs) = AreFieldsNanFree fs
  IsNanFree v = Unit

  pub AreItemsNanFree : Items → Type 0
  AreItemsNanFree nil = Unit
  AreItemsNanFree (cons v xs) = IsNanFree v × AreItemsNanFree xs

  pub AreFieldsNanFree : Fields → Type 0
  AreFieldsNanFree end = Unit
  AreFieldsNanFree (field k v fs) = IsNanFree v × AreFieldsNanFree fs

-- Nothing equals a NaN.
pub nan_ne : (v : Json) → py_eq (float nan) v ≡ false
unfolding py_eq
nan_ne (bool true) = refl
nan_ne (bool false) = refl
nan_ne v = refl

-- Where the first value is no NaN, being one object adds nothing to being equal.
pub same_eq : (v w : Json) → IsNanFree v → (both_nan v w || py_eq v w) ≡ py_eq v w
same_eq (float nan) w h = absurd h
same_eq v w h = refl
