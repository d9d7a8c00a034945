-- ===== src/Json/Lawful.antt =====
-- Dicts whose keys are distinct, as Python's are, at every depth.
use mlx_spark.Base.{
  String, false, none, some, ◌≡◌, ◌↔◌, refl, arith, ◌==◌, string_eq, contains, length, inl, inr,
  Bool-cases,
}
use mlx_spark.Base.Pigeonhole.{IsDistinct}
use mlx_spark.Json.{Json, list, dict, Items, nil, cons, Fields, end, field, find, keys, size}

abbrev mutual
  pub IsJson : Json → Type 0
  IsJson (list xs) = AreItems xs
  IsJson (dict fs) = AreFields fs
  IsJson v = Unit

  pub AreItems : Items → Type 0
  AreItems nil = Unit
  AreItems (cons v xs) = IsJson v × AreItems xs

  pub AreFields : Fields → Type 0
  AreFields end = Unit
  AreFields (field k v fs) = (contains (keys fs) k ≡ false) × IsJson v × AreFields fs

pub AreFields-IsDistinct : (fs : Fields) → AreFields fs → IsDistinct (keys fs)
AreFields-IsDistinct end h = tt
AreFields-IsDistinct (field k v fs) h = (h.0, AreFields-IsDistinct fs h.2)

pub find-IsJson :
    (fs : Fields) (k : String) (v : Json) → AreFields fs → find k fs ≡ some v → IsJson v
unfolding find
find-IsJson end k v h e = cc
find-IsJson (field j w fs) k v h e = elim (Bool-cases (j == k)) [
  | inl same ↦ let p : w ≡ v = ground arith in rw (← p) (h.1)
  | inr other ↦ find-IsJson fs k v h.2 (rw other at e)
]

pub find-eq-none : (fs : Fields) (k : String) → (find k fs ≡ none) ↔ (contains (keys fs) k ≡ false)
unfolding find
find-eq-none end k = (λ h. refl, λ h. refl)
find-eq-none (field j w fs) k = ground (arith, find-eq-none fs k)

pub length-keys : (fs : Fields) → length (keys fs) ≡ size fs
length-keys end = refl
length-keys (field k v fs) = omega (arith, length-keys fs)
