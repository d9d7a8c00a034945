-- ===== src/Base/Members.antt =====
-- What holds of all the members of a list, and of one of them.
use mathlib.Core.Path.{◌≡◌}
use mathlib.Core.Bool.{true}
use mathlib.Core.List.{List, [], ◌∷◌}
use mathlib.Core.Logic.{inl, inr}
use mlx_spark.Base.Equality.{Eq, contains, ◌==◌, ==_iff}
use mlx_spark.Base.Lists.{All}
use mlx_spark.Base.Tests.{Bool-cases}
use native.Mathlib.Omega.{arith}

module _ {A : Type 0} ⦃e : Eq A⦄ where
  pub All-contains : (P : A → Type 0) (xs : List A) (a : A) → All P xs → contains xs a ≡ true → P a
  All-contains P [] a h m = cc
  All-contains P (x ∷ xs) a (p, h) m = elim (Bool-cases (a == x)) [
    | inl same ↦ rw ((==_iff a x).0 same) p
    | inr other ↦ All-contains P xs a h (ground arith)
  ]

-- `Among P xs`: one of the values has the property.
pub data Among {ℓ κ} {A : Type ℓ} (P : A → Type κ) : List A → Type (ℓ ⊔ κ) where
  here : {x : A} {xs : List A} → P x → Among P (x ∷ xs)
  there : {x : A} {xs : List A} → Among P xs → Among P (x ∷ xs)

module _ {ℓ κ μ} {A : Type ℓ} {P : A → Type κ} {Q : A → Type μ} where
  pub map-Among : {xs : List A} → ((x : A) → P x → Q x) → Among P xs → Among Q xs
  map-Among f (here {x} p) = here (f x p)
  map-Among f (there later) = there (map-Among f later)

  pub map-All : (xs : List A) → ((x : A) → P x → Q x) → All P xs → All Q xs
  map-All [] f h = tt
  map-All (x ∷ xs) f (p, h) = (f x p, map-All xs f h)

  -- What holds of all holds of the one.
  pub Among-All : {xs : List A} → Among P xs → All Q xs → Among (λ x. P x × Q x) xs
  Among-All (here p) (q, h) = here (p, q)
  Among-All (there later) (q, h) = there (Among-All later h)
