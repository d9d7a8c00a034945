-- ===== src/Base/Pigeonhole.antt =====
-- Lists of distinct texts: one that lies in another is no longer, and holds it all if as long.
use Prim.Native.Nat.{suc, ◌≤◌}
use Prim.Native.String.{String}
use mathlib.Core.Path.{◌≡◌, refl}
use mathlib.Core.Bool.{true, false}
use mathlib.Core.List.{List, [], ◌∷◌}
use mathlib.Core.Logic.{inl, inr}
use native.Mathlib.Omega.{arith}
use mlx_spark.Base.Equality.{◌==◌, string_eq, contains}
use mlx_spark.Base.Tests.{if◌then◌else◌, Bool-cases}
use mlx_spark.Base.Lists.{length}

abbrev pub IsDistinct : List String → Type 0
IsDistinct [] = Unit
IsDistinct (s ∷ ss) = (contains ss s ≡ false) × IsDistinct ss

abbrev pub IsWithin : List String → List String → Type 0
IsWithin xs ys = (k : String) → contains xs k ≡ true → contains ys k ≡ true

-- The list without the first occurrence of the text.
without : String → List String → List String
without s [] = []
without s (t ∷ ts) = let rest = t ∷ without s ts in if s == t then ts else rest

length-without :
    (s : String) (ts : List String) → contains ts s ≡ true → length ts ≡ suc (length (without s ts))
unfolding without
length-without s [] h = cc
length-without s (t ∷ ts) h = ground (arith, length-without s ts)

contains-without :
    (s k : String) (ts : List String) → (k == s) ≡ false → contains (without s ts) k ≡ contains ts k
unfolding without
contains-without s k [] h = refl
contains-without s k (t ∷ ts) h = ground (arith, contains-without s k ts)

pub length-le_of_IsWithin :
    (xs ys : List String) → IsDistinct xs → IsWithin xs ys → length xs ≤ length ys
length-le_of_IsWithin [] ys d w = omega arith
length-le_of_IsWithin (x ∷ xs) ys (fresh, d) w =
    let inside = w x (ground arith) in
    omega (
      arith,
      length-without x ys inside,
      length-le_of_IsWithin xs (without x ys) d
          (λ k m. ground (arith, contains-without x k ys, w k)),
    )

pub IsWithin-of_length :
    (xs ys : List String) → IsDistinct xs → IsWithin xs ys → length xs ≡ length ys → IsWithin ys xs
IsWithin-of_length xs ys d w e k m = elim (Bool-cases (contains xs k)) [
  | inl present ↦ present
  | inr absent ↦
      absurd
        (omega (arith, length-le_of_IsWithin (k ∷ xs) ys (absent, d) (λ j n. ground (arith, w j))))
]
