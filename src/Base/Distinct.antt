-- ===== src/Base/Distinct.antt =====
-- The distinct texts of a list, in order: each once, and the same members.
use Prim.Native.String.{String}
use mathlib.Core.Path.{◌≡◌, refl, ◌∙◌}
use mathlib.Core.Bool.{false}
use mathlib.Core.List.{List, [], ◌∷◌}
use mathlib.Core.Logic.{inl, inr}
use native.Mathlib.Omega.{arith}
use mlx_spark.Base.Equality.{string_eq, contains}
use mlx_spark.Base.Tests.{Bool-cases}
use mlx_spark.Base.Sort.{
  text_le, insert_sorted, sorted, distinct, contains-insert_sorted, contains-sorted,
}
use mlx_spark.Base.Pigeonhole.{IsDistinct}

contains-distinct : (k : String) (ss : List String) → contains (distinct ss) k ≡ contains ss k
unfolding distinct
contains-distinct k [] = refl
contains-distinct k (s ∷ ss) = ground (arith, contains-distinct k ss, contains-distinct s ss)

distinct-IsDistinct : (ss : List String) → IsDistinct (distinct ss)
unfolding distinct
distinct-IsDistinct [] = tt
distinct-IsDistinct (s ∷ ss) = elim (Bool-cases (contains (distinct ss) s)) [
  | inl again ↦ rw again (distinct-IsDistinct ss)
  | inr fresh ↦ rw fresh (fresh, distinct-IsDistinct ss)
]

insert_sorted-IsDistinct :
    (s : String) (ts : List String)
    → contains ts s ≡ false
    → IsDistinct ts
    → IsDistinct (insert_sorted s ts)
unfolding insert_sorted
insert_sorted-IsDistinct s [] h d = (refl, tt)
insert_sorted-IsDistinct s (t ∷ ts) h (fresh, d) = elim (Bool-cases (text_le s t)) [
  | inl before ↦ rw before (h, (fresh, d))
  | inr after ↦ rw after (
    ground (arith, contains-insert_sorted t s ts),
    insert_sorted-IsDistinct s ts (ground arith) d,
  )
]

sorted-IsDistinct : (ss : List String) → IsDistinct ss → IsDistinct (sorted ss)
unfolding sorted
sorted-IsDistinct [] d = tt
sorted-IsDistinct (s ∷ ss) (fresh, d) =
    insert_sorted-IsDistinct s (sorted ss) (contains-sorted s ss ∙ fresh) (sorted-IsDistinct ss d)

pub sorted-distinct-IsDistinct : (ss : List String) → IsDistinct (sorted (distinct ss))
sorted-distinct-IsDistinct ss = sorted-IsDistinct (distinct ss) (distinct-IsDistinct ss)

pub contains-sorted-distinct :
    (k : String) (ss : List String) → contains (sorted (distinct ss)) k ≡ contains ss k
contains-sorted-distinct k ss = contains-sorted k (distinct ss) ∙ contains-distinct k ss
