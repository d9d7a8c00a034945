-- ===== src/Base/Sort.antt =====
-- `sorted` on texts, which Python orders by code points, as the bytes of UTF-8 are ordered.
use Prim.Native.String.{String}
use mathlib.Core.Path.{◌≡◌, refl}
use mathlib.Core.Bool.{Bool, ◌||◌}
use mathlib.Core.List.{List, [], ◌∷◌}
use text.Mathlib.Text.{is_le}
use Prim.Native.String.{compare}
use native.Mathlib.Omega.{arith}
use mlx_spark.Base.Equality.{◌==◌, string_eq, contains}
use mlx_spark.Base.Tests.{if◌then◌else◌}

-- Shut in proofs: no lemma needs to know which order it is.
unfoldable pub text_le : String → String → Bool
text_le s t = is_le (compare s t)

unfoldable pub insert_sorted : String → List String → List String
unfolding text_le
insert_sorted s [] = s ∷ []
insert_sorted s (t ∷ ts) =
    let rest = insert_sorted s ts in if text_le s t then s ∷ t ∷ ts else t ∷ rest

unfoldable pub sorted : List String → List String
unfolding insert_sorted
sorted [] = []
sorted (s ∷ ss) = insert_sorted s (sorted ss)

pub contains-insert_sorted :
    (k s : String) (ts : List String) → contains (insert_sorted s ts) k ≡ (k == s || contains ts k)
unfolding insert_sorted
contains-insert_sorted k s [] = refl
contains-insert_sorted k s (t ∷ ts) = ground (arith, contains-insert_sorted k s ts)

pub contains-sorted : (k : String) (ss : List String) → contains (sorted ss) k ≡ contains ss k
unfolding sorted
contains-sorted k [] = refl
contains-sorted k (s ∷ ss) =
    ground (arith, contains-insert_sorted k s (sorted ss), contains-sorted k ss)

-- The members of a list, each once: a set, which is only asked for its members and its size.
unfoldable pub distinct : List String → List String
distinct [] = []
distinct (s ∷ ss) = let rest = distinct ss in if contains rest s then rest else s ∷ rest
