-- ===== src/Base/Text.antt =====
-- Texts as their code points, and the character classes that the sources' patterns name.
use Prim.Native.Nat.{ℕ}
use Prim.Native.Char.{code}
use Prim.Native.String.{String}
use mathlib.Core.Bool.{Bool, true, false, ◌&&◌, ◌||◌}
use mathlib.Core.List.{List, [], ◌∷◌}
use native.Mathlib.Decide.{ℕ_discrete}
use mlx_spark.Base.Equality.{Eq, ◌==◌, nat_eq}
use mlx_spark.Base.Tests.{leb, if◌then◌else◌}
use mlx_spark.Base.Lists.{length, all}

abbrev pub codes : String → List ℕ
codes String.[] = []
codes (String.◌∷◌ letter text) = code letter ∷ codes text

unfoldable pub codes_discrete : Discrete (List ℕ)
unfolding ℕ_discrete
codes_discrete = hlevel ℕ_discrete

-- Texts are compared as their code points.
instance unfoldable pub codes_eq : Eq (List ℕ)
unfolding codes_discrete
codes_eq = record { dec = codes_discrete }

unfoldable pub parts_discrete : Discrete (List (List ℕ))
unfolding codes_discrete
parts_discrete = hlevel codes_discrete

-- Paths are compared as their parts.
instance unfoldable pub parts_eq : Eq (List (List ℕ))
unfolding parts_discrete
parts_eq = record { dec = parts_discrete }

abbrev pub between : ℕ → ℕ → ℕ → Bool
between lo hi c = leb lo c && leb c hi

-- `[0-9]`, `[0-9a-f]`, `[0-9a-fA-F]` and `[A-Za-z0-9]`
abbrev pub is_digit : ℕ → Bool
is_digit c = between b'0' b'9' c

abbrev pub is_lower_hex : ℕ → Bool
is_lower_hex c = is_digit c || between b'a' b'f' c

abbrev pub is_hex : ℕ → Bool
is_hex c = is_lower_hex c || between b'A' b'F' c

abbrev pub is_alphanumeric : ℕ → Bool
is_alphanumeric c = is_digit c || between b'a' b'z' c || between b'A' b'Z' c

unfoldable pub extend : ℕ → List (List ℕ) → List (List ℕ)
extend c [] = (c ∷ []) ∷ []
extend c (word ∷ words) = (c ∷ word) ∷ words

-- `text.split(separator)` for a single character
unfoldable pub split : ℕ → List ℕ → List (List ℕ)
unfolding extend
split separator [] = [] ∷ []
split separator (c ∷ cs) =
    let rest = split separator cs in if c == separator then [] ∷ rest else extend c rest

-- `text.startswith(prefix)`
abbrev pub starts_with : List ℕ → List ℕ → Bool
starts_with cs [] = true
starts_with [] (d ∷ ds) = false
starts_with (c ∷ cs) (d ∷ ds) = c == d && starts_with cs ds

-- `part in text`
abbrev pub includes : List ℕ → List ℕ → Bool
includes [] part = starts_with [] part
includes (c ∷ cs) part = starts_with (c ∷ cs) part || includes cs part

abbrev pub ends_with : List ℕ → List ℕ → Bool
ends_with [] part = starts_with [] part
ends_with (c ∷ cs) part =
    (length (c ∷ cs) == length part && starts_with (c ∷ cs) part) || ends_with cs part

-- `[0-9a-f]{40}`, matched in full
unfoldable pub is_sha40 : String → Bool
is_sha40 s = length (codes s) == 40 && all is_lower_hex (codes s)
