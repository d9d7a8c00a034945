-- ===== src/Evidence/Refs.antt =====
-- No text of the lock, at any depth, is a ref that moves, or a URL of one.
pub mod Immutable
use mlx_spark.Base.{
  ℕ, String, ◌<>◌, List, [], ◌∷◌, ◌++◌, Bool, true, false, Option, none, some, not, ◌&&◌, ◌||◌,
  nat_eq, ◌==◌, contains, if◌then◌else◌,
}
use mlx_spark.Base.Result.{Result, ok, err, ◌>>=◌, ◌>>◌}
use mlx_spark.Base.Text.{codes, codes_eq}
use mlx_spark.Json.{Json, str, list, dict, Items, nil, cons, Fields, end, field}
use mlx_spark.Evidence.{EvidenceError, Files}
use mlx_spark.Evidence.Checks.{require_that}

unfoldable mutual
  -- `_strings(value)`: the texts in a value, the keys of its dicts among them
  pub strings_of : Json → List String
  strings_of (dict fs) = field_strings fs
  strings_of (list xs) = item_strings xs
  strings_of (str s) = s ∷ []
  strings_of v = []

  pub item_strings : Items → List String
  item_strings nil = []
  item_strings (cons v xs) = strings_of v ++ item_strings xs

  pub field_strings : Fields → List String
  field_strings end = []
  field_strings (field k v fs) = k ∷ (strings_of v ++ field_strings fs)

-- The refs that move.
abbrev pub main : List ℕ
main = codes "main"

abbrev pub master : List ℕ
master = codes "master"

abbrev pub latest : List ℕ
latest = codes "latest"

abbrev pub forbidden : List (List ℕ)
forbidden = main ∷ master ∷ latest ∷ []

-- `(?:/|$)`: a slash, the end, or a line feed at the end
abbrev pub ends_part : List ℕ → Bool
ends_part [] = true
ends_part (c ∷ cs) = c == b'/' || (c == 10 && cs == [])

-- A word and `(?:/|$)` at the start of a text, where `same c d` ignores case.
unfoldable pub part_at : (ℕ → ℕ → Bool) → List ℕ → List ℕ → Bool
part_at same [] cs = ends_part cs
part_at same (d ∷ ds) [] = false
part_at same (d ∷ ds) (c ∷ cs) = same c d && part_at same ds cs

-- `re.search(r"/(?:main|master|latest)(?:/|$)", text, re.IGNORECASE)`
unfoldable pub mutable_url : (ℕ → ℕ → Bool) → List ℕ → Bool
unfolding part_at
mutable_url same [] = false
mutable_url same (c ∷ cs) =
    (c == b'/' && (part_at same main cs || part_at same master cs || part_at same latest cs))
    || mutable_url same cs

-- The loop over the texts.
unfoldable pub check_strings : Files → List String → Result EvidenceError (Unit {0})
unfolding mutable_url
check_strings files [] = ok tt
check_strings files (s ∷ ss) = do
  require_that (not (contains forbidden (files.lower (codes s))))
      ("mutable ref value in executable lock: " <> s)
  require_that (not (mutable_url files.same (codes s))) "mutable ref URL in lock"
  check_strings files ss
