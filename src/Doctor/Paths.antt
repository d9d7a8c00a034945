-- ===== src/Doctor/Paths.antt =====
-- Paths of doctor.py: the escapes of mountinfo, and the parts of a path.
pub mod Escapes
use mlx_spark.Base.{
  ℕ, List, [], ◌∷◌, ◌++◌, Bool, true, false, not, ◌&&◌, ◌||◌, Option, none, some, any, nat_eq, ◌==◌,
  if◌then◌else◌,
}
use mlx_spark.Base.Text.{codes, codes_eq, starts_with, split}
use mlx_spark.Base.Lines.{replace, filter}
use mlx_spark.Doctor.{Text}

-- The four replacements, in their order: space, tab, line feed and backslash.
unfoldable pub mountinfo_path : Text → Text
unfolding replace
mountinfo_path value = replace (codes "\\134") (codes "\\") (
    replace (codes "\\012") (10 ∷ [])
      (replace (codes "\\011") (9 ∷ []) (replace (codes "\\040") (codes " ") value)))

-- The root of a pure path: two slashes, and not three, are a root of their own.
abbrev pub root_of : Text → List Text
root_of value =
    if starts_with value (codes "//") && not (starts_with value (codes "///"))
    then codes "//" ∷ []
    else if starts_with value (codes "/")
    then codes "/" ∷ []
    else []

-- `PurePosixPath(value).parts`
unfoldable pub pure_parts : Text → List Text
unfolding filter
pure_parts value =
    root_of value ++ filter (λ part. not (part == [] || part == codes ".")) (split b'/' value)

abbrev pub is_dots : Text → Bool
is_dots part = part == codes "." || part == codes ".."

unfoldable pub path_parts : Text → Option (List Text)
unfolding pure_parts filter
path_parts value =
    let parts = filter (λ part. not (part == codes "/" || part == [])) (pure_parts value) in
    if any is_dots parts then none else some parts
