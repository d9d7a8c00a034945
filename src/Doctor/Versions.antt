-- ===== src/Doctor/Versions.antt =====
-- `_safe_version_result`, `_parse_nvcc_version` and `_parse_cmake_version`: versions in the output of tools.
pub mod Plain
mod Tests
use mlx_spark.Base.{
  ℕ, zero, suc, List, [], ◌∷◌, ◌++◌, Bool, true, false, not, ◌&&◌, ◌||◌, Option, none, some, nat_eq,
  ◌==◌, contains, if◌then◌else◌,
}
use mlx_spark.Base.Maybe.{◌>>=◌, when}
use mlx_spark.Base.Int.{ℤ}
use mlx_spark.Base.Text.{codes, codes_eq, is_digit}
use mlx_spark.Base.Lines.{is_space, strip_start}
use mlx_spark.Doctor.{Text}

abbrev starts_digit : Text → Bool
starts_digit [] = false
starts_digit (c ∷ cs) = is_digit c

-- What follows a digit in `[0-9]+(?:\.[0-9]+)+`, as far as it goes.
unfoldable pub dotted : Text → Text
dotted [] = []
dotted (c ∷ cs) =
    let rest = dotted cs in if is_digit c || (c == b'.' && starts_digit cs) then c ∷ rest else []

-- A version at the start of a text: digits, and at least one dot with digits.
unfoldable pub version_at : Text → Option Text
unfolding dotted
version_at [] = none
version_at (c ∷ cs) = when (is_digit c && contains (dotted cs) b'.') (c ∷ dotted cs)

-- `\s+` before a digit or a letter
abbrev pub after_spaces : Text → Option Text
after_spaces [] = none
after_spaces (c ∷ cs) = when (is_space c) (strip_start is_space cs)

-- What `_run_capture` gives.
pub data Captured : Type 0 where
  unavailable raised : Captured
  failed : ℤ → Captured
  finished : Text → Text → Captured

pub record ToolVersion : Type 0 where
  pub version : Text
  pub build : Option Text

pub data VersionReport : Type 0 where
  not_installed not_recognized : VersionReport
  command_failed : Option ℤ → VersionReport
  reported : ToolVersion → VersionReport

-- `is_word` is the class of `\w`, and `same c d` tells whether c matches d where case is ignored.
module _ (is_word : ℕ → Bool) (same : ℕ → ℕ → Bool) where
  -- A word of the pattern, where case is ignored.
  unfoldable pub after_word : Text → Text → Option Text
  after_word [] cs = some cs
  after_word (d ∷ ds) [] = none
  after_word (d ∷ ds) (c ∷ cs) = let rest = after_word ds cs in if same c d then rest else none

  -- The first match at the start of a word: `fresh` tells whether a word may start here.
  unfoldable pub search_word : (Text → Option Text) → Bool → Text → Option Text
  search_word match_at fresh [] = none
  search_word match_at fresh (c ∷ cs) =
      let later = search_word match_at (not (is_word c)) cs in
      elim (if fresh then match_at (c ∷ cs) else none) [ none ↦ later | some v ↦ some v ]

  -- `release\s+(version)`
  abbrev pub release_at : Text → Option Text
  release_at cs = after_word (codes "release") cs >>= λ rest. after_spaces rest >>= version_at

  -- `V(version)`, in this case only
  abbrev pub build_at : Text → Option Text
  build_at [] = none
  build_at (c ∷ cs) = if c == b'V' then version_at cs else none

  -- `cmake\s+version\s+(version)`
  abbrev pub cmake_at : Text → Option Text
  cmake_at cs = after_word (codes "cmake") cs >>= λ rest. after_spaces rest >>= λ words.
      after_word (codes "version") words >>= λ more. after_spaces more >>= version_at

  unfoldable pub parse_nvcc_version : Text → Option ToolVersion
  unfolding search_word after_word version_at strip_start
  parse_nvcc_version text = search_word release_at true text >>= λ version.
      some (record { version = version; build = search_word build_at true text })

  unfoldable pub parse_cmake_version : Text → Option ToolVersion
  unfolding search_word after_word version_at strip_start
  parse_cmake_version text = search_word cmake_at true text >>= λ version.
      some (record { version = version; build = none })

-- `"\n".join((stdout, stderr))`
unfoldable pub safe_version_result : (Text → Option ToolVersion) → Captured → VersionReport
safe_version_result parser unavailable = not_installed
safe_version_result parser raised = command_failed none
safe_version_result parser (failed code) = command_failed (some code)
safe_version_result parser (finished stdout stderr) = elim (parser (stdout ++ (10 ∷ stderr))) [
  | none ↦ not_recognized
  | some v ↦ reported v
]
