-- ===== src/Integrity.antt =====
-- tools/check_integrity.py: the files of a bundle against its manifest. A text is its code points.
pub mod Intact
mod Tests
use mlx_spark.Base.{
  ℕ, List, [], ◌∷◌, ◌++◌, Bool, true, false, not, ◌&&◌, ◌||◌, Option, none, some, nat_eq, ◌==◌,
  length, if◌then◌else◌,
}
use mlx_spark.Base.Result.{Result, ok, err, ◌>>=◌}
use mlx_spark.Base.Text.{codes, codes_eq}
use mlx_spark.Base.Lines.{split_lines, cut}

-- There is no manifest, or a line has no two spaces, which raises ValueError.
pub data IntegrityError : Type 0 where
  no_manifest value_error : IntegrityError

-- `within`: the resolved path is below the root. `is_file` and `hash` are of the resolved path.
pub record Bundle : Type 0 where
  pub manifest : Option (List ℕ)
  pub within : List ℕ → Bool
  pub is_file : List ℕ → Bool
  pub hash : List ℕ → List ℕ

-- What is printed, and the exit code.
pub record IntegrityReport : Type 0 where
  pub checked : ℕ
  pub errors : List (List ℕ)
  pub code : ℕ

-- The body of the loop, for an expected hash and a path.
abbrev pub entry_errors : Bundle → List ℕ → List ℕ → List (List ℕ)
entry_errors bundle expected rel =
    if not (bundle.within rel) || not (bundle.is_file rel)
    then (rel ++ codes ": missing/unsafe") ∷ []
    else if bundle.hash rel == expected
    then []
    else (rel ++ codes ": mismatch") ∷ []

unfoldable pub manifest_errors : Bundle → List (List ℕ) → Result IntegrityError (List (List ℕ))
unfolding cut
manifest_errors bundle [] = ok []
manifest_errors bundle (line ∷ lines) =
    let rest = manifest_errors bundle lines in
    elim (cut (codes "  ") line) [
      | none ↦ err value_error
      | some (expected, rel) ↦ rest >>= λ later. ok (entry_errors bundle expected rel ++ later)
    ]

abbrev pub exit_code : List (List ℕ) → ℕ
exit_code [] = 0
exit_code (e ∷ es) = 1

unfoldable pub check_integrity : Bundle → Result IntegrityError IntegrityReport
unfolding manifest_errors split_lines
check_integrity bundle = elim bundle.manifest [
  | none ↦ err no_manifest
  | some text ↦ manifest_errors bundle (split_lines text) >>= λ errors.
      ok (record { checked = length (split_lines text); errors = errors; code = exit_code errors })
]
