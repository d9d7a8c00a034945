-- ===== src/Doctor/Versions/Tests.antt =====
-- Outputs of tools with paths and hosts in them.
use mlx_spark.Base.{ℕ, [], Bool, ◌||◌, some, nat_eq, ◌==◌, ◌≡◌, refl, inl}
use mlx_spark.Base.Text.{codes, codes_eq, is_alphanumeric}
use mlx_spark.Base.Lines.{strip_start}
use mlx_spark.Doctor.Versions.{
  ToolVersion, finished, reported, not_recognized, dotted, version_at, after_word, search_word,
  parse_nvcc_version, parse_cmake_version, safe_version_result,
}
use mlx_spark.Doctor.Versions.Plain.{ArePlain, safe_version_result-ArePlain}

abbrev is_word : ℕ → Bool
is_word c = is_alphanumeric c || c == b'_'

abbrev same : ℕ → ℕ → Bool
same c d = c == d

abbrev version : ToolVersion
version = record { version = codes "12.8"; build = some (codes "12.8.93") }

nvcc :
    safe_version_result
      (parse_nvcc_version is_word same)
      (finished (codes "a driver, release  12.8, V12.8.93 /home/x") [])
    ≡ reported version
unfolding safe_version_result parse_nvcc_version search_word after_word version_at dotted
    strip_start nat_eq codes_eq
nvcc = refl

-- A word that only ends in the name is none.
other_word :
    safe_version_result
      (parse_cmake_version is_word same)
      (finished (codes "xcmake version 3.1") (codes "cmake version 3"))
    ≡ not_recognized
unfolding safe_version_result parse_cmake_version search_word after_word version_at dotted
    strip_start nat_eq codes_eq
other_word = refl

safe_version_result-ArePlain_example : ArePlain version
safe_version_result-ArePlain_example =
    safe_version_result-ArePlain is_word same
      (finished (codes "a driver, release  12.8, V12.8.93 /home/x") []) version (inl nvcc)
