-- ===== src/Doctor/Versions/Plain.antt =====
-- A reported version is digits and dots.
use mlx_spark.Base.{
  ℕ, [], ◌∷◌, ◌++◌, Bool, true, false, not, ◌&&◌, ◌||◌, Option, none, some, all, nat_eq, ◌==◌,
  contains, if◌then◌else◌, ◌≡◌, ◌⊎◌, refl, ap, ◌∙◌, arith, Bool-cases, Option-cases, inl, inr,
}
use mathlib.Core.Path.{subst}
use mlx_spark.Base.Maybe.{>>=-eq-some, some-injective}
use mlx_spark.Base.Text.{codes, codes_eq, is_digit}
use mlx_spark.Doctor.{Text}
use mlx_spark.Doctor.Versions.{
  dotted, version_at, after_spaces, Captured, unavailable, raised, failed, finished, ToolVersion,
  reported, after_word, search_word, release_at, build_at, cmake_at, parse_nvcc_version,
  parse_cmake_version, safe_version_result,
}

abbrev pub is_version_char : ℕ → Bool
is_version_char c = is_digit c || c == b'.'

-- Digits and dots, with a dot.
abbrev pub IsPlain : Text → Type 0
IsPlain v = (all is_version_char v ≡ true) × (contains v b'.' ≡ true)

dotted-all : (cs : Text) → all is_version_char (dotted cs) ≡ true
unfolding dotted
dotted-all [] = refl
dotted-all (c ∷ cs) = ground (arith, dotted-all cs)

version_at-IsPlain : (cs v : Text) → version_at cs ≡ some v → IsPlain v
unfolding version_at
version_at-IsPlain [] v h = cc
version_at-IsPlain (c ∷ cs) v h = elim (Bool-cases (is_digit c && contains (dotted cs) b'.')) [
  | inr other ↦ cc (rw other at h)
  | inl good ↦
      subst IsPlain (some-injective (rw good at h)) (both c (dotted cs) good (dotted-all cs))
]
  where
    both :
        (c : ℕ) (ds : Text)
        → is_digit c && contains ds b'.' ≡ true
        → all is_version_char ds ≡ true
        → IsPlain (c ∷ ds)
    both c ds good rest = (ground arith, ground arith)

-- What a search finds is found at one of the places.
search_word-found :
    (is_word : ℕ → Bool) (same : ℕ → ℕ → Bool) (P : Text → Type 0) (match_at : Text → Option Text)
    → ((cs v : Text) → match_at cs ≡ some v → P v)
    → (fresh : Bool) (cs v : Text) → search_word is_word same match_at fresh cs ≡ some v
    → P v
unfolding search_word
search_word-found is_word same P match_at sound fresh [] v h = cc
search_word-found is_word same P match_at sound fresh (c ∷ cs) v h =
    elim (Option-cases (if fresh then match_at (c ∷ cs) else none)) [
      | inl missing ↦
          search_word-found is_word same P match_at sound (not (is_word c)) cs v
            (rw (search_word, missing) at h)
      | inr (u, found) ↦
          subst P (some-injective (rw (search_word, found) at h)) (from fresh u found)
    ]
  where
    from : (fresh : Bool) (u : Text) → (if fresh then match_at (c ∷ cs) else none) ≡ some u → P u
    from true u found = sound (c ∷ cs) u found
    from false u found = cc

-- Each text of the version is plain.
abbrev pub ArePlain : ToolVersion → Type 0
ArePlain v = IsPlain v.version × ((build : Text) → v.build ≡ some build → IsPlain build)

module _ (is_word : ℕ → Bool) (same : ℕ → ℕ → Bool) where
  release_at-IsPlain : (cs v : Text) → release_at is_word same cs ≡ some v → IsPlain v
  release_at-IsPlain cs v h =
      let (rest, _, h₁) = >>=-eq-some (after_word is_word same (codes "release") cs) _ h in
      let (more, _, h₂) = >>=-eq-some (after_spaces rest) _ h₁ in version_at-IsPlain more v h₂

  build_at-IsPlain : (cs v : Text) → build_at is_word same cs ≡ some v → IsPlain v
  build_at-IsPlain [] v h = cc
  build_at-IsPlain (c ∷ cs) v h = elim (Bool-cases (c == b'V')) [
    | inl capital ↦ version_at-IsPlain cs v (rw capital at h)
    | inr other ↦ cc (rw other at h)
  ]

  cmake_at-IsPlain : (cs v : Text) → cmake_at is_word same cs ≡ some v → IsPlain v
  cmake_at-IsPlain cs v h =
      let (rest, _, h₁) = >>=-eq-some (after_word is_word same (codes "cmake") cs) _ h in
      let (words, _, h₂) = >>=-eq-some (after_spaces rest) _ h₁ in
      let (more, _, h₃) = >>=-eq-some (after_word is_word same (codes "version") words) _ h₂ in
      let (last, _, h₄) = >>=-eq-some (after_spaces more) _ h₃ in version_at-IsPlain last v h₄

  parse_nvcc_version-ArePlain :
      (text : Text) (v : ToolVersion) → parse_nvcc_version is_word same text ≡ some v → ArePlain v
  unfolding parse_nvcc_version
  parse_nvcc_version-ArePlain text v h =
      let (version, e, h₁) =
        >>=-eq-some (search_word is_word same (release_at is_word same) true text) _ h in
      subst ArePlain (some-injective h₁) (
        search_word-found is_word same IsPlain (release_at is_word same) release_at-IsPlain true
            text version e,
        search_word-found is_word same IsPlain (build_at is_word same) build_at-IsPlain true text,
      )

  parse_cmake_version-ArePlain :
      (text : Text) (v : ToolVersion) → parse_cmake_version is_word same text ≡ some v → ArePlain v
  unfolding parse_cmake_version
  parse_cmake_version-ArePlain text v h =
      let (version, e, h₁) =
        >>=-eq-some (search_word is_word same (cmake_at is_word same) true text) _ h in
      subst ArePlain (some-injective h₁) (
        search_word-found is_word same IsPlain (cmake_at is_word same) cmake_at-IsPlain true text
            version e,
        λ build none_built. cc,
      )

  safe_version_result-reported :
      (parser : Text → Option ToolVersion) (c : Captured) (v : ToolVersion)
      → ((text : Text) (w : ToolVersion) → parser text ≡ some w → ArePlain w)
      → safe_version_result parser c ≡ reported v
      → ArePlain v
  unfolding safe_version_result
  safe_version_result-reported parser unavailable v plain h = cc
  safe_version_result-reported parser raised v plain h = cc
  safe_version_result-reported parser (failed code) v plain h = cc
  safe_version_result-reported parser (finished stdout stderr) v plain h =
      elim (Option-cases (parser (stdout ++ (10 ∷ stderr)))) [
        | inl missing ↦ cc (rw (safe_version_result, missing) at h)
        | inr (w, found) ↦
            plain (stdout ++ (10 ∷ stderr)) v
              (found ∙ ap some (same_version w (rw (safe_version_result, found) at h)))
      ]
    where
      same_version : (w : ToolVersion) → reported w ≡ reported v → w ≡ v
      same_version w h = cc

  -- Whatever nvcc and cmake print, a version or build that is reported of them is digits and dots.
  pub safe_version_result-ArePlain :
      (c : Captured) (v : ToolVersion)
      → (safe_version_result (parse_nvcc_version is_word same) c ≡ reported v)
        ⊎ (safe_version_result (parse_cmake_version is_word same) c ≡ reported v)
      → ArePlain v
  safe_version_result-ArePlain c v (inl h) =
      safe_version_result-reported (parse_nvcc_version is_word same) c v parse_nvcc_version-ArePlain
        h
  safe_version_result-ArePlain c v (inr h) =
      safe_version_result-reported (parse_cmake_version is_word same) c v
        parse_cmake_version-ArePlain h
