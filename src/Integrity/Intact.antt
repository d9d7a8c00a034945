-- ===== src/Integrity/Intact.antt =====
-- Which bundles are intact.
use mlx_spark.Base.{
  ℕ, List, [], ◌∷◌, ◌++◌, append-eq-nil, Bool, true, false, not, ◌||◌, some, nat_eq, ◌==◌, ==_iff,
  length, if◌then◌else◌, All, ◌≡◌, ◌↔◌, refl, ap, ◌∙◌, arith, Option-cases, inl, inr,
}
use mlx_spark.Base.Result.{ok, >>=-eq-ok, ok-injective}
use mlx_spark.Base.Text.{codes, codes_eq}
use mlx_spark.Base.Lines.{split_lines, cut}
use mlx_spark.Integrity.{
  Bundle, IntegrityReport, entry_errors, manifest_errors, exit_code, check_integrity,
}

-- The line is the hash, two spaces and the path of a file below the root that has the hash.
pub record IsIntact (bundle : Bundle) (line : List ℕ) : Type 0 where
  pub expected : List ℕ
  pub rel : List ℕ
  pub parted : cut (codes "  ") line ≡ some (expected, rel)
  pub within : bundle.within rel ≡ true
  pub is_file : bundle.is_file rel ≡ true
  pub hash : bundle.hash rel ≡ expected

entry_tests :
    (w f m : Bool) (first second : List ℕ)
    → ((if not w || not f then first ∷ [] else if m then [] else second ∷ []) ≡ [])
      ↔ ((w ≡ true) × (f ≡ true) × (m ≡ true))
entry_tests false f m first second = (λ h. cc, λ (h, _, _). cc)
entry_tests true false m first second = (λ h. cc, λ (_, h, _). cc)
entry_tests true true false first second = (λ h. cc, λ (_, _, h). cc)
entry_tests true true true first second = (λ h. (refl, refl, refl), λ h. refl)

module _ (bundle : Bundle) where
  manifest_errors-eq-nil :
      (lines : List (List ℕ)) → manifest_errors bundle lines ≡ ok [] → All (IsIntact bundle) lines
  unfolding manifest_errors
  manifest_errors-eq-nil [] h = tt
  manifest_errors-eq-nil (line ∷ lines) h = elim (Option-cases (cut (codes "  ") line)) [
    | inl missing ↦ cc (rw (manifest_errors, missing) at h)
    | inr ((expected, rel), parted) ↦
        let (later, e, h₁) =
          >>=-eq-ok (manifest_errors bundle lines)
            (λ later. ok (entry_errors bundle expected rel ++ later))
            (rw (manifest_errors, parted) at h) in
        let (first, rest) =
          append-eq-nil (entry_errors bundle expected rel) later (ok-injective h₁) in
        let (within, is_file, same) =
          (entry_tests (bundle.within rel) (bundle.is_file rel) (bundle.hash rel == expected) _ _).0
            first in
        (
          record {
            expected = expected;
            rel = rel;
            parted = parted;
            within = within;
            is_file = is_file;
            hash = (==_iff (bundle.hash rel) expected).0 same;
          },
          manifest_errors-eq-nil lines (e ∙ ap ok rest),
        )
  ]

  All-manifest_errors :
      (lines : List (List ℕ)) → All (IsIntact bundle) lines → manifest_errors bundle lines ≡ ok []
  unfolding manifest_errors
  All-manifest_errors [] h = refl
  All-manifest_errors (line ∷ lines) (i, h) =
      let first : entry_errors bundle i.expected i.rel ≡ [] =
        (entry_tests (bundle.within i.rel) (bundle.is_file i.rel) (bundle.hash i.rel == i.expected)
            _ _).1
          (i.within, i.is_file, (==_iff (bundle.hash i.rel) i.expected).1 i.hash) in
      rw (manifest_errors, i.parted, All-manifest_errors lines h)
        (ap (λ errors. ok (errors ++ [])) first)

  exit_code-eq-zero : (errors : List (List ℕ)) → exit_code errors ≡ 0 → errors ≡ []
  exit_code-eq-zero [] h = refl
  exit_code-eq-zero (e ∷ errors) h = absurd (omega arith)

  -- The check ends with code 0 exactly when there is a manifest whose lines are hashes and paths, each
  -- path a file below the root that has the hash; it then reports all the lines as checked.
  pub check_integrity_iff :
      (text : List ℕ)
      → bundle.manifest ≡ some text
      → ((r : IntegrityReport) × (check_integrity bundle ≡ ok r)
          × (r.code ≡ 0)
          × (r.checked ≡ length (split_lines text)))
        ↔ All (IsIntact bundle) (split_lines text)
  unfolding check_integrity
  check_integrity_iff text is_text = (
    λ (r, h, zero, _).
        let (errors, e, h₁) =
          >>=-eq-ok (manifest_errors bundle (split_lines text)) _
            (rw (check_integrity, is_text) at h) in
        let none_left = exit_code-eq-zero errors (ap (λ r. r.code) (ok-injective h₁) ∙ zero) in
        manifest_errors-eq-nil (split_lines text) (e ∙ ap ok none_left),
    λ intact. (
      record { checked = length (split_lines text); errors = []; code = 0 },
      rw (check_integrity, is_text, All-manifest_errors (split_lines text) intact) refl,
      refl,
      refl,
    ),
  )
