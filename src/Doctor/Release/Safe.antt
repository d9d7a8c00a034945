-- ===== src/Doctor/Release/Safe.antt =====
-- Every reported field of the DGX release is of its class, and on a line of the file.
use mlx_spark.Base.{
  ℕ, List, [], ◌∷◌, Bool, true, false, ◌&&◌, ◌||◌, Option, none, some, nat_eq, ◌==◌, ==_iff, Among,
  here, there, ◌≡◌, ◌⊎◌, inl, inr, refl, sym, ◌∙◌, arith, Bool-cases, Option-cases,
}
use mathlib.Core.Path.{subst}
use mlx_spark.Base.Maybe.{some-injective}
use mlx_spark.Base.Text.{codes, codes_eq}
use mlx_spark.Base.Lines.{split_lines, cut, strip}
use mlx_spark.Doctor.{Text}
use mlx_spark.Doctor.Release.{
  DgxRelease, DgxOs, release, no_safe_version_fields, is_name_char, is_version_char, is_field,
  clean, set_dgx_field, dgx_lines, is_empty, parse_dgx_release,
}

-- The line is the key, an equals sign and the value, up to spaces and quotes.
pub record IsEntry (key value : Text) (line : Text) : Type 0 where
  pub left : Text
  pub right : Text
  pub parted : cut (codes "=") line ≡ some (left, right)
  pub is_key : strip left ≡ key
  pub is_value : clean right ≡ value

-- A value of the class that a line gives the key.
pub record IsListed (lines : List Text) (key : Text) (p : ℕ → Bool) (value : Text) : Type 0 where
  pub safe : is_field p value ≡ true
  pub listed : Among (IsEntry key value) lines

-- Each field that is there is listed.
pub record IsSafe (lines : List Text) (r : DgxRelease) : Type 0 where
  pub pretty_name :
      (value : Text)
      → r.pretty_name ≡ some value
      → IsListed lines (codes "DGX_PRETTY_NAME") is_name_char value
  pub swbuild_version :
      (value : Text)
      → r.swbuild_version ≡ some value
      → IsListed lines (codes "DGX_SWBUILD_VERSION") is_version_char value
  pub ota_version :
      (value : Text)
      → r.ota_version ≡ some value
      → IsListed lines (codes "DGX_OTA_VERSION") is_version_char value

module _ (lines : List Text) where
  -- What a line adds is listed.
  given :
      (p : ℕ → Bool) (name key value v : Text)
      → Among (IsEntry key value) lines
      → (key == name) ≡ true
      → is_field p value ≡ true
      → ◌≡◌ {A = Option Text} (some value) (some v)
      → IsListed lines name p v
  given p name key value v entry is_name good e = record {
    safe = subst (λ w. is_field p w ≡ true) (some-injective e) good;
    listed =
        subst (λ w. Among (IsEntry name w) lines) (some-injective e)
          (subst (λ k. Among (IsEntry k value) lines) ((==_iff key name).0 is_name) entry);
  }

  set_dgx_field-IsSafe :
      (key value : Text) (r : DgxRelease)
      → Among (IsEntry key value) lines
      → IsSafe lines r
      → IsSafe lines (set_dgx_field key value r)
  unfolding set_dgx_field
  set_dgx_field-IsSafe key value r entry safe = elim (Bool-cases (key == codes "DGX_PRETTY_NAME")) [
    | inl is_name ↦ elim (Bool-cases (is_field is_name_char value)) [
      | inl good ↦
          rw (is_name, good)
            (record {
              pretty_name = λ v. given is_name_char _ key value v entry is_name good;
              swbuild_version = safe.swbuild_version;
              ota_version = safe.ota_version;
            })
      | inr bad ↦ rw (is_name, bad) safe
    ]
    | inr not_name ↦ elim (Bool-cases (key == codes "DGX_SWBUILD_VERSION")) [
      | inl is_build ↦ elim (Bool-cases (is_field is_version_char value)) [
        | inl good ↦
            rw (not_name, is_build, good)
              (record {
                pretty_name = safe.pretty_name;
                swbuild_version = λ v. given is_version_char _ key value v entry is_build good;
                ota_version = safe.ota_version;
              })
        | inr bad ↦ rw (not_name, is_build, bad) safe
      ]
      | inr not_build ↦ elim (Bool-cases (key == codes "DGX_OTA_VERSION")) [
        | inl is_ota ↦ elim (Bool-cases (is_field is_version_char value)) [
          | inl good ↦
              rw (not_name, not_build, is_ota, good)
                (record {
                  pretty_name = safe.pretty_name;
                  swbuild_version = safe.swbuild_version;
                  ota_version = λ v. given is_version_char _ key value v entry is_ota good;
                })
          | inr bad ↦ rw (not_name, not_build, is_ota, bad) safe
        ]
        | inr not_ota ↦ rw (not_name, not_build, not_ota) safe
      ]
    ]
  ]

  -- The remaining lines are among all of them.
  dgx_lines-IsSafe :
      (rest : List Text) (r : DgxRelease)
      → ((key value : Text) → Among (IsEntry key value) rest → Among (IsEntry key value) lines)
      → IsSafe lines r
      → IsSafe lines (dgx_lines rest r)
  unfolding dgx_lines
  dgx_lines-IsSafe [] r within safe = safe
  dgx_lines-IsSafe (line ∷ rest) r within safe = elim (Option-cases (cut (codes "=") line)) [
    | inl missing ↦
        rw (dgx_lines, missing) (dgx_lines-IsSafe rest r (λ k v m. within k v (there m)) safe)
    | inr ((left, right), parted) ↦
        let entry : IsEntry (strip left) (clean right) line = record {
          left = left;
          right = right;
          parted = parted;
          is_key = refl;
          is_value = refl;
        } in
        rw (dgx_lines, parted)
          (dgx_lines-IsSafe rest (set_dgx_field (strip left) (clean right) r)
            (λ k v m. within k v (there m))
            (set_dgx_field-IsSafe (strip left) (clean right) r
              (within (strip left) (clean right) (here entry)) safe))
  ]

-- The field is one that is reported.
abbrev fits : Text → Text → Bool
fits key value =
    (key == codes "DGX_PRETTY_NAME" && is_field is_name_char value)
    || ((key == codes "DGX_SWBUILD_VERSION" || key == codes "DGX_OTA_VERSION")
        && is_field is_version_char value)

set_dgx_field-is_empty :
    (key value : Text) (r : DgxRelease)
    → (fits key value ≡ true) ⊎ (is_empty r ≡ false)
    → is_empty (set_dgx_field key value r) ≡ false
unfolding set_dgx_field
set_dgx_field-is_empty key value r h = ground arith

dgx_lines-is_empty :
    (lines : List Text) (r : DgxRelease) → is_empty r ≡ false → is_empty (dgx_lines lines r) ≡ false
unfolding dgx_lines
dgx_lines-is_empty [] r h = h
dgx_lines-is_empty (line ∷ lines) r h = elim (Option-cases (cut (codes "=") line)) [
  | inl missing ↦ rw (dgx_lines, missing) (dgx_lines-is_empty lines r h)
  | inr ((left, right), parted) ↦
      rw (dgx_lines, parted)
        (dgx_lines-is_empty lines (set_dgx_field (strip left) (clean right) r)
          (set_dgx_field-is_empty (strip left) (clean right) r (inr h)))
]

listed-is_empty :
    (key value : Text) (lines : List Text) (r : DgxRelease)
    → Among (IsEntry key value) lines
    → fits key value ≡ true
    → is_empty (dgx_lines lines r) ≡ false
unfolding dgx_lines
listed-is_empty key value [] r entry fit = elim entry [ ]
listed-is_empty key value (line ∷ lines) r (here entry) fit =
    let found : fits (strip entry.left) (clean entry.right) ≡ true =
      rw (entry.is_key, entry.is_value) fit in
    rw (dgx_lines, entry.parted)
      (dgx_lines-is_empty lines (set_dgx_field (strip entry.left) (clean entry.right) r)
        (set_dgx_field-is_empty (strip entry.left) (clean entry.right) r (inl found)))
listed-is_empty key value (line ∷ lines) r (there entry) fit =
    elim (Option-cases (cut (codes "=") line)) [
      | inl missing ↦ rw (dgx_lines, missing) (listed-is_empty key value lines r entry fit)
      | inr ((left, right), parted) ↦
          rw (dgx_lines, parted)
            (listed-is_empty key value lines (set_dgx_field (strip left) (clean right) r) entry fit)
    ]

-- What the lines of the file justify.
pub data IsJustified (lines : List Text) : DgxOs → Type 0 where
  nothing :
      ((key value : Text) → Among (IsEntry key value) lines → fits key value ≡ false)
      → IsJustified lines no_safe_version_fields
  fields : {r : DgxRelease} → is_empty r ≡ false → IsSafe lines r → IsJustified lines (release r)

-- A release is reported with at least one field, every field of its class of at most eighty
-- characters and on a line of its key; none is reported exactly where no line has such a field.
pub parse_dgx_release-IsJustified :
    (text : Text) → IsJustified (split_lines text) (parse_dgx_release text)
unfolding parse_dgx_release
parse_dgx_release-IsJustified text =
    let lines = split_lines text in
    let start : DgxRelease = record {
      pretty_name = none;
      swbuild_version = none;
      ota_version = none;
    } in
    let safe : IsSafe lines start = record {
      pretty_name = λ v e. cc;
      swbuild_version = λ v e. cc;
      ota_version = λ v e. cc;
    } in
    elim (Bool-cases (is_empty (dgx_lines lines start))) [
      | inl empty ↦ rw empty (
          nothing (λ key value entry. elim (Bool-cases (fits key value)) [
            | inl fit ↦ cc (sym empty ∙ listed-is_empty key value lines start entry fit)
            | inr other ↦ other
          ]))
      | inr some_field ↦
          rw some_field (fields some_field (dgx_lines-IsSafe lines lines start (λ k v m. m) safe))
    ]
