-- ===== src/Doctor/Limits/Levels.antt =====
-- What one level says, and which levels there are.
use mlx_spark.Base.{
  ℕ, zero, suc, ◌≤◌, List, [], ◌∷◌, ◌++◌, Among, here, there, Bool, true, not, ◌||◌, nat_eq, ◌==◌,
  contains, length, All, ◌≡◌, ◌⊎◌, inl, inr, refl, sym, ap, ◌∙◌, arith, Bool-cases,
}
use mathlib.Core.Path.{subst}
use mlx_spark.Base.Result.{ok, >>=-eq-ok, ok-injective}
use mlx_spark.Base.Text.{codes_eq}
use mlx_spark.Doctor.{Text}
use mlx_spark.Doctor.Paths.{is_dots}
use mlx_spark.Doctor.Context.{take}
use mlx_spark.Doctor.Limits.{levels_onto}

-- A part of a path that names a directory in the one above.
abbrev pub is_plain : Text → Bool
is_plain part = not (part == [] || is_dots part || contains part b'/')

append_assoc : {A : Type 0} (xs ys zs : List A) → (xs ++ ys) ++ zs ≡ xs ++ (ys ++ zs)
append_assoc [] ys zs = refl
append_assoc (x ∷ xs) ys zs = ap (λ rest. x ∷ rest) (append_assoc xs ys zs)

append_nil : {A : Type 0} (xs : List A) → xs ++ [] ≡ xs
append_nil [] = refl
append_nil (x ∷ xs) = ap (λ rest. x ∷ rest) (append_nil xs)

-- The levels are made of plain parts.
pub levels_onto-eq-ok :
    (above parts : List Text) (levels : List (List Text))
    → levels_onto above parts ≡ ok levels
    → All (λ part. is_plain part ≡ true) parts
unfolding levels_onto
levels_onto-eq-ok above [] levels h = tt
levels_onto-eq-ok above (part ∷ parts) levels h =
    elim (Bool-cases (part == [] || is_dots part || contains part b'/')) [
      | inl bad ↦ cc (rw bad at h)
      | inr good ↦
          let (later, e, _) =
            >>=-eq-ok (levels_onto (above ++ (part ∷ [])) parts) _ (rw good at h) in
          (rw good refl, levels_onto-eq-ok (above ++ (part ∷ [])) parts later e)
    ]

module _ {κ} (P : List Text → Type κ) where
  later_level :
      (above : List Text) (part : Text) (parts : List Text) (n : ℕ)
      → P ((above ++ (part ∷ [])) ++ take n parts)
      → P (above ++ take (suc n) (part ∷ parts))
  later_level above part parts n h = subst P (append_assoc above (part ∷ []) (take n parts)) h

  Among-cases : {x : List Text} {xs : List (List Text)} → Among P (x ∷ xs) → P x ⊎ Among P xs
  Among-cases (here p) = inl p
  Among-cases (there later) = inr later

  -- What holds of every level holds of each of the first parts.
  pub All-levels_onto :
      (above parts : List Text) (levels : List (List Text))
      → levels_onto above parts ≡ ok levels
      → All P levels
      → (n : ℕ) → n ≤ length parts
      → P (above ++ take n parts)
  unfolding levels_onto
  All-levels_onto above [] levels h each n below =
      let same : levels ≡ above ∷ [] = sym (ok-injective h) in
      let (top, _) : All P (above ∷ []) = subst (All P) same each in
      subst P (sym (append_nil above) ∙ ap (λ xs. above ++ xs) (none_left n)) top
    where
      none_left : (n : ℕ) → [] ≡ take n []
      none_left zero = refl
      none_left (suc n) = refl
  All-levels_onto above (part ∷ parts) levels h each n below =
      elim (Bool-cases (part == [] || is_dots part || contains part b'/')) [
        | inl bad ↦ cc (rw bad at h)
        | inr good ↦
            let (later, e, h₁) =
              >>=-eq-ok (levels_onto (above ++ (part ∷ [])) parts) _ (rw good at h) in
            let (top, lower) : All P (above ∷ later) = subst (All P) (sym (ok-injective h₁)) each in
            at_level n below top (All-levels_onto (above ++ (part ∷ [])) parts later e lower)
      ]
    where
      at_level :
          (n : ℕ)
          → n ≤ suc (length parts)
          → P above
          → ((k : ℕ) → k ≤ length parts → P ((above ++ (part ∷ [])) ++ take k parts))
          → P (above ++ take n (part ∷ parts))
      at_level zero below top later = subst P (sym (append_nil above)) top
      at_level (suc k) below top later = later_level above part parts k (later k (omega arith))

  -- A level is one of the first parts.
  pub Among-levels_onto :
      (above parts : List Text) (levels : List (List Text))
      → levels_onto above parts ≡ ok levels
      → Among P levels
      → (n : ℕ) × (n ≤ length parts) × P (above ++ take n parts)
  unfolding levels_onto
  Among-levels_onto above [] levels h found = (
    zero,
    omega arith,
    subst P (sym (append_nil above)) (only (subst (Among P) (sym (ok-injective h)) found)),
  )
    where
      only : Among P (above ∷ []) → P above
      only (here p) = p
      only (there later) = elim later [ ]
  Among-levels_onto above (part ∷ parts) levels h found =
      elim (Bool-cases (part == [] || is_dots part || contains part b'/')) [
        | inl bad ↦ cc (rw bad at h)
        | inr good ↦
            let (later, e, h₁) =
              >>=-eq-ok (levels_onto (above ++ (part ∷ [])) parts) _ (rw good at h) in
            elim (Among-cases (subst (Among P) (sym (ok-injective h₁)) found)) [
              | inl top ↦ (zero, omega arith, subst P (sym (append_nil above)) top)
              | inr below ↦
                  let (n, within, p) =
                    Among-levels_onto (above ++ (part ∷ [])) parts later e below in
                  (suc n, omega arith, later_level above part parts n p)
            ]
      ]
