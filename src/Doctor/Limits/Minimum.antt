-- ===== src/Doctor/Limits/Minimum.antt =====
-- The least headroom of the levels with a finite limit.
use mlx_spark.Base.{
  ℕ, ◌≤◌, ◌<◌, List, [], ◌∷◌, Among, here, there, Among-All, map-All, Option, none, some, nat_eq,
  length, All, ltb, if◌then◌else◌, ◌≡◌, inl, inr, refl, sym, ap, arith, Bool-cases,
}
use mathlib.Core.Path.{subst}
use mlx_spark.Base.Result.{ok, >>=-eq-ok, ok-injective}
use mlx_spark.Base.Maybe.{some-injective}
use mlx_spark.Doctor.{Text}
use mlx_spark.Doctor.Context.{take}
use mlx_spark.Doctor.Limits.{
  Level, CgroupMemory, limit_name, current_name, levels_onto, level_of, finite_levels, onto, least,
  tightest_of,
}
use mlx_spark.Doctor.Limits.Levels.{All-levels_onto, Among-levels_onto}
use mlx_spark.Doctor.Limits.Tightest.{IsLevel, level_of-IsLevel}

-- No listed level has less headroom.
abbrev IsBelow : Level → List Level → Type 0
IsBelow best xs = All (λ y. best.available ≤ y.available) xs

least-IsBelow : (best : Level) (xs : List Level) → IsBelow (least best xs) (best ∷ xs)
unfolding least
least-IsBelow best [] = (omega arith, tt)
least-IsBelow best (x ∷ xs) = elim (Bool-cases (ltb x.available best.available)) [
  | inl smaller ↦
      let (under, rest) = least-IsBelow x xs in
      subst (λ l. IsBelow l (best ∷ x ∷ xs))
        (ap (λ b. least (if b then x else best) xs) (sym smaller))
        (below_both (least x xs) under rest (ground arith))
  | inr larger ↦
      let (under, rest) = least-IsBelow best xs in
      subst (λ l. IsBelow l (best ∷ x ∷ xs))
        (ap (λ b. least (if b then x else best) xs) (sym larger))
        (under, (before (least best xs) under (ground arith), rest))
]
  where
    below_both :
        (l : Level)
        → l.available ≤ x.available
        → IsBelow l xs
        → x.available < best.available
        → IsBelow l (best ∷ x ∷ xs)
    below_both l under rest smaller = (omega arith, (under, rest))

    before :
        (l : Level)
        → l.available ≤ best.available
        → best.available ≤ x.available
        → l.available ≤ x.available
    before l under larger = omega arith

least-Among : (best : Level) (xs : List Level) → Among (λ y. y ≡ least best xs) (best ∷ xs)
unfolding least
least-Among best [] = here refl
least-Among best (x ∷ xs) = elim (Bool-cases (ltb x.available best.available)) [
  | inl smaller ↦ rw (least, smaller) (there (least-Among x xs))
  | inr larger ↦ rw (least, larger) (skip (least-Among best xs))
]
  where
    skip : {P : Level → Type 0} → Among P (best ∷ xs) → Among P (best ∷ x ∷ xs)
    skip (here p) = here p
    skip (there later) = there (there later)

module _ (digit : ℕ → Option ℕ) (read : Text → List Text → Text → Option Text) (version : ℕ)
    (mount : Text) where
  -- The texts of the directory say the limit.
  abbrev pub At : Option Level → List Text → Type 0
  At o at =
      IsLevel digit version (read mount at (limit_name version))
        (read mount at (current_name version)) o

  -- Each level is sound, and its limit is among the finite ones.
  abbrev Kept : List Level → List Text → Type 0
  Kept found at =
      (o : Option Level) × At o at
      × ((level : Level) → o ≡ some level → Among (λ y. y ≡ level) found)

  add :
      (o : Option Level) (later : List Level) (at : List Text)
      → Kept later at
      → Kept (onto o later) at
  add none later at kept = kept
  add (some level) later at (p, is_level, among) = (p, is_level, λ l e. there (among l e))

  first-Kept :
      (o : Option Level) (later : List Level) (at : List Text) → At o at → Kept (onto o later) at
  first-Kept none later at h = (none, h, λ l e. cc)
  first-Kept (some level) later at h = (some level, h, λ l e. here (some-injective e))

  pub finite_levels-Kept :
      (levels : List (List Text)) (found : List Level)
      → finite_levels digit read version mount levels ≡ ok found
      → All (Kept found) levels
  unfolding finite_levels
  finite_levels-Kept [] found h = tt
  finite_levels-Kept (at ∷ levels) found h =
      let (o, e₁, h₁) =
        >>=-eq-ok
          (level_of digit version (read mount at (limit_name version))
            (read mount at (current_name version)))
          _ h in
      let (later, e₂, h₂) = >>=-eq-ok (finite_levels digit read version mount levels) _ h₁ in
      let is_level = level_of-IsLevel digit version _ _ o e₁ in
      subst (λ ls. All (Kept ls) (at ∷ levels)) (ok-injective h₂)
        (
          first-Kept o later at is_level,
          map-All levels (add o later) (finite_levels-Kept levels later e₂),
        )

  pub finite_levels-At :
      (levels : List (List Text)) (found : List Level)
      → finite_levels digit read version mount levels ≡ ok found
      → All (λ level. Among (At (some level)) levels) found
  unfolding finite_levels
  finite_levels-At [] found h =
      subst (All (λ level. Among (At (some level)) [])) (ok-injective h) tt
  finite_levels-At (at ∷ levels) found h =
      let (o, e₁, h₁) =
        >>=-eq-ok
          (level_of digit version (read mount at (limit_name version))
            (read mount at (current_name version)))
          _ h in
      let (later, e₂, h₂) = >>=-eq-ok (finite_levels digit read version mount levels) _ h₁ in
      let is_level = level_of-IsLevel digit version _ _ o e₁ in
      subst (All (λ level. Among (At (some level)) (at ∷ levels))) (ok-injective h₂) (
        with_first o is_level later
          (map-All later (λ level lies. there lies) (finite_levels-At levels later e₂)))
    where
      with_first :
          (o : Option Level)
          → At o at
          → (later : List Level) → All (λ level. Among (At (some level)) (at ∷ levels)) later
          → All (λ level. Among (At (some level)) (at ∷ levels)) (onto o later)
      with_first none h later rest = rest
      with_first (some level) h later rest = (here h, rest)

  -- The first parts of the path name a directory that says the limit.
  abbrev pub Says : List Text → Option Level → Type 0
  Says parts o = (n : ℕ) × (n ≤ length parts) × At o (take n parts)

  -- The tightest of the finite limits, where there is one: no directory from the mount down to the
  -- control group leaves less.
  pub data IsTightest (parts : List Text) : CgroupMemory → Type 0 where
    unbounded :
        ((n : ℕ) → n ≤ length parts → At none (take n parts))
        → IsTightest parts (record { version = version; tightest = none; finite_limit_levels = 0 })
    bounded :
        {level : Level} {count : ℕ}
        → 0 < count
        → Says parts (some level)
        → ((n : ℕ)
            → n ≤ length parts
            → (o : Option Level) × At o (take n parts)
              × ((other : Level) → o ≡ some other → level.available ≤ other.available))
        → IsTightest parts
            (record { version = version; tightest = some level; finite_limit_levels = count })

  none-Kept : (at : List Text) → Kept [] at → At none at
  none-Kept at (none, h, among) = h
  none-Kept at (some level, h, among) = elim (among level refl) [ ]

  least-Kept :
      (best : Level) (xs : List Level) (at : List Text)
      → Kept (best ∷ xs) at
      → (o : Option Level) × At o at
        × ((other : Level) → o ≡ some other → (least best xs).available ≤ other.available)
  least-Kept best xs at (o, h, among) =
      (o, h, λ other e. one_of (Among-All (among other e) (least-IsBelow best xs)))
    where
      one_of :
          {other : Level} {ls : List Level}
          → Among (λ y. (y ≡ other) × ((least best xs).available ≤ y.available)) ls
          → (least best xs).available ≤ other.available
      one_of (here (same, below)) = subst (λ y. (least best xs).available ≤ y.available) same below
      one_of (there later) = one_of later

  lies :
      (level : Level) (found : List Level) (levels : List (List Text))
      → Among (λ y. y ≡ level) found
      → All (λ l. Among (At (some l)) levels) found
      → Among (At (some level)) levels
  lies level found levels among each = one_of (Among-All among each)
    where
      one_of :
          {ls : List Level}
          → Among (λ y. (y ≡ level) × Among (At (some y)) levels) ls
          → Among (At (some level)) levels
      one_of (here (same, found)) = subst (λ y. Among (At (some y)) levels) same found
      one_of (there later) = one_of later

  pub report-IsTightest :
      (parts : List Text) (levels : List (List Text)) (found : List Level)
      → levels_onto [] parts ≡ ok levels
      → All (Kept found) levels
      → All (λ level. Among (At (some level)) levels) found
      → IsTightest parts (record {
        version = version;
        tightest = tightest_of found;
        finite_limit_levels = length found;
      })
  report-IsTightest parts levels [] are_levels kept at = unbounded (λ n below.
      none-Kept (take n parts) (All-levels_onto (Kept []) [] parts levels are_levels kept n below))
  report-IsTightest parts levels (x ∷ xs) are_levels kept at =
      bounded (omega arith)
        (Among-levels_onto (At (some (least x xs))) [] parts levels are_levels
          (lies (least x xs) (x ∷ xs) levels (least-Among x xs) at))
        (λ n below.
          least-Kept x xs (take n parts)
            (All-levels_onto (Kept (x ∷ xs)) [] parts levels are_levels kept n below))
