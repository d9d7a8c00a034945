-- ===== src/Plan/Validate/Complete.antt =====
-- On a graph whose dependencies fall in rank the search raises nothing.
use mlx_spark.Base.{
  ℕ, zero, suc, ◌≤◌, ◌<◌, String, List, [], ◌∷◌, Bool, true, some, ◌≡◌, refl, ◌∙◌, inl, inr, ◌⊎◌,
  arith, ◌==◌, contains, string_eq, All, length, Bool-cases,
}
use mlx_spark.Base.Result.{Result, ok, err}
use mlx_spark.Base.Dict.{Dict, keys, lookup}
use mlx_spark.Plan.{Task}
use mlx_spark.Plan.Validate.{
  PlanError, out_of_fuel, Marks, visit_deps, expand, visit, check_items, owners,
}
use mlx_spark.Plan.Validate.Spec.{IsOrder, IsBelow, IsRanked}
use mlx_spark.Plan.Validate.Sound.{Visited, visit-Visited}
use mlx_spark.Plan.Validate.Fuel.{remaining-nil, length-keys, visit_fueled}

-- Raises nothing but for lack of fuel.
abbrev Passes : Result PlanError Marks → Type 0
Passes r = (r ≡ err out_of_fuel) ⊎ ((s' : Marks) × (r ≡ ok s'))

-- Every active task ranks above `n`.
abbrev IsUnder : (String → ℕ) → ℕ → List String → Type 0
IsUnder rank n active = (a : String) → contains active a ≡ true → n < rank a

module _ (by : Dict Task) (rank : String → ℕ) (visit_rec : String → Marks → Result PlanError Marks)
    (sound : (d : String) (s s' : Marks)
      → IsOrder by s.seen
      → visit_rec d s ≡ ok s'
      → Visited by s s' d)
    (passes : (d : String) (u : Task) (s : Marks)
      → IsOrder by s.seen
      → lookup d by ≡ some u
      → IsUnder rank (rank d) s.active
      → Passes (visit_rec d s)) where
  visit_deps-Passes :
      (i : String) (t : Task) (ds : List String) (s : Marks)
      → IsOrder by s.seen
      → ((a : String) → contains s.active a ≡ true → rank i ≤ rank a)
      → All (IsBelow by rank i t) ds
      → Passes (visit_deps visit_rec by t ds s)
  unfolding visit_deps
  visit_deps-Passes i t [] s o under h = inr (s, refl)
  visit_deps-Passes i t (d ∷ ds) s o under (b, h) =
      elim (passes d b.task s o b.listed (λ a m. omega (arith, under a m, b.lower))) [
        | inl lacking ↦ ground (arith, b.listed, b.in_phase)
        | inr (s₁, ran) ↦
            let v = sound d s s₁ o ran in
            let later = visit_deps-Passes i t ds s₁ v.order (λ a m. under a (rw v.active at m)) h in
            ground (arith, b.listed, b.in_phase)
      ]

expand-Passes :
    (by : Dict Task) (visit_rec : String → Marks → Result PlanError Marks) (i : String) (t : Task)
    (s : Marks)
    → lookup i by ≡ some t
    → Passes (visit_deps visit_rec by t t.depends_on (record s { active = i ∷ s.active }))
    → Passes (expand visit_rec by i s)
unfolding expand
expand-Passes by visit_rec i t s found h = ground arith

visit-Passes :
    (by : Dict Task) (rank : String → ℕ)
    → IsRanked by rank
    → (fuel : ℕ) (i : String) (t : Task) (s : Marks) → IsOrder by s.seen
    → lookup i by ≡ some t
    → IsUnder rank (rank i) s.active
    → Passes (visit fuel by i s)
unfolding visit
visit-Passes by rank ranked zero i t s o found under = inl refl
visit-Passes by rank ranked (suc fuel) i t s o found under =
    elim (Bool-cases (contains s.active i)) [
      | inl cyclic ↦ absurd (omega (arith, under i cyclic))
      | inr fresh ↦ elim (Bool-cases (contains s.seen i)) [
        | inl old ↦ rw (fresh, old) (inr (s, refl))
        | inr new ↦
            rw (fresh, new)
              (expand-Passes by (visit fuel by) i t s found (
                visit_deps-Passes by rank (visit fuel by) (visit-Visited by fuel)
                  (λ d u s₁ o₁ f un. visit-Passes by rank ranked fuel d u s₁ o₁ f un) i t
                  t.depends_on (record s { active = i ∷ s.active }) o
                  (λ a m. ground (arith, under a)) (ranked i t found)))
      ]
    ]

-- Every identifier of the items is in the dict.
abbrev pub IsListed : Dict Task → Dict Task → Type 0
IsListed by items =
    (k : String) → contains (keys items) k ≡ true → (u : Task) × (lookup k by ≡ some u)

pub lookup-keys : (d : Dict Task) → IsListed d d
unfolding lookup
lookup-keys [] k h = cc
lookup-keys ((j, v) ∷ d) k h = elim (Bool-cases (j == k)) [
  | inl same ↦ (v, rw same)
  | inr other ↦ let (u, found) = lookup-keys d k (ground arith) in (u, ground arith)
]

pub check_items_passes :
    (has_card : String → Bool) (by : Dict Task) (rank : String → ℕ)
    → IsRanked by rank
    → (fuel : ℕ) → length by < fuel
    → (items : Dict Task) (s : Marks) → IsOrder by s.seen
    → s.active ≡ []
    → IsListed by items
    → All (λ x. (has_card x.0 ≡ true) × (contains owners x.1.owner ≡ true)) items
    → check_items has_card fuel by items s ≡ ok tt
unfolding check_items
check_items_passes has_card by rank ranked fuel enough [] s o a l h = refl
check_items_passes has_card by rank ranked fuel enough ((i, t) ∷ items) s o a l ((card, owner), h) =
    let (u, found) = l i (ground arith) in
    let started =
      visit_fueled by fuel i s o
        (rw a (omega (arith, remaining-nil (keys by), length-keys by, enough))) in
    elim (visit-Passes by rank ranked fuel i u s o found (λ k m. cc (rw a at m))) [
      | inl lacking ↦ absurd (started lacking)
      | inr (s₁, ran) ↦
          let v = visit-Visited by fuel i s s₁ o ran in
          let later =
            check_items_passes has_card by rank ranked fuel enough items s₁ v.order (v.active ∙ a)
              (λ k m. l k (ground arith)) h in
          ground arith
    ]
