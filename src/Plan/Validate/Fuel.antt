-- ===== src/Plan/Validate/Fuel.antt =====
-- The search never runs out of fuel: each nested call marks one more task as active.
use mlx_spark.Base.{
  ℕ, zero, suc, ◌≤◌, ◌<◌, String, List, [], ◌∷◌, Bool, true, false, some, ◌≡◌, ◌≢◌, refl, ap, ◌∙◌,
  inl, inr, arith, contains, string_eq, length, Bool-cases, Option-cases, if◌then◌else◌,
}
use mlx_spark.Base.Result.{Result, ok, err, Result-cases}
use mlx_spark.Base.Dict.{Dict, keys, lookup}
use mlx_spark.Plan.{Task}
use mlx_spark.Plan.Validate.{PlanError, out_of_fuel, Marks, visit_deps, expand, visit, check_items}
use mlx_spark.Plan.Validate.Spec.{IsOrder}
use mlx_spark.Plan.Validate.Sound.{Visited, visit-Visited}

-- How many of the identifiers are not active.
pub remaining : List String → List String → ℕ
remaining [] active = 0
remaining (k ∷ ks) active =
    let rest = remaining ks active in if contains active k then rest else suc rest

remaining-cons-le :
    (ks : List String) (i : String) (active : List String)
    → remaining ks (i ∷ active) ≤ remaining ks active
unfolding remaining
remaining-cons-le [] i active = omega arith
remaining-cons-le (k ∷ ks) i active = ground (arith, remaining-cons-le ks i active)

remaining-cons-lt :
    (ks : List String) (i : String) (active : List String)
    → contains ks i ≡ true
    → contains active i ≡ false
    → remaining ks (i ∷ active) < remaining ks active
unfolding remaining
remaining-cons-lt [] i active listed fresh = cc
remaining-cons-lt (k ∷ ks) i active listed fresh =
    ground (arith, remaining-cons-le ks i active, remaining-cons-lt ks i active)

pub contains-keys-lookup :
    {V : Type 0} (k : String) (v : V) (d : Dict V)
    → lookup k d ≡ some v
    → contains (keys d) k ≡ true
unfolding lookup
contains-keys-lookup k v [] h = cc
contains-keys-lookup k v ((j, w) ∷ d) h = ground (arith, contains-keys-lookup k v d)

pub remaining-nil : (ks : List String) → remaining ks [] ≡ length ks
unfolding remaining
remaining-nil [] = refl
remaining-nil (k ∷ ks) = ap suc (remaining-nil ks)

pub length-keys : {V : Type 0} (d : Dict V) → length (keys d) ≡ length d
length-keys [] = refl
length-keys ((k, v) ∷ d) = ap suc (length-keys d)

module _ (by : Dict Task) (visit_rec : String → Marks → Result PlanError Marks)
    (sound : (d : String) (s s' : Marks)
      → IsOrder by s.seen
      → visit_rec d s ≡ ok s'
      → Visited by s s' d)
    (active : List String)
    (fueled : (d : String) (s : Marks)
      → IsOrder by s.seen
      → s.active ≡ active
      → visit_rec d s ≢ err out_of_fuel) where
  visit_deps_fueled :
      (t : Task) (ds : List String) (s : Marks)
      → IsOrder by s.seen
      → s.active ≡ active
      → visit_deps visit_rec by t ds s ≢ err out_of_fuel
  unfolding visit_deps
  visit_deps_fueled t [] s o a e = cc
  visit_deps_fueled t (d ∷ ds) s o a e = elim (Result-cases (visit_rec d s)) [
    | inl (s₁, ran) ↦
        let v = sound d s s₁ o ran in
        let later = visit_deps_fueled t ds s₁ v.order (v.active ∙ a) in
        ground (arith, later, fueled d s o a)
    | inr (x, raised) ↦ ground (arith, fueled d s o a)
  ]

expand_fueled :
    (by : Dict Task) (visit_rec : String → Marks → Result PlanError Marks) (i : String) (s : Marks)
    → ((t : Task)
        → lookup i by ≡ some t
        → visit_deps visit_rec by t t.depends_on (record s { active = i ∷ s.active })
          ≢ err out_of_fuel)
    → expand visit_rec by i s ≢ err out_of_fuel
unfolding expand
expand_fueled by visit_rec i s h e = elim (Option-cases (lookup i by)) [
  | inl missing ↦ ground arith
  | inr (t, found) ↦ ground (arith, h t found)
]

pub visit_fueled :
    (by : Dict Task) (fuel : ℕ) (i : String) (s : Marks)
    → IsOrder by s.seen
    → remaining (keys by) s.active < fuel
    → visit fuel by i s ≢ err out_of_fuel
unfolding visit
visit_fueled by zero i s o h e = omega arith
visit_fueled by (suc fuel) i s o h e = elim (Bool-cases (contains s.active i)) [
  | inl cyclic ↦ cc (rw cyclic at e)
  | inr fresh ↦ elim (Bool-cases (contains s.seen i)) [
    | inl old ↦ cc (rw (fresh, old) at e)
    | inr new ↦
        let nested : (t : Task)
            → lookup i by ≡ some t
            → visit_deps (visit fuel by) by t t.depends_on (record s { active = i ∷ s.active })
              ≢ err out_of_fuel =
          λ t found.
            visit_deps_fueled by (visit fuel by) (visit-Visited by fuel) (i ∷ s.active)
              (λ d s₁ o₁ a. visit_fueled by fuel d s₁ o₁ (
                rw a (
                  omega (
                    arith,
                    remaining-cons-lt (keys by) i s.active (contains-keys-lookup i t by found)
                        fresh,
                  ))))
              t t.depends_on _ o refl in
        expand_fueled by (visit fuel by) i s nested (rw (fresh, new) at e)
  ]
]

pub check_items_fueled :
    (has_card : String → Bool) (fuel : ℕ) (by items : Dict Task) (s : Marks)
    → IsOrder by s.seen
    → s.active ≡ []
    → length by < fuel
    → check_items has_card fuel by items s ≢ err out_of_fuel
unfolding check_items
check_items_fueled has_card fuel by [] s o a h e = cc
check_items_fueled has_card fuel by ((i, t) ∷ items) s o a h e =
    let started : visit fuel by i s ≢ err out_of_fuel =
      visit_fueled by fuel i s o
        (rw a (omega (arith, remaining-nil (keys by), length-keys by, h))) in
    elim (Result-cases (visit fuel by i s)) [
      | inl (s₁, ran) ↦
          let v = visit-Visited by fuel i s s₁ o ran in
          let later = check_items_fueled has_card fuel by items s₁ v.order (v.active ∙ a) h in
          ground arith
      | inr (x, raised) ↦ ground arith
    ]
