-- ===== src/Compare/Keys.antt =====
-- The keys that the comparisons walk through, and when the walk reports nothing.
use mlx_spark.Base.{
  append-eq-nil, String, true, ◌||◌, List, [], ◌∷◌, ◌++◌, ◌≡◌, refl, arith, ◌==◌, string_eq, ◌∙◌,
  contains, inl, inr, Bool-cases,
}
use mlx_spark.Base.Sort.{contains-sorted}
use mlx_spark.Json.{Fields, end, field, keys}
use mlx_spark.Compare.{new_keys, all_keys, over_keys}

contains-append :
    (xs ys : List String) (k : String) → contains (xs ++ ys) k ≡ (contains xs k || contains ys k)
contains-append [] ys k = refl
contains-append (x ∷ xs) ys k = ground (arith, contains-append xs ys k)

contains-new_keys :
    (fs gs : Fields) (k : String)
    → (contains (keys fs) k || contains (new_keys fs gs) k)
      ≡ (contains (keys fs) k || contains (keys gs) k)
unfolding new_keys
contains-new_keys fs end k = refl
contains-new_keys fs (field j v gs) k = ground (arith, contains-new_keys fs gs k)

pub contains-all_keys :
    (fs gs : Fields) (k : String)
    → contains (all_keys fs gs) k ≡ (contains (keys fs) k || contains (keys gs) k)
unfolding all_keys
contains-all_keys fs gs k =
    contains-sorted k (keys fs ++ new_keys fs gs)
    ∙ contains-append (keys fs) (new_keys fs gs) k
    ∙ contains-new_keys fs gs k

pub over_keys-eq-nil :
    (f : String → List String) (ks : List String)
    → over_keys f ks ≡ []
    → (k : String) → contains ks k ≡ true
    → f k ≡ []
unfolding over_keys
over_keys-eq-nil f [] h k m = cc
over_keys-eq-nil f (j ∷ ks) h k m =
    let (here, later) = append-eq-nil (f j) (over_keys f ks) h in
    elim (Bool-cases (k == j)) [
      | inl same ↦ let p : k ≡ j = ground arith in rw p here
      | inr other ↦ over_keys-eq-nil f ks later k (ground arith)
    ]

pub over_keys-nil :
    (f : String → List String) (ks : List String)
    → ((k : String) → contains ks k ≡ true → f k ≡ [])
    → over_keys f ks ≡ []
unfolding over_keys
over_keys-nil f [] h = refl
over_keys-nil f (j ∷ ks) h =
    rw (h j (ground arith)) (over_keys-nil f ks (λ k m. h k (ground arith)))
