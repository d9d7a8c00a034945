-- ===== src/Compare.antt =====
-- Structural differences of two JSON values: `json_diff` of tools/resolve_sources.py and `diff` of
-- tools/compare_config.py.
pub mod Keys
pub mod Exact
pub mod Agree
mod Tests
use mlx_spark.Base.{
  ℕ, suc, String, ◌<>◌, List, [], ◌∷◌, ◌++◌, none, some, Option, Bool, true, false, not, ◌==◌,
  nat_eq, string_eq, contains, if◌then◌else◌,
}
use mlx_spark.Base.Sort.{sorted}
use mlx_spark.Base.Decimal.{show}
use mlx_spark.Json
use mlx_spark.Json.{
  Json, null, bool, int, float, str, list, dict, Items, nil, cons, Fields, end, field, find, keys,
  count, py_eq,
}

-- The keys of the second dict that the first lacks.
pub new_keys : Fields → Fields → List String
new_keys fs end = []
new_keys fs (field k v gs) =
    let rest = new_keys fs gs in if contains (keys fs) k then rest else k ∷ rest

-- `sorted(expected.keys() | observed.keys())`
pub all_keys : Fields → Fields → List String
unfolding new_keys sorted
all_keys fs gs = sorted (keys fs ++ new_keys fs gs)

-- The loop over the keys.
pub over_keys : (String → List String) → List String → List String
over_keys f [] = []
over_keys f (k ∷ ks) = f k ++ over_keys f ks

-- `path or "/"`
abbrev pub or_root : String → String
or_root path = if path == "" then "/" else path

-- `[] if expected == observed else [path or "/"]`
abbrev pub unless_equal : Bool → String → List String
unless_equal same path = if same then [] else path ∷ []

unfoldable mutual
  unfolding all_keys over_keys py_eq show find

  pub json_diff : Json → Json → String → List String
  json_diff (dict fs) (dict gs) path =
      over_keys (λ key. field_diff fs key (find key gs) (path <> "/" <> key)) (all_keys fs gs)
  json_diff (list xs) (list ys) path =
      let inside = items_diff xs ys 0 path in
      if count xs == count ys then inside else or_root path ∷ []
  json_diff a b path = unless_equal (py_eq a b) (or_root path)

  -- The body of the loop: what stands under the key on the two sides.
  pub field_diff : Fields → String → Option Json → String → List String
  field_diff end key other child = child ∷ []
  field_diff (field k v rest) key other child =
      if k == key
      then (elim other [ none ↦ child ∷ [] | some w ↦ json_diff v w child ])
      else field_diff rest key other child

  pub items_diff : Items → Items → ℕ → String → List String
  items_diff (cons v xs) (cons w ys) i path =
      json_diff v w (path <> "/" <> show i) ++ items_diff xs ys (suc i) path
  items_diff _ _ i path = []

unfoldable mutual
  unfolding all_keys over_keys py_eq find

  -- `diff` of compare_config.py, which does not look into lists
  pub diff : Json → Json → String → List String
  diff (dict fs) (dict gs) path =
      over_keys (λ key. under_key fs key (find key gs) (path <> "/" <> key)) (all_keys fs gs)
  diff a b path = unless_equal (py_eq a b) path

  pub under_key : Fields → String → Option Json → String → List String
  under_key end key other child = child ∷ []
  under_key (field k v rest) key other child =
      if k == key
      then (elim other [ none ↦ child ∷ [] | some w ↦ diff v w child ])
      else under_key rest key other child
