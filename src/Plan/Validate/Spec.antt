-- ===== src/Plan/Validate/Spec.antt =====
-- What a sound plan is: a list of identifiers in which each task stands before its dependents.
use mlx_spark.Base.{ℕ, ◌<◌, String, List, [], ◌∷◌, true, some, ◌≡◌, contains, string_eq, All}
use mlx_spark.Base.Dict.{Dict, lookup}
use mlx_spark.Plan.{Task, is_single}

-- `d` names a task that stands in `earlier` and is not deferred under a single-Spark task `t`.
pub record IsMet (by : Dict Task) (earlier : List String) (t : Task) (d : String) : Type 0 where
  pub task : Task
  pub listed : lookup d by ≡ some task
  pub placed : contains earlier d ≡ true
  pub in_phase : is_single t ≡ true → is_single task ≡ true

pub record IsPlaced (by : Dict Task) (earlier : List String) (i : String) : Type 0 where
  pub task : Task
  pub listed : lookup i by ≡ some task
  pub deps_met : All (IsMet by earlier task) task.depends_on

-- The latest task stands first.
abbrev pub IsOrder : Dict Task → List String → Type 0
IsOrder by [] = Unit
IsOrder by (i ∷ is) = IsPlaced by is i × IsOrder by is

abbrev pub Extends : List String → List String → Type 0
Extends xs ys = (k : String) → contains xs k ≡ true → contains ys k ≡ true

-- A rank that falls from each task to its dependencies, which are listed and not deferred under a
-- single-Spark task.
pub record IsBelow (by : Dict Task) (rank : String → ℕ) (i : String) (t : Task) (d : String)
    : Type 0 where
  pub task : Task
  pub listed : lookup d by ≡ some task
  pub in_phase : is_single t ≡ true → is_single task ≡ true
  pub lower : rank d < rank i

abbrev pub IsRanked : Dict Task → (String → ℕ) → Type 0
IsRanked by rank =
    (i : String) (t : Task) → lookup i by ≡ some t → All (IsBelow by rank i t) t.depends_on
