-- ===== src/Plan/Validate.antt =====
-- tools/validate_plan.py: the depth-first search for cycles and the checks of each task.
pub mod Spec
pub mod Sound
pub mod Fuel
pub mod Complete
pub mod Correct
use mlx_spark.Base.{ℕ, zero, suc, String, List, [], ◌∷◌, Bool, true, not, ◌&&◌, none, some}
use mlx_spark.Base.{◌==◌, string_eq, nat_eq, contains, length, if◌then◌else◌}
use mlx_spark.Base.Result.{Result, ok, err, ◌>>=◌, ◌>>◌, require}
use mlx_spark.Base.Dict.{Dict, lookup}
use mlx_spark.Plan.{Task, by_ident, is_single}

-- The exceptions of the script. `out_of_fuel` is the model's own and is never raised.
pub data PlanError : Type 0 where
  duplicate_ids deferred_dependency unknown_owner key_error out_of_fuel : PlanError
  dependency_cycle missing_dependency missing_card : String → PlanError

-- The two global sets.
pub record Marks : Type 0 where
  pub seen : List String
  pub active : List String

-- `active.remove(i)`
pub remove : String → List String → List String
remove i [] = []
remove i (j ∷ js) = let rest = remove i js in if i == j then rest else j ∷ rest

-- The loop over `by[i]['depends_on']`; `visit_rec` is the recursive call.
pub visit_deps :
    (String → Marks → Result PlanError Marks)
    → Dict Task
    → Task
    → List String
    → Marks
    → Result PlanError Marks
visit_deps visit_rec by t [] s = ok s
visit_deps visit_rec by t (d ∷ ds) s = elim (lookup d by) [
  | none ↦ err (missing_dependency d)
  | some u ↦ do
    require (not (is_single t && not (is_single u))) deferred_dependency
    s' ← visit_rec d s
    visit_deps visit_rec by t ds s'
]

-- `active.add(i)`, the loop, `active.remove(i)` and `seen.add(i)`.
pub expand :
    (String → Marks → Result PlanError Marks) → Dict Task → String → Marks → Result PlanError Marks
unfolding visit_deps remove
expand visit_rec by i s = elim (lookup i by) [
  | none ↦ err key_error
  | some t ↦ do
    s' ← visit_deps visit_rec by t t.depends_on (record s { active = i ∷ s.active })
    ok (record { seen = i ∷ s'.seen; active = remove i s'.active })
]

-- `visit(i)`. The fuel bounds the depth of the recursion.
pub visit : ℕ → Dict Task → String → Marks → Result PlanError Marks
unfolding expand
visit zero by i s = err out_of_fuel
visit (suc fuel) by i s =
    if contains s.active i
    then err (dependency_cycle i)
    else if contains s.seen i
    then ok s
    else expand (visit fuel by) by i s

abbrev pub owners : List String
owners = "Sol" ∷ "Terra" ∷ "Luna" ∷ []

-- The loop over `by.items()`. `has_card i`: planning/tasks/i.md is a file.
pub check_items :
    (String → Bool) → ℕ → Dict Task → List (String × Task) → Marks → Result PlanError (Unit {0})
unfolding visit
check_items has_card fuel by [] s = ok tt
check_items has_card fuel by ((i, t) ∷ items) s = do
  s' ← visit fuel by i s
  require (has_card i) (missing_card i)
  require (contains owners t.owner) unknown_owner
  check_items has_card fuel by items s'

-- The counts that the script prints.
pub record Summary : Type 0 where
  pub tasks : ℕ
  pub acyclic : Bool
  pub single_spark : ℕ
  pub deferred : ℕ

pub count_by : (Task → Bool) → List Task → ℕ
count_by p [] = 0
count_by p (t ∷ tasks) = let rest = count_by p tasks in if p t then suc rest else rest

-- The script. One more than the number of tasks is fuel enough.
unfoldable pub validate_plan : (String → Bool) → List Task → Result PlanError Summary
unfolding by_ident check_items count_by
validate_plan has_card tasks =
    let by = by_ident tasks in
    do
      require (length by == length tasks) duplicate_ids
      check_items has_card (suc (length by)) by by (record { seen = []; active = [] })
      ok (record {
        tasks = length tasks;
        acyclic = true;
        single_spark = count_by is_single tasks;
        deferred = count_by (λ t. not (is_single t)) tasks;
      })
