-- ===== src/Plan/Tests.antt =====
-- A small plan, one with a cycle, and the theorems at them.
use mlx_spark.Base.{◌⊎◌, String, List, [], ◌∷◌, Bool, true, ◌≡◌, ◌≢◌, refl, ◌↔◌, string_eq, nat_eq}
use mlx_spark.Base.Result.{ok, err}
use mlx_spark.Base.Dict.{lookup, insert}
use mlx_spark.Plan.{Task}
use mlx_spark.Plan.Validate.{
  out_of_fuel, dependency_cycle, deferred_dependency, missing_dependency, validate_plan,
}
use mlx_spark.Plan.Validate.Correct.{
  IsPlan, summary, validate_plan_iff, validate_plan-ne-out_of_fuel, validate_plan_acyclic, Chain,
}
use mlx_spark.Plan.Ready.{done, is_ready, next_task}
use mlx_spark.Plan.Ready.Progress.{IsHeld, next_task_progress}

abbrev task : String → String → String → List String → Task
task i phase status ds = record {
  ident = i;
  title = i;
  owner = "Sol";
  phase = phase;
  status = status;
  depends_on = ds;
}

abbrev tasks : List Task
tasks =
    task "C" "single_spark" "todo" ("B" ∷ "A" ∷ [])
    ∷ task "A" "single_spark" "done" []
    ∷ task "B" "single_spark" "todo" ("A" ∷ [])
    ∷ task "D" "deferred" "todo" ("C" ∷ [])
    ∷ []

abbrev cyclic : List Task
cyclic = task "A" "single_spark" "todo" ("B" ∷ []) ∷ task "B" "single_spark" "todo" ("A" ∷ []) ∷ []

abbrev has_card : String → Bool
has_card i = true

accepted : validate_plan has_card tasks ≡ ok (summary tasks)
unfolding validate_plan string_eq nat_eq lookup insert
accepted = refl

refused :
    (validate_plan has_card cyclic ≡ err (dependency_cycle "A"))
    × (validate_plan has_card (task "A" "single_spark" "todo" ("Z" ∷ []) ∷ [])
        ≡ err (missing_dependency "Z"))
    × (validate_plan has_card
          (task "A" "single_spark" "todo" ("D" ∷ []) ∷ task "D" "deferred" "todo" [] ∷ [])
        ≡ err deferred_dependency)
unfolding validate_plan string_eq nat_eq lookup insert
refused = (refl, refl, refl)

-- A task in progress with nothing else to do: no task is offered.
held :
    next_task "any"
      (task "A" "single_spark" "done" [] ∷ task "B" "single_spark" "in_progress" ("A" ∷ []) ∷ [])
    ≡ []
unfolding next_task done is_ready string_eq
held = refl

offered : next_task "any" tasks ≡ task "B" "single_spark" "todo" ("A" ∷ []) ∷ []
unfolding next_task done is_ready string_eq
offered = refl

validate_plan_iff_example :
    (validate_plan has_card tasks ≡ ok (summary tasks)) ↔ IsPlan has_card tasks
validate_plan_iff_example = validate_plan_iff has_card tasks

validate_plan-ne-out_of_fuel_example : validate_plan has_card cyclic ≢ err out_of_fuel
validate_plan-ne-out_of_fuel_example = validate_plan-ne-out_of_fuel has_card cyclic

validate_plan_acyclic_example : ¬ Chain tasks "C" "C"
validate_plan_acyclic_example = validate_plan_acyclic has_card tasks (summary tasks) "C" accepted

next_task_progress_example : (next_task "any" tasks ≢ []) ⊎ IsHeld tasks
unfolding string_eq lookup
next_task_progress_example =
    next_task_progress has_card tasks (summary tasks) "C"
      (task "C" "single_spark" "todo" ("B" ∷ "A" ∷ [])) accepted refl refl refl
