-- ===== src/Plan.antt =====
-- tools/validate_plan.py and tools/next_task.py, over planning/tasks.json: the task graph.
pub mod Idents
pub mod Validate
pub mod Ready
mod Tests
use mlx_spark.Base.{String, List, [], ◌∷◌, Bool, ◌==◌, string_eq}
use mlx_spark.Base.Dict.{Dict, insert}

-- One entry of the "tasks" list.
pub record Task : Type 0 where
  pub ident : String
  pub title : String
  pub owner : String
  pub phase : String
  pub status : String
  pub depends_on : List String

-- `{t['id']: t for t in tasks}`, from the entries made so far
pub by_ident_onto : Dict Task → List Task → Dict Task
by_ident_onto d [] = d
by_ident_onto d (t ∷ tasks) = by_ident_onto (insert t.ident t d) tasks

unfoldable pub by_ident : List Task → Dict Task
unfolding by_ident_onto
by_ident tasks = by_ident_onto [] tasks

abbrev pub is_single : Task → Bool
is_single t = t.phase == "single_spark"
