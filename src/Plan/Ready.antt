-- ===== src/Plan/Ready.antt =====
-- tools/next_task.py: the tasks that can be claimed.
pub mod Progress
use mlx_spark.Base.{
  String, List, [], ◌∷◌, Bool, ◌&&◌, ◌||◌, ◌==◌, string_eq, contains, all, if◌then◌else◌,
}
use mlx_spark.Plan.{Task, is_single}

-- `done`: the identifiers of the tasks whose status is done
unfoldable pub done : List Task → List String
done [] = []
done (t ∷ tasks) = let rest = done tasks in if t.status == "done" then t.ident ∷ rest else rest

-- the condition of the comprehension
unfoldable pub is_ready : List String → String → Task → Bool
is_ready finished agent t =
    is_single t
    && contains ("todo" ∷ "ready" ∷ []) t.status
    && all (λ d. contains finished d) t.depends_on
    && (agent == "any" || t.owner == agent)

pub select : List String → String → List Task → List Task
select finished agent [] = []
select finished agent (t ∷ tasks) =
    let rest = select finished agent tasks in if is_ready finished agent t then t ∷ rest else rest

unfoldable pub next_task : String → List Task → List Task
unfolding select
next_task agent tasks = select (done tasks) agent tasks
