-- ===== src/Plan/Ready/Progress.antt =====
-- A valid plan with unfinished work offers a task, or some task that could be next is held back
-- by its status.
use mlx_spark.Base.{
  ℕ, zero, suc, ◌<◌, String, List, [], ◌∷◌, Bool, true, false, some, ◌≡◌, ◌≢◌, refl, ◌⊎◌, inl, inr,
  arith, ◌==◌, contains, string_eq, All-contains, all, map, Bool-cases,
}
use mlx_spark.Base.Result.{ok}
use mlx_spark.Base.Dict.{lookup}
use mlx_spark.Plan.{Task, is_single}
use mlx_spark.Plan.Idents.{item}
use mlx_spark.Plan.Validate.{Summary, validate_plan}
use mlx_spark.Plan.Validate.Correct.{IsPlan, validate_plan-IsPlan}
use mlx_spark.Plan.Ready.{done, is_ready, select, next_task}

-- A single-Spark task with finished dependencies whose status is none of todo, ready and done.
pub record IsHeld (tasks : List Task) : Type 0 where
  pub ident : String
  pub task : Task
  pub listed : lookup ident (map item tasks) ≡ some task
  pub single : is_single task ≡ true
  pub finished : (d : String) → contains task.depends_on d ≡ true → contains (done tasks) d ≡ true
  pub held : contains ("todo" ∷ "ready" ∷ "done" ∷ []) task.status ≡ false

select-some :
    (finished : List String) (agent : String) (tasks : List Task) (i : String) (t : Task)
    → lookup i (map item tasks) ≡ some t
    → is_ready finished agent t ≡ true
    → select finished agent tasks ≢ []
unfolding select lookup
select-some finished agent [] i t h r e = cc
select-some finished agent (u ∷ tasks) i t h r e =
    ground (arith, select-some finished agent tasks i t)

contains-done :
    (tasks : List Task) (i : String) (t : Task)
    → lookup i (map item tasks) ≡ some t
    → (t.status == "done") ≡ true
    → contains (done tasks) i ≡ true
unfolding done lookup
contains-done [] i t h r = cc
contains-done (u ∷ tasks) i t h r = ground (arith, contains-done tasks i t)

all-contains :
    (finished ds : List String) (d : String)
    → all (λ d. contains finished d) ds ≡ true
    → contains ds d ≡ true
    → contains finished d ≡ true
all-contains finished [] d h m = cc
all-contains finished (x ∷ ds) d h m = ground (arith, all-contains finished ds d)

-- Either every dependency is finished or one of them is not.
unfinished :
    (finished : List String) (ds : List String)
    → (all (λ d. contains finished d) ds ≡ true)
      ⊎ ((d : String) × (contains ds d ≡ true) × (contains finished d ≡ false))
unfinished finished [] = inl refl
unfinished finished (d ∷ ds) = elim (Bool-cases (contains finished d)) [
  | inr not_done ↦ inr (d, ground arith, not_done)
  | inl is_done ↦ elim (unfinished finished ds) [
    | inl rest ↦ inl (ground arith)
    | inr (e, m, n) ↦ inr (e, ground arith, n)
  ]
]

module _ (has_card : String → Bool) (tasks : List Task) (p : IsPlan has_card tasks) where
  descend :
      (bound : ℕ) (i : String) (t : Task)
      → p.rank i < bound
      → lookup i (map item tasks) ≡ some t
      → is_single t ≡ true
      → (t.status == "done") ≡ false
      → (next_task "any" tasks ≢ []) ⊎ IsHeld tasks
  unfolding next_task is_ready
  descend zero i t h found single unclosed = omega arith
  descend (suc bound) i t h found single unclosed = elim (unfinished (done tasks) t.depends_on) [
    | inl finished ↦ elim (Bool-cases (contains ("todo" ∷ "ready" ∷ "done" ∷ []) t.status)) [
      | inl opened ↦ inl (select-some (done tasks) "any" tasks i t found (ground arith))
      | inr held ↦ inr (record {
        ident = i;
        task = t;
        listed = found;
        single = single;
        finished = λ d m. all-contains (done tasks) t.depends_on d finished m;
        held = held;
      })
    ]
    | inr (d, m, n) ↦
        let b = All-contains _ t.depends_on d (p.ranked i t found) m in
        elim (Bool-cases (b.task.status == "done")) [
          | inl closed ↦ absurd (cc (contains-done tasks d b.task b.listed closed))
          | inr waiting ↦
              descend bound d b.task (omega (arith, b.lower)) b.listed (b.in_phase single) waiting
        ]
  ]

-- If the plan is accepted and some single-Spark task is not done, then the script offers a task
-- for any agent, or there is a single-Spark task whose dependencies are all done and whose status
-- is none of todo, ready and done.
pub next_task_progress :
    (has_card : String → Bool) (tasks : List Task) (r : Summary) (i : String) (t : Task)
    → validate_plan has_card tasks ≡ ok r
    → lookup i (map item tasks) ≡ some t
    → is_single t ≡ true
    → (t.status == "done") ≡ false
    → (next_task "any" tasks ≢ []) ⊎ IsHeld tasks
next_task_progress has_card tasks r i t e found single unclosed =
    let p = validate_plan-IsPlan has_card tasks r e in
    descend has_card tasks p (suc (p.rank i)) i t (omega arith) found single unclosed
