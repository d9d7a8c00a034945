-- ===== src/Plan/Validate/Correct.antt =====
-- The script accepts exactly the plans whose dependencies fall in rank, so no cycle is accepted.
use mlx_spark.Base.{
  ℕ, suc, ◌≤◌, ◌<◌, String, List, [], ◌∷◌, Bool, true, false, not, some, ◌≡◌, ◌≢◌, refl, inl, inr,
  ◌↔◌, arith, contains, string_eq, nat_eq, All, All-contains, length, map, Bool-cases,
  if◌then◌else◌,
}
use mlx_spark.Base.Result.{Result, ok, err}
use mlx_spark.Base.Dict.{Dict, lookup}
use mlx_spark.Plan.{Task, by_ident, is_single}
use mlx_spark.Plan.Idents.{item, IsFresh, by_ident_fresh, length-by_ident_iff}
use mlx_spark.Plan.Validate.{
  PlanError, Marks, out_of_fuel, owners, check_items, validate_plan, count_by, Summary,
}
use mlx_spark.Plan.Validate.Spec.{IsMet, IsOrder, IsBelow, IsRanked}
use mlx_spark.Plan.Validate.Sound.{IsChecked, check_items-IsChecked}
use mlx_spark.Plan.Validate.Fuel.{check_items_fueled}
use mlx_spark.Plan.Validate.Complete.{lookup-keys, check_items_passes}

-- One more than the number of tasks behind the task's earliest place.
rank : List String → String → ℕ
rank [] k = 0
rank (i ∷ is) k = let lower = rank is k in if contains is k then lower else suc (length is)

rank-le : (is : List String) (k : String) → contains is k ≡ true → rank is k ≤ length is
unfolding rank
rank-le [] k h = cc
rank-le (i ∷ is) k h = ground (arith, rank-le is k)

rank-cons_of_mem :
    (i : String) (is : List String) (k : String)
    → contains is k ≡ true
    → rank (i ∷ is) k ≡ rank is k
unfolding rank
rank-cons_of_mem i is k h = rw h

module _ (by : Dict Task) where
  abbrev IsRankedIn : List String → String → Task → String → Type 0
  IsRankedIn order j t d = IsBelow by (rank order) j t d × (contains order d ≡ true)

  ranked_later :
      (i j : String) (is : List String) (t : Task) (ds : List String)
      → contains is j ≡ true
      → All (IsRankedIn is j t) ds
      → All (IsRankedIn (i ∷ is) j t) ds
  ranked_later i j is t [] m h = tt
  ranked_later i j is t (d ∷ ds) m ((b, placed), h) = (
    (
      record {
        task = b.task;
        listed = b.listed;
        in_phase = b.in_phase;
        lower = omega (arith, b.lower, rank-cons_of_mem i is d placed, rank-cons_of_mem i is j m);
      },
      ground arith,
    ),
    ranked_later i j is t ds m h,
  )

  ranked_here :
      (j : String) (is : List String) (t : Task) (ds : List String)
      → contains is j ≡ false
      → All (IsMet by is t) ds
      → All (IsRankedIn (j ∷ is) j t) ds
  unfolding rank
  ranked_here j is t [] m h = tt
  ranked_here j is t (d ∷ ds) m (b, h) = (
    (
      record {
        task = b.task;
        listed = b.listed;
        in_phase = b.in_phase;
        lower = ground (arith, rank-le is d b.placed, b.placed);
      },
      ground (arith, b.placed),
    ),
    ranked_here j is t ds m h,
  )

  IsOrder-IsRankedIn :
      (order : List String) (j : String) (t : Task)
      → IsOrder by order
      → contains order j ≡ true
      → lookup j by ≡ some t
      → All (IsRankedIn order j t) t.depends_on
  IsOrder-IsRankedIn [] j t o m found = cc
  IsOrder-IsRankedIn (i ∷ is) j t (here, o) m found = elim (Bool-cases (contains is j)) [
    | inl deeper ↦
        ranked_later i j is t t.depends_on deeper (IsOrder-IsRankedIn is j t o deeper found)
    | inr last ↦
        let same : i ≡ j = ground arith in
        let task_same : here.task ≡ t = ground (arith, here.listed, found) in
        rw same (ranked_here j is t t.depends_on last (rw task_same at here.deps_met))
  ]

All-IsBelow :
    (by : Dict Task) (order : List String) (j : String) (t : Task) (ds : List String)
    → All (IsRankedIn by order j t) ds
    → All (IsBelow by (rank order) j t) ds
All-IsBelow by order j t [] h = tt
All-IsBelow by order j t (d ∷ ds) (b, h) = (b.0, All-IsBelow by order j t ds h)

lookup-IsChecked :
    (has_card : String → Bool) (order : List String) (d : Dict Task) (k : String) (t : Task)
    → All (IsChecked has_card order) d
    → lookup k d ≡ some t
    → contains order k ≡ true
unfolding lookup
lookup-IsChecked has_card order [] k t h e = cc
lookup-IsChecked has_card order ((j, u) ∷ d) k t (c, h) e =
    ground (arith, c.placed, lookup-IsChecked has_card order d k t h)

-- What the repository asks of planning/tasks.json: no identifier is given twice, some rank falls
-- along the dependencies, and each task has a card and a known owner.
pub record IsPlan (has_card : String → Bool) (tasks : List Task) : Type 0 where
  pub fresh : IsFresh [] tasks
  pub rank : String → ℕ
  pub ranked : IsRanked (map item tasks) rank
  pub tended : All (λ t. (has_card t.ident ≡ true) × (contains owners t.owner ≡ true)) tasks

abbrev pub summary : List Task → Summary
summary tasks = record {
  tasks = length tasks;
  acyclic = true;
  single_spark = count_by is_single tasks;
  deferred = count_by (λ t. not (is_single t)) tasks;
}

-- The items of the dict, whose keys are the tasks' own identifiers.
module _ (has_card : String → Bool) where
  checked→tended :
      (order : List String) (tasks : List Task)
      → All (IsChecked has_card order) (map item tasks)
      → All (λ t. (has_card t.ident ≡ true) × (contains owners t.owner ≡ true)) tasks
  checked→tended order [] h = tt
  checked→tended order (t ∷ tasks) (c, h) = ((c.card, c.owner), checked→tended order tasks h)

  tended→items :
      (tasks : List Task)
      → All (λ t. (has_card t.ident ≡ true) × (contains owners t.owner ≡ true)) tasks
      → All (λ x. (has_card x.0 ≡ true) × (contains owners x.1.owner ≡ true)) (map item tasks)
  tended→items [] h = tt
  tended→items (t ∷ tasks) (c, h) = (c, tended→items tasks h)

  abbrev run : List Task → Result PlanError (Unit {0})
  run tasks =
      check_items has_card (suc (length (by_ident tasks))) (by_ident tasks) (by_ident tasks)
        (record { seen = []; active = [] })

  validate_plan-eq-ok :
      (tasks : List Task) (r : Summary)
      → validate_plan has_card tasks ≡ ok r
      → (length (by_ident tasks) ≡ length tasks) × (run tasks ≡ ok tt) × (r ≡ summary tasks)
  unfolding validate_plan
  validate_plan-eq-ok tasks r e = ground arith

  pub validate_plan-IsPlan :
      (tasks : List Task) (r : Summary)
      → validate_plan has_card tasks ≡ ok r
      → IsPlan has_card tasks
  validate_plan-IsPlan tasks r e =
      let (full, ran, _) = validate_plan-eq-ok tasks r e in
      let fresh = (length-by_ident_iff tasks).0 full in
      let by = map item tasks in
      let (order, ordered, _, checked) =
        check_items-IsChecked has_card (suc (length by)) by by (record { seen = []; active = [] })
          tt (rw (by_ident_fresh tasks fresh) at ran) in
      record {
        fresh = fresh;
        rank = rank order;
        ranked = λ i t found. All-IsBelow by order i t t.depends_on (
            IsOrder-IsRankedIn by order i t ordered
              (lookup-IsChecked has_card order by i t checked found) found);
        tended = checked→tended order tasks checked;
      }

  validate_plan_ran :
      (tasks : List Task)
      → length (by_ident tasks) ≡ length tasks
      → run tasks ≡ ok tt
      → validate_plan has_card tasks ≡ ok (summary tasks)
  unfolding validate_plan
  validate_plan_ran tasks full ran = ground arith

  IsPlan-validate_plan :
      (tasks : List Task)
      → IsPlan has_card tasks
      → validate_plan has_card tasks ≡ ok (summary tasks)
  IsPlan-validate_plan tasks p =
      let by = map item tasks in
      validate_plan_ran tasks ((length-by_ident_iff tasks).1 p.fresh) (
        rw (by_ident_fresh tasks p.fresh) (
          check_items_passes has_card by p.rank p.ranked (suc (length by)) (omega arith) by
            (record { seen = []; active = [] }) tt refl (lookup-keys by)
            (tended→items tasks p.tended)))

  -- The script prints its summary exactly when the tasks are a plan: no identifier repeats, a rank
  -- falls along the dependencies, which are all listed and in phase, and each task has a card and
  -- a known owner.
  pub validate_plan_iff :
      (tasks : List Task)
      → (validate_plan has_card tasks ≡ ok (summary tasks)) ↔ IsPlan has_card tasks
  validate_plan_iff tasks = (validate_plan-IsPlan tasks (summary tasks), IsPlan-validate_plan tasks)

  -- Whatever the tasks, the search ends within the fuel that the script is given.
  pub validate_plan-ne-out_of_fuel :
      (tasks : List Task) → validate_plan has_card tasks ≢ err out_of_fuel
  unfolding validate_plan
  validate_plan-ne-out_of_fuel tasks e =
      let by = by_ident tasks in
      let start : Marks = record { seen = []; active = [] } in
      ground
        (arith, check_items_fueled has_card (suc (length by)) by by start tt refl (omega arith))

-- `j` is reached from `i` by one dependency or more.
pub data Chain (tasks : List Task) (i : String) : String → Type 0 where
  one :
      {t : Task} {j : String}
      → lookup i (map item tasks) ≡ some t
      → contains t.depends_on j ≡ true
      → Chain tasks i j
  more :
      {j k : String} {t : Task}
      → Chain tasks i j
      → lookup j (map item tasks) ≡ some t
      → contains t.depends_on k ≡ true
      → Chain tasks i k

Chain-lt :
    {has_card : String → Bool} {tasks : List Task} (p : IsPlan has_card tasks) (i j : String)
    → Chain tasks i j
    → p.rank j < p.rank i
Chain-lt p i j (one {t} found m) = (All-contains _ t.depends_on j (p.ranked i t found) m).lower
Chain-lt p i k (more {j} {t} c found m) =
    omega (arith, Chain-lt p i j c, (All-contains _ t.depends_on k (p.ranked j t found) m).lower)

-- If the script prints a summary, no task is reached from itself along dependencies.
pub validate_plan_acyclic :
    (has_card : String → Bool) (tasks : List Task) (r : Summary) (i : String)
    → validate_plan has_card tasks ≡ ok r
    → ¬ Chain tasks i i
validate_plan_acyclic has_card tasks r i e c =
    omega (arith, Chain-lt (validate_plan-IsPlan has_card tasks r e) i i c)
