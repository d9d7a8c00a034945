-- ===== src/Plan/Validate/Sound.antt =====
-- A search that raises nothing has put every visited task behind its dependencies.
use mlx_spark.Base.{
  ℕ, zero, suc, String, List, [], ◌∷◌, Bool, true, false, some, ◌≡◌, refl, ap, sym, ◌∙◌, inl, inr,
  arith, contains, string_eq, All, Bool-cases,
}
use mlx_spark.Base.Result.{Result, ok, ok-injective}
use mlx_spark.Base.Dict.{Dict, lookup}
use mlx_spark.Plan.{Task, is_single}
use mlx_spark.Plan.Validate.{
  PlanError, Marks, remove, visit_deps, expand, visit, check_items, owners,
}
use mlx_spark.Plan.Validate.Spec.{IsMet, IsOrder, Extends}

remove_of_absent : (i : String) (l : List String) → contains l i ≡ false → remove i l ≡ l
unfolding remove
remove_of_absent i [] h = refl
remove_of_absent i (j ∷ js) h = ground (arith, remove_of_absent i js)

remove_head : (i : String) (l : List String) → contains l i ≡ false → remove i (i ∷ l) ≡ l
unfolding remove
remove_head i l h = ground (arith, remove_of_absent i l)

-- What a successful visit of `i` leaves.
pub record Visited (by : Dict Task) (s s' : Marks) (i : String) : Type 0 where
  pub order : IsOrder by s'.seen
  pub active : s'.active ≡ s.active
  pub grows : Extends s.seen s'.seen
  pub reached : contains s'.seen i ≡ true

module _ (by : Dict Task) (visit_rec : String → Marks → Result PlanError Marks) where
  visit_deps-eq-ok :
      (t : Task) (d : String) (ds : List String) (s s' : Marks)
      → visit_deps visit_rec by t (d ∷ ds) s ≡ ok s'
      → (u : Task) × (s₁ : Marks) × (lookup d by ≡ some u)
        × (is_single t ≡ true → is_single u ≡ true)
        × (visit_rec d s ≡ ok s₁)
        × (visit_deps visit_rec by t ds s₁ ≡ ok s')
  unfolding visit_deps
  visit_deps-eq-ok t d ds s s' e = ground arith

  expand-eq-ok :
      (i : String) (s s' : Marks)
      → expand visit_rec by i s ≡ ok s'
      → (t : Task) × (s₁ : Marks) × (lookup i by ≡ some t)
        × (visit_deps visit_rec by t t.depends_on (record s { active = i ∷ s.active }) ≡ ok s₁)
        × (s' ≡ record { seen = i ∷ s₁.seen; active = remove i s₁.active })
  unfolding expand
  expand-eq-ok i s s' e = ground arith

module _ (by : Dict Task) (visit_rec : String → Marks → Result PlanError Marks)
    (sound : (d : String) (s s' : Marks)
      → IsOrder by s.seen
      → visit_rec d s ≡ ok s'
      → Visited by s s' d) where
  record Explored (t : Task) (ds : List String) (s s' : Marks) : Type 0 where
    order : IsOrder by s'.seen
    active : s'.active ≡ s.active
    grows : Extends s.seen s'.seen
    met : All (IsMet by s'.seen t) ds

  visit_deps-Explored :
      (t : Task) (ds : List String) (s s' : Marks)
      → IsOrder by s.seen
      → visit_deps visit_rec by t ds s ≡ ok s'
      → Explored t ds s s'
  unfolding visit_deps
  visit_deps-Explored t [] s s' o e =
      let same = ok-injective e in
      record {
        order = rw (ap (λ (m : Marks). m.seen) same) at o;
        active = ap (λ (m : Marks). m.active) (sym same);
        grows = λ k h. rw (ap (λ (m : Marks). m.seen) same) at h;
        met = tt;
      }
  visit_deps-Explored t (d ∷ ds) s s' o e =
      let (u, s₁, found, phase, first, later) = visit_deps-eq-ok by visit_rec t d ds s s' e in
      let v = sound d s s₁ o first in
      let x = visit_deps-Explored t ds s₁ s' v.order later in
      record {
        order = x.order;
        active = x.active ∙ v.active;
        grows = λ k h. x.grows k (v.grows k h);
        met = (
          record { task = u; listed = found; placed = x.grows d v.reached; in_phase = phase },
          x.met,
        );
      }

  expand-Visited :
      (i : String) (s s' : Marks)
      → IsOrder by s.seen
      → contains s.active i ≡ false
      → expand visit_rec by i s ≡ ok s'
      → Visited by s s' i
  expand-Visited i s s' o fresh e =
      let (t, s₁, found, ran, same) = expand-eq-ok by visit_rec i s s' e in
      let start : Marks = record s { active = i ∷ s.active } in
      let x = visit_deps-Explored t t.depends_on start s₁ o ran in
      rw same (record {
        order = (record { task = t; listed = found; deps_met = x.met }, x.order);
        active = rw x.active (remove_head i s.active fresh);
        grows = λ k h. ground (arith, x.grows k h);
        reached = ground arith;
      })

pub visit-Visited :
    (by : Dict Task) (fuel : ℕ) (i : String) (s s' : Marks)
    → IsOrder by s.seen
    → visit fuel by i s ≡ ok s'
    → Visited by s s' i
unfolding visit
visit-Visited by zero i s s' o e = cc
visit-Visited by (suc fuel) i s s' o e = elim (Bool-cases (contains s.active i)) [
  | inl cyclic ↦ cc (rw cyclic at e)
  | inr fresh ↦ elim (Bool-cases (contains s.seen i)) [
    | inl old ↦
        let same = ok-injective (rw (fresh, old) at e) in
        rw (sym same) (record { order = o; active = refl; grows = λ k h. h; reached = old })
    | inr new ↦
        expand-Visited by (visit fuel by) (visit-Visited by fuel) i s s' o fresh
          (rw (fresh, new) at e)
  ]
]

-- The task of an item has its card and a known owner, and stands in the order.
pub record IsChecked (has_card : String → Bool) (order : List String) (item : String × Task)
    : Type 0 where
  pub placed : contains order item.0 ≡ true
  pub card : has_card item.0 ≡ true
  pub owner : contains owners item.1.owner ≡ true

module _ (has_card : String → Bool) (fuel : ℕ) (by : Dict Task) where
  check_items-eq-ok :
      (i : String) (t : Task) (items : Dict Task) (s : Marks)
      → check_items has_card fuel by ((i, t) ∷ items) s ≡ ok tt
      → (s₁ : Marks) × (visit fuel by i s ≡ ok s₁)
        × (has_card i ≡ true)
        × (contains owners t.owner ≡ true)
        × (check_items has_card fuel by items s₁ ≡ ok tt)
  unfolding check_items
  check_items-eq-ok i t items s e = ground arith

  pub check_items-IsChecked :
      (items : Dict Task) (s : Marks)
      → IsOrder by s.seen
      → check_items has_card fuel by items s ≡ ok tt
      → (order : List String) × IsOrder by order
        × Extends s.seen order
        × All (IsChecked has_card order) items
  check_items-IsChecked [] s o e = (s.seen, o, λ k h. h, tt)
  check_items-IsChecked ((i, t) ∷ items) s o e =
      let (s₁, visited, card, owner, later) = check_items-eq-ok i t items s e in
      let v = visit-Visited by fuel i s s₁ o visited in
      let (order, ordered, grows, checked) = check_items-IsChecked items s₁ v.order later in
      (
        order,
        ordered,
        λ k h. grows k (v.grows k h),
        (record { placed = grows i v.reached; card = card; owner = owner }, checked),
      )
