-- ===== src/Plan/Idents.antt =====
-- The dict of tasks by identifier: it is as long as the list exactly when no identifier repeats.
use mathlib.Core.List.{append_assoc, append-nil}
use mlx_spark.Base.{
  suc, ◌+◌, ◌≤◌, String, List, [], ◌∷◌, ◌++◌, false, ◌≡◌, refl, sym, ap, ◌∙◌, ◌↔◌, inl, inr, map,
  arith, contains, string_eq, length, Bool-cases,
}
use mlx_spark.Base.Dict.{Dict, keys, insert, length-insert}
use mlx_spark.Plan.{Task, by_ident, by_ident_onto}

abbrev pub item : Task → String × Task
item t = (t.ident, t)

-- No identifier is among `earlier`, nor given twice.
abbrev pub IsFresh : List String → List Task → Type 0
IsFresh earlier [] = Unit
IsFresh earlier (t ∷ tasks) =
    (contains earlier t.ident ≡ false) × IsFresh (earlier ++ t.ident ∷ []) tasks

keys-append : (d e : Dict Task) → keys (d ++ e) ≡ keys d ++ keys e
keys-append [] e = refl
keys-append ((k, t) ∷ d) e = rw (keys-append d e)

insert_new :
    (k : String) (t : Task) (d : Dict Task)
    → contains (keys d) k ≡ false
    → insert k t d ≡ d ++ (k, t) ∷ []
unfolding insert
insert_new k t [] h = refl
insert_new k t ((j, u) ∷ d) h = ground (arith, insert_new k t d)

length-by_ident_onto-le :
    (d : Dict Task) (tasks : List Task) → length (by_ident_onto d tasks) ≤ length d + length tasks
unfolding by_ident_onto
length-by_ident_onto-le d [] = omega arith
length-by_ident_onto-le d (t ∷ tasks) =
    ground (arith, length-by_ident_onto-le (insert t.ident t d) tasks, length-insert t.ident t d)

keys-insert_new :
    (k : String) (t : Task) (d : Dict Task)
    → contains (keys d) k ≡ false
    → keys (insert k t d) ≡ keys d ++ k ∷ []
keys-insert_new k t d h = rw (insert_new k t d h) (keys-append d ((k, t) ∷ []))

by_ident_onto_full :
    (d : Dict Task) (tasks : List Task)
    → length (by_ident_onto d tasks) ≡ length d + length tasks
    → IsFresh (keys d) tasks
unfolding by_ident_onto
by_ident_onto_full d [] h = tt
by_ident_onto_full d (t ∷ tasks) h = elim (Bool-cases (contains (keys d) t.ident)) [
  | inl old ↦ absurd (
      ground (arith, length-by_ident_onto-le (insert t.ident t d) tasks, length-insert t.ident t d))
  | inr new ↦ (
    new,
    rw (keys-insert_new t.ident t d new) at
        (by_ident_onto_full (insert t.ident t d) tasks (ground (arith, length-insert t.ident t d))),
  )
]

by_ident_onto_fresh :
    (d : Dict Task) (tasks : List Task)
    → IsFresh (keys d) tasks
    → by_ident_onto d tasks ≡ d ++ map item tasks
unfolding by_ident_onto
by_ident_onto_fresh d [] h = sym (append-nil d)
by_ident_onto_fresh d (t ∷ tasks) (new, fresh) =
    by_ident_onto_fresh (insert t.ident t d) tasks (rw (keys-insert_new t.ident t d new) fresh)
    ∙ rw (insert_new t.ident t d new) (append_assoc d (item t ∷ []) (map item tasks))

pub by_ident_fresh : (tasks : List Task) → IsFresh [] tasks → by_ident tasks ≡ map item tasks
unfolding by_ident
by_ident_fresh tasks h = by_ident_onto_fresh [] tasks h

length-map-item : (tasks : List Task) → length (map item tasks) ≡ length tasks
length-map-item [] = refl
length-map-item (t ∷ tasks) = ap suc (length-map-item tasks)

-- The dict has an entry for each task exactly when no identifier is given twice.
pub length-by_ident_iff :
    (tasks : List Task) → (length (by_ident tasks) ≡ length tasks) ↔ IsFresh [] tasks
unfolding by_ident
length-by_ident_iff tasks = (
  λ h. by_ident_onto_full [] tasks (omega (arith, h)),
  λ h. rw (by_ident_onto_fresh [] tasks h) (length-map-item tasks),
)
