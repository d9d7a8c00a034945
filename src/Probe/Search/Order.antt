-- ===== src/Probe/Search/Order.antt =====
-- Sorting the best snapshots orders their revisions strictly, where they are distinct.
use mlx_spark.Base.{
  List, [], ◌∷◌, map, true, false, All, map-All, nat_eq, ◌==◌, ==_iff, ◌≡◌, refl, sym, ◌∙◌, arith,
  Bool-cases, inl, inr,
}
use mathlib.Core.Path.{subst}
use mlx_spark.Base.Text.{codes_eq}
use mlx_spark.Probe.{Text}
use mlx_spark.Probe.Snapshot.{Snapshot}
use mlx_spark.Probe.Search.{Best, outranks, offer, text_lt, insert_best, sort_best, snapshots_of}

text_lt_trans : (a b c : Text) → text_lt a b ≡ true → text_lt b c ≡ true → text_lt a c ≡ true
unfolding text_lt
text_lt_trans [] b [] h k = absurd (no_less b k)
  where
    no_less : (b : Text) → text_lt b [] ≡ true → ⊥
    no_less [] h = cc
    no_less (c ∷ cs) h = cc
text_lt_trans [] b (z ∷ c) h k = refl
text_lt_trans (x ∷ a) [] c h k = cc
text_lt_trans (x ∷ a) (y ∷ b) [] h k = cc
text_lt_trans (x ∷ a) (y ∷ b) (z ∷ c) h k = ground (arith, text_lt_trans a b c)

-- Of two texts that differ one comes first.
text_lt_total : (a b : Text) → text_lt a b ≡ false → text_lt b a ≡ false → a ≡ b
unfolding text_lt
text_lt_total [] [] h k = refl
text_lt_total [] (y ∷ b) h k = cc
text_lt_total (x ∷ a) [] h k = cc
text_lt_total (x ∷ a) (y ∷ b) h k = ground (arith, text_lt_total a b)

-- Each text comes before all the later ones.
abbrev pub IsAscending : List Text → Type 0
IsAscending [] = Unit
IsAscending (x ∷ xs) = All (λ y. text_lt x y ≡ true) xs × IsAscending xs

abbrev Other : Text → Text × Snapshot → Type 0
Other r p = (r == p.0) ≡ false

abbrev pub IsDistinct : Best → Type 0
IsDistinct [] = Unit
IsDistinct (p ∷ best) = All (Other p.0) best × IsDistinct best

-- What holds of the offer and of each entry holds of each entry after it.
pub All-offer :
    (P : Text × Snapshot → Type 0) (r : Text) (s : Snapshot) (best : Best)
    → P (r, s)
    → All P best
    → All P (offer r s best)
unfolding offer
All-offer P r s [] new h = (new, tt)
All-offer P r s ((q, t) ∷ best) new (p, h) = elim (Bool-cases (q == r)) [
  | inl same ↦
      let moved : P (q, s) = subst (λ k. P (k, s)) (sym ((==_iff q r).0 same)) new in
      rw (offer, same) (elim (Bool-cases (outranks s t)) [ inl e ↦ rw e moved | inr e ↦ rw e p ], h)
  | inr other ↦ rw (offer, other) (p, All-offer P r s best new h)
]

pub offer-IsDistinct :
    (r : Text) (s : Snapshot) (best : Best) → IsDistinct best → IsDistinct (offer r s best)
unfolding offer
offer-IsDistinct r s [] h = (tt, tt)
offer-IsDistinct r s ((q, t) ∷ best) (others, h) = elim (Bool-cases (q == r)) [
  | inl same ↦ rw (offer, same) (others, h)
  | inr other ↦
      rw (offer, other) (All-offer (Other q) r s best other others, offer-IsDistinct r s best h)
]

-- The snapshot of each entry is of its revision.
abbrev pub Own : Text × Snapshot → Type 0
Own p = p.1.revision ≡ p.0

All-insert_best :
    (P : Text × Snapshot → Type 0) (p : Text × Snapshot) (best : Best)
    → P p
    → All P best
    → All P (insert_best p best)
unfolding insert_best
All-insert_best P (r, s) [] h rest = (h, tt)
All-insert_best P (r, s) ((q, t) ∷ best) h (first, rest) = elim (Bool-cases (text_lt r q)) [
  | inl before ↦ rw (insert_best, before) (h, (first, rest))
  | inr after ↦ rw (insert_best, after) (first, All-insert_best P (r, s) best h rest)
]

pub All-sort_best :
    (P : Text × Snapshot → Type 0) (best : Best) → All P best → All P (sort_best best)
unfolding sort_best
All-sort_best P [] h = tt
All-sort_best P (p ∷ best) (h, rest) =
    All-insert_best P p (sort_best best) h (All-sort_best P best rest)

-- Ascending, with the entries.
abbrev Before : Text → Text × Snapshot → Type 0
Before r p = text_lt r p.0 ≡ true

abbrev pub AreSorted : Best → Type 0
AreSorted [] = Unit
AreSorted (p ∷ best) = All (Before p.0) best × AreSorted best

insert_best-AreSorted :
    (p : Text × Snapshot) (best : Best)
    → All (Other p.0) best
    → AreSorted best
    → AreSorted (insert_best p best)
unfolding insert_best
insert_best-AreSorted (r, s) [] others h = (tt, tt)
insert_best-AreSorted (r, s) ((q, t) ∷ best) (other, others) (first, rest) =
    elim (Bool-cases (text_lt r q)) [
      | inl before ↦
          rw (insert_best, before)
            (
              (before, map-All best (λ p later. text_lt_trans r q p.0 before later) first),
              (first, rest),
            )
      | inr after ↦
          let between : text_lt q r ≡ true = elim (Bool-cases (text_lt q r)) [
            | inl less ↦ less
            | inr more ↦ cc (sym other ∙ (==_iff r q).1 (text_lt_total r q after more))
          ] in
          rw (insert_best, after)
            (
              All-insert_best (Before q) (r, s) best between first,
              insert_best-AreSorted (r, s) best others rest,
            )
    ]

pub sort_best-AreSorted : (best : Best) → IsDistinct best → AreSorted (sort_best best)
unfolding sort_best
sort_best-AreSorted [] h = tt
sort_best-AreSorted (p ∷ best) (others, h) =
    insert_best-AreSorted p (sort_best best) (All-sort_best (Other p.0) best others)
      (sort_best-AreSorted best h)

pub AreSorted-IsAscending :
    (best : Best)
    → AreSorted best
    → All Own best
    → IsAscending (map (λ s. s.revision) (snapshots_of best))
AreSorted-IsAscending [] h own = tt
AreSorted-IsAscending ((r, s) ∷ best) (first, h) (is_r, own) = (
  subst (λ k. All (λ y. text_lt k y ≡ true) (map (λ s. s.revision) (snapshots_of best))) (sym is_r)
      (firsts best first own),
  AreSorted-IsAscending best h own,
)
  where
    firsts :
        (best : Best)
        → All (Before r) best
        → All Own best
        → All (λ y. text_lt r y ≡ true) (map (λ s. s.revision) (snapshots_of best))
    firsts [] h own = tt
    firsts ((q, t) ∷ best) (h, rest) (is_q, own) =
        (subst (λ k. text_lt r k ≡ true) (sym is_q) h, firsts best rest own)
