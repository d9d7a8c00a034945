-- ===== src/Probe/Search/Best.antt =====
-- The snapshot reported for a revision is the best that any root offers.
use mlx_spark.Base.{
  List, [], ◌∷◌, true, false, Option, some, nat_eq, ◌==◌, ==_iff, ==_self, ◌≡◌, refl, sym, ap, ◌∙◌,
  arith, Option-cases, Bool-cases, inl, inr, ◌⊎◌,
}
use mathlib.Core.Path.{subst}
use mlx_spark.Base.Text.{codes_eq}
use mlx_spark.Probe.{Text, Disk}
use mlx_spark.Probe.Snapshot.{Snapshot, Expected}
use mlx_spark.Probe.Search.{outranks, Best, best_of, offer, candidate_of, search}

outranks_irrefl : (a : Snapshot) → outranks a a ≡ false
unfolding outranks
outranks_irrefl a = ground arith

outranks_trans :
    (a b c : Snapshot) → outranks a b ≡ false → outranks b c ≡ false → outranks a c ≡ false
unfolding outranks
outranks_trans a b c h k = ground arith

outranks_asym : (a b : Snapshot) → outranks a b ≡ true → outranks b a ≡ false
unfolding outranks
outranks_asym a b h = ground arith

best_of-offer :
    (r q : Text) (s : Snapshot) (best : Best)
    → (r == q) ≡ false
    → best_of q (offer r s best) ≡ best_of q best
unfolding best_of offer
best_of-offer r q s [] h = ground arith
best_of-offer r q s ((p, t) ∷ best) h = ground (arith, best_of-offer r q s best)

-- After an offer the entry of its revision is not outranked by the offer or by the old entry.
best_of-offer_self :
    (r : Text) (s : Snapshot) (best : Best)
    → (t : Snapshot) × (best_of r (offer r s best) ≡ some t)
      × (outranks s t ≡ false)
      × ((old : Snapshot) → best_of r best ≡ some old → outranks old t ≡ false)
      × ((t ≡ s) ⊎ (best_of r best ≡ some t))
unfolding best_of offer
best_of-offer_self r s [] = (s, rw (==_self r) refl, outranks_irrefl s, λ old e. cc, inl refl)
best_of-offer_self r s ((p, t) ∷ best) = elim (Bool-cases (p == r)) [
  | inr other ↦
      let (u, there, above, old, from) = best_of-offer_self r s best in
      (
        u,
        ground arith,
        above,
        λ o e. old o (ground arith),
        elim from [ inl new ↦ inl new | inr listed ↦ inr (ground arith) ],
      )
  | inl same ↦ elim (Bool-cases (outranks s t)) [
    | inl better ↦ (
      s,
      ground arith,
      outranks_irrefl s,
      λ o e.
          let is_t : t ≡ o = ground arith in
          subst (λ x. outranks x s ≡ false) is_t (outranks_asym s t better),
      inl refl,
    )
    | inr kept ↦ (
      t,
      ground arith,
      kept,
      λ o e.
          let is_t : t ≡ o = ground arith in
          subst (λ x. outranks x t ≡ false) is_t (outranks_irrefl t),
      inr (ground arith),
    )
  ]
]

nothing : (r : Text) (t : Snapshot) → best_of r [] ≡ some t → ⊥
unfolding best_of
nothing r t h = cc

pair-eq : {r q : Text} {s t : Snapshot} → r ≡ q → s ≡ t → ◌≡◌ {A = Text × Snapshot} (r, s) (q, t)
pair-eq h k = cc

module _ {S : Type 0} (disk : Disk S) (revision : Option Text) (expected : Expected) where
  -- A root among the searched ones offers the snapshot for the revision.
  abbrev pub Offers : List Text → Text → Snapshot → Type 0
  Offers [] r s = ⊥
  Offers (root ∷ roots) r s =
      (candidate_of disk revision expected root ≡ some (r, s)) ⊎ Offers roots r s

  -- The entry is at least as good as what was there and as every offer.
  Above : List Text → Best → Text → Snapshot → Type 0
  Above roots best r s =
      (t : Snapshot) × (best_of r (search disk revision expected roots best) ≡ some t)
      × (outranks s t ≡ false)

  raise :
      (roots : List Text) (best : Best) (r : Text) (s u : Snapshot)
      → outranks s u ≡ false
      → Above roots best r u
      → Above roots best r s
  unfolding Above
  raise roots best r s u h (t, there, k) = (t, there, outranks_trans s u t h k)

  search-Above :
      (roots : List Text) (best : Best) (r : Text) (s : Snapshot)
      → (best_of r best ≡ some s) ⊎ Offers roots r s
      → Above roots best r s
  unfolding search Above
  search-Above [] best r s (inl there) = (s, there, outranks_irrefl s)
  search-Above [] best r s (inr none_) = absurd none_
  search-Above (root ∷ roots) best r s o =
      elim (Option-cases (candidate_of disk revision expected root)) [
        | inl none_ ↦
            let o₁ : (best_of r best ≡ some s) ⊎ Offers roots r s = elim o [
              | inl there ↦ inl there
              | inr (inl e) ↦ cc
              | inr (inr later) ↦ inr later
            ] in
            rw (none_, search) (search-Above roots best r s o₁)
        | inr ((q, c), e) ↦
            let (u, listed, above, old, _) = best_of-offer_self q c best in
            rw (e, search)
              (elim o [
                | inl there ↦ elim (Bool-cases (q == r)) [
                  | inl same ↦
                      let is_r = (==_iff q r).0 same in
                      raise roots (offer q c best) r s u
                        (old s (subst (λ x. best_of x best ≡ some s) (sym is_r) there))
                        (search-Above roots (offer q c best) r u
                          (inl (subst (λ x. best_of x (offer q c best) ≡ some u) is_r listed)))
                  | inr other ↦
                      search-Above roots (offer q c best) r s
                        (inl (best_of-offer q r c best other ∙ there))
                ]
                | inr (inl f) ↦
                    let is_r : q ≡ r = cc in
                    let is_s : c ≡ s = cc in
                    raise roots (offer q c best) r s u
                      (subst (λ x. outranks x u ≡ false) is_s above)
                      (search-Above roots (offer q c best) r u
                        (inl (subst (λ x. best_of x (offer q c best) ≡ some u) is_r listed)))
                | inr (inr later) ↦ search-Above roots (offer q c best) r s (inr later)
              ])
      ]

  above-best :
      (roots : List Text) (r : Text) (s : Snapshot)
      → Offers roots r s
      → (t : Snapshot) × (best_of r (search disk revision expected roots []) ≡ some t)
        × (outranks s t ≡ false)
  unfolding Above
  above-best roots r s o = search-Above roots [] r s (inr o)

  search_from :
      (roots : List Text) (best : Best) (r : Text) (t : Snapshot)
      → best_of r (search disk revision expected roots best) ≡ some t
      → (best_of r best ≡ some t) ⊎ Offers roots r t
  unfolding search
  search_from [] best r t h = inl h
  search_from (root ∷ roots) best r t h =
      elim (Option-cases (candidate_of disk revision expected root)) [
        | inl none_ ↦ elim (search_from roots best r t (rw (none_, search) at h)) [
          | inl there ↦ inl there
          | inr o ↦ inr (inr o)
        ]
        | inr ((q, c), e) ↦ elim (search_from roots (offer q c best) r t (rw (e, search) at h)) [
          | inr o ↦ inr (inr o)
          | inl there ↦ elim (Bool-cases (q == r)) [
            | inr other ↦ inl (sym (best_of-offer q r c best other) ∙ there)
            | inl same ↦
                let is_r = (==_iff q r).0 same in
                let (u, listed, _, _, from) = best_of-offer_self q c best in
                let there₁ = subst (λ x. best_of x (offer q c best) ≡ some t) (sym is_r) there in
                let is_t : u ≡ t = cc in
                elim from [
                  | inl new ↦ inr (inl (e ∙ ap some (pair-eq is_r (sym new ∙ is_t))))
                  | inr before ↦
                      inl (subst (λ x. best_of x best ≡ some t) is_r (before ∙ ap some is_t))
                ]
          ]
        ]
      ]

  -- If some root offers a snapshot for a revision, the search keeps one for it, which is itself
  -- offered and which the first does not outrank.
  pub search_best :
      (roots : List Text) (r : Text) (s : Snapshot)
      → Offers roots r s
      → (t : Snapshot) × (best_of r (search disk revision expected roots []) ≡ some t)
        × Offers roots r t
        × (outranks s t ≡ false)
  search_best roots r s o =
      let (t, there, above) = above-best roots r s o in
      (
        t,
        there,
        elim (search_from roots [] r t there) [
          | inl none_ ↦ absurd (nothing r t none_)
          | inr o ↦ o
        ],
        above,
      )
