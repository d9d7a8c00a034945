-- ===== src/Probe/Search/Sorted.antt =====
-- The revisions that are reported are in strictly ascending order.
use mlx_spark.Base.{
  List, [], ◌∷◌, Option, none, some, All, nat_eq, ◌≡◌, sym, ap, ◌∙◌, Option-cases, Bool-cases, inl,
  inr,
}
use mlx_spark.Base.Maybe.{some-injective}
use mlx_spark.Base.Text.{codes, codes_eq}
use mlx_spark.Probe.{Text, under, Disk}
use mlx_spark.Probe.Read.{is_directory}
use mlx_spark.Probe.Snapshot.{Snapshot, Expected, probe_snapshot}
use mlx_spark.Probe.Search.{
  normalized_onto, Best, offer, sort_best, candidate_revision, model_cache, candidate_of, search,
  probe,
}
use mlx_spark.Probe.Search.Order.{
  IsAscending, IsDistinct, Own, All-offer, offer-IsDistinct, All-sort_best, sort_best-AreSorted,
  AreSorted-IsAscending,
}

module _ {S : Type 0} (disk : Disk S) (revision : Option Text) (expected : Expected) where
  probe_snapshot-Own :
      (directory r : Text) (s : Snapshot)
      → probe_snapshot disk directory r expected ≡ some s
      → s.revision ≡ r
  unfolding probe_snapshot
  probe_snapshot-Own directory r s h = elim (Bool-cases (is_directory disk directory)) [
    | inl is_there ↦ sym (ap (λ o. revision_of o) (rw (probe_snapshot, is_there) at h))
    | inr missing ↦ cc (rw (probe_snapshot, missing) at h)
  ]
    where
      revision_of : Option Snapshot → Text
      revision_of none = r
      revision_of (some u) = u.revision

  candidate_of-Own :
      (root : Text) (r : Text) (s : Snapshot)
      → candidate_of disk revision expected root ≡ some (r, s)
      → s.revision ≡ r
  unfolding candidate_of
  candidate_of-Own root r s h =
      elim (Option-cases (candidate_revision disk revision expected root)) [
        | inl missing ↦ cc (rw (candidate_of, missing) at h)
        | inr (q, is_q) ↦
            elim (Option-cases (
              probe_snapshot disk
                (under (under (model_cache disk revision expected root) (codes "snapshots")) q) q
                expected)) [
                  | inl missing ↦ cc (rw (candidate_of, is_q, missing) at h)
                  | inr (u, is_u) ↦
                      let same : (q, u) ≡ (r, s) =
                        some-injective (rw (candidate_of, is_q, is_u) at h) in
                      sym (ap (λ p. p.1.revision) same)
                      ∙ (probe_snapshot-Own _ q u is_u ∙ ap (λ p. p.0) same)
                ]
      ]

  search-IsDistinct :
      (roots : List Text) (best : Best)
      → IsDistinct best
      → IsDistinct (search disk revision expected roots best)
  unfolding search
  search-IsDistinct [] best h = h
  search-IsDistinct (root ∷ roots) best h =
      elim (Option-cases (candidate_of disk revision expected root)) [
        | inl missing ↦ rw (search, missing) (search-IsDistinct roots best h)
        | inr ((r, s), offered) ↦
            rw (search, offered)
              (search-IsDistinct roots (offer r s best) (offer-IsDistinct r s best h))
      ]

  search-Own :
      (roots : List Text) (best : Best)
      → All Own best
      → All Own (search disk revision expected roots best)
  unfolding search
  search-Own [] best h = h
  search-Own (root ∷ roots) best h =
      elim (Option-cases (candidate_of disk revision expected root)) [
        | inl missing ↦ rw (search, missing) (search-Own roots best h)
        | inr ((r, s), offered) ↦
            rw (search, offered)
              (search-Own roots (offer r s best)
                (All-offer Own r s best (candidate_of-Own root r s offered) h))
      ]

  -- The revisions of the result are in strictly ascending order, so none is reported twice.
  pub probe-IsAscending :
      (normalize : Text → Option Text) (normcase : Text → Text) (cache_roots : List Text)
      → IsAscending (probe disk revision expected normalize normcase cache_roots).snapshot_revisions
  unfolding probe
  probe-IsAscending normalize normcase cache_roots =
      let roots = normalized_onto normalize normcase [] cache_roots in
      let best = search disk revision expected roots [] in
      AreSorted-IsAscending (sort_best best)
        (sort_best-AreSorted best (search-IsDistinct roots [] tt))
        (All-sort_best Own best (search-Own roots [] tt))
