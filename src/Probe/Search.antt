-- ===== src/Probe/Search.antt =====
-- `_normalized_roots`, `_probe_rank` and `probe`: the best snapshot of each revision over the roots.
pub mod Best
pub mod Order
pub mod Sorted
use mlx_spark.Base.{
  ℕ, zero, suc, List, [], ◌∷◌, map, any, Bool, true, false, not, ◌&&◌, ◌||◌, Option, none, some,
  nat_eq, ◌==◌, contains, ltb, if◌then◌else◌,
}
use mlx_spark.Base.Text.{codes, codes_eq}
use mlx_spark.Probe.{Text, under, Disk}
use mlx_spark.Probe.Read.{is_directory}
use mlx_spark.Probe.Index.{read_main_revision}
use mlx_spark.Probe.Snapshot.{Snapshot, Expected, probe_snapshot}

-- `_normalized_roots`: `normalize` is `abspath` of `expanduser`, `none` where it raises
unfoldable pub normalized_onto :
    (Text → Option Text) → (Text → Text) → List Text → List Text → List Text
normalized_onto normalize normcase seen [] = []
normalized_onto normalize normcase seen (c ∷ cs) = elim (normalize c) [
  | none ↦ normalized_onto normalize normcase seen cs
  | some root ↦
      let again = normalized_onto normalize normcase seen cs in
      let first = normalized_onto normalize normcase (normcase root ∷ seen) cs in
      if contains seen (normcase root) then again else root ∷ first
]

-- `_probe_rank`, compared as a tuple
abbrev pub bit : Bool → ℕ
bit true = 1
bit false = 0

-- `_probe_rank(a) > _probe_rank(b)`
unfoldable pub outranks : Snapshot → Snapshot → Bool
outranks a b =
    ltb (bit b.complete) (bit a.complete)
    || (bit b.complete == bit a.complete
        && (ltb b.present_shard_count a.present_shard_count
            || (b.present_shard_count == a.present_shard_count
                && ltb b.aggregate_present_bytes a.aggregate_present_bytes)))

-- `best_by_revision`
abbrev pub Best : Type 0
Best = List (Text × Snapshot)

unfoldable pub best_of : Text → Best → Option Snapshot
best_of revision [] = none
best_of revision ((r, s) ∷ best) = if r == revision then some s else best_of revision best

-- `if previous is None or rank > rank: best_by_revision[revision] = candidate`
unfoldable pub offer : Text → Snapshot → Best → Best
unfolding outranks
offer revision candidate [] = (revision, candidate) ∷ []
offer revision candidate ((r, s) ∷ best) =
    let rest = offer revision candidate best in
    if r == revision
    then (r, if outranks candidate s then candidate else s) ∷ best
    else (r, s) ∷ rest

-- `<` on texts
unfoldable pub text_lt : Text → Text → Bool
text_lt [] [] = false
text_lt [] (d ∷ ds) = true
text_lt (c ∷ cs) [] = false
text_lt (c ∷ cs) (d ∷ ds) = ltb c d || (c == d && text_lt cs ds)

-- `sorted(best_by_revision)`, with the snapshots
unfoldable pub insert_best : Text × Snapshot → Best → Best
unfolding text_lt
insert_best (r, s) [] = (r, s) ∷ []
insert_best (r, s) ((q, t) ∷ best) =
    let rest = insert_best (r, s) best in
    if text_lt r q then (r, s) ∷ (q, t) ∷ best else (q, t) ∷ rest

unfoldable pub sort_best : Best → Best
unfolding insert_best
sort_best [] = []
sort_best (p ∷ best) = insert_best p (sort_best best)

-- The fields of the result that are not constants.
pub record ProbeResult : Type 0 where
  pub complete : Bool
  pub found : Bool
  pub model_cache_directory_found : Bool
  pub snapshot_revisions : List Text
  pub snapshots : List Snapshot

abbrev pub snapshots_of : Best → List Snapshot
snapshots_of [] = []
snapshots_of ((r, s) ∷ best) = s ∷ snapshots_of best

abbrev pub result_of : Bool → List Snapshot → ProbeResult
result_of directory_found snapshots = record {
  complete = any (λ s. s.complete) snapshots;
  found = any (λ s. ltb 0 s.present_shard_count) snapshots;
  model_cache_directory_found = directory_found;
  snapshot_revisions = map (λ s. s.revision) snapshots;
  snapshots = snapshots;
}

module _ {S : Type 0} (disk : Disk S) (revision : Option Text) (expected : Expected) where
  abbrev pub model_cache : Text → Text
  model_cache root = under root (codes "models--Qwen--Qwen3.8-27B")

  -- `revision or _read_main_revision(model_cache)`
  pub candidate_revision : Text → Option Text
  candidate_revision root = elim revision [
    | none ↦ read_main_revision disk (model_cache root)
    | some [] ↦ read_main_revision disk (model_cache root)
    | some (c ∷ cs) ↦ some (c ∷ cs)
  ]

  -- The candidate that a root offers: its revision and its snapshot.
  unfoldable pub candidate_of : Text → Option (Text × Snapshot)
  unfolding candidate_revision probe_snapshot
  candidate_of root = elim (candidate_revision root) [
    | none ↦ none
    | some r ↦
        elim (probe_snapshot disk (under (under (model_cache root) (codes "snapshots")) r) r
          expected) [ none ↦ none | some s ↦ some (r, s) ]
  ]

  -- The loop over the roots.
  unfoldable pub search : List Text → Best → Best
  unfolding candidate_of offer
  search [] best = best
  search (root ∷ roots) best = elim (candidate_of root) [
    | none ↦ search roots best
    | some (r, s) ↦ search roots (offer r s best)
  ]

  unfoldable pub probe : (Text → Option Text) → (Text → Text) → List Text → ProbeResult
  unfolding normalized_onto search sort_best is_directory
  probe normalize normcase cache_roots =
      let roots = normalized_onto normalize normcase [] cache_roots in
      result_of (any (λ root. is_directory disk (model_cache root)) roots)
        (snapshots_of (sort_best (search roots [])))
