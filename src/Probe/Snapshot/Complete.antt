-- ===== src/Probe/Snapshot/Complete.antt =====
-- What `complete` means, and the bounds of the counts.
use mlx_spark.Base.{
  ◌≤◌, String, List, [], ◌∷◌, all, Bool, true, false, not, ◌&&◌, Option, none, some, nat_eq, length,
  if◌then◌else◌, ◌≡◌, ◌↔◌, refl, arith, Option-cases, Bool-cases, inl, inr, ◌⊎◌,
}
use mathlib.Core.Path.{subst}
use mlx_spark.Base.Text.{codes}
use mlx_spark.Probe.{Text, under, Disk}
use mlx_spark.Probe.Read.{regular_file_size, is_directory, bounded_sha256}
use mlx_spark.Probe.Index.{Index, read_index, index_max_bytes}
use mlx_spark.Probe.Snapshot.{
  Snapshot, Expected, expects, agrees, is_parsed, is_listed, is_some, is_false, present,
  present_shards, tokenizer_present, all_present, report, probe_snapshot,
}

complete_iff :
    (c t p e a b k : Bool)
    → ((c && t && p) && not (is_false (if e then some (a && b && k) else none)) ≡ true) ↔ (
        (c ≡ true)
        × (t ≡ true)
        × (p ≡ true)
        × ((e ≡ false) ⊎ ((a ≡ true) × (b ≡ true) × (k ≡ true))))
complete_iff c t p true a b k = ground arith
complete_iff c t p false a b k = ground arith

some-injective : {a b : Snapshot} → ◌≡◌ {A = Option Snapshot} (some a) (some b) → a ≡ b
some-injective h = cc

module _ {S : Type 0} (disk : Disk S) where
  -- A shard is a regular file of the snapshot.
  abbrev pub has_shard : Text → String → Bool
  has_shard snapshot s = is_some (regular_file_size disk (under snapshot (codes s)))

  present_bound : (snapshot : Text) (ss : List String) → (present disk snapshot ss).0 ≤ length ss
  unfolding present
  present_bound snapshot [] = omega arith
  present_bound snapshot (s ∷ ss) = ground (arith, present_bound snapshot ss)

  present_iff :
      (snapshot : Text) (ss : List String)
      → ((present disk snapshot ss).0 ≡ length ss) ↔ (all (has_shard snapshot) ss ≡ true)
  unfolding present
  present_iff snapshot [] = (λ h. refl, λ h. refl)
  present_iff snapshot (s ∷ ss) = ground (arith, present_iff snapshot ss, present_bound snapshot ss)

  all_present_iff :
      (snapshot : Text) (i : Index)
      → (all_present disk i (present_shards disk snapshot i).0 ≡ true) ↔ (
          (is_parsed i.status ≡ true)
          × (is_listed i.shards ≡ true)
          × (all (has_shard snapshot) i.shards ≡ true))
  unfolding all_present present_shards
  all_present_iff snapshot i = ground (arith, present_iff snapshot i.shards)

  present_shards_bound :
      (snapshot : Text) (i : Index) → (present_shards disk snapshot i).0 ≤ length i.shards
  unfolding present_shards
  present_shards_bound snapshot i = ground (arith, present_bound snapshot i.shards)

  -- What a complete snapshot has.
  pub record IsComplete (snapshot : Text) (expected : Expected) : Type 0 where
    pub config :
        (bounded_sha256 disk (under snapshot (codes "config.json")) index_max_bytes).0 ≡ true
    pub tokenizer : tokenizer_present disk snapshot ≡ true
    pub index : is_parsed (read_index disk snapshot).status ≡ true
    pub some_shard : is_listed (read_index disk snapshot).shards ≡ true
    pub each : all (has_shard snapshot) (read_index disk snapshot).shards ≡ true
    pub config_hash :
        agrees
          (bounded_sha256 disk (under snapshot (codes "config.json")) index_max_bytes).1
          expected.config
        ≡ true
    pub index_hash : agrees (read_index disk snapshot).index_sha256 expected.index ≡ true
    pub tokenizer_hash :
        agrees
          (bounded_sha256 disk (under snapshot (codes "tokenizer_config.json")) index_max_bytes).1
          expected.tokenizer_config
        ≡ true

  agrees-none : (observed : Option Text) → agrees observed none ≡ true
  unfolding agrees
  agrees-none observed = refl

  -- Without expected hashes there is nothing to agree with.
  expects-eq-false :
      (e : Expected) (a b c : Option Text)
      → expects e ≡ false
      → (agrees a e.config ≡ true)
        × (agrees b e.index ≡ true)
        × (agrees c e.tokenizer_config ≡ true)
  expects-eq-false e a b c h = elim (Option-cases e.config) [
    | inr (x, p) ↦ cc (rw p at h)
    | inl p ↦ elim (Option-cases e.index) [
      | inr (x, q) ↦ cc (rw (p, q) at h)
      | inl q ↦ elim (Option-cases e.tokenizer_config) [
        | inr (x, r) ↦ cc (rw (p, q, r) at h)
        | inl r ↦ (rw p (agrees-none a), rw q (agrees-none b), rw r (agrees-none c))
      ]
    ]
  ]

  report_complete_iff :
      (snapshot revision : Text) (expected : Expected)
      → ((report disk snapshot revision expected).complete ≡ true) ↔ IsComplete snapshot expected
  unfolding report
  report_complete_iff snapshot revision expected =
      let config = bounded_sha256 disk (under snapshot (codes "config.json")) index_max_bytes in
      let tokenizer_config =
        bounded_sha256 disk (under snapshot (codes "tokenizer_config.json")) index_max_bytes in
      let index = read_index disk snapshot in
      let parts =
        complete_iff config.0 (tokenizer_present disk snapshot)
          (all_present disk index (present_shards disk snapshot index).0) (expects expected)
          (agrees config.1 expected.config) (agrees index.index_sha256 expected.index)
          (agrees tokenizer_config.1 expected.tokenizer_config) in
      let shards = all_present_iff snapshot index in
      (
        λ h.
            let (c, t, all_there, hashes) = parts.0 h in
            let (is_index, some_, each) = shards.0 all_there in
            let (a, b, k) : (agrees config.1 expected.config ≡ true)
                × (agrees index.index_sha256 expected.index ≡ true)
                × (agrees tokenizer_config.1 expected.tokenizer_config ≡ true) =
              elim hashes [
                | inl e ↦ expects-eq-false expected config.1 index.index_sha256 tokenizer_config.1 e
                | inr same ↦ same
              ] in
            record {
              config = c;
              tokenizer = t;
              index = is_index;
              some_shard = some_;
              each = each;
              config_hash = a;
              index_hash = b;
              tokenizer_hash = k;
            },
        λ i. parts.1 (
          i.config,
          i.tokenizer,
          shards.1 (i.index, i.some_shard, i.each),
          inr (i.config_hash, i.index_hash, i.tokenizer_hash),
        ),
      )

  -- A directory is reported as complete exactly when it has the configuration, a tokenizer, and a
  -- parsed index whose shards, one at least, are all regular files, and each expected hash is the
  -- observed one. The count of present shards is at most that of the expected ones.
  pub probe_snapshot_complete_iff :
      (snapshot revision : Text) (expected : Expected) (s : Snapshot)
      → probe_snapshot disk snapshot revision expected ≡ some s
      → ((s.complete ≡ true) ↔ IsComplete snapshot expected)
        × (s.present_shard_count ≤ s.expected_shard_count)
  unfolding probe_snapshot report
  probe_snapshot_complete_iff snapshot revision expected s h =
      elim (Bool-cases (is_directory disk snapshot)) [
        | inr other ↦ cc (rw (other, probe_snapshot) at h)
        | inl there ↦
            let same : report disk snapshot revision expected ≡ s =
              some-injective (rw (there, probe_snapshot) at h) in
            subst
              (λ s.
                ((s.complete ≡ true) ↔ IsComplete snapshot expected)
                × (s.present_shard_count ≤ s.expected_shard_count))
              same
              (
                report_complete_iff snapshot revision expected,
                present_shards_bound snapshot (read_index disk snapshot),
              )
      ]
