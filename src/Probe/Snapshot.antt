-- ===== src/Probe/Snapshot.antt =====
-- `_probe_snapshot` and `_probe_rank`.
pub mod Complete
use mlx_spark.Base.{
  ℕ, zero, suc, ◌+◌, String, List, [], ◌∷◌, Bool, true, false, not, ◌&&◌, ◌||◌, Option, none, some,
  nat_eq, ◌==◌, length, ltb, if◌then◌else◌,
}
use mlx_spark.Base.Text.{codes, codes_eq}
use mlx_spark.Probe.{Text, under, Disk}
use mlx_spark.Probe.Read.{regular_file_size, is_directory, bounded_sha256}
use mlx_spark.Probe.Index.{
  Index, IndexKind, IndexStatus, absent, index_too_large, index_not_regular, index_unreadable,
  parse_error, invalid_weight_map, unsafe_shard_name, parsed, index_max_bytes, read_index,
}

-- `expected_hashes`, whose keys are among the three that `main` puts there
pub record Expected : Type 0 where
  pub config : Option Text
  pub index : Option Text
  pub tokenizer_config : Option Text

-- `if expected_hashes`
abbrev pub expects : Expected → Bool
expects e = elim e.config [
  | some h ↦ true
  | none ↦ elim e.index [
    | some h ↦ true
    | none ↦ elim e.tokenizer_config [ some h ↦ true | none ↦ false ]
  ]
]

-- `observed == expected`, for an expected hash that is listed
pub agrees : Option Text → Option Text → Bool
agrees observed none = true
agrees none (some expected) = false
agrees (some observed) (some expected) = observed == expected

-- `expected_hashes.get("index") and index_sha256 == expected_hashes["index"]`
pub is_exact_index : Option Text → Option Text → Bool
is_exact_index observed none = false
is_exact_index none (some expected) = false
is_exact_index (some observed) (some expected) = not (expected == []) && observed == expected

abbrev pub is_parsed : IndexStatus → Bool
is_parsed parsed = true
is_parsed _ = false

abbrev pub is_listed : List String → Bool
is_listed [] = false
is_listed (s ∷ ss) = true

pub record Snapshot : Type 0 where
  pub aggregate_present_bytes : ℕ
  pub all_exact_index_shards_present : Bool
  pub complete : Bool
  pub config_sha256 : Option Text
  pub expected_shard_count : ℕ
  pub has_config : Bool
  pub has_index : Bool
  pub has_tokenizer : Bool
  pub has_tokenizer_config : Bool
  pub index_kind : Option IndexKind
  pub index_sha256 : Option Text
  pub index_status : IndexStatus
  pub metadata_hashes_match : Option Bool
  pub present_shard_count : ℕ
  pub revision : Text
  pub tokenizer_config_sha256 : Option Text

abbrev pub is_some : Option ℕ → Bool
is_some none = false
is_some (some n) = true

abbrev pub is_false : Option Bool → Bool
is_false (some false) = true
is_false _ = false

module _ {S : Type 0} (disk : Disk S) where
  -- The loop over the shards: how many are present, and their bytes.
  unfoldable pub present : Text → List String → ℕ × ℕ
  present snapshot [] = (0, 0)
  present snapshot (s ∷ ss) =
      let rest = present snapshot ss in
      elim (regular_file_size disk (under snapshot (codes s))) [
        | none ↦ rest
        | some size ↦ (suc rest.0, size + rest.1)
      ]

  pub present_shards : Text → Index → ℕ × ℕ
  unfolding present
  present_shards snapshot index =
      if is_parsed index.status then present snapshot index.shards else (0, 0)

  -- `has_tokenizer`
  pub tokenizer_present : Text → Bool
  tokenizer_present snapshot =
      let has : String → Bool =
        λ name. is_some (regular_file_size disk (under snapshot (codes name))) in
      has "tokenizer.json" || has "tokenizer.model" || (has "vocab.json" && has "merges.txt")

  -- The index is parsed, names a shard, and all its shards are present.
  pub all_present : Index → ℕ → Bool
  all_present index count =
      is_parsed index.status && is_listed index.shards && count == length index.shards

  -- What is reported of a snapshot that is a directory.
  unfoldable pub report : Text → Text → Expected → Snapshot
  unfolding present_shards tokenizer_present all_present agrees is_exact_index bounded_sha256
      regular_file_size read_index
  report snapshot revision expected =
      let config = bounded_sha256 disk (under snapshot (codes "config.json")) index_max_bytes in
      let tokenizer = tokenizer_present snapshot in
      let tokenizer_config =
        bounded_sha256 disk (under snapshot (codes "tokenizer_config.json")) index_max_bytes in
      let index = read_index disk snapshot in
      let counts = present_shards snapshot index in
      let structural = config.0 && tokenizer && all_present index counts.0 in
      let matched : Option Bool =
        if expects expected
        then some (
            agrees config.1 expected.config
            && agrees index.index_sha256 expected.index
            && agrees tokenizer_config.1 expected.tokenizer_config)
        else none in
      record {
        aggregate_present_bytes = counts.1;
        all_exact_index_shards_present =
            is_exact_index index.index_sha256 expected.index && all_present index counts.0;
        complete = structural && not (is_false matched);
        config_sha256 = config.1;
        expected_shard_count = length index.shards;
        has_config = config.0;
        has_index = index.has_index;
        has_tokenizer = tokenizer;
        has_tokenizer_config = tokenizer_config.0;
        index_kind = index.index_kind;
        index_sha256 = index.index_sha256;
        index_status = index.status;
        metadata_hashes_match = matched;
        present_shard_count = counts.0;
        revision = revision;
        tokenizer_config_sha256 = tokenizer_config.1;
      }

  -- `_probe_snapshot`
  unfoldable pub probe_snapshot : Text → Text → Expected → Option Snapshot
  unfolding report is_directory
  probe_snapshot snapshot revision expected =
      if not (is_directory disk snapshot) then none else some (report snapshot revision expected)
