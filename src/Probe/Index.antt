-- ===== src/Probe/Index.antt =====
-- `_read_main_revision`, `_safe_shard_name` and `_read_index`.
pub mod Sound
use mlx_spark.Base.{
  ℕ, zero, suc, ◌+◌, ◌*◌, String, List, [], ◌∷◌, ◌++◌, map, Bool, true, false, not, ◌&&◌, ◌||◌,
  Option, none, some, string_eq, nat_eq, ◌==◌, contains, length, all, ltb, if◌then◌else◌,
}
use mlx_spark.Base.Sort.{sorted, distinct}
use mlx_spark.Base.Text.{codes, codes_eq, between, is_hex, is_alphanumeric, ends_with}
use mlx_spark.Json.{Json, str, Fields, get, as_dict, as_str, values}
use mlx_spark.Probe.{Text, under, Disk}
use mlx_spark.Probe.Read.{
  Status, good, missing, unreadable, not_regular, too_large, Reading, read_bounded_regular,
}

-- `[0-9a-fA-F]{40}`
pub is_sha : Text → Bool
is_sha text = length text == 40 && all is_hex text

-- `.lower()` on ASCII
abbrev pub lower : Text → Text
lower text = map (λ c. if between b'A' b'Z' c then c + 32 else c) text

-- the characters below 128 that `strip` removes
abbrev is_space : ℕ → Bool
is_space c = between 9 13 c || between 28 32 c

abbrev strip_left : Text → Text
strip_left [] = []
strip_left (c ∷ cs) = let rest = strip_left cs in if is_space c then rest else c ∷ cs

abbrev strip_right : Text → Text
strip_right [] = []
strip_right (c ∷ cs) =
    let rest = strip_right cs in
    if is_space c then (if length rest == 0 then [] else c ∷ rest) else c ∷ rest

abbrev pub strip : Text → Text
strip text = strip_right (strip_left text)

pub data IndexKind : Type 0 where
  safetensors pytorch_bin : IndexKind

abbrev suffix : IndexKind → String
suffix safetensors = ".safetensors"
suffix pytorch_bin = ".bin"

abbrev is_shard_char : ℕ → Bool
is_shard_char c = is_alphanumeric c || c == b'.' || c == b'_' || c == b'-'

-- `[A-Za-z0-9][A-Za-z0-9._-]*` and the suffix, which starts with a character that the first
-- class does not have
abbrev pub matches : IndexKind → Text → Bool
matches kind [] = false
matches kind (c ∷ cs) =
    is_alphanumeric c && all is_shard_char cs && ends_with (c ∷ cs) (codes (suffix kind))

unfoldable pub is_safe_name : IndexKind → String → Bool
is_safe_name kind value =
    let cs = codes value in
    matches kind cs && not (value == "." || value == ".." || contains cs b'/' || contains cs b'\\')

-- `_safe_shard_name`
unfoldable pub safe_shard_name : Json → IndexKind → Option String
unfolding is_safe_name
safe_shard_name value kind = elim (as_str value) [
  | none ↦ none
  | some s ↦ if is_safe_name kind s then some s else none
]

pub data IndexStatus : Type 0 where
  absent index_too_large index_not_regular index_unreadable parse_error invalid_weight_map
        unsafe_shard_name parsed :
      IndexStatus

-- The dict `errors`; it has no entry for "ok", with which it is not asked.
abbrev pub index_error : Status → IndexStatus
index_error missing = absent
index_error too_large = index_too_large
index_error not_regular = index_not_regular
index_error unreadable = index_unreadable
index_error good = index_unreadable

pub record Index : Type 0 where
  pub has_index : Bool
  pub index_kind : Option IndexKind
  pub shards : List String
  pub status : IndexStatus
  pub index_sha256 : Option Text

-- `shards.add(shard)`, where the later values are accepted
abbrev pub add_shard : String → List String × IndexStatus → List String × IndexStatus
add_shard shard (shards, parsed) = (shard ∷ shards, parsed)
add_shard shard rest = rest

-- The exit from the loop at a value that is no safe name.
abbrev pub reject : Json → List String × IndexStatus
reject v = elim (as_str v) [ none ↦ ([], invalid_weight_map) | some s ↦ ([], unsafe_shard_name) ]

-- The loop over the values of the weight map: the shards, or the error.
unfoldable pub collect_shards : IndexKind → List Json → List String × IndexStatus
unfolding safe_shard_name
collect_shards kind [] = ([], parsed)
collect_shards kind (v ∷ vs) =
    let rest = collect_shards kind vs in
    elim (safe_shard_name v kind) [ some shard ↦ add_shard shard rest | none ↦ reject v ]

abbrev refused_index : IndexKind → Text → IndexStatus → Index
refused_index kind hash status = record {
  has_index = true;
  index_kind = some kind;
  shards = [];
  status = status;
  index_sha256 = some hash;
}

-- `tuple(sorted(shards))` of a set
unfoldable pub index_of : IndexKind → Text → List String × IndexStatus → Index
index_of kind hash ([], parsed) = refused_index kind hash invalid_weight_map
index_of kind hash (s ∷ ss, parsed) = record {
  has_index = true;
  index_kind = some kind;
  shards = sorted (distinct (s ∷ ss));
  status = parsed;
  index_sha256 = some hash;
}
index_of kind hash (ss, status) = refused_index kind hash status

-- From the decoded document on.
unfoldable pub read_document : IndexKind → Text → Option Json → Index
unfolding collect_shards index_of
read_document kind hash none = refused_index kind hash parse_error
read_document kind hash (some document) = elim (as_dict document) [
  | none ↦ refused_index kind hash invalid_weight_map
  | some fields ↦ elim (as_dict (get fields "weight_map")) [
    | none ↦ refused_index kind hash invalid_weight_map
    | some weight_map ↦ index_of kind hash (collect_shards kind (values weight_map))
  ]
]

abbrev unread : IndexKind → Reading → Index
unread kind (content, status, exists) = record {
  has_index = exists;
  index_kind = if exists then some kind else none;
  shards = [];
  status = index_error status;
  index_sha256 = none;
}

abbrev is_missing : Status → Bool
is_missing missing = true
is_missing _ = false

abbrev pub index_name : String
index_name = "model.safetensors.index.json"

abbrev pub pytorch_index_name : String
pytorch_index_name = "pytorch_model.bin.index.json"

abbrev pub index_max_bytes : ℕ
index_max_bytes = 16 * 1024 * 1024

abbrev pub ref_max_bytes : ℕ
ref_max_bytes = 128

module _ {S : Type 0} (disk : Disk S) where
  abbrev main_revision_of : Reading → Option Text
  main_revision_of (some content, good, _) =
      let revision = strip content in
      if all (λ c. ltb c 128) content
      then (if is_sha revision then some (lower revision) else none)
      else none
  main_revision_of (_, _, _) = none

  -- `_read_main_revision`
  unfoldable pub read_main_revision : Text → Option Text
  unfolding is_sha read_bounded_regular
  read_main_revision model_cache = main_revision_of (
      read_bounded_regular disk (under (under model_cache (codes "refs")) (codes "main"))
        ref_max_bytes)

  pub index_from : IndexKind → Reading → Index
  unfolding read_document
  index_from kind (some content, good, exists) =
      read_document kind (disk.sha256 content) (disk.loads content)
  index_from kind r = unread kind r

  -- `_read_index`
  unfoldable pub read_index : Text → Index
  unfolding index_from read_bounded_regular
  read_index snapshot =
      let first = read_bounded_regular disk (under snapshot (codes index_name)) index_max_bytes in
      let second =
        read_bounded_regular disk (under snapshot (codes pytorch_index_name)) index_max_bytes in
      if is_missing first.1 then index_from pytorch_bin second else index_from safetensors first
