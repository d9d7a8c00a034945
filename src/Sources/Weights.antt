-- ===== src/Sources/Weights.antt =====
-- `_qwen_weight_manifest`: the shards that the weight index names.
pub mod Sound
use mlx_spark.Base.{
  ℕ, zero, suc, ◌+◌, ◌-◌, ◌*◌, ◌/◌, ◌%◌, ◌^◌, String, List, [], ◌∷◌, ◌++◌, Bool, true, false, not,
  ◌&&◌, ◌||◌, Option, none, some, ◌==◌, string_eq, nat_eq, contains, length, all, any, ltb, leb,
  if◌then◌else◌,
}
use mlx_spark.Base.Result.{Result, ok, err, ◌>>=◌, ◌>>◌, require}
use mlx_spark.Base.Int.{ℤ, pos, negsuc}
use mlx_spark.Base.Sort.{sorted, distinct}
use mlx_spark.Base.Text.{codes, codes_eq}
use mlx_spark.Json.{
  Json, null, str, int, float, bool, dict, list, Float, nan, infinite, finite, Fields, Items, get,
  size, values, elements, as_dict, as_list, as_str, number,
}
use mlx_spark.Sources.{
  SourceError, type_error, overflow_error, no_weight_map, unsafe_shards, no_total_size,
  bad_total_size, no_siblings, absent_shards,
}

-- The parts of `model-\d{5}-of-\d{5}\.safetensors`; `is_decimal` is Python's `\d`.
take_prefix : List ℕ → List ℕ → Option (List ℕ)
take_prefix [] cs = some cs
take_prefix (d ∷ ds) [] = none
take_prefix (d ∷ ds) (c ∷ cs) = let rest = take_prefix ds cs in if c == d then rest else none

take_decimals : (ℕ → Bool) → ℕ → List ℕ → Option (List ℕ)
take_decimals is_decimal zero cs = some cs
take_decimals is_decimal (suc n) [] = none
take_decimals is_decimal (suc n) (c ∷ cs) =
    let rest = take_decimals is_decimal n cs in if is_decimal c then rest else none

abbrev and_then : Option (List ℕ) → (List ℕ → Option (List ℕ)) → Option (List ℕ)
and_then none f = none
and_then (some cs) f = f cs

pub matches_shard : (ℕ → Bool) → String → Bool
unfolding take_prefix take_decimals
matches_shard is_decimal name =
    let rest = and_then (take_prefix (codes "model-") (codes name)) λ a.
      and_then (take_decimals is_decimal 5 a) λ b.
        and_then (take_prefix (codes "-of-") b)
          λ c. and_then (take_decimals is_decimal 5 c) λ d. take_prefix (codes ".safetensors") d in
    elim rest [ none ↦ false | some cs ↦ cs == [] ]

-- `Path(name).name == name`
pub is_plain_name : String → Bool
is_plain_name name = not (name == ".") && not (contains (codes name) b'/')

unfoldable pub is_safe_shard : (ℕ → Bool) → String → Bool
unfolding matches_shard is_plain_name
is_safe_shard is_decimal name = is_plain_name name && matches_shard is_decimal name

abbrev pub is_hashable : Json → Bool
is_hashable (list xs) = false
is_hashable (dict fs) = false
is_hashable v = true

abbrev pub is_str : Json → Bool
is_str v = elim (as_str v) [ none ↦ false | some s ↦ true ]

abbrev pub is_number : Json → Bool
is_number v = elim (number v) [ none ↦ false | some x ↦ true ]

abbrev pub is_none : Json → Bool
is_none null = true
is_none v = false

unfoldable pub strings : List Json → List String
strings [] = []
strings (v ∷ vs) = let rest = strings vs in elim (as_str v) [ none ↦ rest | some s ↦ s ∷ rest ]

-- `sorted(set(values))`, and whether all are texts. A value that cannot be hashed raises TypeError,
-- and so does the order of a text beside a number or None.
unfoldable pub shard_values : List Json → Result SourceError (List String)
unfolding strings
shard_values vs =
    if not (all is_hashable vs)
    then err type_error
    else if all is_str vs
    then ok (sorted (distinct (strings vs)))
    else if all is_number vs || all is_none vs
    then err unsafe_shards
    else err type_error

-- Above this bound `math.isfinite` raises OverflowError on an integer.
abbrev float_limit : ℕ
float_limit = 2 ^ 1024 - 2 ^ 970

-- The tests of total_size: an integer or a finite float, integral and positive.
unfoldable pub total_size_of : Json → Result SourceError ℕ
total_size_of (int (pos n)) =
    if leb float_limit n then err overflow_error else if n == 0 then err bad_total_size else ok n
total_size_of (int (negsuc n)) =
    if leb float_limit (suc n) then err overflow_error else err bad_total_size
total_size_of (float (finite (pos n) k)) =
    if n % 2 ^ k == 0 && ltb 0 (n / 2 ^ k) then ok (n / 2 ^ k) else err bad_total_size
total_size_of (float (finite (negsuc n) k)) = err bad_total_size
total_size_of v = err no_total_size

-- `metadata.get("total_size") if isinstance(metadata, dict) else None`
abbrev pub metadata_total : Json → Json
metadata_total metadata = elim (as_dict metadata) [
  | none ↦ null
  | some fields ↦ get fields "total_size"
]

-- The file names of the siblings that are dicts with a text there.
unfoldable pub sibling_names : List Json → List String
sibling_names [] = []
sibling_names (v ∷ vs) =
    let rest = sibling_names vs in
    elim (as_dict v) [
      | none ↦ rest
      | some fields ↦ elim (as_str (get fields "rfilename")) [ none ↦ rest | some s ↦ s ∷ rest ]
    ]

-- `if not isinstance(siblings, list): raise`
abbrev pub sibling_list : Json → Result SourceError Items
sibling_list siblings = elim (as_list siblings) [ none ↦ err no_siblings | some xs ↦ ok xs ]

-- The fields of the manifest that are not constants.
pub record WeightManifest : Type 0 where
  pub tensor_count : ℕ
  pub tensor_payload_bytes : ℕ
  pub shard_filenames : List String

module _ (is_decimal : ℕ → Bool) where
  pub manifest_of : Fields → Fields → Json → Result SourceError WeightManifest
  manifest_of index weight_map siblings = do
    shards ← shard_values (values weight_map)
    require (not (length shards == 0) && all (is_safe_shard is_decimal) shards) unsafe_shards
    total ← total_size_of (metadata_total (get index "metadata"))
    listed ← sibling_list siblings
    require (all (λ s. contains (sibling_names (elements listed)) s) shards) absent_shards
    ok (record {
      tensor_count = size weight_map;
      tensor_payload_bytes = total;
      shard_filenames = shards;
    })

  unfoldable pub weight_manifest : Json → Json → Result SourceError WeightManifest
  unfolding manifest_of
  weight_manifest index siblings = elim (as_dict index) [
    | none ↦ err no_weight_map
    | some fields ↦ elim (as_dict (get fields "weight_map")) [
      | none ↦ err no_weight_map
      | some weight_map ↦ manifest_of fields weight_map siblings
    ]
  ]
