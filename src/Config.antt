-- ===== src/Config.antt =====
-- src/mlx_spark/models/qwen3_8/config.py: the specification that the model's configuration declares.
pub mod Exact
use mlx_spark.Base.{
  ℕ, zero, suc, ◌%◌, String, List, [], ◌∷◌, Bool, true, false, Option, none, some, not, ◌&&◌, ◌||◌,
  nat_eq, string_eq, ◌==◌, length, if◌then◌else◌,
}
use mlx_spark.Base.Result.{Result, ok, err, ◌>>=◌, ◌>>◌, require}
use mlx_spark.Base.Int.{pos}
use mlx_spark.Json.{Json, int, str, list, dict, Items, nil, cons, Fields, get, as_dict, is_text}

-- ContractError by its message, and the TypeError of a value that cannot be hashed.
pub data ConfigError : Type 0 where
  wrong_model no_text_config unsupported_layers layer_count state_policy head_grouping type_error :
      ConfigError
  not_positive : String → ConfigError

-- The numbers are positive, since `from_mapping` is the one place that makes a specification.
pub record QwenTextSpec : Type 0 where
  pub layers : List String
  pub hidden_size : ℕ
  pub intermediate_size : ℕ
  pub attention_heads : ℕ
  pub kv_heads : ℕ
  pub head_dim : ℕ
  pub linear_key_heads : ℕ
  pub linear_value_heads : ℕ
  pub linear_key_dim : ℕ
  pub linear_value_dim : ℕ
  pub conv_kernel : ℕ
  pub vocab_size : ℕ
  pub max_positions : ℕ
  pub state_dtype : String
  pub has_vision : Bool
  pub mtp_layers : ℕ

-- `positive(key)`: `type(v) is int` leaves the Booleans out
abbrev pub positive_value : String → Json → Result ConfigError ℕ
positive_value key (int (pos (suc n))) = ok (suc n)
positive_value key v = err (not_positive key)

unfoldable pub positive : Fields → String → Result ConfigError ℕ
positive c key = positive_value key (get c key)

-- `layers.count(kind)`
abbrev pub count : String → List String → ℕ
count kind [] = 0
count kind (x ∷ xs) = let rest = count kind xs in if x == kind then suc rest else rest

abbrev pub linear_layers : QwenTextSpec → ℕ
linear_layers spec = count "linear_attention" spec.layers

abbrev pub full_layers : QwenTextSpec → ℕ
full_layers spec = count "full_attention" spec.layers

abbrev pub is_supported : String → Bool
is_supported x = x == "linear_attention" || x == "full_attention"

-- `any(x not in {...} for x in layers)`: the first value that is not in the set decides, and one
-- that cannot be hashed raises.
unfoldable pub supported_items : Items → Result ConfigError (List String)
supported_items nil = ok []
supported_items (cons (str s) rest) =
    let later = supported_items rest >>= λ xs. ok (s ∷ xs) in
    if is_supported s then later else err unsupported_layers
supported_items (cons (list xs) rest) = err type_error
supported_items (cons (dict fs) rest) = err type_error
supported_items (cons v rest) = err unsupported_layers

unfoldable pub supported_layers : Json → Result ConfigError (List String)
unfolding supported_items
supported_layers (list xs) = supported_items xs
supported_layers v = err unsupported_layers

-- `isinstance(v, Mapping)`
abbrev pub is_dict : Json → Bool
is_dict (dict fs) = true
is_dict v = false

abbrev pub text_config : Json → Result ConfigError Fields
text_config (dict fs) = ok fs
text_config v = err no_text_config

-- The twelve sizes, in the order in which they are read.
unfoldable pub read_spec : Fields → List String → Bool → Result ConfigError QwenTextSpec
unfolding positive
read_spec c layers has_vision = do
  hidden_size ← positive c "hidden_size"
  intermediate_size ← positive c "intermediate_size"
  attention_heads ← positive c "num_attention_heads"
  kv_heads ← positive c "num_key_value_heads"
  head_dim ← positive c "head_dim"
  linear_key_heads ← positive c "linear_num_key_heads"
  linear_value_heads ← positive c "linear_num_value_heads"
  linear_key_dim ← positive c "linear_key_head_dim"
  linear_value_dim ← positive c "linear_value_head_dim"
  conv_kernel ← positive c "linear_conv_kernel_dim"
  vocab_size ← positive c "vocab_size"
  max_positions ← positive c "max_position_embeddings"
  mtp_layers ← positive c "mtp_num_hidden_layers"
  ok (record {
    layers = layers;
    hidden_size = hidden_size;
    intermediate_size = intermediate_size;
    attention_heads = attention_heads;
    kv_heads = kv_heads;
    head_dim = head_dim;
    linear_key_heads = linear_key_heads;
    linear_value_heads = linear_value_heads;
    linear_key_dim = linear_key_dim;
    linear_value_dim = linear_value_dim;
    conv_kernel = conv_kernel;
    vocab_size = vocab_size;
    max_positions = max_positions;
    state_dtype = "float32";
    has_vision = has_vision;
    mtp_layers = mtp_layers;
  })

abbrev pub is_grouped : QwenTextSpec → Bool
is_grouped spec =
    spec.attention_heads % spec.kv_heads == 0
    && spec.linear_value_heads % spec.linear_key_heads == 0

unfoldable pub from_mapping : Fields → Result ConfigError QwenTextSpec
unfolding positive supported_layers read_spec
from_mapping raw = do
  require (is_text (get raw "model_type") "qwen3_5") wrong_model
  c ← text_config (get raw "text_config")
  layers ← supported_layers (get c "layer_types")
  count ← positive c "num_hidden_layers"
  require (length layers == count) layer_count
  require (is_text (get c "mamba_ssm_dtype") "float32") state_policy
  spec ← read_spec c layers (is_dict (get raw "vision_config"))
  require (is_grouped spec) head_grouping
  ok spec
