-- ===== src/Memory.antt =====
-- src/mlx_spark/runtime/memory.py: the arithmetic estimate, and the command of cli.py that prints it.
pub mod Layers
mod Tests
use mlx_spark.Base.{
  ℕ, zero, suc, ◌+◌, ◌-◌, ◌*◌, ◌/◌, String, Bool, true, false, Option, none, some, not, leb,
  if◌then◌else◌,
}
use mlx_spark.Base.Result.{Result, ok, err, ◌>>=◌, ◌>>◌, require}
use mlx_spark.Base.Int.{pos}
use mlx_spark.Json.{Json, null, int, Fields}
use mlx_spark.Config.{ConfigError, QwenTextSpec, linear_layers, full_layers, from_mapping}

-- ContractError by its message, and what `from_mapping` raises.
pub data MemoryError : Type 0 where
  beyond_context logits_beyond_tokens bad_parameters : MemoryError
  not_positive : String → MemoryError
  config : ConfigError → MemoryError

-- The arguments, as Python values; `nominal_parameters` is null where it is omitted.
pub record MemoryArguments : Type 0 where
  pub tokens : Json
  pub batch : Json
  pub kv_itemsize : Json
  pub logits_positions : Json
  pub nominal_parameters : Json
  pub weight_bits : Json

pub record MemoryEstimate : Type 0 where
  pub kv_bytes : ℕ
  pub recurrent_bytes : ℕ
  pub conv_history_bytes : ℕ
  pub logits_bytes : ℕ
  pub nominal_weight_bytes : Option ℕ

-- `type(v) is not int or v <= 0`
abbrev pub positive_argument : String → Json → Result MemoryError ℕ
positive_argument name (int (pos (suc n))) = ok (suc n)
positive_argument name v = err (not_positive name)

abbrev pub parameter_count : Json → Result MemoryError (Option ℕ)
parameter_count null = ok none
parameter_count (int (pos (suc n))) = ok (some (suc n))
parameter_count v = err bad_parameters

abbrev pub channels : QwenTextSpec → ℕ
channels spec =
    2 * spec.linear_key_heads * spec.linear_key_dim
    + spec.linear_value_heads * spec.linear_value_dim

-- `(nominal_parameters*weight_bits+7)//8`
abbrev pub weight_bytes : Option ℕ → ℕ → Option ℕ
weight_bytes none bits = none
weight_bytes (some n) bits = some ((n * bits + 7) / 8)

-- The products, where every argument is a positive integer.
unfoldable pub estimate_of : QwenTextSpec → ℕ → ℕ → ℕ → ℕ → Option ℕ → ℕ → MemoryEstimate
estimate_of spec tokens batch kv_itemsize logits_positions nominal weight_bits = record {
  kv_bytes = batch * tokens * 2 * full_layers spec * spec.kv_heads * spec.head_dim * kv_itemsize;
  recurrent_bytes =
      batch
      * linear_layers spec
      * spec.linear_value_heads
      * spec.linear_value_dim
      * spec.linear_key_dim
      * 4;
  conv_history_bytes = batch * linear_layers spec * channels spec * (spec.conv_kernel - 1) * 2;
  logits_bytes = batch * logits_positions * spec.vocab_size * 2;
  nominal_weight_bytes = weight_bytes nominal weight_bits;
}

unfoldable pub estimate : QwenTextSpec → MemoryArguments → Result MemoryError MemoryEstimate
unfolding estimate_of
estimate spec a = do
  tokens ← positive_argument "tokens" a.tokens
  batch ← positive_argument "batch" a.batch
  kv_itemsize ← positive_argument "kv_itemsize" a.kv_itemsize
  logits_positions ← positive_argument "logits_positions" a.logits_positions
  weight_bits ← positive_argument "weight_bits" a.weight_bits
  require (leb tokens spec.max_positions) beyond_context
  require (leb logits_positions tokens) logits_beyond_tokens
  nominal ← parameter_count a.nominal_parameters
  ok (estimate_of spec tokens batch kv_itemsize logits_positions nominal weight_bits)

abbrev pub from_config : Result ConfigError QwenTextSpec → Result MemoryError QwenTextSpec
from_config (ok spec) = ok spec
from_config (err e) = err (config e)

-- The command `memory-estimate`, from the parsed configuration and arguments on.
unfoldable pub memory_estimate :
    Fields → Json → Json → Bool → Json → Json → Result MemoryError MemoryEstimate
unfolding estimate
memory_estimate raw tokens batch all_logits nominal weight_bits = do
  spec ← from_config (from_mapping raw)
  estimate spec (record {
    tokens = tokens;
    batch = batch;
    kv_itemsize = int (pos 2);
    logits_positions = if all_logits then tokens else int (pos 1);
    nominal_parameters = nominal;
    weight_bits = weight_bits;
  })
