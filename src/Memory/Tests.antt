-- ===== src/Memory/Tests.antt =====
-- A configuration of four layers, and its estimate.
use mlx_spark.Base.{String, List, [], ◌∷◌, true, false, some, ◌≡◌, ◌↔◌, refl, string_eq, nat_eq}
use mlx_spark.Base.Result.{ok, err}
use mlx_spark.Base.Int.{pos, int_eq}
use mlx_spark.Json.{Json, null, int, str, bool, Fields, fields_of, object, texts, get, find, py_eq}
use mlx_spark.Config.{
  QwenTextSpec, from_mapping, unsupported_layers, positive, supported_items, supported_layers,
  read_spec,
}
use mlx_spark.Config.Exact.{IsConfig, from_mapping_iff}
use mlx_spark.Memory.{
  MemoryEstimate, estimate_of, estimate, memory_estimate, beyond_context, not_positive,
}
use mlx_spark.Memory.Layers.{IsEstimate, memory_estimate-IsEstimate}

abbrev layers : List String
layers = "linear_attention" ∷ "linear_attention" ∷ "linear_attention" ∷ "full_attention" ∷ []

abbrev text : List String → Json
text kinds = object (
    ("layer_types", texts kinds)
    ∷ ("num_hidden_layers", int (pos 4))
    ∷ ("mamba_ssm_dtype", str "float32")
    ∷ ("hidden_size", int (pos 64))
    ∷ ("intermediate_size", int (pos 128))
    ∷ ("num_attention_heads", int (pos 4))
    ∷ ("num_key_value_heads", int (pos 2))
    ∷ ("head_dim", int (pos 16))
    ∷ ("linear_num_key_heads", int (pos 2))
    ∷ ("linear_num_value_heads", int (pos 6))
    ∷ ("linear_key_head_dim", int (pos 8))
    ∷ ("linear_value_head_dim", int (pos 8))
    ∷ ("linear_conv_kernel_dim", int (pos 4))
    ∷ ("vocab_size", int (pos 1000))
    ∷ ("max_position_embeddings", int (pos 512))
    ∷ ("mtp_num_hidden_layers", int (pos 1))
    ∷ [])

abbrev config : List String → Fields
config kinds = fields_of (("model_type", str "qwen3_5") ∷ ("text_config", text kinds) ∷ [])

abbrev spec : QwenTextSpec
spec = record {
  layers = layers;
  hidden_size = 64;
  intermediate_size = 128;
  attention_heads = 4;
  kv_heads = 2;
  head_dim = 16;
  linear_key_heads = 2;
  linear_value_heads = 6;
  linear_key_dim = 8;
  linear_value_dim = 8;
  conv_kernel = 4;
  vocab_size = 1000;
  max_positions = 512;
  state_dtype = "float32";
  has_vision = false;
  mtp_layers = 1;
}

accepted : from_mapping (config layers) ≡ ok spec
unfolding from_mapping positive supported_items supported_layers read_spec get find py_eq string_eq
    nat_eq
accepted = refl

another_kind : from_mapping (config ("sliding_attention" ∷ [])) ≡ err unsupported_layers
unfolding from_mapping supported_items supported_layers get find py_eq string_eq
another_kind = refl

from_mapping_iff_example : (from_mapping (config layers) ≡ ok spec) ↔ IsConfig (config layers) spec
from_mapping_iff_example = from_mapping_iff (config layers) spec

abbrev estimated : MemoryEstimate
estimated = record {
  kv_bytes = 25600;
  recurrent_bytes = 9216;
  conv_history_bytes = 2880;
  logits_bytes = 4000;
  nominal_weight_bytes = some 501;
}

-- 100 positions of a batch of two, and 1001 parameters of four bits
estimates :
    memory_estimate
      (config layers)
      (int (pos 100))
      (int (pos 2))
      false
      (int (pos 1001))
      (int (pos 4))
    ≡ ok estimated
unfolding memory_estimate estimate estimate_of from_mapping positive supported_items
    supported_layers read_spec get find py_eq string_eq nat_eq
estimates = refl

too_long :
    estimate spec (record {
      tokens = int (pos 513);
      batch = int (pos 1);
      kv_itemsize = int (pos 2);
      logits_positions = int (pos 1);
      nominal_parameters = null;
      weight_bits = int (pos 4);
    })
    ≡ err beyond_context
unfolding estimate
too_long = refl

boolean_batch :
    estimate spec (record {
      tokens = int (pos 5);
      batch = bool true;
      kv_itemsize = int (pos 2);
      logits_positions = int (pos 1);
      nominal_parameters = null;
      weight_bits = int (pos 4);
    })
    ≡ err (not_positive "batch")
unfolding estimate
boolean_batch = refl

memory_estimate-IsEstimate_example :
    (s : QwenTextSpec) × IsConfig (config layers) s
    × IsEstimate s
        (record {
          tokens = int (pos 100);
          batch = int (pos 2);
          kv_itemsize = int (pos 2);
          logits_positions = int (pos 1);
          nominal_parameters = int (pos 1001);
          weight_bits = int (pos 4);
        })
        estimated
memory_estimate-IsEstimate_example =
    memory_estimate-IsEstimate (config layers) (int (pos 100)) (int (pos 2)) false (int (pos 1001))
      (int (pos 4)) estimated estimates
