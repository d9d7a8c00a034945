-- ===== src/Memory/Layers.antt =====
-- The estimate as a sum over the layers, and its bounds.
use mlx_spark.Base.{
  ℕ, zero, suc, ◌+◌, ◌-◌, ◌*◌, ◌≤◌, ◌<◌, String, List, [], ◌∷◌, Bool, true, false, Option, none,
  some, leb, leb→le, all, if◌then◌else◌, string_eq, ◌==◌, ◌≡◌, refl, ap, sym, ◌∙◌, arith, inl, inr,
}
use mathlib.Core.Path.{subst}
use mlx_spark.Base.Result.{Result, ok, err, >>=-eq-ok, require-eq-ok, ok-injective}
use mlx_spark.Base.Int.{pos, negsuc}
use mlx_spark.Json.{Json, int, Fields}
use mlx_spark.Config.{QwenTextSpec, count, linear_layers, full_layers, is_supported, from_mapping}
use mlx_spark.Config.Exact.{IsConfig, from_mapping_iff, one_kind}
use mlx_spark.Memory.{
  beyond_context, logits_beyond_tokens, MemoryArguments, MemoryEstimate, positive_argument,
  parameter_count, channels, weight_bytes, estimate_of, estimate, from_config, memory_estimate,
}

-- The bytes of one layer's state: a key and a value for each token and head, or the recurrent
-- matrix in float32 and the history of the convolution.
abbrev pub layer_bytes : QwenTextSpec → ℕ → ℕ → ℕ → String → ℕ
layer_bytes spec tokens batch kv_itemsize kind =
    if kind == "full_attention"
    then batch * tokens * 2 * spec.kv_heads * spec.head_dim * kv_itemsize
    else batch * spec.linear_value_heads * spec.linear_value_dim * spec.linear_key_dim * 4
      + batch * channels spec * (spec.conv_kernel - 1) * 2

abbrev pub sum_layers : (String → ℕ) → List String → ℕ
sum_layers f [] = 0
sum_layers f (x ∷ xs) = f x + sum_layers f xs

sum_by_kind :
    (f : String → ℕ) (full linear : ℕ) (xs : List String)
    → ((x : String) → (x == "full_attention") ≡ true → f x ≡ full)
    → ((x : String) → (x == "full_attention") ≡ false → f x ≡ linear)
    → all is_supported xs ≡ true
    → sum_layers f xs ≡ count "full_attention" xs * full + count "linear_attention" xs * linear
sum_by_kind f full linear [] hf hl h = omega arith
sum_by_kind f full linear (x ∷ xs) hf hl h =
    let ih = sum_by_kind f full linear xs hf hl (ground arith) in
    elim (one_kind x (ground arith)) [
      | inl (is_linear, not_full) ↦ rw (is_linear, not_full) (grind (arith, ih, hl x not_full))
      | inr (not_linear, is_full) ↦ rw (not_linear, is_full) (grind (arith, ih, hf x is_full))
    ]

kv_shape : (b t f h d s : ℕ) → b * t * 2 * f * h * d * s ≡ f * (b * t * 2 * h * d * s)
kv_shape b t f h d s = grind arith

linear_shape :
    (b l v w k c n : ℕ)
    → b * l * v * w * k * 4 + b * l * c * n * 2 ≡ l * (b * v * w * k * 4 + b * c * n * 2)
linear_shape b l v w k c n = grind arith

estimate_of_sum :
    (spec : QwenTextSpec) (tokens batch kv_itemsize logits : ℕ) (nominal : Option ℕ) (bits : ℕ)
    → all is_supported spec.layers ≡ true
    → (estimate_of spec tokens batch kv_itemsize logits nominal bits).kv_bytes
        + ((estimate_of spec tokens batch kv_itemsize logits nominal bits).recurrent_bytes
            + (estimate_of spec tokens batch kv_itemsize logits nominal bits).conv_history_bytes)
      ≡ sum_layers (layer_bytes spec tokens batch kv_itemsize) spec.layers
unfolding estimate_of
estimate_of_sum spec tokens batch kv_itemsize logits nominal bits h =
    let full : ℕ = batch * tokens * 2 * spec.kv_heads * spec.head_dim * kv_itemsize in
    let linear : ℕ =
      batch * spec.linear_value_heads * spec.linear_value_dim * spec.linear_key_dim * 4
      + batch * channels spec * (spec.conv_kernel - 1) * 2 in
    let parts =
      sum_by_kind (layer_bytes spec tokens batch kv_itemsize) full linear spec.layers
        (λ x e. rw e refl) (λ x e. rw e refl) h in
    let kv = kv_shape batch tokens (full_layers spec) spec.kv_heads spec.head_dim kv_itemsize in
    let state =
      linear_shape batch (linear_layers spec) spec.linear_value_heads spec.linear_value_dim
        spec.linear_key_dim (channels spec) (spec.conv_kernel - 1) in
    ap
      (λ (n : ℕ).
        n
        + (batch
              * linear_layers spec
              * spec.linear_value_heads
              * spec.linear_value_dim
              * spec.linear_key_dim
              * 4
            + batch * linear_layers spec * channels spec * (spec.conv_kernel - 1) * 2))
      kv
    ∙ (ap (λ (n : ℕ). full_layers spec * full + n) state ∙ sym parts)

-- The least number of bytes that hold the bits.
abbrev pub HoldsBits : Option ℕ → ℕ → Option ℕ → Type 0
HoldsBits none bits none = Unit
HoldsBits (some n) bits (some w) = (n * bits ≤ 8 * w) × (8 * w < n * bits + 8)
HoldsBits _ bits _ = ⊥

weight_bytes-HoldsBits : (o : Option ℕ) (bits : ℕ) → HoldsBits o bits (weight_bytes o bits)
weight_bytes-HoldsBits none bits = tt
weight_bytes-HoldsBits (some n) bits = (omega arith, omega arith)

-- The argument is a positive integer.
abbrev pub IsArgument : Json → ℕ → Type 0
IsArgument v n = (v ≡ int (pos n)) × (0 < n)

positive_argument-IsArgument :
    (name : String) (v : Json) (n : ℕ) → positive_argument name v ≡ ok n → IsArgument v n
positive_argument-IsArgument name (int (pos (suc m))) n h = (ground arith, ground arith)
positive_argument-IsArgument name (int (pos zero)) n h = cc
positive_argument-IsArgument name (int (negsuc m)) n h = cc
positive_argument-IsArgument name v n h = cc

-- What an estimate says, of arguments that are in range.
pub record IsEstimate (spec : QwenTextSpec) (a : MemoryArguments) (m : MemoryEstimate)
    : Type 0 where
  pub tokens : ℕ
  pub batch : ℕ
  pub kv_itemsize : ℕ
  pub logits_positions : ℕ
  pub weight_bits : ℕ
  pub is_tokens : IsArgument a.tokens tokens
  pub is_batch : IsArgument a.batch batch
  pub is_kv_itemsize : IsArgument a.kv_itemsize kv_itemsize
  pub is_logits : IsArgument a.logits_positions logits_positions
  pub is_bits : IsArgument a.weight_bits weight_bits
  pub in_context : tokens ≤ spec.max_positions
  pub within_tokens : logits_positions ≤ tokens
  pub state :
      m.kv_bytes + (m.recurrent_bytes + m.conv_history_bytes)
      ≡ sum_layers (layer_bytes spec tokens batch kv_itemsize) spec.layers
  pub logits : m.logits_bytes ≡ batch * logits_positions * spec.vocab_size * 2
  pub nominal : Option ℕ
  pub counted : parameter_count a.nominal_parameters ≡ ok nominal
  pub weights : HoldsBits nominal weight_bits m.nominal_weight_bytes

module _ (spec : QwenTextSpec) (supported : all is_supported spec.layers ≡ true)
    (a : MemoryArguments) where
  estimate-IsEstimate : (m : MemoryEstimate) → estimate spec a ≡ ok m → IsEstimate spec a m
  unfolding estimate
  estimate-IsEstimate m h =
      let (tokens, e₁, h₁) = >>=-eq-ok (positive_argument "tokens" a.tokens) _ h in
      let (batch, e₂, h₂) = >>=-eq-ok (positive_argument "batch" a.batch) _ h₁ in
      let (kv_itemsize, e₃, h₃) = >>=-eq-ok (positive_argument "kv_itemsize" a.kv_itemsize) _ h₂ in
      let (logits, e₄, h₄) =
        >>=-eq-ok (positive_argument "logits_positions" a.logits_positions) _ h₃ in
      let (bits, e₅, h₅) = >>=-eq-ok (positive_argument "weight_bits" a.weight_bits) _ h₄ in
      let (context, h₆) = require-eq-ok (leb tokens spec.max_positions) beyond_context _ h₅ in
      let (within, h₇) = require-eq-ok (leb logits tokens) logits_beyond_tokens _ h₆ in
      let (nominal, e₈, h₈) = >>=-eq-ok (parameter_count a.nominal_parameters) _ h₇ in
      subst (IsEstimate spec a) (ok-injective h₈) (record {
        tokens = tokens;
        batch = batch;
        kv_itemsize = kv_itemsize;
        logits_positions = logits;
        weight_bits = bits;
        is_tokens = positive_argument-IsArgument _ a.tokens tokens e₁;
        is_batch = positive_argument-IsArgument _ a.batch batch e₂;
        is_kv_itemsize = positive_argument-IsArgument _ a.kv_itemsize kv_itemsize e₃;
        is_logits = positive_argument-IsArgument _ a.logits_positions logits e₄;
        is_bits = positive_argument-IsArgument _ a.weight_bits bits e₅;
        in_context = leb→le _ _ context;
        within_tokens = leb→le _ _ within;
        state = estimate_of_sum spec tokens batch kv_itemsize logits nominal bits supported;
        logits = unfold estimate_of in refl;
        nominal = nominal;
        counted = e₈;
        weights = unfold estimate_of in weight_bytes-HoldsBits nominal bits;
      })

from_config-eq-ok :
    (raw : Fields) (spec : QwenTextSpec)
    → from_config (from_mapping raw) ≡ ok spec
    → IsConfig raw spec
from_config-eq-ok raw spec h = (from_mapping_iff raw spec).0 (same (from_mapping raw) h)
  where
    same : (r : Result _ QwenTextSpec) → from_config r ≡ ok spec → r ≡ ok spec
    same (ok s) e = ground arith
    same (err e) f = cc

-- If the command gives an estimate, the configuration is accepted, the arguments are positive and
-- in range, the bytes of caches and states are the sum over the declared layers of what each layer
-- keeps, and the weights take the least number of bytes that holds their bits.
pub memory_estimate-IsEstimate :
    (raw : Fields) (tokens batch : Json) (all_logits : Bool) (nominal weight_bits : Json)
    (m : MemoryEstimate)
    → memory_estimate raw tokens batch all_logits nominal weight_bits ≡ ok m
    → (spec : QwenTextSpec) × IsConfig raw spec
      × IsEstimate spec
          (record {
            tokens = tokens;
            batch = batch;
            kv_itemsize = int (pos 2);
            logits_positions = if all_logits then tokens else int (pos 1);
            nominal_parameters = nominal;
            weight_bits = weight_bits;
          })
          m
unfolding memory_estimate
memory_estimate-IsEstimate raw tokens batch all_logits nominal weight_bits m h =
    let (spec, e, h₁) = >>=-eq-ok (from_config (from_mapping raw)) _ h in
    let c = from_config-eq-ok raw spec e in (spec, c, estimate-IsEstimate spec c.supported _ m h₁)
