-- ===== src/Config/Exact.antt =====
-- Which configurations `from_mapping` accepts, and what it makes of them.
use mlx_spark.Base.{
  ℕ, zero, suc, ◌%◌, ◌<◌, String, List, [], ◌∷◌, map, Bool, true, false, nat_eq, string_eq, ◌==◌,
  ==_iff, ==_self, length, all, ◌≡◌, ◌↔◌, refl, ap, sym, arith, Bool-cases, inl, inr, ◌⊎◌,
}
use mathlib.Core.Path.{subst}
use mlx_spark.Base.Result.{ok, >>=-eq-ok, require-eq-ok, ok-injective}
use mlx_spark.Base.Int.{pos, negsuc}
use mlx_spark.Json.{
  Json, int, str, list, dict, Items, nil, cons, Fields, get, is_text, items_of, texts,
}
use mlx_spark.Json.Views.{is_text_iff}
use mlx_spark.Config.{
  wrong_model, layer_count, state_policy, head_grouping, QwenTextSpec, positive_value, positive,
  is_supported, supported_items, supported_layers, is_dict, text_config, read_spec, is_grouped,
  from_mapping,
}

-- The field is a positive integer.
abbrev pub IsSize : Fields → String → ℕ → Type 0
IsSize c key n = (get c key ≡ int (pos n)) × (0 < n)

positive_value-eq-ok :
    (key : String) (v : Json) (n : ℕ) → positive_value key v ≡ ok n → (v ≡ int (pos n)) × (0 < n)
positive_value-eq-ok key (int (pos (suc m))) n h = (ground arith, ground arith)
positive_value-eq-ok key (int (pos zero)) n h = cc
positive_value-eq-ok key (int (negsuc m)) n h = cc
positive_value-eq-ok key v n h = cc

positive_value_ok : (key : String) (n : ℕ) → 0 < n → positive_value key (int (pos n)) ≡ ok n
positive_value_ok key (suc n) h = refl
positive_value_ok key zero h = absurd (omega arith)

pub positive_iff : (c : Fields) (key : String) (n : ℕ) → (positive c key ≡ ok n) ↔ IsSize c key n
unfolding positive
positive_iff c key n =
    (positive_value-eq-ok key (get c key) n, λ (e, h). rw e (positive_value_ok key n h))

-- A list of supported texts.
supported_items-eq-ok :
    (xs : Items) (layers : List String)
    → supported_items xs ≡ ok layers
    → (xs ≡ items_of (map str layers)) × (all is_supported layers ≡ true)
unfolding supported_items
supported_items-eq-ok nil layers h =
    subst (λ ls. (nil ≡ items_of (map str ls)) × (all is_supported ls ≡ true)) (ok-injective h)
      (refl, refl)
supported_items-eq-ok (cons (str s) rest) layers h = elim (Bool-cases (is_supported s)) [
  | inr other ↦ cc (rw other at h)
  | inl fits ↦
      let (later, e, h₁) = >>=-eq-ok (supported_items rest) _ (rw fits at h) in
      let (same, good) = supported_items-eq-ok rest later e in
      subst (λ ls. (cons (str s) rest ≡ items_of (map str ls)) × (all is_supported ls ≡ true))
        (ok-injective h₁) (ap (cons (str s)) same, rw (fits, good) refl)
]
supported_items-eq-ok (cons v rest) layers h = cc

supported_items_ok :
    (layers : List String)
    → all is_supported layers ≡ true
    → supported_items (items_of (map str layers)) ≡ ok layers
unfolding supported_items
supported_items_ok [] h = refl
supported_items_ok (s ∷ rest) h = ground (arith, supported_items_ok rest)

supported_layers_iff :
    (v : Json) (layers : List String)
    → (supported_layers v ≡ ok layers) ↔ ((v ≡ texts layers) × (all is_supported layers ≡ true))
unfolding supported_layers
supported_layers_iff (list xs) layers = (
  λ h. let (e, good) = supported_items-eq-ok xs layers h in (ap list e, good),
  λ (e, good).
      let same : xs ≡ items_of (map str layers) = cc in rw same (supported_items_ok layers good),
)
supported_layers_iff v layers = (λ h. cc, λ (h, _). cc)

-- The specification has the sizes of the text configuration.
pub record HasSizes (c : Fields) (spec : QwenTextSpec) : Type 0 where
  pub hidden_size : IsSize c "hidden_size" spec.hidden_size
  pub intermediate_size : IsSize c "intermediate_size" spec.intermediate_size
  pub attention_heads : IsSize c "num_attention_heads" spec.attention_heads
  pub kv_heads : IsSize c "num_key_value_heads" spec.kv_heads
  pub head_dim : IsSize c "head_dim" spec.head_dim
  pub linear_key_heads : IsSize c "linear_num_key_heads" spec.linear_key_heads
  pub linear_value_heads : IsSize c "linear_num_value_heads" spec.linear_value_heads
  pub linear_key_dim : IsSize c "linear_key_head_dim" spec.linear_key_dim
  pub linear_value_dim : IsSize c "linear_value_head_dim" spec.linear_value_dim
  pub conv_kernel : IsSize c "linear_conv_kernel_dim" spec.conv_kernel
  pub vocab_size : IsSize c "vocab_size" spec.vocab_size
  pub max_positions : IsSize c "max_position_embeddings" spec.max_positions
  pub mtp_layers : IsSize c "mtp_num_hidden_layers" spec.mtp_layers
  pub state_dtype : spec.state_dtype ≡ "float32"

read_spec-HasSizes :
    (c : Fields) (layers : List String) (vision : Bool) (spec : QwenTextSpec)
    → read_spec c layers vision ≡ ok spec
    → HasSizes c spec × (spec.layers ≡ layers) × (spec.has_vision ≡ vision)
unfolding read_spec
read_spec-HasSizes c layers vision spec h₀ =
    let (hidden_size, e1, h1) = >>=-eq-ok (positive c "hidden_size") _ h₀ in
    let (intermediate_size, e2, h2) = >>=-eq-ok (positive c "intermediate_size") _ h1 in
    let (attention_heads, e3, h3) = >>=-eq-ok (positive c "num_attention_heads") _ h2 in
    let (kv_heads, e4, h4) = >>=-eq-ok (positive c "num_key_value_heads") _ h3 in
    let (head_dim, e5, h5) = >>=-eq-ok (positive c "head_dim") _ h4 in
    let (linear_key_heads, e6, h6) = >>=-eq-ok (positive c "linear_num_key_heads") _ h5 in
    let (linear_value_heads, e7, h7) = >>=-eq-ok (positive c "linear_num_value_heads") _ h6 in
    let (linear_key_dim, e8, h8) = >>=-eq-ok (positive c "linear_key_head_dim") _ h7 in
    let (linear_value_dim, e9, h9) = >>=-eq-ok (positive c "linear_value_head_dim") _ h8 in
    let (conv_kernel, e10, h10) = >>=-eq-ok (positive c "linear_conv_kernel_dim") _ h9 in
    let (vocab_size, e11, h11) = >>=-eq-ok (positive c "vocab_size") _ h10 in
    let (max_positions, e12, h12) = >>=-eq-ok (positive c "max_position_embeddings") _ h11 in
    let (mtp_layers, e13, h13) = >>=-eq-ok (positive c "mtp_num_hidden_layers") _ h12 in
    subst (λ spec. HasSizes c spec × (spec.layers ≡ layers) × (spec.has_vision ≡ vision))
      (ok-injective h13)
      (
        record {
          hidden_size = (positive_iff c "hidden_size" hidden_size).0 e1;
          intermediate_size = (positive_iff c "intermediate_size" intermediate_size).0 e2;
          attention_heads = (positive_iff c "num_attention_heads" attention_heads).0 e3;
          kv_heads = (positive_iff c "num_key_value_heads" kv_heads).0 e4;
          head_dim = (positive_iff c "head_dim" head_dim).0 e5;
          linear_key_heads = (positive_iff c "linear_num_key_heads" linear_key_heads).0 e6;
          linear_value_heads = (positive_iff c "linear_num_value_heads" linear_value_heads).0 e7;
          linear_key_dim = (positive_iff c "linear_key_head_dim" linear_key_dim).0 e8;
          linear_value_dim = (positive_iff c "linear_value_head_dim" linear_value_dim).0 e9;
          conv_kernel = (positive_iff c "linear_conv_kernel_dim" conv_kernel).0 e10;
          vocab_size = (positive_iff c "vocab_size" vocab_size).0 e11;
          max_positions = (positive_iff c "max_position_embeddings" max_positions).0 e12;
          mtp_layers = (positive_iff c "mtp_num_hidden_layers" mtp_layers).0 e13;
          state_dtype = refl;
        },
        refl,
        refl,
      )

HasSizes-read_spec :
    (c : Fields) (spec : QwenTextSpec)
    → HasSizes c spec
    → read_spec c spec.layers spec.has_vision ≡ ok spec
unfolding read_spec
HasSizes-read_spec c spec s =
    rw
      (
        (positive_iff c "hidden_size" spec.hidden_size).1 s.hidden_size,
        (positive_iff c "intermediate_size" spec.intermediate_size).1 s.intermediate_size,
        (positive_iff c "num_attention_heads" spec.attention_heads).1 s.attention_heads,
        (positive_iff c "num_key_value_heads" spec.kv_heads).1 s.kv_heads,
        (positive_iff c "head_dim" spec.head_dim).1 s.head_dim,
        (positive_iff c "linear_num_key_heads" spec.linear_key_heads).1 s.linear_key_heads,
        (positive_iff c "linear_num_value_heads" spec.linear_value_heads).1 s.linear_value_heads,
        (positive_iff c "linear_key_head_dim" spec.linear_key_dim).1 s.linear_key_dim,
        (positive_iff c "linear_value_head_dim" spec.linear_value_dim).1 s.linear_value_dim,
        (positive_iff c "linear_conv_kernel_dim" spec.conv_kernel).1 s.conv_kernel,
        (positive_iff c "vocab_size" spec.vocab_size).1 s.vocab_size,
        (positive_iff c "max_position_embeddings" spec.max_positions).1 s.max_positions,
        (positive_iff c "mtp_num_hidden_layers" spec.mtp_layers).1 s.mtp_layers,
        s.state_dtype,
      )
      refl

-- A configuration that the repository accepts, and its specification.
pub record IsConfig (raw : Fields) (spec : QwenTextSpec) : Type 0 where
  pub model_type : get raw "model_type" ≡ str "qwen3_5"
  pub c : Fields
  pub text_config : get raw "text_config" ≡ dict c
  pub layer_types : get c "layer_types" ≡ texts spec.layers
  pub supported : all is_supported spec.layers ≡ true
  pub layer_count : IsSize c "num_hidden_layers" (length spec.layers)
  pub state : get c "mamba_ssm_dtype" ≡ str "float32"
  pub sizes : HasSizes c spec
  pub vision : spec.has_vision ≡ is_dict (get raw "vision_config")
  pub attention_groups : spec.attention_heads % spec.kv_heads ≡ 0
  pub linear_groups : spec.linear_value_heads % spec.linear_key_heads ≡ 0

text_config-eq-ok : (v : Json) (c : Fields) → text_config v ≡ ok c → v ≡ dict c
text_config-eq-ok (dict fs) c h = ground arith
text_config-eq-ok v c h = cc

is_grouped_iff :
    (spec : QwenTextSpec)
    → (is_grouped spec ≡ true) ↔ (
        (spec.attention_heads % spec.kv_heads ≡ 0)
        × (spec.linear_value_heads % spec.linear_key_heads ≡ 0))
is_grouped_iff spec = ground arith

module _ (raw : Fields) (spec : QwenTextSpec) where
  from_mapping-IsConfig : from_mapping raw ≡ ok spec → IsConfig raw spec
  unfolding from_mapping
  from_mapping-IsConfig h =
      let (model, h₁) = require-eq-ok (is_text (get raw "model_type") "qwen3_5") wrong_model _ h in
      let (c, e₂, h₂) = >>=-eq-ok (text_config (get raw "text_config")) _ h₁ in
      let (layers, e₃, h₃) = >>=-eq-ok (supported_layers (get c "layer_types")) _ h₂ in
      let (n, e₄, h₄) = >>=-eq-ok (positive c "num_hidden_layers") _ h₃ in
      let (counted, h₅) = require-eq-ok (length layers == n) layer_count _ h₄ in
      let (state, h₆) =
        require-eq-ok (is_text (get c "mamba_ssm_dtype") "float32") state_policy _ h₅ in
      let (read, e₇, h₇) =
        >>=-eq-ok (read_spec c layers (is_dict (get raw "vision_config"))) _ h₆ in
      let (grouped, h₈) = require-eq-ok (is_grouped read) head_grouping _ h₇ in
      let (types, supported) = (supported_layers_iff (get c "layer_types") layers).0 e₃ in
      let (sizes, same, vision) =
        read_spec-HasSizes c layers (is_dict (get raw "vision_config")) read e₇ in
      let (attention, linear) = (is_grouped_iff read).0 grouped in
      subst (IsConfig raw) (ok-injective h₈) (record {
        model_type = (is_text_iff _ _).0 model;
        c = c;
        text_config = text_config-eq-ok _ c e₂;
        layer_types = subst (λ ls. get c "layer_types" ≡ texts ls) (sym same) types;
        supported = subst (λ ls. all is_supported ls ≡ true) (sym same) supported;
        layer_count =
            subst (λ ls. IsSize c "num_hidden_layers" (length ls)) (sym same)
              (subst (IsSize c "num_hidden_layers") (sym ((==_iff (length layers) n).0 counted))
                ((positive_iff c "num_hidden_layers" n).0 e₄));
        state = (is_text_iff _ _).0 state;
        sizes = sizes;
        vision = vision;
        attention_groups = attention;
        linear_groups = linear;
      })

  IsConfig-from_mapping : IsConfig raw spec → from_mapping raw ≡ ok spec
  unfolding from_mapping
  IsConfig-from_mapping i =
      let layers =
        (supported_layers_iff (get i.c "layer_types") spec.layers).1 (i.layer_types, i.supported) in
      let n = (positive_iff i.c "num_hidden_layers" (length spec.layers)).1 i.layer_count in
      let read =
        subst (λ v. read_spec i.c spec.layers v ≡ ok spec) i.vision
          (HasSizes-read_spec i.c spec i.sizes) in
      rw
        (
          (is_text_iff _ _).1 i.model_type,
          i.text_config,
          layers,
          n,
          ==_self (length spec.layers),
          (is_text_iff _ _).1 i.state,
          read,
          (is_grouped_iff spec).1 (i.attention_groups, i.linear_groups),
        )
        refl

  -- A configuration is accepted, and read as the specification, exactly when it declares the model
  -- type, has a text configuration whose layer types are supported texts, as many as it says, and
  -- whose sizes are positive integers, the state type is float32, and both head groupings are integral.
  pub from_mapping_iff : (from_mapping raw ≡ ok spec) ↔ IsConfig raw spec
  from_mapping_iff = (from_mapping-IsConfig, IsConfig-from_mapping)

kinds_differ : ◌==◌ {A = String} "linear_attention" "full_attention" ≡ false
unfolding string_eq
kinds_differ = refl

-- A supported layer is of exactly one of the two kinds.
pub one_kind :
    (x : String)
    → is_supported x ≡ true
    → ((x == "linear_attention") ≡ true) × ((x == "full_attention") ≡ false)
      ⊎ ((x == "linear_attention") ≡ false) × ((x == "full_attention") ≡ true)
one_kind x h = elim (Bool-cases (x == "linear_attention")) [
  | inl linear ↦ inl (linear, rw ((==_iff x "linear_attention").0 linear) kinds_differ)
  | inr other ↦ inr (other, rw other at h)
]
