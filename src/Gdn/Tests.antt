-- ===== src/Gdn/Tests.antt =====
-- Small runs over the natural numbers: one sequence of three steps, with one key head for two value heads.
use mlx_spark.Base.{
  ℕ, zero, suc, ◌+◌, ◌-◌, ◌*◌, List, [], ◌∷◌, ◌++◌, Bool, true, none, some, nat_eq, ◌≡◌, ◌↔◌, refl,
}
use mlx_spark.Base.Result.{ok, err}
use mlx_spark.Base.Text.{codes_eq}
use mlx_spark.Gdn.{
  Scalar, Sizes, State, Arguments, every, validate, next_state, output, loop, gdn_forward,
  not_scalar_gates,
}
use mlx_spark.Gdn.Slices.{chunk, state_tensor}
use mlx_spark.Gdn.Chunks.{gdn_forward-chunks}
use mlx_spark.Gdn.Accepted.{IsValid, validate-IsValid_iff}

sum_of : ℕ → (ℕ → ℕ) → ℕ
sum_of zero f = 0
sum_of (suc n) f = sum_of n f + f n

abbrev numbers : Scalar ℕ
numbers = record {
  nothing = 0;
  add = λ a b. a + b;
  sub = λ a b. a - b;
  mul = λ a b. a * b;
  neg = λ a. 0;
  sum = sum_of;
  is_finite = λ a. true;
}

-- The entry at (b, t, ...) is t + 1.
abbrev by_time : List ℕ → ℕ
by_time (b ∷ t ∷ is) = suc t
by_time is = 0

abbrev arguments : ℕ → ℕ → Bool → Arguments ℕ
arguments steps value_heads active = record {
  q = record { shape = 1 ∷ steps ∷ 1 ∷ 2 ∷ []; entry = by_time };
  k = record { shape = 1 ∷ steps ∷ 1 ∷ 2 ∷ []; entry = by_time };
  v = record { shape = 1 ∷ steps ∷ value_heads ∷ 1 ∷ []; entry = λ is. 9 };
  g = record { shape = 1 ∷ steps ∷ 2 ∷ []; entry = λ is. 1 };
  beta = record { shape = 1 ∷ steps ∷ 2 ∷ []; entry = λ is. 1 };
  state = none;
  mask = some (record { shape = 1 ∷ steps ∷ []; entry = λ is. active });
  mask_is_bool = true;
}

abbrev sizes : ℕ → Sizes
sizes steps = record {
  batch = 1;
  steps = steps;
  key_heads = 1;
  key_dim = 2;
  value_heads = 2;
  value_dim = 1;
}

accepted : validate numbers (arguments 3 2 true) ≡ ok (sizes 3)
unfolding validate every nat_eq codes_eq
accepted = refl

wrong_gates : validate numbers (arguments 3 4 true) ≡ err not_scalar_gates
unfolding validate every nat_eq codes_eq
wrong_gates = refl

validate-IsValid_iff_example :
    (validate numbers (arguments 3 2 true) ≡ ok (sizes 3))
    ↔ IsValid numbers (arguments 3 2 true) (sizes 3)
validate-IsValid_iff_example = validate-IsValid_iff numbers (arguments 3 2 true) (sizes 3)

abbrev whole : List (ℕ → ℕ → ℕ → ℕ) × State ℕ
whole = loop numbers (sizes 3) (arguments 3 2 true) 0 3 (λ b h d k. 0)

-- The state after three steps, and the output of the last.
last_state : whole.1 0 1 0 0 ≡ 9
unfolding loop next_state output sum_of nat_eq
last_state = refl

all_accepted : gdn_forward numbers (arguments 3 2 true) ≡ ok whole
unfolding gdn_forward validate every nat_eq codes_eq
all_accepted = refl

-- The first two steps, and the last one from their state.
abbrev one : List (ℕ → ℕ → ℕ → ℕ) × State ℕ
one = loop numbers (sizes 2) (chunk (arguments 3 2 true) 0 2 none) 0 2 (λ b h d k. 0)

abbrev last_chunk : Arguments ℕ
last_chunk = chunk (arguments 3 2 true) 2 1 (some (state_tensor numbers (sizes 3) one.1))

abbrev two : List (ℕ → ℕ → ℕ → ℕ) × State ℕ
two = loop numbers (sizes 1) last_chunk 0 1 one.1

one_accepted : gdn_forward numbers (chunk (arguments 3 2 true) 0 2 none) ≡ ok one
unfolding gdn_forward validate every nat_eq codes_eq
one_accepted = refl

two_accepted : gdn_forward numbers last_chunk ≡ ok two
unfolding gdn_forward validate every nat_eq codes_eq
two_accepted = refl

gdn_forward-chunks_example : whole ≡ (one.0 ++ two.0, two.1)
unfolding nat_eq
gdn_forward-chunks_example =
    gdn_forward-chunks numbers (arguments 3 2 true) (sizes 3) 2 1 whole one two refl refl
      all_accepted one_accepted two_accepted
