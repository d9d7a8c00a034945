-- ===== src/Gdn/Vjp/Tests.antt =====
-- The integers modulo 2: a sequence of two steps, with two value heads for one key head.
use mlx_spark.Base.{ℕ, zero, suc, List, [], ◌∷◌, Bool, true, false, not, none, nat_eq, ◌≡◌, refl}
use mlx_spark.Base.Result.{ok, err}
use mlx_spark.Base.Text.{codes_eq}
use mlx_spark.Gdn.{
  Scalar, Tensor, Sizes, State, state_of, Arguments, initial, every, validate, loop, gdn_forward,
  wrong_dy,
}
use mlx_spark.Gdn.Vjp.{Cotangents, dys_of, cotangents, gdn_vjp}
use mlx_spark.Gdn.Vjp.Ring.{IsRing}
use mlx_spark.Gdn.Vjp.Dual.{dual, values}
use mlx_spark.Gdn.Vjp.Transpose.{paired_state, paired_outputs, paired_steps}
use mlx_spark.Gdn.Vjp.Gradient.{gdn_vjp-transpose}

abbrev plus : Bool → Bool → Bool
plus true b = not b
plus false b = b

abbrev times : Bool → Bool → Bool
times true b = b
times false b = false

abbrev sum_of : ℕ → (ℕ → Bool) → Bool
sum_of zero f = false
sum_of (suc n) f = plus (f 0) (sum_of n (λ i. f (suc i)))

abbrev bits : Scalar Bool
bits = record {
  nothing = false;
  add = plus;
  sub = plus;
  mul = times;
  neg = λ a. a;
  sum = sum_of;
  is_finite = λ a. true;
}

bits-IsRing : IsRing bits
bits-IsRing = record {
  add_assoc = assoc;
  add_comm = comm;
  zero-add = λ a. refl;
  add-neg = own;
  sub-neg = λ a b. refl;
  mul_assoc = times_assoc;
  mul_comm = times_comm;
  mul-add = distribute;
  sum-zero = λ f. refl;
  sum-suc = λ n f. refl;
}
  where
    assoc : (a b c : Bool) → plus (plus a b) c ≡ plus a (plus b c)
    assoc true true true = refl
    assoc true true false = refl
    assoc true false c = refl
    assoc false b c = refl

    comm : (a b : Bool) → plus a b ≡ plus b a
    comm true true = refl
    comm true false = refl
    comm false true = refl
    comm false false = refl

    own : (a : Bool) → plus a a ≡ false
    own true = refl
    own false = refl

    times_assoc : (a b c : Bool) → times (times a b) c ≡ times a (times b c)
    times_assoc true b c = refl
    times_assoc false b c = refl

    times_comm : (a b : Bool) → times a b ≡ times b a
    times_comm true true = refl
    times_comm true false = refl
    times_comm false true = refl
    times_comm false false = refl

    distribute : (a b c : Bool) → times a (plus b c) ≡ plus (times a b) (times a c)
    distribute true b c = refl
    distribute false b c = refl

-- Each entry is 1, and so is its tangent at the first step.
abbrev entries : List ℕ → Bool × Bool
entries (b ∷ zero ∷ is) = (true, true)
entries is = (true, false)

abbrev arguments : Arguments (Bool × Bool)
arguments = record {
  q = record { shape = 1 ∷ 2 ∷ 1 ∷ 2 ∷ []; entry = entries };
  k = record { shape = 1 ∷ 2 ∷ 1 ∷ 2 ∷ []; entry = entries };
  v = record { shape = 1 ∷ 2 ∷ 2 ∷ 1 ∷ []; entry = entries };
  g = record { shape = 1 ∷ 2 ∷ 2 ∷ []; entry = entries };
  beta = record { shape = 1 ∷ 2 ∷ 2 ∷ []; entry = entries };
  state = none;
  mask = none;
  mask_is_bool = true;
}

abbrev sizes : Sizes
sizes = record { batch = 1; steps = 2; key_heads = 1; key_dim = 2; value_heads = 2; value_dim = 1 }

abbrev dy : List ℕ → Tensor Bool
dy shape = record { shape = shape; entry = λ is. true }

abbrev result : List (Cotangents Bool) × State Bool
result = cotangents bits (values arguments) (dy (1 ∷ 2 ∷ 2 ∷ 1 ∷ [])) none sizes

abbrev derivative : List (ℕ → ℕ → ℕ → Bool × Bool) × State (Bool × Bool)
derivative = loop (dual bits) sizes arguments 0 2 (λ b h d i. (false, false))

accepted : gdn_vjp bits (values arguments) (dy (1 ∷ 2 ∷ 2 ∷ 1 ∷ [])) none ≡ ok result
unfolding gdn_vjp validate every nat_eq codes_eq
accepted = refl

-- The shape of the cotangent of the outputs is theirs.
refused : gdn_vjp bits (values arguments) (dy (1 ∷ 2 ∷ 1 ∷ 1 ∷ [])) none ≡ err wrong_dy
unfolding gdn_vjp validate every nat_eq codes_eq
refused = refl

ran : gdn_forward (dual bits) arguments ≡ ok derivative
unfolding gdn_forward validate every nat_eq codes_eq
ran = refl

gdn_vjp-transpose_example :
    plus
      (paired_state bits-IsRing sizes arguments 0 (state_of (initial bits sizes none)) derivative.1)
      (paired_outputs bits-IsRing sizes arguments 0
        (dys_of bits (dy (1 ∷ 2 ∷ 2 ∷ 1 ∷ [])))
        0
        derivative.0)
    ≡ plus
        (paired_state bits-IsRing sizes arguments 0 result.1
          (state_of (initial (dual bits) sizes none)))
        (paired_steps bits-IsRing sizes arguments 0 0 result.0)
unfolding nat_eq
gdn_vjp-transpose_example =
    gdn_vjp-transpose bits bits-IsRing arguments (dy (1 ∷ 2 ∷ 2 ∷ 1 ∷ [])) none sizes result
      derivative 0 refl accepted ran
