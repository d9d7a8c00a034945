-- ===== src/Gdn/Vjp/Dual.antt =====
-- Dual scalars: a value with its tangent, so that the forward pass over them is its derivative.
use mlx_spark.Base.{ℕ, List, Bool, ◌&&◌, Option, none, some, ◌≡◌, refl}
use mlx_spark.Gdn.{Scalar, Tensor, Sizes, State, Arguments, mask_of}

-- The rules of sums and products: (a, a') stands for a + a' e, where e is infinitely small.
abbrev pub dual : {A : Type 0} → Scalar A → Scalar (A × A)
dual s = record {
  nothing = (s.nothing, s.nothing);
  add = λ x y. (s.add x.0 y.0, s.add x.1 y.1);
  sub = λ x y. (s.sub x.0 y.0, s.sub x.1 y.1);
  mul = λ x y. (s.mul x.0 y.0, s.add (s.mul x.0 y.1) (s.mul x.1 y.0));
  neg = λ x. (s.neg x.0, s.neg x.1);
  sum = λ n f. (s.sum n (λ i. (f i).0), s.sum n (λ i. (f i).1));
  is_finite = λ x. s.is_finite x.0 && s.is_finite x.1;
}

-- The values without their tangents.
abbrev pub values_of : {A : Type 0} → Tensor (A × A) → Tensor A
values_of x = record { shape = x.shape; entry = λ is. (x.entry is).0 }

abbrev pub values_of_state : {A : Type 0} → Option (Tensor (A × A)) → Option (Tensor A)
values_of_state none = none
values_of_state (some x) = some (values_of x)

abbrev pub values : {A : Type 0} → Arguments (A × A) → Arguments A
values a = record {
  q = values_of a.q;
  k = values_of a.k;
  v = values_of a.v;
  g = values_of a.g;
  beta = values_of a.beta;
  state = values_of_state a.state;
  mask = a.mask;
  mask_is_bool = a.mask_is_bool;
}

abbrev pub state_values : {A : Type 0} → State (A × A) → State A
state_values s b h d i = (s b h d i).0

-- The mask is the same for both.
pub mask_of-dual :
    {A : Type 0} (s : Scalar A) (n : Sizes) (m : Option (Tensor Bool)) (is : List ℕ)
    → (mask_of (dual s) n m).entry is ≡ (mask_of s n m).entry is
mask_of-dual s n none is = refl
mask_of-dual s n (some m) is = refl
