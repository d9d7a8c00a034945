-- ===== src/Gdn.antt =====
-- src/mlx_spark/reference/gdn.py: the checks and the forward pass of the recurrence, over any scalars.
pub mod Slices
pub mod Chunks
pub mod Accepted
pub mod Vjp
mod Tests
use mlx_spark.Base.{
  ℕ, zero, suc, ◌+◌, ◌/◌, ◌%◌, List, [], ◌∷◌, Bool, true, false, not, ◌&&◌, ◌||◌, Option, none,
  some, nat_eq, ◌==◌, length, leb, if◌then◌else◌,
}
use mlx_spark.Base.Result.{Result, ok, err, ◌>>=◌, ◌>>◌, require}
use mlx_spark.Base.Text.{codes_eq}

-- The operations of float64. The order in which NumPy adds up the terms is left open.
pub record Scalar (A : Type 0) : Type 0 where
  pub nothing : A
  pub add : A → A → A
  pub sub : A → A → A
  pub mul : A → A → A
  pub neg : A → A
  pub sum : ℕ → (ℕ → A) → A
  pub is_finite : A → Bool

pub data GdnError : Type 0 where
  wrong_rank bad_dimensions not_scalar_gates wrong_state bad_mask not_finite wrong_dy wrong_final :
      GdnError

-- An array: its shape, and its entries by index.
pub record Tensor (A : Type 0) : Type 0 where
  pub shape : List ℕ
  pub entry : List ℕ → A

pub record Sizes : Type 0 where
  pub batch : ℕ
  pub steps : ℕ
  pub key_heads : ℕ
  pub key_dim : ℕ
  pub value_heads : ℕ
  pub value_dim : ℕ

-- `p(x)` for every entry
unfoldable pub every : {A : Type 0} → (A → Bool) → List ℕ → (List ℕ → A) → Bool
every p [] entry = p (entry [])
every p (zero ∷ ns) entry = true
every p (suc n ∷ ns) entry = every p ns (λ is. entry (n ∷ is)) && every p (n ∷ ns) entry

-- `B, T, Hk, Dk = q.shape` and `Hv, Dv = v.shape[-2:]`, where both have four dimensions
abbrev pub sizes_of : List ℕ → List ℕ → Option Sizes
sizes_of (b ∷ t ∷ hk ∷ dk ∷ []) (vb ∷ vt ∷ hv ∷ dv ∷ []) =
    if b == vb && t == vt
    then some (record {
      batch = b;
      steps = t;
      key_heads = hk;
      key_dim = dk;
      value_heads = hv;
      value_dim = dv;
    })
    else none
sizes_of q v = none

abbrev pub sized : Option Sizes → Result GdnError Sizes
sized none = err wrong_rank
sized (some n) = ok n

-- `min(B, Hk, Dk, Hv, Dv) > 0 and Hv % Hk == 0`
abbrev pub is_grouped : Sizes → Bool
is_grouped n =
    leb 1 n.batch
    && leb 1 n.key_heads
    && leb 1 n.key_dim
    && leb 1 n.value_heads
    && leb 1 n.value_dim
    && n.value_heads % n.key_heads == 0

abbrev pub gate_shape : Sizes → List ℕ
gate_shape n = n.batch ∷ n.steps ∷ n.value_heads ∷ []

abbrev pub state_shape : Sizes → List ℕ
state_shape n = n.batch ∷ n.value_heads ∷ n.value_dim ∷ n.key_dim ∷ []

-- A state, by batch, value head, value dimension and key dimension.
abbrev pub State : Type 0 → Type 0
State A = ℕ → ℕ → ℕ → ℕ → A

abbrev pub state_of : {A : Type 0} → Tensor A → State A
state_of s b h d k = s.entry (b ∷ h ∷ d ∷ k ∷ [])

-- The arguments; a mask has the entries of a Boolean array, or another dtype.
pub record Arguments (A : Type 0) : Type 0 where
  pub q : Tensor A
  pub k : Tensor A
  pub v : Tensor A
  pub g : Tensor A
  pub beta : Tensor A
  pub state : Option (Tensor A)
  pub mask : Option (Tensor Bool)
  pub mask_is_bool : Bool

-- `mask.dtype == np.bool_`
abbrev pub has_bool_mask : {A : Type 0} → Arguments A → Bool
has_bool_mask a = elim a.mask [ none ↦ true | some m ↦ a.mask_is_bool ]

module _ {A : Type 0} (scalar : Scalar A) where
  abbrev pub initial : Sizes → Option (Tensor A) → Tensor A
  initial n none = record { shape = state_shape n; entry = λ is. scalar.nothing }
  initial n (some s) = s

  abbrev pub mask_of : Sizes → Option (Tensor Bool) → Tensor Bool
  mask_of n none = record { shape = n.batch ∷ n.steps ∷ []; entry = λ is. true }
  mask_of n (some m) = m

  abbrev pub all_finite : Tensor A → Bool
  all_finite x = every scalar.is_finite x.shape x.entry

  -- `_validate`: the sizes, where the arguments fit.
  unfoldable pub validate : Arguments A → Result GdnError Sizes
  unfolding every
  validate a = do
    require (a.k.shape == a.q.shape) wrong_rank
    n ← sized (sizes_of a.q.shape a.v.shape)
    require (is_grouped n) bad_dimensions
    require (a.g.shape == gate_shape n && a.beta.shape == a.g.shape) not_scalar_gates
    require ((initial n a.state).shape == state_shape n) wrong_state
    require ((mask_of n a.mask).shape == n.batch ∷ n.steps ∷ [] && has_bool_mask a) bad_mask
    require
        (all_finite a.q
          && all_finite a.k
          && all_finite a.v
          && all_finite a.g
          && all_finite a.beta
          && all_finite (initial n a.state))
        not_finite
    ok n

  -- The head of the keys that a value head shares, as `np.repeat` lays them out.
  abbrev pub group : Sizes → ℕ → ℕ
  group n h = h / (n.value_heads / n.key_heads)

  -- One step: `decayed`, `residual`, `delta` and `updated`.
  module _ (n : Sizes) (a : Arguments A) (t : ℕ) (s : State A) where
    abbrev pub key : ℕ → ℕ → ℕ → A
    key b h i = a.k.entry (b ∷ t ∷ group n h ∷ i ∷ [])

    abbrev pub query : ℕ → ℕ → ℕ → A
    query b h i = a.q.entry (b ∷ t ∷ group n h ∷ i ∷ [])

    abbrev pub decayed : State A
    decayed b h d i = scalar.mul (s b h d i) (a.g.entry (b ∷ t ∷ h ∷ []))

    abbrev pub residual : ℕ → ℕ → ℕ → A
    residual b h d =
        scalar.sub (a.v.entry (b ∷ t ∷ h ∷ d ∷ []))
          (scalar.sum n.key_dim λ i. scalar.mul (decayed b h d i) (key b h i))

    abbrev pub delta : ℕ → ℕ → ℕ → A
    delta b h d = scalar.mul (a.beta.entry (b ∷ t ∷ h ∷ [])) (residual b h d)

    abbrev pub updated : State A
    updated b h d i = scalar.add (decayed b h d i) (scalar.mul (delta b h d) (key b h i))

    abbrev pub is_active : ℕ → Bool
    is_active b = (mask_of n a.mask).entry (b ∷ t ∷ [])

    -- `np.where(active, updated, prev)`
    unfoldable pub next_state : State A
    next_state b h d i = if is_active b then updated b h d i else s b h d i

    -- `y[:, t]`
    unfoldable pub output : ℕ → ℕ → ℕ → A
    output b h d =
        if is_active b
        then scalar.sum n.key_dim (λ i. scalar.mul (updated b h d i) (query b h i))
        else scalar.nothing

  -- The loop: the outputs in the order of time, and the last state.
  unfoldable pub loop : Sizes → Arguments A → ℕ → ℕ → State A → List (ℕ → ℕ → ℕ → A) × State A
  unfolding next_state output
  loop n a t zero s = ([], s)
  loop n a t (suc m) s =
      let (outputs, last) = loop n a (suc t) m (next_state n a t s) in
      (output n a t s ∷ outputs, last)

  -- `gdn_forward`
  unfoldable pub gdn_forward : Arguments A → Result GdnError (List (ℕ → ℕ → ℕ → A) × State A)
  unfolding validate loop
  gdn_forward a = do n ← validate a; ok (loop n a 0 n.steps (state_of (initial n a.state)))
