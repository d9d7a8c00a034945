-- ===== src/Gdn/Accepted.antt =====
-- Which arguments are accepted, and what masked steps leave alone.
use mlx_spark.Base.{
  ℕ, List, [], ◌∷◌, Bool, true, false, ◌&&◌, Option, none, some, nat_eq, ◌==◌, ==_iff, ◌≡◌, ◌↔◌,
  refl, sym, ap, ◌∙◌, arith,
}
use mathlib.Core.Path.{subst}
use mlx_spark.Base.Result.{ok, >>=-eq-ok, require-eq-ok, ok-injective}
use mlx_spark.Base.Text.{codes_eq}
use mlx_spark.Gdn.{
  Scalar, wrong_rank, bad_dimensions, not_scalar_gates, wrong_state, bad_mask, not_finite, Sizes,
  sizes_of, sized, is_grouped, gate_shape, state_shape, Arguments, has_bool_mask, initial, mask_of,
  all_finite, validate,
}

module _ {A : Type 0} (scalar : Scalar A) where
  -- The arguments fit the sizes: positive and grouped, with the shapes of the gates, the state and
  -- the mask, a Boolean mask, and finite entries.
  pub record IsValid (a : Arguments A) (n : Sizes) : Type 0 where
    pub keys : a.k.shape ≡ a.q.shape
    pub query : a.q.shape ≡ n.batch ∷ n.steps ∷ n.key_heads ∷ n.key_dim ∷ []
    pub values : a.v.shape ≡ n.batch ∷ n.steps ∷ n.value_heads ∷ n.value_dim ∷ []
    pub grouped : is_grouped n ≡ true
    pub gates : a.g.shape ≡ gate_shape n
    pub betas : a.beta.shape ≡ gate_shape n
    pub state : (initial scalar n a.state).shape ≡ state_shape n
    pub mask : (mask_of scalar n a.mask).shape ≡ n.batch ∷ n.steps ∷ []
    pub bool_mask : has_bool_mask a ≡ true
    pub finite :
        (all_finite scalar a.q
          && all_finite scalar a.k
          && all_finite scalar a.v
          && all_finite scalar a.g
          && all_finite scalar a.beta
          && all_finite scalar (initial scalar n a.state))
        ≡ true

  sizes_of-eq-some :
      (q v : List ℕ) (n : Sizes)
      → sizes_of q v ≡ some n
      → (q ≡ n.batch ∷ n.steps ∷ n.key_heads ∷ n.key_dim ∷ [])
        × (v ≡ n.batch ∷ n.steps ∷ n.value_heads ∷ n.value_dim ∷ [])
  sizes_of-eq-some (b ∷ t ∷ hk ∷ dk ∷ []) (vb ∷ vt ∷ hv ∷ dv ∷ []) n h = ground arith
  sizes_of-eq-some q v n h = cc

  sizes_of-some :
      (n : Sizes)
      → sizes_of
          (n.batch ∷ n.steps ∷ n.key_heads ∷ n.key_dim ∷ [])
          (n.batch ∷ n.steps ∷ n.value_heads ∷ n.value_dim ∷ [])
        ≡ some n
  sizes_of-some n = ground arith

  and_iff : (a b : Bool) → ((a && b) ≡ true) ↔ ((a ≡ true) × (b ≡ true))
  and_iff true b = (λ h. (refl, h), λ (_, h). h)
  and_iff false b = (λ h. cc, λ (h, _). cc)

  sized-eq-ok : (o : Option Sizes) (n : Sizes) → sized o ≡ ok n → o ≡ some n
  sized-eq-ok none n h = cc
  sized-eq-ok (some m) n h = ap some (ok-injective h)

  validate-IsValid : (a : Arguments A) (n : Sizes) → validate scalar a ≡ ok n → IsValid a n
  unfolding validate
  validate-IsValid a n h =
      let (keys, h₁) = require-eq-ok (a.k.shape == a.q.shape) wrong_rank _ h in
      let (m, e₂, h₂) = >>=-eq-ok (sized (sizes_of a.q.shape a.v.shape)) _ h₁ in
      let (grouped, h₃) = require-eq-ok (is_grouped m) bad_dimensions _ h₂ in
      let (gates, h₄) =
        require-eq-ok (a.g.shape == gate_shape m && a.beta.shape == a.g.shape) not_scalar_gates _
          h₃ in
      let (state, h₅) =
        require-eq-ok ((initial scalar m a.state).shape == state_shape m) wrong_state _ h₄ in
      let (mask, h₆) =
        require-eq-ok ((mask_of scalar m a.mask).shape == m.batch ∷ m.steps ∷ [] && has_bool_mask a)
          bad_mask _ h₅ in
      let (finite, h₇) =
        require-eq-ok
          (all_finite scalar a.q
            && all_finite scalar a.k
            && all_finite scalar a.v
            && all_finite scalar a.g
            && all_finite scalar a.beta
            && all_finite scalar (initial scalar m a.state))
          not_finite _ h₆ in
      let (query, values) = sizes_of-eq-some a.q.shape a.v.shape m (sized-eq-ok _ m e₂) in
      let (gate, beta) = (and_iff _ _).0 gates in
      let (mask_shape, bool_mask) = (and_iff _ _).0 mask in
      let is_gate = (==_iff a.g.shape (gate_shape m)).0 gate in
      subst (IsValid a) (ok-injective h₇) (record {
        keys = (==_iff a.k.shape a.q.shape).0 keys;
        query = query;
        values = values;
        grouped = grouped;
        gates = is_gate;
        betas = (==_iff a.beta.shape a.g.shape).0 beta ∙ is_gate;
        state = (==_iff _ (state_shape m)).0 state;
        mask = (==_iff _ (m.batch ∷ m.steps ∷ [])).0 mask_shape;
        bool_mask = bool_mask;
        finite = finite;
      })

  IsValid-sizes_of :
      (a : Arguments A) (n : Sizes) → IsValid a n → sizes_of a.q.shape a.v.shape ≡ some n
  IsValid-sizes_of a n i =
      ap (λ q. sizes_of q a.v.shape) i.query
      ∙ (ap (sizes_of (n.batch ∷ n.steps ∷ n.key_heads ∷ n.key_dim ∷ [])) i.values
          ∙ sizes_of-some n)

  IsValid-validate : (a : Arguments A) (n : Sizes) → IsValid a n → validate scalar a ≡ ok n
  unfolding validate
  IsValid-validate a n i =
      let sizes = IsValid-sizes_of a n i in
      simp (
        (==_iff a.k.shape a.q.shape).1 i.keys,
        sizes,
        i.grouped,
        (==_iff a.g.shape (gate_shape n)).1 i.gates,
        (==_iff a.beta.shape a.g.shape).1 (i.betas ∙ sym i.gates),
        (==_iff (initial scalar n a.state).shape (state_shape n)).1 i.state,
        (==_iff (mask_of scalar n a.mask).shape (n.batch ∷ n.steps ∷ [])).1 i.mask,
        i.bool_mask,
        i.finite,
      )

  -- The arguments are accepted exactly when they fit the sizes.
  pub validate-IsValid_iff :
      (a : Arguments A) (n : Sizes) → (validate scalar a ≡ ok n) ↔ IsValid a n
  validate-IsValid_iff a n = (validate-IsValid a n, IsValid-validate a n)

  -- Accepted arguments have the sizes of their shapes.
  pub validate-sizes_of :
      (a : Arguments A) (n : Sizes)
      → validate scalar a ≡ ok n
      → sizes_of a.q.shape a.v.shape ≡ some n
  validate-sizes_of a n h = IsValid-sizes_of a n (validate-IsValid a n h)
