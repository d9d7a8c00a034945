-- ===== src/Gdn/Vjp.antt =====
-- `gdn_vjp` of src/mlx_spark/reference/gdn.py: the cotangents of the arguments, step by step from the
-- last one back.
pub mod Ring
pub mod Inner
pub mod Row
pub mod Dual
pub mod Steps
pub mod Heads
pub mod Transpose
pub mod Gradient
mod Tests
use mlx_spark.Base.{
  ℕ, zero, suc, ◌+◌, ◌*◌, ◌/◌, List, [], ◌∷◌, Bool, true, false, Option, none, some, nat_eq, ◌==◌,
  length, if◌then◌else◌,
}
use mlx_spark.Base.Result.{Result, ok, err, ◌>>=◌, ◌>>◌, require}
use mlx_spark.Base.Text.{codes_eq}
use mlx_spark.Gdn.{
  Scalar, GdnError, wrong_dy, wrong_final, Tensor, Sizes, State, state_shape, Arguments, validate,
  initial, state_of, is_active, key, query, decayed, residual, delta, updated, next_state,
}

-- The cotangents of one step of q, k, v, g and beta: those of q and k by value head in the loop, and
-- by key head in the result.
pub record Cotangents (A : Type 0) : Type 0 where
  pub of_q : ℕ → ℕ → ℕ → A
  pub of_k : ℕ → ℕ → ℕ → A
  pub of_v : ℕ → ℕ → ℕ → A
  pub of_g : ℕ → ℕ → A
  pub of_beta : ℕ → ℕ → A

module _ {A : Type 0} (scalar : Scalar A) where
  -- The body of the reversed loop, where the step took the state `s`.
  module _ (n : Sizes) (a : Arguments A) (t : ℕ) (s : State A) (dy : ℕ → ℕ → ℕ → A)
      (carry : State A) where
    abbrev pub yt : ℕ → ℕ → ℕ → A
    yt b h d = if is_active scalar n a t s b then dy b h d else scalar.nothing

    abbrev pub kept : State A
    kept b h d i = if is_active scalar n a t s b then carry b h d i else scalar.nothing

    abbrev pub du : State A
    du b h d i = scalar.add (kept b h d i) (scalar.mul (yt b h d) (query scalar n a t s b h i))

    abbrev pub dd : ℕ → ℕ → ℕ → A
    dd b h d = scalar.sum n.key_dim λ i. scalar.mul (du b h d i) (key scalar n a t s b h i)

    abbrev pub dv : ℕ → ℕ → ℕ → A
    dv b h d = scalar.mul (dd b h d) (a.beta.entry (b ∷ t ∷ h ∷ []))

    abbrev pub dr : ℕ → ℕ → ℕ → A
    dr b h d = scalar.neg (dv b h d)

    abbrev pub dp : State A
    dp b h d i = scalar.add (du b h d i) (scalar.mul (dr b h d) (key scalar n a t s b h i))

    abbrev pub step_cotangents : Cotangents A
    step_cotangents = record {
      of_q = λ b h i.
          scalar.sum n.value_dim λ d. scalar.mul (updated scalar n a t s b h d i) (yt b h d);
      of_k = λ b h i.
          scalar.add
            (scalar.sum n.value_dim λ d. scalar.mul (du b h d i) (delta scalar n a t s b h d))
            (scalar.sum n.value_dim λ d. scalar.mul (decayed scalar n a t s b h d i) (dr b h d));
      of_v = dv;
      of_g = λ b h.
          scalar.sum n.value_dim λ d. scalar.sum n.key_dim λ i. scalar.mul (dp b h d i) (s b h d i);
      of_beta =
          λ b h. scalar.sum n.value_dim λ d. scalar.mul (dd b h d) (residual scalar n a t s b h d);
    }

    unfoldable pub previous_carry : State A
    previous_carry b h d i =
        if is_active scalar n a t s b
        then scalar.mul (dp b h d i) (a.g.entry (b ∷ t ∷ h ∷ []))
        else carry b h d i

  -- The loop from time t, which meets the later steps first; `dys` is the cotangent of the output.
  unfoldable pub backward :
      Sizes
      → Arguments A
      → (ℕ → ℕ → ℕ → ℕ → A)
      → ℕ
      → ℕ
      → State A
      → State A
      → List (Cotangents A) × State A
  unfolding next_state previous_carry
  backward n a dys t zero s final = ([], final)
  backward n a dys t (suc m) s final =
      let (later, carry) = backward n a dys (suc t) m (next_state scalar n a t s) final in
      (step_cotangents n a t s (dys t) carry ∷ later, previous_carry n a t s (dys t) carry)

  -- `x.reshape(B, T, Hk, r, Dk).sum(axis=3)` at one time
  unfoldable pub grouped : Sizes → (ℕ → ℕ → ℕ → A) → ℕ → ℕ → ℕ → A
  grouped n x b head i =
      let r = n.value_heads / n.key_heads in scalar.sum r λ j. x b (head * r + j) i

  -- The cotangents of q and k by key head.
  unfoldable pub by_key_head : Sizes → List (Cotangents A) → List (Cotangents A)
  unfolding grouped
  by_key_head n [] = []
  by_key_head n (c ∷ cs) =
      record c { of_q = grouped n c.of_q; of_k = grouped n c.of_k } ∷ by_key_head n cs

  abbrev pub dys_of : Tensor A → ℕ → ℕ → ℕ → ℕ → A
  dys_of dy t b h d = dy.entry (b ∷ t ∷ h ∷ d ∷ [])

  abbrev pub output_shape : Sizes → List ℕ
  output_shape n = n.batch ∷ n.steps ∷ n.value_heads ∷ n.value_dim ∷ []

  -- The cotangents of the steps, in the order of time, and that of the state.
  unfoldable pub cotangents :
      Arguments A → Tensor A → Option (Tensor A) → Sizes → List (Cotangents A) × State A
  unfolding backward by_key_head
  cotangents a dy ds_final n =
      let start = state_of (initial scalar n a.state) in
      let final = state_of (initial scalar n ds_final) in
      let (steps, state) = backward n a (dys_of dy) 0 n.steps start final in
      (by_key_head n steps, state)

  unfoldable pub gdn_vjp :
      Arguments A → Tensor A → Option (Tensor A) → Result GdnError (List (Cotangents A) × State A)
  unfolding validate cotangents
  gdn_vjp a dy ds_final = do
    n ← validate scalar a
    require (dy.shape == output_shape n) wrong_dy
    require ((initial scalar n ds_final).shape == state_shape n) wrong_final
    ok (cotangents a dy ds_final n)
