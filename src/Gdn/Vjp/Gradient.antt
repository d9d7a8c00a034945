-- ===== src/Gdn/Vjp/Gradient.antt =====
-- `gdn_vjp` against the derivative of `gdn_forward`.
use mlx_spark.Base.{
  ℕ, ◌+◌, ◌*◌, ◌/◌, ◌%◌, List, Bool, true, ◌&&◌, Option, none, some, nat_eq, ◌==◌, ==_iff, leb, ◌≡◌,
  refl, sym, ap, ◌∙◌, arith,
}
use mathlib.Core.Path.{subst}
use native.Mathlib.Nat.{div-add-mod}
use mlx_spark.Base.Result.{ok, >>=-eq-ok, require-eq-ok, ok-injective}
use mlx_spark.Base.Maybe.{some-injective}
use mlx_spark.Base.Text.{codes_eq}
use mlx_spark.Gdn.{
  Scalar, Tensor, Sizes, sizes_of, is_grouped, State, state_shape, state_of, Arguments, initial,
  validate, gdn_forward, wrong_dy, wrong_final,
}
use mlx_spark.Gdn.Accepted.{validate-IsValid_iff, validate-sizes_of}
use mlx_spark.Gdn.Chunks.{gdn_forward-loop}
use mlx_spark.Gdn.Vjp.{Cotangents, backward, by_key_head, dys_of, output_shape, cotangents, gdn_vjp}
use mlx_spark.Gdn.Vjp.Ring.{IsRing}
use mlx_spark.Gdn.Vjp.Dual.{dual, values, values_of_state, state_values}
use mlx_spark.Gdn.Vjp.Transpose.{paired_state, paired_outputs, paired_steps, backward-transpose}

is_grouped-IsWhole :
    (n : Sizes) → is_grouped n ≡ true → n.value_heads ≡ n.key_heads * (n.value_heads / n.key_heads)
is_grouped-IsWhole n h =
    let no_rest : n.value_heads % n.key_heads ≡ 0 = (==_iff (n.value_heads % n.key_heads) 0).0 (
      last_of (leb 1 n.batch) (leb 1 n.key_heads) (leb 1 n.key_dim) (leb 1 n.value_heads)
        (leb 1 n.value_dim) (n.value_heads % n.key_heads == 0) h) in
    let parts = div-add-mod n.value_heads n.key_heads in
    sym parts ∙ (ap (λ z. n.key_heads * (n.value_heads / n.key_heads) + z) no_rest ∙ plus_zero _)
  where
    plus_zero : (k : ℕ) → k + 0 ≡ k
    plus_zero k = omega arith

    last_of : (a b c d e f : Bool) → (a && b && c && d && e && f) ≡ true → f ≡ true
    last_of a b c d e f h = ground arith

module _ {A : Type 0} (s : Scalar A) where
  -- The initial state of the derivative's run has the values of the run.
  start-values :
      (n : Sizes) (x : Option (Tensor (A × A)))
      → state_values (state_of (initial (dual s) n x)) ≡ state_of (initial s n (values_of_state x))
  start-values n none = refl
  start-values n (some x) = refl

  gdn_vjp-eq-ok :
      (a : Arguments A) (dy : Tensor A) (ds_final : Option (Tensor A)) (n : Sizes)
      (out : List (Cotangents A) × State A)
      → sizes_of a.q.shape a.v.shape ≡ some n
      → gdn_vjp s a dy ds_final ≡ ok out
      → (is_grouped n ≡ true) × (out ≡ cotangents s a dy ds_final n)
  unfolding gdn_vjp
  gdn_vjp-eq-ok a dy ds_final n out is_n h =
      let (m, e, h₁) = >>=-eq-ok (validate s a) _ h in
      let same : m ≡ n = some-injective (sym (validate-sizes_of s a m e) ∙ is_n) in
      let (_, h₂) = require-eq-ok (dy.shape == output_shape s m) wrong_dy _ h₁ in
      let (_, h₃) =
        require-eq-ok ((initial s m ds_final).shape == state_shape m) wrong_final _ h₂ in
      let valid = (validate-IsValid_iff s a m).0 e in
      (
        subst (λ k. is_grouped k ≡ true) same valid.grouped,
        sym (ok-injective h₃) ∙ ap (cotangents s a dy ds_final) same,
      )

  -- Over exact scalars: where `gdn_vjp` accepts the arguments and the forward pass runs with their
  -- tangents, then for each sequence of the batch the cotangents that it returns, against the
  -- tangents of the arguments, add up to the given cotangents against the tangents of the final
  -- state and of the outputs.
  pub gdn_vjp-transpose :
      (r : IsRing s) (a : Arguments (A × A)) (dy : Tensor A) (ds_final : Option (Tensor A))
      (n : Sizes) (out : List (Cotangents A) × State A)
      (run : List (ℕ → ℕ → ℕ → A × A) × State (A × A)) (b : ℕ)
      → sizes_of a.q.shape a.v.shape ≡ some n
      → gdn_vjp s (values a) dy ds_final ≡ ok out
      → gdn_forward (dual s) a ≡ ok run
      → s.add
          (paired_state r n a b (state_of (initial s n ds_final)) run.1)
          (paired_outputs r n a b (dys_of s dy) 0 run.0)
        ≡ s.add
            (paired_state r n a b out.1 (state_of (initial (dual s) n a.state)))
            (paired_steps r n a b 0 out.0)
  unfolding cotangents
  gdn_vjp-transpose r a dy ds_final n out run b is_n accepted ran =
      let (is_whole, is_out) = gdn_vjp-eq-ok (values a) dy ds_final n out is_n accepted in
      let is_run = gdn_forward-loop (dual s) a n run is_n ran in
      let final = state_of (initial s n ds_final) in
      let start = state_of (initial (dual s) n a.state) in
      let back : State A → List (Cotangents A) × State A =
        λ y. backward s n (values a) (dys_of s dy) 0 n.steps y final in
      ap (λ o. s.add (paired_state r n a b final o.1) (paired_outputs r n a b (dys_of s dy) 0 o.0))
        is_run
      ∙ (backward-transpose r n a (is_grouped-IsWhole n is_whole) b (dys_of s dy) 0 n.steps start
            final
          ∙ (ap
                (λ y.
                  s.add (paired_state r n a b (back y).1 start)
                    (paired_steps r n a b 0 (by_key_head s n (back y).0)))
                (start-values n a.state)
              ∙ sym (
                  ap (λ o. s.add (paired_state r n a b o.1 start) (paired_steps r n a b 0 o.0))
                    is_out)))
