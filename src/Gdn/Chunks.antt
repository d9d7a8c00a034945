-- ===== src/Gdn/Chunks.antt =====
-- A sequence in two chunks, the state carried from one to the other, is the whole sequence.
use mlx_spark.Base.{ℕ, ◌+◌, List, ◌++◌, Option, none, some, nat_eq, ◌≡◌, refl, sym, ap, ◌∙◌, arith}
use mlx_spark.Base.Result.{ok, >>=-eq-ok, ok-injective}
use mlx_spark.Base.Maybe.{some-injective}
use mlx_spark.Base.Text.{codes_eq}
use mlx_spark.Gdn.Slices.{chunk, state_tensor, sizes_of-slice, loop-append, loop-slice}
use mlx_spark.Gdn.Accepted.{validate-sizes_of}
use mlx_spark.Gdn.{
  Scalar, Tensor, Sizes, sizes_of, State, state_of, Arguments, initial, validate, loop, gdn_forward,
}

module _ {A : Type 0} (scalar : Scalar A) where
  pub gdn_forward-loop :
      (a : Arguments A) (n : Sizes) (r : List (ℕ → ℕ → ℕ → A) × State A)
      → sizes_of a.q.shape a.v.shape ≡ some n
      → gdn_forward scalar a ≡ ok r
      → r ≡ loop scalar n a 0 n.steps (state_of (initial scalar n a.state))
  unfolding gdn_forward
  gdn_forward-loop a n r is_n h =
      let (m, e, h₁) = >>=-eq-ok (validate scalar a) _ h in
      let same : m ≡ n = some-injective (sym (validate-sizes_of scalar a m e) ∙ is_n) in
      sym (ok-injective h₁)
      ∙ ap (λ z. loop scalar z a 0 z.steps (state_of (initial scalar z a.state))) same

  -- An absent state is zero for any number of steps.
  state_of-initial :
      (n : Sizes) (count : ℕ) (state : Option (Tensor A))
      → state_of (initial scalar (record n { steps = count }) state)
        ≡ state_of (initial scalar n state)
  state_of-initial n count none = refl
  state_of-initial n count (some s) = refl

  -- Where the whole sequence and two chunks of it are accepted, the second from the state that the
  -- first returns, the outputs of the chunks in order are those of the whole, and so is the state.
  pub gdn_forward-chunks :
      (a : Arguments A) (n : Sizes) (first second : ℕ)
      (whole one two : List (ℕ → ℕ → ℕ → A) × State A)
      → sizes_of a.q.shape a.v.shape ≡ some n
      → n.steps ≡ first + second
      → gdn_forward scalar a ≡ ok whole
      → gdn_forward scalar (chunk a 0 first a.state) ≡ ok one
      → gdn_forward scalar (chunk a first second (some (state_tensor scalar n one.1))) ≡ ok two
      → whole ≡ (one.0 ++ two.0, two.1)
  gdn_forward-chunks a n first second whole one two is_n steps is_whole is_one is_two =
      let start = state_of (initial scalar n a.state) in
      let one_loop : one ≡ loop scalar n a 0 first start =
        gdn_forward-loop (chunk a 0 first a.state) (record n { steps = first }) one
          (sizes_of-slice first _ _ n is_n) is_one
        ∙ (ap (loop scalar (record n { steps = first }) (chunk a 0 first a.state) 0 first)
              (state_of-initial n first a.state)
            ∙ loop-slice scalar n a 0 first a.state 0 first start) in
      let two_loop : two ≡ loop scalar n a first second one.1 =
        gdn_forward-loop (chunk a first second (some (state_tensor scalar n one.1)))
          (record n { steps = second }) two (sizes_of-slice second _ _ n is_n) is_two
        ∙ (loop-slice scalar n a first second (some (state_tensor scalar n one.1)) 0 second one.1
            ∙ ap (λ u. loop scalar n a u second one.1) (right_zero first)) in
      let after : ℕ → List (ℕ → ℕ → ℕ → A) × State A → List (ℕ → ℕ → ℕ → A) × State A =
        λ u o. (o.0 ++ (loop scalar n a u second o.1).0, (loop scalar n a u second o.1).1) in
      gdn_forward-loop a n whole is_n is_whole
      ∙ (ap (λ m. loop scalar n a 0 m start) steps
          ∙ (loop-append scalar n a 0 first second start
              ∙ (ap (λ u. after u (loop scalar n a 0 first start)) (left_zero first)
                  ∙ (ap (after first) (sym one_loop)
                      ∙ ap (λ t. (one.0 ++ t.0, t.1)) (sym two_loop)))))
    where
      right_zero : (t : ℕ) → t + 0 ≡ t
      right_zero t = omega arith

      left_zero : (t : ℕ) → 0 + t ≡ t
      left_zero t = omega arith
