-- ===== src/Gdn/Vjp/Transpose.antt =====
-- The cotangents are the transpose of the derivative, step by step and over the whole sequence.
use mlx_spark.Base.{
  ℕ, zero, suc, ◌*◌, ◌/◌, List, [], ◌∷◌, Bool, true, false, if◌then◌else◌, ◌≡◌, refl, sym, ap, ◌∙◌,
}
use mlx_spark.Gdn.{
  Scalar, Sizes, State, Arguments, group, is_active, key, query, decayed, residual, delta, updated,
  next_state, output, loop,
}
use mlx_spark.Gdn.Vjp.{
  Cotangents, step_cotangents, dp, dd, dv, dr, du, yt, previous_carry, backward, grouped,
  by_key_head,
}
use mlx_spark.Gdn.Vjp.Ring.{IsRing, add-left_comm}
use mlx_spark.Gdn.Vjp.Row.{Row, up', out', terms}
use mlx_spark.Gdn.Vjp.Dual.{dual, values, state_values, mask_of-dual}
use mlx_spark.Gdn.Vjp.Steps.{masked, masked_transpose}
use mlx_spark.Gdn.Vjp.Heads.{five, sum_identity, head_identity, sum-grouped}

if_second :
    {A : Type 0} (c on : Bool) (x y : A × A)
    → c ≡ on
    → (if c then x else y).1 ≡ (if on then x.1 else y.1)
if_second c true x y h = rw h refl
if_second c false x y h = rw h refl

if_first :
    {A : Type 0} (c on : Bool) (x y : A × A)
    → c ≡ on
    → (if c then x else y).0 ≡ (if on then x.0 else y.0)
if_first c true x y h = rw h refl
if_first c false x y h = rw h refl

module _ {A : Type 0} {s : Scalar A} (r : IsRing s) (n : Sizes) (a : Arguments (A × A)) where
  -- The arguments of one step, with their tangents.
  module _ (t : ℕ) (x : State (A × A)) (dy : ℕ → ℕ → ℕ → A) (carry : State A) (b : ℕ) where
    abbrev on : Bool
    on = is_active s n (values a) t (state_values x) b

    on-dual : is_active (dual s) n a t x b ≡ on
    on-dual = mask_of-dual s n a.mask (b ∷ t ∷ [])

    abbrev row : ℕ → ℕ → Row A
    row h d = record {
      p = λ i. (x b h d i).0;
      p' = λ i. (x b h d i).1;
      k = λ i. (key (dual s) n a t x b h i).0;
      k' = λ i. (key (dual s) n a t x b h i).1;
      q = λ i. (query (dual s) n a t x b h i).0;
      q' = λ i. (query (dual s) n a t x b h i).1;
      carry = λ i. carry b h d i;
      g = (a.g.entry (b ∷ t ∷ h ∷ [])).0;
      g' = (a.g.entry (b ∷ t ∷ h ∷ [])).1;
      beta = (a.beta.entry (b ∷ t ∷ h ∷ [])).0;
      beta' = (a.beta.entry (b ∷ t ∷ h ∷ [])).1;
      v = (a.v.entry (b ∷ t ∷ h ∷ d ∷ [])).0;
      v' = (a.v.entry (b ∷ t ∷ h ∷ d ∷ [])).1;
      dy = dy b h d;
    }

    next_state-row :
        (h d i : ℕ)
        → (next_state (dual s) n a t x b h d i).1
          ≡ (if on then up' r n.key_dim (masked r n.key_dim on (row h d)) i else (row h d).p' i)
    unfolding next_state
    next_state-row h d i =
        if_second (is_active (dual s) n a t x b) on (updated (dual s) n a t x b h d i) (x b h d i)
          on-dual

    output-row :
        (h d : ℕ)
        → (output (dual s) n a t x b h d).1
          ≡ (if on then out' r n.key_dim (masked r n.key_dim on (row h d)) else s.nothing)
    unfolding output
    output-row h d =
        if_second (is_active (dual s) n a t x b) on
          ((dual s).sum n.key_dim
            (λ i. (dual s).mul (updated (dual s) n a t x b h d i) (query (dual s) n a t x b h i)))
          (dual s).nothing on-dual

    abbrev new_state : ℕ → ℕ → A
    new_state h d =
        s.sum n.key_dim (λ i. s.mul (carry b h d i) (next_state (dual s) n a t x b h d i).1)

    abbrev new_output : ℕ → ℕ → A
    new_output h d = s.mul (dy b h d) (output (dual s) n a t x b h d).1

    abbrev old_state : ℕ → ℕ → A
    old_state h d = s.sum n.key_dim (λ i.
        s.mul (previous_carry s n (values a) t (state_values x) dy carry b h d i) (x b h d i).1)

    -- One row, in the terms of the code.
    row_step :
        (h d : ℕ)
        → s.add (new_state h d) (new_output h d)
          ≡ s.add (old_state h d) (terms r n.key_dim (masked r n.key_dim on (row h d)))
    unfolding previous_carry
    row_step h d =
        (λ j.
          s.add (s.sum n.key_dim (λ i. s.mul (carry b h d i) (next_state-row h d i j)))
            (s.mul (dy b h d) (output-row h d j)))
        ∙ masked_transpose r n.key_dim on (row h d)

    abbrev step : Cotangents A
    step = step_cotangents s n (values a) t (state_values x) dy carry

    -- One value head, where q and k are still taken by value head.
    head_step :
        (h : ℕ)
        → s.add (s.sum n.value_dim (new_state h)) (s.sum n.value_dim (new_output h))
          ≡ s.add (s.sum n.value_dim (old_state h)) (
              five r
                (s.sum n.key_dim
                  (λ i. s.mul (step.of_q b h i) (a.q.entry (b ∷ t ∷ group s n h ∷ i ∷ [])).1))
                (s.sum n.key_dim
                  (λ i. s.mul (step.of_k b h i) (a.k.entry (b ∷ t ∷ group s n h ∷ i ∷ [])).1))
                (s.sum n.value_dim
                  (λ d. s.mul (step.of_v b h d) (a.v.entry (b ∷ t ∷ h ∷ d ∷ [])).1))
                (s.mul (step.of_g b h) (a.g.entry (b ∷ t ∷ h ∷ [])).1)
                (s.mul (step.of_beta b h) (a.beta.entry (b ∷ t ∷ h ∷ [])).1))
    head_step h =
        let state = state_values x in
        let inputs = values a in
        head_identity r n.value_dim n.key_dim (new_state h) (new_output h) (old_state h)
          (λ d. s.mul (dv s n inputs t state dy carry b h d) (a.v.entry (b ∷ t ∷ h ∷ d ∷ [])).1)
          (λ d.
            s.sum n.key_dim (λ i. s.mul (dp s n inputs t state dy carry b h d i) (state b h d i)))
          (λ d. s.mul (dd s n inputs t state dy carry b h d) (residual s n inputs t state b h d))
          (λ d i. s.mul (updated s n inputs t state b h d i) (yt s n inputs t state dy carry b h d))
          (λ d i. s.mul (du s n inputs t state dy carry b h d i) (delta s n inputs t state b h d))
          (λ d i. s.mul (decayed s n inputs t state b h d i) (dr s n inputs t state dy carry b h d))
          (λ i. (a.q.entry (b ∷ t ∷ group s n h ∷ i ∷ [])).1)
          (λ i. (a.k.entry (b ∷ t ∷ group s n h ∷ i ∷ [])).1) (a.g.entry (b ∷ t ∷ h ∷ [])).1
          (a.beta.entry (b ∷ t ∷ h ∷ [])).1 (row_step h)

  -- A cotangent of the state against the tangents, and one of the outputs.
  pub paired_state : ℕ → State A → State (A × A) → A
  paired_state b carry x =
      s.sum n.value_heads
        λ h. s.sum n.value_dim λ d. s.sum n.key_dim λ i. s.mul (carry b h d i) (x b h d i).1

  pub paired_output : ℕ → (ℕ → ℕ → ℕ → A) → (ℕ → ℕ → ℕ → A × A) → A
  paired_output b dy y =
      s.sum n.value_heads λ h. s.sum n.value_dim λ d. s.mul (dy b h d) (y b h d).1

  -- The cotangents of one step against the tangents of its arguments.
  pub paired_step : ℕ → ℕ → Cotangents A → A
  paired_step b t c =
      five r
        (s.sum n.key_heads λ head.
          s.sum n.key_dim λ i. s.mul (c.of_q b head i) (a.q.entry (b ∷ t ∷ head ∷ i ∷ [])).1)
        (s.sum n.key_heads λ head.
          s.sum n.key_dim λ i. s.mul (c.of_k b head i) (a.k.entry (b ∷ t ∷ head ∷ i ∷ [])).1)
        (s.sum n.value_heads
          λ h. s.sum n.value_dim λ d. s.mul (c.of_v b h d) (a.v.entry (b ∷ t ∷ h ∷ d ∷ [])).1)
        (s.sum n.value_heads λ h. s.mul (c.of_g b h) (a.g.entry (b ∷ t ∷ h ∷ [])).1)
        (s.sum n.value_heads λ h. s.mul (c.of_beta b h) (a.beta.entry (b ∷ t ∷ h ∷ [])).1)

  abbrev finish : Cotangents A → Cotangents A
  finish c = record c { of_q = grouped s n c.of_q; of_k = grouped s n c.of_k }

  -- The value heads are whole groups of the key heads.
  abbrev pub IsWhole : Type 0
  IsWhole = n.value_heads ≡ n.key_heads * (n.value_heads / n.key_heads)

  by_group :
      IsWhole
      → (b : ℕ) (z : ℕ → ℕ → ℕ → A) (y : ℕ → ℕ → A)
      → s.sum n.value_heads (λ h. s.sum n.key_dim (λ i. s.mul (z b h i) (y (group s n h) i)))
        ≡ s.sum n.key_heads
            (λ head. s.sum n.key_dim (λ i. s.mul (grouped s n z b head i) (y head i)))
  unfolding grouped
  by_group whole b z y =
      ap (λ m. s.sum m (λ h. s.sum n.key_dim (λ i. s.mul (z b h i) (y (group s n h) i)))) whole
      ∙ sum-grouped r n.key_heads (n.value_heads / n.key_heads) n.key_dim (λ h i. z b h i) y

  -- One step of one sequence of the batch.
  batch_step :
      (whole : IsWhole) (b t : ℕ) (x : State (A × A)) (dy : ℕ → ℕ → ℕ → A) (carry : State A)
      → s.add
          (paired_state b carry (next_state (dual s) n a t x))
          (paired_output b dy (output (dual s) n a t x))
        ≡ s.add
            (paired_state b (previous_carry s n (values a) t (state_values x) dy carry) x)
            (paired_step b t (finish (step_cotangents s n (values a) t (state_values x) dy carry)))
  unfolding paired_state paired_output paired_step
  batch_step whole b t x dy carry =
      sum_identity r n.value_heads (λ h. s.sum n.value_dim (new_state t x dy carry b h))
        (λ h. s.sum n.value_dim (new_output t x dy carry b h))
        (λ h. s.sum n.value_dim (old_state t x dy carry b h)) _ _ _ _ _ (head_step t x dy carry b)
      ∙ (let c = step t x dy carry b in
          let queries = by_group whole b c.of_q (λ head i. (a.q.entry (b ∷ t ∷ head ∷ i ∷ [])).1) in
          let keys = by_group whole b c.of_k (λ head i. (a.k.entry (b ∷ t ∷ head ∷ i ∷ [])).1) in
          λ j. s.add (s.sum n.value_heads (λ h. s.sum n.value_dim (old_state t x dy carry b h))) (
            five r (queries j) (keys j)
              (s.sum n.value_heads
                λ h. s.sum n.value_dim λ d. s.mul (c.of_v b h d) (a.v.entry (b ∷ t ∷ h ∷ d ∷ [])).1)
              (s.sum n.value_heads λ h. s.mul (c.of_g b h) (a.g.entry (b ∷ t ∷ h ∷ [])).1)
              (s.sum n.value_heads λ h. s.mul (c.of_beta b h) (a.beta.entry (b ∷ t ∷ h ∷ [])).1)))

  -- The same over the sequence from time t on.
  abbrev pub paired_outputs : ℕ → (ℕ → ℕ → ℕ → ℕ → A) → ℕ → List (ℕ → ℕ → ℕ → A × A) → A
  paired_outputs b dys t [] = s.nothing
  paired_outputs b dys t (y ∷ ys) =
      s.add (paired_output b (dys t) y) (paired_outputs b dys (suc t) ys)

  abbrev pub paired_steps : ℕ → ℕ → List (Cotangents A) → A
  paired_steps b t [] = s.nothing
  paired_steps b t (c ∷ cs) = s.add (paired_step b t c) (paired_steps b (suc t) cs)

  -- The values of the derivative's run are those of the run.
  next_state-values :
      (t : ℕ) (x : State (A × A))
      → state_values (next_state (dual s) n a t x) ≡ next_state s n (values a) t (state_values x)
  unfolding next_state
  next_state-values t x j b h d i =
      if_first (is_active (dual s) n a t x b) (is_active s n (values a) t (state_values x) b)
        (updated (dual s) n a t x b h d i) (x b h d i) (mask_of-dual s n a.mask (b ∷ t ∷ [])) j

  swap_last : (p o₀ o' : A) → s.add p (s.add o₀ o') ≡ s.add (s.add p o') o₀
  swap_last p o₀ o' = simp (r.add_assoc, r.add_comm, add-left_comm r)

  pub backward-transpose :
      (whole : IsWhole) (b : ℕ) (dys : ℕ → ℕ → ℕ → ℕ → A) (t m : ℕ) (x : State (A × A))
      (final : State A)
      → s.add
          (paired_state b final (loop (dual s) n a t m x).1)
          (paired_outputs b dys t (loop (dual s) n a t m x).0)
        ≡ s.add (paired_state b (backward s n (values a) dys t m (state_values x) final).1 x) (
            paired_steps b t
              (by_key_head s n (backward s n (values a) dys t m (state_values x) final).0))
  unfolding loop backward by_key_head
  backward-transpose whole b dys t zero x final = refl
  backward-transpose whole b dys t (suc m) x final =
      let x₁ = next_state (dual s) n a t x in
      let later = backward-transpose whole b dys (suc t) m x₁ final in
      let run = loop (dual s) n a (suc t) m x₁ in
      let out = paired_output b (dys t) (output (dual s) n a t x) in
      let outs = paired_outputs b dys (suc t) run.0 in
      let carry : State A → State A = λ y. (backward s n (values a) dys (suc t) m y final).1 in
      let steps : State A → A = λ y.
        paired_steps b (suc t)
          (by_key_head s n (backward s n (values a) dys (suc t) m y final).0) in
      let y = state_values x₁ in
      swap_last (paired_state b final run.1) out outs
      ∙ (ap (λ z. s.add z out) later
          ∙ (sym (swap_last (paired_state b (carry y) x₁) out (steps y))
              ∙ (sym (r.add_assoc (paired_state b (carry y) x₁) out (steps y))
                  ∙ (ap (λ z. s.add z (steps y)) (batch_step whole b t x (dys t) (carry y))
                      ∙ (r.add_assoc _ _ (steps y)
                          ∙ ap
                              (λ y.
                                s.add
                                  (paired_state b
                                    (previous_carry s n (values a) t (state_values x) (dys t)
                                      (carry y))
                                    x)
                                  (s.add
                                    (paired_step b t (
                                      finish (
                                        step_cotangents s n (values a) t (state_values x) (dys t)
                                          (carry y))))
                                    (steps y)))
                              (next_state-values t x))))))
