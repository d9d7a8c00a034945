-- ===== src/Gdn/Vjp/Ring.antt =====
-- Exact scalars: the laws of a commutative ring, and of its finite sums.
use mlx_spark.Base.{ℕ, zero, suc, ◌≡◌, sym, ap, ◌∙◌}
use mathlib.Core.Path.{fun_ext}
use mlx_spark.Gdn.{Scalar}

pub record IsRing {A : Type 0} (s : Scalar A) : Type 0 where
  pub add_assoc : (a b c : A) → s.add (s.add a b) c ≡ s.add a (s.add b c)
  pub add_comm : (a b : A) → s.add a b ≡ s.add b a
  pub zero-add : (a : A) → s.add s.nothing a ≡ a
  pub add-neg : (a : A) → s.add a (s.neg a) ≡ s.nothing
  pub sub-neg : (a b : A) → s.sub a b ≡ s.add a (s.neg b)
  pub mul_assoc : (a b c : A) → s.mul (s.mul a b) c ≡ s.mul a (s.mul b c)
  pub mul_comm : (a b : A) → s.mul a b ≡ s.mul b a
  pub mul-add : (a b c : A) → s.mul a (s.add b c) ≡ s.add (s.mul a b) (s.mul a c)
  pub sum-zero : (f : ℕ → A) → s.sum 0 f ≡ s.nothing
  pub sum-suc : (n : ℕ) (f : ℕ → A) → s.sum (suc n) f ≡ s.add (f 0) (s.sum n (λ i. f (suc i)))

module _ {A : Type 0} {s : Scalar A} (r : IsRing s) where
  pub add-left_comm : (a b c : A) → s.add a (s.add b c) ≡ s.add b (s.add a c)
  add-left_comm a b c =
      sym (r.add_assoc a b c) ∙ (ap (λ x. s.add x c) (r.add_comm a b) ∙ r.add_assoc b a c)

  pub mul-left_comm : (a b c : A) → s.mul a (s.mul b c) ≡ s.mul b (s.mul a c)
  mul-left_comm a b c =
      sym (r.mul_assoc a b c) ∙ (ap (λ x. s.mul x c) (r.mul_comm a b) ∙ r.mul_assoc b a c)

  pub add-mul : (a b c : A) → s.mul (s.add a b) c ≡ s.add (s.mul a c) (s.mul b c)
  add-mul a b c = simp (r.mul_comm, r.mul-add)

  pub add-zero : (a : A) → s.add a s.nothing ≡ a
  add-zero a = r.add_comm a s.nothing ∙ r.zero-add a

  -- What is added can be taken away.
  pub add-cancel : (a b c : A) → s.add a b ≡ s.add a c → b ≡ c
  add-cancel a b c h =
      let back : (x : A) → s.add (s.neg a) (s.add a x) ≡ x = λ x.
        sym (r.add_assoc (s.neg a) a x)
        ∙ (ap (λ y. s.add y x) (r.add_comm (s.neg a) a ∙ r.add-neg a) ∙ r.zero-add x) in
      sym (back b) ∙ (ap (s.add (s.neg a)) h ∙ back c)

  pub mul-zero : (a : A) → s.mul a s.nothing ≡ s.nothing
  mul-zero a = add-cancel (s.mul a s.nothing) (s.mul a s.nothing) s.nothing (
      sym (r.mul-add a s.nothing s.nothing)
      ∙ (ap (s.mul a) (r.zero-add s.nothing) ∙ sym (add-zero (s.mul a s.nothing))))

  pub zero-mul : (a : A) → s.mul s.nothing a ≡ s.nothing
  zero-mul a = r.mul_comm s.nothing a ∙ mul-zero a

  pub neg-mul : (a b : A) → s.mul (s.neg a) b ≡ s.neg (s.mul a b)
  neg-mul a b = add-cancel (s.mul a b) (s.mul (s.neg a) b) (s.neg (s.mul a b)) (
      sym (add-mul a (s.neg a) b)
      ∙ (ap (λ x. s.mul x b) (r.add-neg a) ∙ (zero-mul b ∙ sym (r.add-neg (s.mul a b)))))

  pub mul-neg : (a b : A) → s.mul a (s.neg b) ≡ s.neg (s.mul a b)
  mul-neg a b = r.mul_comm a (s.neg b) ∙ (neg-mul b a ∙ ap s.neg (r.mul_comm b a))

  pub neg-zero : s.neg s.nothing ≡ s.nothing
  neg-zero = sym (r.zero-add (s.neg s.nothing)) ∙ r.add-neg s.nothing

  pub neg-add : (a b : A) → s.neg (s.add a b) ≡ s.add (s.neg a) (s.neg b)
  neg-add a b = add-cancel (s.add a b) (s.neg (s.add a b)) (s.add (s.neg a) (s.neg b)) (
      r.add-neg (s.add a b)
      ∙ sym (
          add_swap
          ∙ (ap (λ x. s.add x (s.add b (s.neg b))) (r.add-neg a)
              ∙ (r.zero-add (s.add b (s.neg b)) ∙ r.add-neg b))))
    where
      add_swap :
          s.add (s.add a b) (s.add (s.neg a) (s.neg b))
          ≡ s.add (s.add a (s.neg a)) (s.add b (s.neg b))
      add_swap = simp (r.add_assoc, r.add_comm, add-left_comm)

  pub sum_congr : (n : ℕ) {f g : ℕ → A} → ((i : ℕ) → f i ≡ g i) → s.sum n f ≡ s.sum n g
  sum_congr n h = ap (s.sum n) (fun_ext h)

  pub sum-nothing : (n : ℕ) → s.sum n (λ i. s.nothing) ≡ s.nothing
  sum-nothing zero = r.sum-zero _
  sum-nothing (suc n) = r.sum-suc n _ ∙ (r.zero-add _ ∙ sum-nothing n)

  pub sum-add :
      (n : ℕ) (f g : ℕ → A) → s.sum n (λ i. s.add (f i) (g i)) ≡ s.add (s.sum n f) (s.sum n g)
  sum-add zero f g = simp (r.sum-zero, r.zero-add)
  sum-add (suc n) f g =
      let rest = sum-add n (λ i. f (suc i)) (λ i. g (suc i)) in
      simp (r.sum-suc, rest, r.add_assoc, r.add_comm, add-left_comm)

  pub mul-sum : (n : ℕ) (a : A) (f : ℕ → A) → s.sum n (λ i. s.mul a (f i)) ≡ s.mul a (s.sum n f)
  mul-sum zero a f = simp (r.sum-zero, mul-zero)
  mul-sum (suc n) a f = simp (r.sum-suc, mul-sum n a (λ i. f (suc i)), r.mul-add)

  pub sum-mul : (n : ℕ) (a : A) (f : ℕ → A) → s.sum n (λ i. s.mul (f i) a) ≡ s.mul (s.sum n f) a
  sum-mul n a f = sum_congr n (λ i. r.mul_comm (f i) a) ∙ (mul-sum n a f ∙ r.mul_comm a (s.sum n f))

  pub sum_comm :
      (m n : ℕ) (f : ℕ → ℕ → A)
      → s.sum m (λ i. s.sum n (λ j. f i j)) ≡ s.sum n (λ j. s.sum m (λ i. f i j))
  sum_comm zero n f =
      r.sum-zero _ ∙ (sym (sum-nothing n) ∙ sum_congr n (λ j. sym (r.sum-zero (λ i. f i j))))
  sum_comm (suc m) n f =
      r.sum-suc m _
      ∙ (ap (s.add (s.sum n (f 0))) (sum_comm m n (λ i. f (suc i)))
          ∙ (sym (sum-add n (f 0) (λ j. s.sum m (λ i. f (suc i) j)))
              ∙ sum_congr n (λ j. sym (r.sum-suc m (λ i. f i j)))))
