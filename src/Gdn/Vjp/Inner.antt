-- ===== src/Gdn/Vjp/Inner.antt =====
-- Inner products over exact scalars, and the identities that are left when sums are taken together.
use mlx_spark.Base.{ℕ, ◌≡◌, refl, ap, ◌∙◌}
use mlx_spark.Gdn.{Scalar}
use mlx_spark.Gdn.Vjp.Ring.{
  IsRing, add-left_comm, mul-left_comm, add-mul, neg-mul, mul-neg, neg-add, sum_congr, sum-add,
  mul-sum,
}

module _ {A : Type 0} {s : Scalar A} (r : IsRing s) (n : ℕ) where
  -- The inner product of two vectors.
  abbrev pub dot : (ℕ → A) → (ℕ → A) → A
  dot f g = s.sum n λ i. s.mul (f i) (g i)

  -- A sum of multiples of two and of three vectors.
  pub sum-two :
      (x y : A) (f g : ℕ → A)
      → s.sum n (λ i. s.add (s.mul x (f i)) (s.mul y (g i)))
        ≡ s.add (s.mul x (s.sum n f)) (s.mul y (s.sum n g))
  sum-two x y f g =
      sum-add r n (λ i. s.mul x (f i)) (λ i. s.mul y (g i))
      ∙ rw (mul-sum r n x f, mul-sum r n y g) refl

  pub sum-three :
      (x y : A) (e f g : ℕ → A)
      → s.sum n (λ i. s.add (e i) (s.add (s.mul x (f i)) (s.mul y (g i))))
        ≡ s.add (s.sum n e) (s.add (s.mul x (s.sum n f)) (s.mul y (s.sum n g)))
  sum-three x y e f g = sum-add r n _ _ ∙ ap (s.add _) (sum-two x y f g)

  pub dot_comm : (f g : ℕ → A) → dot f g ≡ dot g f
  dot_comm f g = sum_congr r n (λ i. r.mul_comm (f i) (g i))

  pub dot-three :
      (x y : A) (w e f g : ℕ → A)
      → dot w (λ i. s.add (e i) (s.add (s.mul x (f i)) (s.mul y (g i))))
        ≡ s.add (dot w e) (s.add (s.mul x (dot w f)) (s.mul y (dot w g)))
  dot-three x y w e f g =
      sum_congr r n (λ i. simp (r.mul-add, mul-left_comm r))
      ∙ sum-three x y (λ i. s.mul (w i) (e i)) (λ i. s.mul (w i) (f i)) (λ i. s.mul (w i) (g i))

  -- A vector and a multiple of another, against a third.
  pub dot-add_mul :
      (x : A) (f g w : ℕ → A)
      → dot (λ i. s.add (f i) (s.mul x (g i))) w ≡ s.add (dot f w) (s.mul x (dot g w))
  dot-add_mul x f g w =
      sum_congr r n (λ i. simp (add-mul r, r.mul_assoc))
      ∙ (sum-add r n _ _ ∙ ap (s.add _) (mul-sum r n x (λ i. s.mul (g i) (w i))))

  -- The identity that is left when the sums are taken together.
  pub collect :
      (a₁ a₂ a₃ q₁ q₂ q₃ u k₁ k₂ d dy beta beta' v' res : A)
      → s.add
          (s.add a₁ (
            s.add
              (s.mul d a₂)
              (s.mul (s.add (s.mul beta (s.add v' (s.neg (s.add k₁ k₂)))) (s.mul beta' res)) a₃)))
          (s.mul dy (
            s.add u (
              s.add q₁ (
                s.add (s.mul d q₂) (
                  s.mul
                    (s.add (s.mul beta (s.add v' (s.neg (s.add k₁ k₂)))) (s.mul beta' res))
                    q₃)))))
        ≡ s.add
            (s.add
              (s.add a₁ (s.mul dy q₁))
              (s.mul (s.neg (s.mul (s.add a₃ (s.mul dy q₃)) beta)) k₂))
            (s.add (s.mul dy u) (
              s.add
                (s.add
                  (s.mul d (s.add a₂ (s.mul dy q₂)))
                  (s.mul (s.neg (s.mul (s.add a₃ (s.mul dy q₃)) beta)) k₁))
                (s.add
                  (s.mul (s.mul (s.add a₃ (s.mul dy q₃)) beta) v')
                  (s.mul (s.mul (s.add a₃ (s.mul dy q₃)) res) beta'))))
  collect a₁ a₂ a₃ q₁ q₂ q₃ u k₁ k₂ d dy beta beta' v' res = simp (
    r.mul-add,
    add-mul r,
    neg-mul r,
    mul-neg r,
    neg-add r,
    r.add_assoc,
    r.add_comm,
    add-left_comm r,
    r.mul_assoc,
    r.mul_comm,
    mul-left_comm r,
  )

  pub split_term :
      (a b b' c c' : A)
      → s.mul a (s.add (s.mul b c') (s.mul b' c))
        ≡ s.add (s.mul c' (s.mul a b)) (s.mul c (s.mul a b'))
  split_term a b b' c c' = simp (r.mul-add, r.mul_assoc, r.mul_comm, mul-left_comm r)

  pub scaled_term : (a b c : A) → s.mul (s.mul a b) c ≡ s.mul b (s.mul a c)
  scaled_term a b c = simp (r.mul_assoc, r.mul_comm, mul-left_comm r)

  pub key_term :
      (a b c d e : A)
      → s.mul (s.add (s.mul a b) (s.mul c d)) e ≡ s.add (s.mul b (s.mul a e)) (s.mul d (s.mul c e))
  key_term a b c d e = simp (add-mul r, r.mul_assoc, r.mul_comm, mul-left_comm r)

  pub gather :
      (a b c d e f : A)
      → s.add a (s.add b (s.add c (s.add d (s.add e f))))
        ≡ s.add (s.add a e) (s.add b (s.add c (s.add d f)))
  gather a b c d e f = simp (r.add_assoc, r.add_comm, add-left_comm r)

  pub add_three :
      {a a' b b' c c' : A} (z : A)
      → a ≡ a'
      → b ≡ b'
      → c ≡ c'
      → s.add a (s.add b (s.add c z)) ≡ s.add a' (s.add b' (s.add c' z))
  add_three z same same₂ same₃ i = s.add (same i) (s.add (same₂ i) (s.add (same₃ i) z))
