-- ===== src/Gdn/Vjp/Heads.antt =====
-- The sums over the rows of a head, over the heads, and over the value heads of one key head.
use mlx_spark.Base.{ℕ, zero, suc, ◌+◌, ◌*◌, ◌/◌, ◌<◌, ◌≡◌, sym, ap, ◌∙◌, arith}
use native.Mathlib.Nat.{mul-add-div_right, div-eq_of_lt}
use mlx_spark.Gdn.{Scalar}
use mlx_spark.Gdn.Vjp.Ring.{IsRing, sum_congr, sum-add, sum-mul, sum_comm}

module _ {A : Type 0} {s : Scalar A} (r : IsRing s) where
  -- Five parts that are added up.
  abbrev pub five : A → A → A → A → A → A
  five a b c d e = s.add a (s.add b (s.add c (s.add d e)))

  sum-five :
      (m : ℕ) (a b c d e : ℕ → A)
      → s.sum m (λ i. five (a i) (b i) (c i) (d i) (e i))
        ≡ five (s.sum m a) (s.sum m b) (s.sum m c) (s.sum m d) (s.sum m e)
  sum-five m a b c d e =
      sum-add r m a (λ i. s.add (b i) (s.add (c i) (s.add (d i) (e i))))
      ∙ ap (s.add (s.sum m a)) (
          sum-add r m b (λ i. s.add (c i) (s.add (d i) (e i)))
          ∙ ap (s.add (s.sum m b))
              (sum-add r m c (λ i. s.add (d i) (e i)) ∙ ap (s.add (s.sum m c)) (sum-add r m d e)))

  -- An identity that holds for each index holds of the sums.
  pub sum_identity :
      (m : ℕ) (left out back a b c d e : ℕ → A)
      → ((i : ℕ) → s.add (left i) (out i) ≡ s.add (back i) (five (a i) (b i) (c i) (d i) (e i)))
      → s.add (s.sum m left) (s.sum m out)
        ≡ s.add (s.sum m back) (five (s.sum m a) (s.sum m b) (s.sum m c) (s.sum m d) (s.sum m e))
  sum_identity m left out back a b c d e h =
      sym (sum-add r m left out)
      ∙ (sum_congr r m h
          ∙ (sum-add r m back (λ i. five (a i) (b i) (c i) (d i) (e i))
              ∙ ap (s.add (s.sum m back)) (sum-five m a b c d e)))

  -- The rows of a head share its query and its key.
  shared :
      (m n : ℕ) (x : ℕ → ℕ → A) (y : ℕ → A)
      → s.sum m (λ d. s.sum n (λ i. s.mul (x d i) (y i)))
        ≡ s.sum n (λ i. s.mul (s.sum m (λ d. x d i)) (y i))
  shared m n x y =
      sum_comm r m n (λ d i. s.mul (x d i) (y i))
      ∙ sum_congr r n (λ i. sum-mul r m (y i) (λ d. x d i))

  -- The rows of a head together.
  pub head_identity :
      (m n : ℕ) (left out back c e f : ℕ → A) (x y z : ℕ → ℕ → A) (q' k' : ℕ → A) (g' beta' : A)
      → ((d : ℕ)
          → s.add (left d) (out d)
            ≡ s.add (back d) (
                five
                  (s.sum n (λ i. s.mul (x d i) (q' i)))
                  (s.sum n (λ i. s.mul (s.add (y d i) (z d i)) (k' i)))
                  (c d)
                  (s.mul (e d) g')
                  (s.mul (f d) beta')))
      → s.add (s.sum m left) (s.sum m out)
        ≡ s.add (s.sum m back) (
            five
              (s.sum n (λ i. s.mul (s.sum m (λ d. x d i)) (q' i)))
              (s.sum n (λ i. s.mul (s.add (s.sum m (λ d. y d i)) (s.sum m (λ d. z d i))) (k' i)))
              (s.sum m c)
              (s.mul (s.sum m e) g')
              (s.mul (s.sum m f) beta'))
  head_identity m n left out back c e f x y z q' k' g' beta' h =
      let keys : s.sum m (λ d. s.sum n (λ i. s.mul (s.add (y d i) (z d i)) (k' i)))
          ≡ s.sum n (λ i. s.mul (s.add (s.sum m (λ d. y d i)) (s.sum m (λ d. z d i))) (k' i)) =
        shared m n (λ d i. s.add (y d i) (z d i)) k'
        ∙ sum_congr r n (λ i. ap (λ w. s.mul w (k' i)) (sum-add r m (λ d. y d i) (λ d. z d i))) in
      let queries = shared m n x q' in
      let gates = sum-mul r m g' e in
      let betas = sum-mul r m beta' f in
      sum_identity m left out back (λ d. s.sum n (λ i. s.mul (x d i) (q' i)))
        (λ d. s.sum n (λ i. s.mul (s.add (y d i) (z d i)) (k' i))) c (λ d. s.mul (e d) g')
        (λ d. s.mul (f d) beta') h
      ∙ (λ j. s.add (s.sum m back) (five (queries j) (keys j) (s.sum m c) (gates j) (betas j)))

  sum-append :
      (m n : ℕ) (f : ℕ → A) → s.sum (m + n) f ≡ s.add (s.sum m f) (s.sum n (λ j. f (m + j)))
  sum-append zero n f =
      ap (λ k. s.sum k f) (left_zero n)
      ∙ (sym (ap (λ z. s.add z (s.sum n f)) (r.sum-zero f) ∙ r.zero-add (s.sum n f))
          ∙ ap (s.add (s.sum 0 f)) (sum_congr r n (λ j. ap f (sym (left_zero j)))))
    where
      left_zero : (k : ℕ) → 0 + k ≡ k
      left_zero k = omega arith
  sum-append (suc m) n f =
      ap (λ k. s.sum k f) (next m n)
      ∙ (r.sum-suc (m + n) f
          ∙ (ap (s.add (f 0)) (sum-append m n (λ i. f (suc i)))
              ∙ (sym (r.add_assoc (f 0) (s.sum m (λ i. f (suc i))) (s.sum n (λ j. f (suc (m + j)))))
                  ∙ (ap (λ z. s.add z (s.sum n (λ j. f (suc (m + j))))) (sym (r.sum-suc m f))
                      ∙ ap (s.add (s.sum (suc m) f))
                          (sum_congr r n (λ j. ap f (sym (next m j))))))))
    where
      next : (k j : ℕ) → suc k + j ≡ suc (k + j)
      next k j = omega arith

  -- The indices below m * n, in rows of n.
  sum-rows : (m n : ℕ) (f : ℕ → A) → s.sum (m * n) f ≡ s.sum m (λ i. s.sum n (λ j. f (i * n + j)))
  sum-rows zero n f = ap (λ k. s.sum k f) (none n) ∙ (r.sum-zero f ∙ sym (r.sum-zero _))
    where
      none : (k : ℕ) → 0 * k ≡ 0
      none k = omega arith
  sum-rows (suc m) n f =
      ap (λ k. s.sum k f) (row m n)
      ∙ (sum-append n (m * n) f
          ∙ (ap (s.add (s.sum n f)) (
                sum-rows m n (λ j. f (n + j))
                ∙ sum_congr r m (λ i. sum_congr r n (λ j. ap f (place i j))))
              ∙ (ap (λ z. s.add z (s.sum m (λ i. s.sum n (λ j. f (suc i * n + j)))))
                    (sum_congr r n (λ j. ap f (first j)))
                  ∙ sym (r.sum-suc m (λ i. s.sum n (λ j. f (i * n + j)))))))
    where
      row : (k w : ℕ) → suc k * w ≡ w + k * w
      row k w = omega arith

      place : (i j : ℕ) → n + (i * n + j) ≡ suc i * n + j
      place i j = let next = row i n in omega arith

      first : (j : ℕ) → j ≡ 0 * n + j
      first j = omega arith

  sum_congr_below : (n : ℕ) (f g : ℕ → A) → ((i : ℕ) → i < n → f i ≡ g i) → s.sum n f ≡ s.sum n g
  sum_congr_below zero f g h = r.sum-zero f ∙ sym (r.sum-zero g)
  sum_congr_below (suc n) f g h =
      r.sum-suc n f
      ∙ ((λ j. s.add (h 0 (omega arith) j) (
            sum_congr_below n (λ i. f (suc i)) (λ i. g (suc i)) (λ i below. h (suc i) (omega arith))
              j))
          ∙ sym (r.sum-suc n g))

  -- The value heads of one key head share its entries.
  pub sum-grouped :
      (m w n : ℕ) (x y : ℕ → ℕ → A)
      → s.sum (m * w) (λ h. s.sum n (λ i. s.mul (x h i) (y (h / w) i)))
        ≡ s.sum m (λ head. s.sum n (λ i. s.mul (s.sum w (λ j. x (head * w + j) i)) (y head i)))
  sum-grouped m w n x y =
      sum-rows m w (λ h. s.sum n (λ i. s.mul (x h i) (y (h / w) i)))
      ∙ sum_congr r m (λ head.
        sum_congr_below w
          (λ j. s.sum n (λ i. s.mul (x (head * w + j) i) (y ((head * w + j) / w) i)))
          (λ j. s.sum n (λ i. s.mul (x (head * w + j) i) (y head i)))
          (λ j below.
            ap (λ g. s.sum n (λ i. s.mul (x (head * w + j) i) (y g i))) (same_head head j below))
        ∙ shared w n (λ j i. x (head * w + j) i) (y head))
    where
      same_head : (head j : ℕ) → j < w → (head * w + j) / w ≡ head
      same_head head j below =
          let some_heads : 0 < w = omega arith in
          let whole = mul-add-div_right some_heads head j in
          let part = div-eq_of_lt below in omega arith
