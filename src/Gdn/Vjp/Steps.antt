-- ===== src/Gdn/Vjp/Steps.antt =====
-- One row of the state in one step, active or masked out.
use mlx_spark.Base.{ℕ, Bool, true, false, if◌then◌else◌, ◌≡◌, refl, sym, ap, ◌∙◌}
use mlx_spark.Gdn.{Scalar}
use mlx_spark.Gdn.Vjp.Ring.{IsRing, zero-mul, mul-zero, add-zero, neg-zero, sum_congr, sum-nothing}
use mlx_spark.Gdn.Vjp.Inner.{dot}
use mlx_spark.Gdn.Vjp.Row.{Row, du, dv, dp, up', out', terms, row_transpose}

module _ {A : Type 0} {s : Scalar A} (r : IsRing s) (n : ℕ) where
  dot-zero : (f g : ℕ → A) → ((i : ℕ) → f i ≡ s.nothing) → dot r n f g ≡ s.nothing
  dot-zero f g h =
      sum_congr r n (λ i. ap (λ z. s.mul z (g i)) (h i) ∙ zero-mul r (g i)) ∙ sum-nothing r n

  -- The cotangents of the new state and of the output are taken where the step is active.
  abbrev pub masked : Bool → Row A → Row A
  masked on x = record x {
    carry = λ i. if on then x.carry i else s.nothing;
    dy = if on then x.dy else s.nothing;
  }

  module _ (x : Row A) where
    du-zero : (i : ℕ) → du r n (masked false x) i ≡ s.nothing
    du-zero i = ap (s.add s.nothing) (zero-mul r (x.q i)) ∙ add-zero r s.nothing

    dr-zero : s.neg (dv r n (masked false x)) ≡ s.nothing
    dr-zero =
        ap (λ z. s.neg (s.mul z x.beta)) (dot-zero (du r n (masked false x)) x.k du-zero)
        ∙ (ap s.neg (zero-mul r x.beta) ∙ neg-zero r)

    dp-zero : (i : ℕ) → dp r n (masked false x) i ≡ s.nothing
    dp-zero i =
        ap (λ z. s.add z (s.mul (s.neg (dv r n (masked false x))) (x.k i))) (du-zero i)
        ∙ (ap (λ z. s.add s.nothing (s.mul z (x.k i))) dr-zero
            ∙ (ap (s.add s.nothing) (zero-mul r (x.k i)) ∙ add-zero r s.nothing))

    -- A masked step has no cotangents of its own.
    terms-zero : terms r n (masked false x) ≡ s.nothing
    terms-zero =
        let moved : s.sum n (λ i. s.mul (s.mul (dp r n (masked false x) i) x.g) (x.p' i))
            ≡ s.nothing =
          dot-zero (λ i. s.mul (dp r n (masked false x) i) x.g) x.p'
            (λ i. ap (λ z. s.mul z x.g) (dp-zero i) ∙ zero-mul r x.g) in
        sym (r.zero-add (terms r n (masked false x)))
        ∙ (ap (λ z. s.add z (terms r n (masked false x))) (sym moved)
            ∙ (sym (row_transpose r n (masked false x))
                ∙ (ap (λ z. s.add z (s.mul s.nothing (out' r n (masked false x))))
                      (dot-zero (λ i. s.nothing) (up' r n (masked false x)) (λ i. refl))
                    ∙ (ap (s.add s.nothing) (zero-mul r (out' r n (masked false x)))
                        ∙ add-zero r s.nothing))))

  pub masked_transpose :
      (on : Bool) (x : Row A)
      → s.add
          (dot r n x.carry (λ i. if on then up' r n (masked on x) i else x.p' i))
          (s.mul x.dy (if on then out' r n (masked on x) else s.nothing))
        ≡ s.add
            (s.sum n
              (λ i. s.mul (if on then s.mul (dp r n (masked on x) i) x.g else x.carry i) (x.p' i)))
            (terms r n (masked on x))
  masked_transpose true x = row_transpose r n x
  masked_transpose false x =
      ap (s.add (dot r n x.carry x.p')) (mul-zero r x.dy ∙ sym (terms-zero x))
