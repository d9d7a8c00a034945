-- ===== src/Gdn/Vjp/Row.antt =====
-- One row of the state in one active step: its cotangents are the transpose of its derivative.
use mlx_spark.Base.{ℕ, ◌≡◌, sym, ap, ◌∙◌}
use mlx_spark.Gdn.{Scalar}
use mlx_spark.Gdn.Vjp.Ring.{IsRing, sum_congr, sum-add, mul-sum}
use mlx_spark.Gdn.Vjp.Inner.{
  dot, sum-two, dot_comm, dot-three, dot-add_mul, collect, split_term, scaled_term, key_term,
  gather, add_three,
}

-- One row with its step: each value with its tangent, and the cotangents of the new state and of the
-- output.
pub record Row (A : Type 0) : Type 0 where
  pub p : ℕ → A
  pub p' : ℕ → A
  pub k : ℕ → A
  pub k' : ℕ → A
  pub q : ℕ → A
  pub q' : ℕ → A
  pub carry : ℕ → A
  pub g : A
  pub g' : A
  pub beta : A
  pub beta' : A
  pub v : A
  pub v' : A
  pub dy : A

module _ {A : Type 0} {s : Scalar A} (r : IsRing s) (n : ℕ) where
  -- The names of the step for one row, with the tangents behind the values.
  module _ (x : Row A) where
    abbrev pub decay : ℕ → A
    decay i = s.mul (x.p i) x.g

    abbrev pub decay' : ℕ → A
    decay' i = s.add (s.mul (x.p i) x.g') (s.mul (x.p' i) x.g)

    abbrev pub res : A
    res = s.sub x.v (dot r n decay x.k)

    abbrev pub res' : A
    res' = s.sub x.v' (s.sum n λ i. s.add (s.mul (decay i) (x.k' i)) (s.mul (decay' i) (x.k i)))

    abbrev pub del : A
    del = s.mul x.beta res

    abbrev pub del' : A
    del' = s.add (s.mul x.beta res') (s.mul x.beta' res)

    abbrev pub up : ℕ → A
    up i = s.add (decay i) (s.mul del (x.k i))

    abbrev pub up' : ℕ → A
    up' i = s.add (decay' i) (s.add (s.mul del (x.k' i)) (s.mul del' (x.k i)))

    abbrev pub du : ℕ → A
    du i = s.add (x.carry i) (s.mul x.dy (x.q i))

    abbrev pub dv : A
    dv = s.mul (dot r n du x.k) x.beta

    abbrev pub dp : ℕ → A
    dp i = s.add (du i) (s.mul (s.neg dv) (x.k i))

    -- The cotangent of the decayed state, against its tangent.
    dot-decay' :
        s.add (s.sum n (λ i. s.mul (s.mul (dp i) x.g) (x.p' i))) (s.mul (dot r n dp x.p) x.g')
        ≡ s.add
            (s.add (dot r n x.carry decay') (s.mul x.dy (dot r n x.q decay')))
            (s.mul (s.neg dv) (dot r n x.k decay'))
    dot-decay' =
        let split : dot r n dp decay'
            ≡ s.add (s.mul x.g' (dot r n dp x.p)) (s.mul x.g (dot r n dp x.p')) =
          sum_congr r n (λ i. split_term r n (dp i) (x.p i) (x.p' i) x.g x.g')
          ∙ sum-two r n x.g' x.g (λ i. s.mul (dp i) (x.p i)) (λ i. s.mul (dp i) (x.p' i)) in
        let left : s.sum n (λ i. s.mul (s.mul (dp i) x.g) (x.p' i)) ≡ s.mul x.g (dot r n dp x.p') =
          sum_congr r n (λ i. scaled_term r n (dp i) x.g (x.p' i))
          ∙ mul-sum r n x.g (λ i. s.mul (dp i) (x.p' i)) in
        let turned : s.add (s.mul x.g (dot r n dp x.p')) (s.mul (dot r n dp x.p) x.g')
            ≡ s.add (s.mul x.g' (dot r n dp x.p)) (s.mul x.g (dot r n dp x.p')) =
          r.add_comm _ _
          ∙ ap (λ z. s.add z (s.mul x.g (dot r n dp x.p'))) (r.mul_comm (dot r n dp x.p) x.g') in
        ap (λ z. s.add z (s.mul (dot r n dp x.p) x.g')) left
        ∙ (turned
            ∙ (sym split
                ∙ (dot-add_mul r n (s.neg dv) du x.k decay'
                    ∙ ap (λ z. s.add z (s.mul (s.neg dv) (dot r n x.k decay')))
                        (dot-add_mul r n x.dy x.carry x.q decay'))))

    -- The tangent of the residual, and the parts of the output and of the cotangents.
    res'-eq : res' ≡ s.add x.v' (s.neg (s.add (dot r n decay x.k') (dot r n x.k decay')))
    res'-eq =
        let sums : s.sum n (λ i. s.add (s.mul (decay i) (x.k' i)) (s.mul (decay' i) (x.k i)))
            ≡ s.add (dot r n decay x.k') (dot r n x.k decay') =
          sum-add r n (λ i. s.mul (decay i) (x.k' i)) (λ i. s.mul (decay' i) (x.k i))
          ∙ ap (s.add (dot r n decay x.k')) (dot_comm r n decay' x.k) in
        r.sub-neg x.v' _ ∙ ap (λ z. s.add x.v' (s.neg z)) sums

    output' :
        s.sum n (λ i. s.add (s.mul (up i) (x.q' i)) (s.mul (up' i) (x.q i)))
        ≡ s.add (dot r n up x.q') (
            s.add
              (dot r n x.q decay')
              (s.add (s.mul del (dot r n x.q x.k')) (s.mul del' (dot r n x.q x.k))))
    output' =
        sum-add r n (λ i. s.mul (up i) (x.q' i)) (λ i. s.mul (up' i) (x.q i))
        ∙ ap (s.add (dot r n up x.q'))
            (dot_comm r n up' x.q ∙ dot-three r n del del' x.q decay' x.k' x.k)

    query_part : s.sum n (λ i. s.mul (s.mul (up i) x.dy) (x.q' i)) ≡ s.mul x.dy (dot r n up x.q')
    query_part =
        sum_congr r n (λ i. scaled_term r n (up i) x.dy (x.q' i))
        ∙ mul-sum r n x.dy (λ i. s.mul (up i) (x.q' i))

    key_part :
        s.sum n (λ i. s.mul (s.add (s.mul (du i) del) (s.mul (decay i) (s.neg dv))) (x.k' i))
        ≡ s.add
            (s.mul del (s.add (dot r n x.carry x.k') (s.mul x.dy (dot r n x.q x.k'))))
            (s.mul (s.neg dv) (dot r n decay x.k'))
    key_part =
        sum_congr r n (λ i. key_term r n (du i) del (decay i) (s.neg dv) (x.k' i))
        ∙ (sum-two r n del (s.neg dv) (λ i. s.mul (du i) (x.k' i)) (λ i. s.mul (decay i) (x.k' i))
            ∙ ap (λ z. s.add (s.mul del z) (s.mul (s.neg dv) (dot r n decay x.k')))
                (dot-add_mul r n x.dy x.carry x.q x.k'))

    -- The row of an active step: the cotangents of its results, against the tangents of these, are
    -- those of its arguments against theirs.
    pub row_transpose :
        s.add
          (dot r n x.carry up')
          (s.mul x.dy (s.sum n λ i. s.add (s.mul (up i) (x.q' i)) (s.mul (up' i) (x.q i))))
        ≡ s.add (s.sum n (λ i. s.mul (s.mul (dp i) x.g) (x.p' i))) (
            s.add (s.sum n (λ i. s.mul (s.mul (up i) x.dy) (x.q' i))) (
              s.add
                (s.sum n
                  (λ i. s.mul (s.add (s.mul (du i) del) (s.mul (decay i) (s.neg dv))) (x.k' i)))
                (s.add (s.mul dv x.v') (
                  s.add
                    (s.mul (dot r n dp x.p) x.g')
                    (s.mul (s.mul (dot r n du x.k) res) x.beta')))))
    row_transpose =
        ap
          (λ z.
            s.add z
              (s.mul x.dy (s.sum n λ i. s.add (s.mul (up i) (x.q' i)) (s.mul (up' i) (x.q i)))))
          (dot-three r n del del' x.carry decay' x.k' x.k)
        ∙ (ap
              (λ z.
                s.add
                  (s.add (dot r n x.carry decay')
                    (s.add (s.mul del (dot r n x.carry x.k')) (s.mul del' (dot r n x.carry x.k))))
                  (s.mul x.dy z))
              output'
            ∙ (ap results res'-eq
                ∙ (collect r n (dot r n x.carry decay') (dot r n x.carry x.k') (dot r n x.carry x.k)
                      (dot r n x.q decay') (dot r n x.q x.k') (dot r n x.q x.k) (dot r n up x.q')
                      (dot r n decay x.k') (dot r n x.k decay') del x.dy x.beta x.beta' x.v' res
                    ∙ (sym (ap causes (dot-add_mul r n x.dy x.carry x.q x.k))
                        ∙ sym (
                            gather r n _ _ _ _ _ _
                            ∙ add_three r n
                                (s.add (s.mul dv x.v') (s.mul (s.mul (dot r n du x.k) res) x.beta'))
                                dot-decay' query_part key_part)))))
      where
        -- The results by the tangent of the residual, and the causes by `dd`.
        results : A → A
        results z =
            let moved = s.add (s.mul x.beta z) (s.mul x.beta' res) in
            s.add
              (s.add (dot r n x.carry decay')
                (s.add (s.mul del (dot r n x.carry x.k')) (s.mul moved (dot r n x.carry x.k))))
              (s.mul x.dy (
                s.add (dot r n up x.q') (
                  s.add (dot r n x.q decay')
                    (s.add (s.mul del (dot r n x.q x.k')) (s.mul moved (dot r n x.q x.k))))))

        causes : A → A
        causes d =
            let back = s.neg (s.mul d x.beta) in
            s.add
              (s.add (s.add (dot r n x.carry decay') (s.mul x.dy (dot r n x.q decay')))
                (s.mul back (dot r n x.k decay')))
              (s.add (s.mul x.dy (dot r n up x.q')) (
                s.add
                  (s.add (s.mul del (s.add (dot r n x.carry x.k') (s.mul x.dy (dot r n x.q x.k'))))
                    (s.mul back (dot r n decay x.k')))
                  (s.add (s.mul (s.mul d x.beta) x.v') (s.mul (s.mul d res) x.beta'))))

    -- The tangent of the output.
    abbrev pub out' : A
    out' = s.sum n λ i. s.add (s.mul (up i) (x.q' i)) (s.mul (up' i) (x.q i))

    -- The cotangents of the arguments other than the state, against their tangents.
    abbrev pub terms : A
    terms = s.add (s.sum n (λ i. s.mul (s.mul (up i) x.dy) (x.q' i))) (
        s.add
          (s.sum n (λ i. s.mul (s.add (s.mul (du i) del) (s.mul (decay i) (s.neg dv))) (x.k' i)))
          (s.add (s.mul dv x.v')
            (s.add (s.mul (dot r n dp x.p) x.g') (s.mul (s.mul (dot r n du x.k) res) x.beta'))))
