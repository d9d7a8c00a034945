-- ===== src/Gdn/Slices.antt =====
-- The steps of a chunk are steps of the whole sequence.
use mlx_spark.Base.{
  ℕ, zero, suc, ◌+◌, List, [], ◌∷◌, ◌++◌, Bool, true, ◌&&◌, Option, none, some, nat_eq, ◌==◌,
  if◌then◌else◌, ◌≡◌, refl, ap, ◌∙◌, arith, Bool-cases, inl, inr,
}
use mlx_spark.Base.Maybe.{some-injective}
use mlx_spark.Base.Text.{codes_eq}
use mlx_spark.Gdn.{
  Scalar, Tensor, Sizes, sizes_of, State, Arguments, mask_of, query, updated, next_state, output,
  loop,
}

-- `x[:, start:start+count]`
abbrev pub slice_shape : ℕ → List ℕ → List ℕ
slice_shape count [] = []
slice_shape count (b ∷ []) = b ∷ []
slice_shape count (b ∷ t ∷ rest) = b ∷ count ∷ rest

abbrev shift : ℕ → List ℕ → List ℕ
shift start [] = []
shift start (b ∷ []) = b ∷ []
shift start (b ∷ t ∷ rest) = b ∷ (start + t) ∷ rest

abbrev pub slice : {A : Type 0} → ℕ → ℕ → Tensor A → Tensor A
slice start count x = record {
  shape = slice_shape count x.shape;
  entry = λ is. x.entry (shift start is);
}

abbrev pub slice_mask : ℕ → ℕ → Option (Tensor Bool) → Option (Tensor Bool)
slice_mask start count none = none
slice_mask start count (some m) = some (slice start count m)

-- The steps from one on, with a state of their own.
abbrev pub chunk : {A : Type 0} → Arguments A → ℕ → ℕ → Option (Tensor A) → Arguments A
chunk a start count state = record {
  q = slice start count a.q;
  k = slice start count a.k;
  v = slice start count a.v;
  g = slice start count a.g;
  beta = slice start count a.beta;
  state = state;
  mask = slice_mask start count a.mask;
  mask_is_bool = a.mask_is_bool;
}

shortened : ℕ → Sizes → Sizes
shortened count n = record n { steps = count }

pub sizes_of-slice :
    (count : ℕ) (q v : List ℕ) (n : Sizes)
    → sizes_of q v ≡ some n
    → sizes_of (slice_shape count q) (slice_shape count v) ≡ some (record n { steps = count })
unfolding shortened
sizes_of-slice count (b ∷ t ∷ hk ∷ dk ∷ []) (vb ∷ vt ∷ hv ∷ dv ∷ []) n h =
    elim (Bool-cases (b == vb && t == vt)) [
      | inr other ↦ cc (rw other at h)
      | inl same ↦
          rw (count_same b vb t vt count same)
            (ap some (ap (shortened count) (some-injective (rw same at h))))
    ]
  where
    count_same :
        (b vb t vt count : ℕ) → b == vb && t == vt ≡ true → b == vb && count == count ≡ true
    count_same b vb t vt count h = ground arith
sizes_of-slice count q v n h = cc

module _ {A : Type 0} (scalar : Scalar A) where
  -- A state as an array.
  abbrev pub state_tensor : Sizes → State A → Tensor A
  state_tensor n s = record {
    shape = n.batch ∷ n.value_heads ∷ n.value_dim ∷ n.key_dim ∷ [];
    entry = λ is. entry_of is;
  }
    where
      entry_of : List ℕ → A
      entry_of (b ∷ h ∷ d ∷ k ∷ []) = s b h d k
      entry_of is = scalar.nothing

  pub loop-append :
      (n : Sizes) (a : Arguments A) (t m k : ℕ) (s : State A)
      → loop scalar n a t (m + k) s ≡ (
        (loop scalar n a t m s).0 ++ (loop scalar n a (t + m) k (loop scalar n a t m s).1).0,
        (loop scalar n a (t + m) k (loop scalar n a t m s).1).1,
      )
  unfolding loop
  loop-append n a t zero k s =
      ap (λ j. loop scalar n a t j s) (left_zero k)
      ∙ ap (λ u. ((loop scalar n a u k s).0, (loop scalar n a u k s).1)) (right_zero t)
    where
      left_zero : (k : ℕ) → 0 + k ≡ k
      left_zero k = omega arith

      right_zero : (t : ℕ) → t ≡ t + 0
      right_zero t = omega arith
  loop-append n a t (suc m) k s =
      let next = next_state scalar n a t s in
      let one = loop scalar n a (suc t) m next in
      ap (λ j. loop scalar n a t j s) (left_suc m k)
      ∙ (ap (λ r. (output scalar n a t s ∷ r.0, r.1)) (loop-append n a (suc t) m k next)
          ∙ ap
              (λ u. (
                output scalar n a t s ∷ (one.0 ++ (loop scalar n a u k one.1).0),
                (loop scalar n a u k one.1).1,
              ))
              (moved t m))
    where
      left_suc : (m k : ℕ) → suc m + k ≡ suc (m + k)
      left_suc m k = omega arith

      moved : (t m : ℕ) → suc t + m ≡ t + suc m
      moved t m = omega arith

  -- The mask of a chunk is that of the whole, later.
  mask_of-slice :
      (n : Sizes) (count start : ℕ) (mask : Option (Tensor Bool)) (b t : ℕ)
      → (mask_of scalar (record n { steps = count }) (slice_mask start count mask)).entry
          (b ∷ t ∷ [])
        ≡ (mask_of scalar n mask).entry (b ∷ (start + t) ∷ [])
  mask_of-slice n count start none b t = refl
  mask_of-slice n count start (some m) b t = refl

  module _ (n : Sizes) (a : Arguments A) (start count : ℕ) (state : Option (Tensor A)) where
    abbrev part : Arguments A
    part = chunk a start count state

    abbrev short : Sizes
    short = record n { steps = count }

    next_state-slice :
        (t : ℕ) (s : State A)
        → next_state scalar short part t s ≡ next_state scalar n a (start + t) s
    unfolding next_state
    next_state-slice t s i b h d k =
        if mask_of-slice n count start a.mask b t i
        then updated scalar n a (start + t) s b h d k
        else s b h d k

    output-slice :
        (t : ℕ) (s : State A) → output scalar short part t s ≡ output scalar n a (start + t) s
    unfolding output
    output-slice t s i b h d =
        if mask_of-slice n count start a.mask b t i
        then scalar.sum n.key_dim (λ j.
          scalar.mul (updated scalar n a (start + t) s b h d j)
            (query scalar n a (start + t) s b h j))
        else scalar.nothing

    pub loop-slice :
        (t m : ℕ) (s : State A) → loop scalar short part t m s ≡ loop scalar n a (start + t) m s
    unfolding loop
    loop-slice t zero s = refl
    loop-slice t (suc m) s =
        let next = next_state scalar n a (start + t) s in
        let first = output scalar short part t s in
        ap
          (λ after. (
            first ∷ (loop scalar short part (suc t) m after).0,
            (loop scalar short part (suc t) m after).1,
          ))
          (next_state-slice t s)
        ∙ (ap (λ r. (first ∷ r.0, r.1)) (loop-slice (suc t) m next)
            ∙ (ap (λ u. (first ∷ (loop scalar n a u m next).0, (loop scalar n a u m next).1))
                  (right_suc start t)
                ∙ ap
                    (λ o. (
                      o ∷ (loop scalar n a (suc (start + t)) m next).0,
                      (loop scalar n a (suc (start + t)) m next).1,
                    ))
                    (output-slice t s)))
      where
        right_suc : (start t : ℕ) → start + suc t ≡ suc (start + t)
        right_suc start t = omega arith
