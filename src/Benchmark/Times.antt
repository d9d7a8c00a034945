-- ===== src/Benchmark/Times.antt =====
-- Which times make a series.
use mlx_spark.Base.{
  ℕ, zero, suc, ◌≤◌, ◌<◌, List, [], ◌∷◌, Bool, true, false, not, leb, length, if◌then◌else◌, All,
  ◌≡◌, ◌↔◌, refl, sym, ap, ◌∙◌, arith, inl, inr, Bool-cases,
}
use mathlib.Core.Path.{subst}
use mlx_spark.Base.Result.{Result, ok, >>=-eq-ok, require-eq-ok, ok-injective}
use mlx_spark.Base.Int.{pos, negsuc}
use mlx_spark.Json.{Json, nan, infinite, finite, bool, int, float}
use mlx_spark.Benchmark.{
  BenchmarkError, bad_times, double_limit, bad_time, any_bad, positive_tokens, TimingSeries,
  timing_series,
}

-- A time that is accepted: a positive number, below the bound of the doubles where it is an integer.
pub data IsTime : Json → Type 0 where
  one : IsTime (bool true)
  whole : {n : ℕ} → 0 < n → n < double_limit → IsTime (int (pos n))
  part : {n k : ℕ} → 0 < n → IsTime (float (finite (pos n) k))

bad_time-IsTime : (v : Json) → bad_time v ≡ ok false → IsTime v
bad_time-IsTime (bool true) h = one
bad_time-IsTime (bool false) h = cc
bad_time-IsTime (int (pos n)) h = whole (ground arith) (ground arith)
bad_time-IsTime (int (negsuc n)) h = absurd (ground arith)
bad_time-IsTime (float (finite (pos n) k)) h = part (ground arith)
bad_time-IsTime (float (finite (negsuc n) k)) h = cc
bad_time-IsTime (float nan) h = cc
bad_time-IsTime (float (infinite up)) h = cc
bad_time-IsTime v h = cc

IsTime-bad_time : {v : Json} → IsTime v → bad_time v ≡ ok false
IsTime-bad_time one = refl
IsTime-bad_time (whole h below) = ground arith
IsTime-bad_time (part h) = ground arith

any_bad_iff : (vs : List Json) → (any_bad vs ≡ ok false) ↔ All IsTime vs
unfolding any_bad
any_bad_iff [] = (λ h. tt, λ h. refl)
any_bad_iff (v ∷ vs) = (
  λ h.
      let (bad, e, h₁) = >>=-eq-ok (bad_time v) (λ bad. if bad then ok true else any_bad vs) h in
      elim (Bool-cases bad) [
        | inl is_bad ↦ cc (rw is_bad at h₁)
        | inr good ↦ (bad_time-IsTime v (e ∙ ap ok good), (any_bad_iff vs).0 (rw good at h₁))
      ],
  λ (first, later). rw (IsTime-bad_time first, (any_bad_iff vs).1 later) refl,
)

positive_tokens_iff :
    (v : Json) (n : ℕ) → (positive_tokens v ≡ ok n) ↔ ((v ≡ int (pos n)) × (0 < n))
positive_tokens_iff (int (pos (suc m))) n =
    (λ h. (ground arith, ground arith), λ (h, _). ground arith)
positive_tokens_iff (int (pos zero)) n = (λ h. cc, λ (h, below). absurd (ground arith))
positive_tokens_iff (int (negsuc m)) n = (λ h. cc, λ (h, _). cc)
positive_tokens_iff v n = (λ h. cc, λ (h, _). cc)

-- What the constructor accepts.
pub record IsSeries (seconds : List Json) (tokens : Json) (s : TimingSeries) : Type 0 where
  pub same : s.seconds ≡ seconds
  pub repeated : 2 ≤ length seconds
  pub times : All IsTime seconds
  pub counted : tokens ≡ int (pos s.tokens)
  pub some_token : 0 < s.tokens

at_least_two :
    (n : ℕ) (rest : Result BenchmarkError Bool)
    → (if leb n 1 then ok true else rest) ≡ ok false
    → (2 ≤ n) × (rest ≡ ok false)
at_least_two n rest h = elim (Bool-cases (leb n 1)) [
  | inl few ↦ cc (rw few at h)
  | inr more ↦ (ground arith, rw more at h)
]

not-eq-true : (b : Bool) → not b ≡ true → b ≡ false
not-eq-true true h = cc
not-eq-true false h = refl

-- A series is made exactly of at least two times, all positive, and finite as doubles, and of a
-- positive integer of tokens; it keeps them.
pub timing_series_iff :
    (seconds : List Json) (tokens : Json) (s : TimingSeries)
    → (timing_series seconds tokens ≡ ok s) ↔ IsSeries seconds tokens s
unfolding timing_series
timing_series_iff seconds tokens s = (
  λ h.
      let (bad, e₁, h₁) =
        >>=-eq-ok (if leb (length seconds) 1 then ok true else any_bad seconds) _ h in
      let (good, h₂) = require-eq-ok (not bad) bad_times _ h₁ in
      let (n, e₃, h₃) = >>=-eq-ok (positive_tokens tokens) _ h₂ in
      let (many, times) =
        at_least_two (length seconds) (any_bad seconds) (e₁ ∙ ap ok (not-eq-true bad good)) in
      let (is_n, positive) = (positive_tokens_iff tokens n).0 e₃ in
      subst (IsSeries seconds tokens) (ok-injective h₃) (record {
        same = refl;
        repeated = many;
        times = (any_bad_iff seconds).0 times;
        counted = is_n;
        some_token = positive;
      }),
  λ i.
      let many : leb (length seconds) 1 ≡ false = more_than_one (length seconds) i.repeated in
      rw
        (
          many,
          (any_bad_iff seconds).1 i.times,
          (positive_tokens_iff tokens s.tokens).1 (i.counted, i.some_token),
          sym i.same,
        )
        refl,
)
  where
    more_than_one : (n : ℕ) → 2 ≤ n → leb n 1 ≡ false
    more_than_one n h = ground arith
