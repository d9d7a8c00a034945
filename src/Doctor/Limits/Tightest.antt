-- ===== src/Doctor/Limits/Tightest.antt =====
-- The report of a hierarchy is its tightest level.
use mlx_spark.Base.{
  ℕ, suc, ◌+◌, ◌-◌, leb, ap, arith, true, false, Option, none, some, nat_eq, ◌==◌, ==_iff, ◌≡◌, ◌≢◌,
  inl, inr, sym, ◌∙◌, Bool-cases, Option-cases,
}
use mathlib.Core.Path.{subst}
use mlx_spark.Base.Result.{ok, ◌>>=◌, >>=-eq-ok, ok-injective}
use mlx_spark.Base.Int.{ℤ, pos, negsuc, plus}
use mlx_spark.Base.Text.{codes, codes_eq}
use mlx_spark.Base.Lines.{strip}
use mlx_spark.Doctor.{Text}
use mlx_spark.Doctor.Integer.{int_of}
use mlx_spark.Doctor.Limits.{Level, headroom, is_unlimited, parse_cgroup_limit, usage_at, level_of}

-- What a use leaves of a limit: the limit is that much more than the use, or it is not above the
-- use and nothing is left.
pub data IsHeadroom : ℤ → ℤ → ℕ → Type 0 where
  remaining :
      {limit current : ℤ} {available : ℕ}
      → limit ≡ plus current available
      → IsHeadroom limit current available
  used_up : {limit current : ℤ} (over : ℕ) → current ≡ plus limit over → IsHeadroom limit current 0

headroom-IsHeadroom : (limit current : ℤ) → IsHeadroom limit current (headroom limit current)
headroom-IsHeadroom (pos a) (pos b) = elim (Bool-cases (leb b a)) [
  | inl enough ↦ remaining (ap pos (ground arith))
  | inr less ↦
      subst (IsHeadroom (pos a) (pos b)) (ground arith) (used_up (b - a) (ap pos (ground arith)))
]
headroom-IsHeadroom (pos a) (negsuc b) = remaining (ground arith)
headroom-IsHeadroom (negsuc a) (pos b) = used_up (suc a + b) (ground arith)
headroom-IsHeadroom (negsuc a) (negsuc b) = elim (Bool-cases (leb a b)) [
  | inl enough ↦ remaining (ground arith)
  | inr less ↦
      subst (IsHeadroom (negsuc a) (negsuc b)) (ground arith) (used_up (a - b) (ground arith))
]

module _ (digit : ℕ → Option ℕ) where
  -- What a text says of the limit: none, or a finite one.
  pub data IsLimit (version : ℕ) (text : Text) : Option ℤ → Type 0 where
    max : strip text ≡ codes "max" → IsLimit version text none
    sentinel :
        {n : ℤ}
        → int_of digit (strip text) ≡ some n
        → is_unlimited version n ≡ true
        → IsLimit version text none
    finite :
        {n : ℤ}
        → strip text ≢ codes "max"
        → int_of digit (strip text) ≡ some n
        → is_unlimited version n ≡ false
        → IsLimit version text (some n)

  -- What the two texts of a level say: no controller, no limit, or a limit, the use and what is
  -- left.
  pub data IsLevel (version : ℕ) : Option Text → Option Text → Option Level → Type 0 where
    absent : IsLevel version none none none
    unlimited :
        {text : Text} {usage : Option Text}
        → IsLimit version text none
        → IsLevel version (some text) usage none
    limited :
        {text used : Text} {n current : ℤ} {available : ℕ}
        → IsLimit version text (some n)
        → int_of digit (strip used) ≡ some current
        → IsHeadroom n current available
        → IsLevel version
            (some text)
            (some used)
            (some (record { available = available; limit = n; current = current }))

  parse_cgroup_limit-IsLimit :
      (version : ℕ) (text : Text) (limit : Option ℤ)
      → parse_cgroup_limit digit text version ≡ ok limit
      → IsLimit version text limit
  unfolding parse_cgroup_limit
  parse_cgroup_limit-IsLimit version text limit h = elim (Bool-cases (strip text == codes "max")) [
    | inl top ↦ subst (IsLimit version text) (ok-injective (rw top at h)) (max ((==_iff _ _).0 top))
    | inr other ↦ elim (Option-cases (int_of digit (strip text))) [
      | inl bad ↦ cc (rw (other, bad) at h)
      | inr (n, is_n) ↦ elim (Bool-cases (is_unlimited version n)) [
        | inl above ↦
            subst (IsLimit version text) (ok-injective (rw (other, is_n, above) at h))
              (sentinel is_n above)
        | inr below ↦
            subst (IsLimit version text) (ok-injective (rw (other, is_n, below) at h))
              (finite (λ e. cc (sym other ∙ (==_iff (strip text) (codes "max")).1 e)) is_n below)
      ]
    ]
  ]

  usage_at-IsLevel :
      (version : ℕ) (text : Text) (n : ℤ) (usage : Option Text) (level : Level)
      → IsLimit version text (some n)
      → usage_at digit n usage ≡ ok level
      → IsLevel version (some text) usage (some level)
  unfolding usage_at
  usage_at-IsLevel version text n none level limit h = cc
  usage_at-IsLevel version text n (some used) level limit h =
      elim (Option-cases (int_of digit (strip used))) [
        | inl bad ↦ cc (rw (usage_at, bad) at h)
        | inr (current, is_current) ↦
            subst (λ l. IsLevel version (some text) (some used) (some l))
              (ok-injective (rw (usage_at, is_current) at h))
              (limited limit is_current (headroom-IsHeadroom n current))
      ]

  pub level_of-IsLevel :
      (version : ℕ) (text usage : Option Text) (o : Option Level)
      → level_of digit version text usage ≡ ok o
      → IsLevel version text usage o
  unfolding level_of
  level_of-IsLevel version none none o h = subst (IsLevel version none none) (ok-injective h) absent
  level_of-IsLevel version none (some used) o h = cc
  level_of-IsLevel version (some text) usage o h =
      let (limit, e, h₁) = >>=-eq-ok (parse_cgroup_limit digit text version) _ h in
      by_limit limit (parse_cgroup_limit-IsLimit version text limit e) h₁
    where
      by_limit :
          (limit : Option ℤ)
          → IsLimit version text limit
          → (elim limit [
            | none ↦ ok none
            | some n ↦ usage_at digit n usage >>= λ level. ok (some level)
          ])
            ≡ ok o
          → IsLevel version (some text) usage o
      by_limit none i h = subst (IsLevel version (some text) usage) (ok-injective h) (unlimited i)
      by_limit (some n) i h =
          let (level, e, h₁) = >>=-eq-ok (usage_at digit n usage) _ h in
          subst (IsLevel version (some text) usage) (ok-injective h₁)
            (usage_at-IsLevel version text n usage level i e)
