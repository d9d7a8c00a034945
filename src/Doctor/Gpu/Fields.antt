-- ===== src/Doctor/Gpu/Fields.antt =====
-- Cutting lines and fields that have no separators in them.
use mlx_spark.Base.{
  ℕ, [], ◌∷◌, ◌++◌, Bool, true, false, not, ◌&&◌, some, all, any, nat_eq, ◌==◌, ==_iff, ◌≡◌, ◌≢◌,
  refl, arith, Bool-cases, inl, inr,
}
use mlx_spark.Base.Text.{codes, codes_eq, extend}
use mlx_spark.Base.Lines.{is_space, is_line_end, split_lines, cut, strip, strip_start, strip_end}
use mlx_spark.Doctor.{Text}

abbrev pub is_plain : ℕ → Bool
is_plain c = not (c == b',') && not (is_line_end c)

-- No comma, no line end, and no space at the ends.
abbrev pub IsField : Text → Type 0
IsField f = (all is_plain f ≡ true) × (strip f ≡ f)

pub split_lines-line :
    (line rest : Text)
    → all (λ c. not (is_line_end c)) line ≡ true
    → split_lines (line ++ (10 ∷ rest)) ≡ line ∷ split_lines rest
unfolding split_lines nat_eq
split_lines-line [] rest h = refl
split_lines-line (c ∷ line) rest h = elim (Bool-cases (is_line_end c)) [
  | inl ends ↦ cc (rw ends at h)
  | inr other ↦
      rw (split_lines, other, split_lines-line line rest (rw other at h)) (unfold extend in refl)
]

pub cut-comma :
    (a b : Text) → all is_plain a ≡ true → cut (codes ",") (a ++ (b',' ∷ b)) ≡ some (a, b)
unfolding cut nat_eq
cut-comma [] b h = refl
cut-comma (c ∷ a) b h = elim (Bool-cases (c == b',')) [
  | inl comma ↦ cc (rw comma at h)
  | inr other ↦ rw (other, cut-comma a b (later c a h)) refl
]
  where
    later : (c : ℕ) (a : Text) → all is_plain (c ∷ a) ≡ true → all is_plain a ≡ true
    later c a h = ground arith

pub strip-space : (f : Text) → strip f ≡ f → strip (b' ' ∷ f) ≡ f
unfolding strip strip_start nat_eq
strip-space f h = h

abbrev pub is_visible : ℕ → Bool
is_visible c = not (is_space c)

pub any-append : (p : ℕ → Bool) (a b : Text) (c : ℕ) → p c ≡ true → any p (a ++ (c ∷ b)) ≡ true
any-append p [] b c h = rw h refl
any-append p (x ∷ a) b c h = elim (Bool-cases (p x)) [
  | inl e ↦ rw e refl
  | inr e ↦ rw e (any-append p a b c h)
]

pub strip_start-any :
    (cs : Text) → any is_visible cs ≡ true → any is_visible (strip_start is_space cs) ≡ true
unfolding strip_start
strip_start-any [] h = cc
strip_start-any (c ∷ cs) h = elim (Bool-cases (is_space c)) [
  | inl e ↦ rw (strip_start, e) (strip_start-any cs (rw e at h))
  | inr e ↦ rw (strip_start, e) (rw e refl)
]

pub strip_end-ne-nil : (cs : Text) → any is_visible cs ≡ true → strip_end is_space cs ≢ []
unfolding strip_end
strip_end-ne-nil [] h e = cc
strip_end-ne-nil (c ∷ cs) h e = elim (Bool-cases (is_space c)) [
  | inl space ↦
      let more : (strip_end is_space cs == []) ≡ false =
        elim (Bool-cases (strip_end is_space cs == [])) [
          | inl same ↦ absurd (strip_end-ne-nil cs (rw space at h) ((==_iff _ _).0 same))
          | inr other ↦ other
        ] in
      cc (rw (strip_end, space, more) at e)
  | inr visible ↦ cc (rw (strip_end, visible) at e)
]

pub not-line_end : (f : Text) → all is_plain f ≡ true → all (λ c. not (is_line_end c)) f ≡ true
not-line_end [] h = refl
not-line_end (c ∷ f) h = elim (Bool-cases (is_line_end c)) [
  | inl ends ↦ absurd (ground arith)
  | inr other ↦ rw other (not-line_end f (ground arith))
]
