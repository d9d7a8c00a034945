-- ===== src/Evidence/Refs/Immutable.antt =====
-- Where the texts pass, none of them moves, however deep it stands.
use mlx_spark.Base.{
  ℕ, String, List, [], ◌∷◌, ◌++◌, Bool, true, false, not, ◌||◌, nat_eq, ◌==◌, ==_iff, contains, All,
  ◌≡◌, ◌≢◌, ◌⊎◌, refl, ap, sym, ◌∙◌, arith, inl, inr, Bool-cases,
}
use mlx_spark.Base.Result.{ok}
use mlx_spark.Base.Text.{codes, codes_eq}
use mlx_spark.Json.{Json, str, list, dict, Items, nil, cons, Fields, end, field}
use mlx_spark.Evidence.{Files}
use mlx_spark.Evidence.Checks.Met.{require_that-eq-ok}
use mlx_spark.Evidence.Refs.{
  strings_of, item_strings, field_strings, main, master, latest, forbidden, ends_part, part_at,
  mutable_url, check_strings,
}

-- The text stands in the value, as a text or as a key.
mutual
  pub data StandsIn (t : String) : Json → Type 0 where
    itself : StandsIn t (str t)
    in_list : {xs : Items} → StandsInItems t xs → StandsIn t (list xs)
    in_dict : {fs : Fields} → StandsInFields t fs → StandsIn t (dict fs)

  pub data StandsInItems (t : String) : Items → Type 0 where
    in_item : {v : Json} {xs : Items} → StandsIn t v → StandsInItems t (cons v xs)
    in_later : {v : Json} {xs : Items} → StandsInItems t xs → StandsInItems t (cons v xs)

  pub data StandsInFields (t : String) : Fields → Type 0 where
    as_key : {v : Json} {fs : Fields} → StandsInFields t (field t v fs)
    in_value :
        {k : String} {v : Json} {fs : Fields} → StandsIn t v → StandsInFields t (field k v fs)
    in_rest :
        {k : String} {v : Json} {fs : Fields}
        → StandsInFields t fs
        → StandsInFields t (field k v fs)

-- A text that is no moving ref, and has no part after a slash that is one.
pub record IsStable (files : Files) (t : String) : Type 0 where
  pub no_ref : contains forbidden (files.lower (codes t)) ≡ false
  pub no_part :
      (before w after : List ℕ)
      → contains forbidden w ≡ true
      → ends_part after ≡ true
      → codes t ≢ before ++ (b'/' ∷ (w ++ after))

All-append : (P : String → Type 0) (xs ys : List String) → All P (xs ++ ys) → All P xs × All P ys
All-append P [] ys h = (tt, h)
All-append P (x ∷ xs) ys (p, h) = let (a, b) = All-append P xs ys h in ((p, a), b)

mutual
  unfolding strings_of item_strings field_strings

  StandsIn-All :
      (P : String → Type 0) (t : String) (v : Json) → StandsIn t v → All P (strings_of v) → P t
  StandsIn-All P t v itself (p, u) = p
  StandsIn-All P t (list xs) (in_list h) all_good = StandsInItems-All P t xs h all_good
  StandsIn-All P t (dict fs) (in_dict h) all_good = StandsInFields-All P t fs h all_good

  StandsInItems-All :
      (P : String → Type 0) (t : String) (xs : Items)
      → StandsInItems t xs
      → All P (item_strings xs)
      → P t
  StandsInItems-All P t nil h all_good = elim h [ ]
  StandsInItems-All P t (cons v xs) (in_item h) all_good =
      StandsIn-All P t v h (All-append P (strings_of v) (item_strings xs) all_good).0
  StandsInItems-All P t (cons v xs) (in_later h) all_good =
      StandsInItems-All P t xs h (All-append P (strings_of v) (item_strings xs) all_good).1

  StandsInFields-All :
      (P : String → Type 0) (t : String) (fs : Fields)
      → StandsInFields t fs
      → All P (field_strings fs)
      → P t
  StandsInFields-All P t end h all_good = elim h [ ]
  StandsInFields-All P t fs as_key (p, rest) = p
  StandsInFields-All P t (field k v fs) (in_value h) (p, rest) =
      StandsIn-All P t v h (All-append P (strings_of v) (field_strings fs) rest).0
  StandsInFields-All P t (field k v fs) (in_rest h) (p, rest) =
      StandsInFields-All P t fs h (All-append P (strings_of v) (field_strings fs) rest).1

not-eq-true : (b : Bool) → not b ≡ true → b ≡ false
not-eq-true true h = cc
not-eq-true false h = refl

true-ne-false : true ≡ false → ⊥
true-ne-false h = cc

or-true : (b : Bool) → (b || true) ≡ true
or-true true = refl
or-true false = refl

one_of_three : (a b c : Bool) → (a ≡ true) ⊎ ((b ≡ true) ⊎ (c ≡ true)) → (a || b || c) ≡ true
one_of_three a b c h = ground arith

forbidden-cases :
    (w : List ℕ) → contains forbidden w ≡ true → (w ≡ main) ⊎ ((w ≡ master) ⊎ (w ≡ latest))
forbidden-cases w h = elim (Bool-cases (w == main)) [
  | inl same ↦ inl ((==_iff w main).0 same)
  | inr other ↦ elim (Bool-cases (w == master)) [
    | inl same ↦ inr (inl ((==_iff w master).0 same))
    | inr other₂ ↦ elim (Bool-cases (w == latest)) [
      | inl same ↦ inr (inr ((==_iff w latest).0 same))
      | inr other₃ ↦ cc (rw (other, other₂, other₃) at h)
    ]
  ]
]

module _ (files : Files) (same_self : (c : ℕ) → files.same c c ≡ true) where
  part_at-append : (w after : List ℕ) → part_at files.same w (w ++ after) ≡ ends_part after
  unfolding part_at
  part_at-append [] after = refl
  part_at-append (c ∷ w) after = rw (same_self c) (part_at-append w after)

  -- One of the three words, before the end of a part.
  three_words :
      (w after : List ℕ)
      → contains forbidden w ≡ true
      → ends_part after ≡ true
      → (part_at files.same main (w ++ after)
          || part_at files.same master (w ++ after)
          || part_at files.same latest (w ++ after))
        ≡ true
  three_words w after is_word ends =
      let found = part_at-append w after ∙ ends in
      let at = λ (u : List ℕ) (same : w ≡ u).
        sym (ap (λ u. part_at files.same u (w ++ after)) same) ∙ found in
      let text = w ++ after in
      let one =
        one_of_three (part_at files.same main text) (part_at files.same master text)
          (part_at files.same latest text) in
      elim (forbidden-cases w is_word) [
        | inl same ↦ one (inl (at main same))
        | inr (inl same) ↦ one (inr (inl (at master same)))
        | inr (inr same) ↦ one (inr (inr (at latest same)))
      ]

  mutable_url-append :
      (before w after : List ℕ)
      → contains forbidden w ≡ true
      → ends_part after ≡ true
      → mutable_url files.same (before ++ (b'/' ∷ (w ++ after))) ≡ true
  unfolding mutable_url nat_eq
  mutable_url-append [] w after is_word ends = rw (three_words w after is_word ends) refl
  mutable_url-append (c ∷ before) w after is_word ends =
      rw (mutable_url-append before w after is_word ends) (or-true _)

  check_strings-AreStable :
      (ss : List String) → check_strings files ss ≡ ok tt → All (IsStable files) ss
  unfolding check_strings
  check_strings-AreStable [] h = tt
  check_strings-AreStable (s ∷ ss) h =
      let (no_ref, h₁) =
        require_that-eq-ok (not (contains forbidden (files.lower (codes s)))) _ _ h in
      let (no_url, h₂) = require_that-eq-ok (not (mutable_url files.same (codes s))) _ _ h₁ in
      (
        record {
          no_ref = not-eq-true _ no_ref;
          no_part = λ before w after is_word ends same.
              let found = mutable_url-append before w after is_word ends in
              true-ne-false
                (sym found ∙ (sym (ap (mutable_url files.same) same) ∙ not-eq-true _ no_url));
        },
        check_strings-AreStable ss h₂,
      )

  -- What stands anywhere in a value whose texts pass does not move.
  pub check_strings-IsStable :
      (v : Json) (t : String)
      → check_strings files (strings_of v) ≡ ok tt
      → StandsIn t v
      → IsStable files t
  check_strings-IsStable v t h stands =
      StandsIn-All (IsStable files) t v stands (check_strings-AreStable (strings_of v) h)
