-- ===== src/Compare/Exact.antt =====
-- No difference is reported exactly when the two values are equal and hold no NaN.
use mlx_spark.Base.{
  append-eq-nil, ℕ, suc, String, Bool, true, false, ◌&&◌, ◌||◌, none, some, List, [], ◌∷◌, ◌≡◌, ◌≢◌,
  ◌↔◌, refl, sym, ap, ◌∙◌, arith, ◌==◌, string_eq, nat_eq, contains, inl, inr, Bool-cases,
  Option-cases, Option, ◌<>◌, ==_iff, ==_self,
}
use mathlib.Core.Path.{subst⁻¹}
use mlx_spark.Base.Pigeonhole.{IsWithin, length-le_of_IsWithin, IsWithin-of_length}
use mlx_spark.Base.Decimal.{show}
use mlx_spark.Json.{
  Json, list, dict, Items, nil, cons, Fields, end, field, find, keys, size, count, py_eq, items_eq,
  fields_eq, nan, float, both_nan,
}
use mlx_spark.Json.Lawful.{
  IsJson, AreItems, AreFields, AreFields-IsDistinct, find-IsJson, find-eq-none, length-keys,
}
use mlx_spark.Json.NanFree.{IsNanFree, AreItemsNanFree, AreFieldsNanFree, nan_ne, same_eq}
use mlx_spark.Compare.{json_diff, field_diff, items_diff, unless_equal, all_keys, over_keys}
use mlx_spark.Compare.Keys.{contains-all_keys, over_keys-eq-nil, over_keys-nil}

pub unless_equal-eq-nil : (b : Bool) (p : String) → (unless_equal b p ≡ []) ↔ (b ≡ true)
unless_equal-eq-nil true p = (λ h. refl, λ h. refl)
unless_equal-eq-nil false p = (λ h. cc, λ h. cc)

-- A key that one side lacks is reported.
field_diff_present :
    (fs : Fields) (k : String) (o : Option Json) (child : String)
    → field_diff fs k o child ≡ []
    → (contains (keys fs) k ≡ true) × (o ≢ none)
unfolding field_diff
field_diff_present end k o child h = cc
field_diff_present (field j v fs) k o child h = elim (Bool-cases (j == k)) [
  | inl same ↦ (ground arith, λ e. cc (rw (same, e) at h))
  | inr other ↦ let ih = field_diff_present fs k o child (rw other at h) in (ground arith, ih.1)
]

module _ (k : String) (v : Json) (fs : Fields) (child : String) where
  field_diff-none : field_diff (field k v fs) k none child ≡ child ∷ []
  unfolding field_diff
  field_diff-none = rw (==_self k)

  field_diff-some : (w : Json) → field_diff (field k v fs) k (some w) child ≡ json_diff v w child
  unfolding field_diff
  field_diff-some w = rw (==_self k)

module _ (fs gs : Fields) (child : String → String) where
  abbrev IsQuiet : String → Type 0
  IsQuiet k = field_diff fs k (find k gs) (child k) ≡ []

  abbrev IsUnchanged : List String → Type 0
  IsUnchanged ks = over_keys (λ k. field_diff fs k (find k gs) (child k)) ks ≡ []

  IsQuiet-left :
      IsUnchanged (all_keys fs gs) → (k : String) → contains (keys fs) k ≡ true → IsQuiet k
  IsQuiet-left h k m = over_keys-eq-nil _ (all_keys fs gs) h k (rw (contains-all_keys, m))

  IsQuiet-right :
      IsUnchanged (all_keys fs gs) → (k : String) → contains (keys gs) k ≡ true → IsQuiet k
  IsQuiet-right h k m =
      over_keys-eq-nil _ (all_keys fs gs) h k (ground (arith, contains-all_keys fs gs k))

  keys-IsWithin : IsUnchanged (all_keys fs gs) → IsWithin (keys fs) (keys gs)
  keys-IsWithin h k m =
      let (_, found) = field_diff_present fs k (find k gs) (child k) (IsQuiet-left h k m) in
      elim (Bool-cases (contains (keys gs) k)) [
        | inl there ↦ there
        | inr gone ↦ absurd (found ((find-eq-none gs k).1 gone))
      ]

  same_size : AreFields fs → AreFields gs → IsUnchanged (all_keys fs gs) → size fs ≡ size gs
  same_size wa wb h = omega (
    arith,
    length-le_of_IsWithin (keys fs) (keys gs) (AreFields-IsDistinct fs wa) (keys-IsWithin h),
    length-le_of_IsWithin (keys gs) (keys fs) (AreFields-IsDistinct gs wb)
        (λ k m. (field_diff_present fs k (find k gs) (child k) (IsQuiet-right h k m)).0),
    length-keys fs,
    length-keys gs,
  )

same_of_eq : (b c : Bool) → c ≡ true → (b || c) ≡ true
same_of_eq b c h = ground arith

mutual
  unfolding json_diff py_eq

  sound : (a b : Json) (p : String) → IsJson a → IsJson b → json_diff a b p ≡ [] → py_eq a b ≡ true
  sound (list xs) (list ys) p wa wb h = elim (Bool-cases (count xs == count ys)) [
    | inl same ↦ sound_items xs ys 0 p wa wb ((==_iff (count xs) (count ys)).0 same) (rw same at h)
    | inr differ ↦ cc (rw differ at h)
  ]
  sound (dict fs) (dict gs) p wa wb h =
      let child : String → String = λ key. p <> "/" <> key in
      rw (
        (==_iff (size fs) (size gs)).1 (same_size fs gs child wa wb h),
        sound_fields fs gs child wa wb (IsQuiet-left fs gs child h),
      )
  sound a b p wa wb h = (unless_equal-eq-nil _ _).0 h

  sound_items :
      (xs ys : Items) (i : ℕ) (p : String)
      → AreItems xs
      → AreItems ys
      → count xs ≡ count ys
      → items_diff xs ys i p ≡ []
      → items_eq xs ys ≡ true
  sound_items nil nil i p wa wb e h = refl
  sound_items nil (cons w ys) i p wa wb e h = absurd (omega arith)
  sound_items (cons v xs) nil i p wa wb e h = absurd (omega arith)
  sound_items (cons v xs) (cons w ys) i p wa wb e h =
      let (here, later) = append-eq-nil (json_diff v w (p <> "/" <> show i)) _ h in
      let same = same_of_eq (both_nan v w) _ (sound v w _ wa.0 wb.0 here) in
      rw same (sound_items xs ys (suc i) p wa.1 wb.1 (omega arith) later)

  sound_fields :
      (fs gs : Fields) (child : String → String)
      → AreFields fs
      → AreFields gs
      → ((k : String) → contains (keys fs) k ≡ true → field_diff fs k (find k gs) (child k) ≡ [])
      → fields_eq fs gs ≡ true
  sound_fields end gs child wa wb h = refl
  sound_fields (field k v fs) gs child wa wb h =
      let here = h k (ground arith) in
      let rest = sound_fields fs gs child wa.2 wb (λ j m. ground (arith, h j, wa.0, m)) in
      elim (Option-cases (find k gs)) [
        | inl missing ↦ cc (field_diff-none k v fs (child k))
        | inr (w, found) ↦
            let same =
              sound v w (child k) wa.1 (find-IsJson gs k w wb found)
                (sym (field_diff-some k v fs (child k) w) ∙ (rw found at here)) in
            rw (found, same_of_eq (both_nan v w) _ same) rest
      ]

mutual
  unfolding json_diff py_eq

  -- A NaN differs from every value.
  nan_free : (a b : Json) (p : String) → IsJson a → json_diff a b p ≡ [] → IsNanFree a
  nan_free (float nan) b p wa h = cc ((unless_equal-eq-nil _ _).0 h, nan_ne b)
  nan_free (list xs) (list ys) p wa h = elim (Bool-cases (count xs == count ys)) [
    | inl same ↦ nan_free_items xs ys 0 p wa ((==_iff (count xs) (count ys)).0 same) (rw same at h)
    | inr differ ↦ cc (rw differ at h)
  ]
  nan_free (dict fs) (dict gs) p wa h =
      let child : String → String = λ key. p <> "/" <> key in
      nan_free_fields fs gs child wa (IsQuiet-left fs gs child h)
  nan_free (list xs) b p wa h = cc
  nan_free (dict fs) b p wa h = cc
  nan_free a b p wa h = tt

  nan_free_items :
      (xs ys : Items) (i : ℕ) (p : String)
      → AreItems xs
      → count xs ≡ count ys
      → items_diff xs ys i p ≡ []
      → AreItemsNanFree xs
  nan_free_items nil ys i p wa e h = tt
  nan_free_items (cons v xs) nil i p wa e h = absurd (omega arith)
  nan_free_items (cons v xs) (cons w ys) i p wa e h =
      let (here, later) = append-eq-nil (json_diff v w (p <> "/" <> show i)) _ h in
      (nan_free v w _ wa.0 here, nan_free_items xs ys (suc i) p wa.1 (omega arith) later)

  nan_free_fields :
      (fs gs : Fields) (child : String → String)
      → AreFields fs
      → ((k : String) → contains (keys fs) k ≡ true → field_diff fs k (find k gs) (child k) ≡ [])
      → AreFieldsNanFree fs
  nan_free_fields end gs child wa h = tt
  nan_free_fields (field k v fs) gs child wa h =
      let here = h k (ground arith) in
      let rest = nan_free_fields fs gs child wa.2 (λ j m. ground (arith, h j, wa.0, m)) in
      elim (Option-cases (find k gs)) [
        | inl missing ↦ cc (field_diff-none k v fs (child k))
        | inr (w, found) ↦
            let e = sym (field_diff-some k v fs (child k) w) ∙ (rw found at here) in
            (nan_free v w (child k) wa.1 e, rest)
      ]

&&-eq-true : (a b : Bool) → (a && b) ≡ true → (a ≡ true) × (b ≡ true)
&&-eq-true a b h = ground arith

field_diff_ne :
    (j : String) (v : Json) (fs : Fields) (child : String) (k : String) (o : Option Json)
    → (j == k) ≡ false
    → field_diff (field j v fs) k o child ≡ field_diff fs k o child
unfolding field_diff
field_diff_ne j v fs child k o h = rw h

-- The parts of an equality of dicts, at the first field.
fields_eq-cons :
    (k : String) (v : Json) (fs gs : Fields)
    → fields_eq (field k v fs) gs ≡ true
    → (w : Json) × (find k gs ≡ some w)
      × ((both_nan v w || py_eq v w) ≡ true)
      × (fields_eq fs gs ≡ true)
unfolding py_eq
fields_eq-cons k v fs gs h = elim (Option-cases (find k gs)) [
  | inl missing ↦ cc (rw missing at h)
  | inr (w, found) ↦ let (same, rest) = &&-eq-true _ _ (rw found at h) in (w, found, same, rest)
]

contains-keys_of_find :
    (gs : Fields) (k : String) (w : Json) → find k gs ≡ some w → contains (keys gs) k ≡ true
contains-keys_of_find gs k w found = elim (Bool-cases (contains (keys gs) k)) [
  | inl there ↦ there
  | inr gone ↦ cc ((find-eq-none gs k).1 gone)
]

fields_eq-IsWithin : (fs gs : Fields) → fields_eq fs gs ≡ true → IsWithin (keys fs) (keys gs)
fields_eq-IsWithin end gs h k m = cc
fields_eq-IsWithin (field j v fs) gs h k m =
    let (w, found, _, rest) = fields_eq-cons j v fs gs h in
    elim (Bool-cases (k == j)) [
      | inl same ↦ rw ((==_iff k j).0 same) (contains-keys_of_find gs j w found)
      | inr other ↦ fields_eq-IsWithin fs gs rest k (ground arith)
    ]

-- Dicts of one size, the first within the second, have the same keys.
left_key :
    (fs gs : Fields)
    → AreFields fs
    → size fs ≡ size gs
    → fields_eq fs gs ≡ true
    → (k : String) → contains (all_keys fs gs) k ≡ true
    → contains (keys fs) k ≡ true
left_key fs gs wa n each k m =
    let back =
      IsWithin-of_length (keys fs) (keys gs) (AreFields-IsDistinct fs wa)
        (fields_eq-IsWithin fs gs each) (omega (arith, length-keys fs, length-keys gs, n)) in
    ground (arith, contains-all_keys fs gs k, back k, m)

mutual
  unfolding json_diff

  complete :
      (a b : Json) (p : String)
      → IsJson a
      → IsJson b
      → IsNanFree a
      → py_eq a b ≡ true
      → json_diff a b p ≡ []
  complete (list xs) (list ys) p wa wb free h =
      let (n, rest) = complete_items xs ys 0 p wa wb free h in
      rw ((==_iff (count xs) (count ys)).1 n) rest
  complete (dict fs) (dict gs) p wa wb free h =
      let (n, each) = &&-eq-true _ (fields_eq fs gs) h in
      over_keys-nil _ (all_keys fs gs) (λ k m.
        complete_fields fs gs (λ key. p <> "/" <> key) wa wb free each k
          (left_key fs gs wa ((==_iff (size fs) (size gs)).0 n) each k m))
  complete a b p wa wb free h = (unless_equal-eq-nil _ _).1 h

  complete_items :
      (xs ys : Items) (i : ℕ) (p : String)
      → AreItems xs
      → AreItems ys
      → AreItemsNanFree xs
      → items_eq xs ys ≡ true
      → (count xs ≡ count ys) × (items_diff xs ys i p ≡ [])
  complete_items nil nil i p wa wb free h = (refl, refl)
  complete_items nil (cons w ys) i p wa wb free h = cc
  complete_items (cons v xs) nil i p wa wb free h = cc
  complete_items (cons v xs) (cons w ys) i p wa wb free h =
      let (here, later) = &&-eq-true (both_nan v w || py_eq v w) _ h in
      let same = sym (same_eq v w free.0) ∙ here in
      let (n, rest) = complete_items xs ys (suc i) p wa.1 wb.1 free.1 later in
      (omega arith, rw (complete v w (p <> "/" <> show i) wa.0 wb.0 free.0 same) rest)

  complete_fields :
      (fs gs : Fields) (child : String → String)
      → AreFields fs
      → AreFields gs
      → AreFieldsNanFree fs
      → fields_eq fs gs ≡ true
      → (k : String) → contains (keys fs) k ≡ true
      → field_diff fs k (find k gs) (child k) ≡ []
  complete_fields end gs child wa wb free h k m = cc
  complete_fields (field j v fs) gs child wa wb free h k m =
      let (w, found, here, rest) = fields_eq-cons j v fs gs h in
      elim (Bool-cases (k == j)) [
        | inl same ↦
            let e = (==_iff k j).0 same in
            let equal = sym (same_eq v w free.0) ∙ here in
            subst⁻¹ (λ i. field_diff (field j v fs) i (find i gs) (child i) ≡ []) e
              (ap (λ o. field_diff (field j v fs) j o (child j)) found
                ∙ field_diff-some j v fs (child j) w
                ∙ complete v w (child j) wa.1 (find-IsJson gs j w wb found) free.0 equal)
        | inr other ↦
            field_diff_ne j v fs (child k) k (find k gs) (ground arith)
            ∙ complete_fields fs gs child wa.2 wb free.1 rest k (ground arith)
      ]

-- For values whose dicts have distinct keys, `json_diff` reports no path exactly when the two are
-- equal and the first holds no NaN at any depth.
pub json_diff-eq-nil :
    (a b : Json) (path : String)
    → IsJson a
    → IsJson b
    → (json_diff a b path ≡ []) ↔ ((py_eq a b ≡ true) × IsNanFree a)
json_diff-eq-nil a b path wa wb = (
  λ h. (sound a b path wa wb h, nan_free a b path wa h),
  λ (same, free). complete a b path wa wb free same,
)
