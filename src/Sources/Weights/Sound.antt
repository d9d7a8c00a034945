-- ===== src/Sources/Weights/Sound.antt =====
-- What an accepted weight index promises.
use mlx_spark.Base.{
  ℕ, ◌<◌, String, List, [], ◌∷◌, Bool, true, not, ◌&&◌, ◌≡◌, ◌≢◌, refl, arith, ◌==◌, string_eq,
  nat_eq, contains, length, all, map, ap, sym, ◌∙◌, ◌||◌, Bool-cases, Option-cases, inl, inr,
}
use mlx_spark.Base.Result.{ok, >>=-eq-ok, require-eq-ok, ok-injective}
use mlx_spark.Base.Int.{pos, negsuc}
use mlx_spark.Base.Sort.{sorted, distinct}
use mlx_spark.Base.Pigeonhole.{IsDistinct}
use mlx_spark.Base.Distinct.{sorted-distinct-IsDistinct, contains-sorted-distinct}
use mlx_spark.Json.{
  Json, str, int, float, list, dict, finite, Fields, get, values, elements, as_dict, size, Items,
}
use mlx_spark.Json.Views.{as_dict-eq-some}
use mathlib.Core.Path.{subst}
use mlx_spark.Sources.{unsafe_shards, absent_shards}
use mlx_spark.Sources.Weights.{
  WeightManifest, is_safe_shard, is_hashable, is_str, is_number, is_none, strings, shard_values,
  total_size_of, sibling_names, sibling_list, manifest_of, weight_manifest, metadata_total,
}

contains-all :
    (p : String → Bool) (xs : List String) (s : String)
    → all p xs ≡ true
    → contains xs s ≡ true
    → p s ≡ true
contains-all p [] s h m = cc
contains-all p (x ∷ xs) s h m = ground (arith, contains-all p xs s)

total_size_of_pos : (v : Json) (n : ℕ) → total_size_of v ≡ ok n → 0 < n
unfolding total_size_of
total_size_of_pos (int (pos n)) m h = ground arith
total_size_of_pos (int (negsuc n)) m h = ground arith
total_size_of_pos (float (finite (pos n) k)) m h = ground arith
total_size_of_pos v m h = cc

-- What the manifest says of the weight map and of the listed files.
pub record IsManifest (is_decimal : ℕ → Bool) (weight_map : Fields) (siblings : Items)
    (m : WeightManifest) : Type 0 where
  pub names : List String
  pub all_texts : values weight_map ≡ map str names
  pub shards : m.shard_filenames ≡ sorted (distinct names)
  pub once : IsDistinct m.shard_filenames
  pub same_names : (s : String) → contains m.shard_filenames s ≡ contains names s
  pub some_shard : length m.shard_filenames ≢ 0
  pub tensors : m.tensor_count ≡ size weight_map
  pub positive : 0 < m.tensor_payload_bytes
  pub safe : (s : String) → contains m.shard_filenames s ≡ true → is_safe_shard is_decimal s ≡ true
  pub present :
      (s : String)
      → contains m.shard_filenames s ≡ true
      → contains (sibling_names (elements siblings)) s ≡ true

strings-all_str : (vs : List Json) → all is_str vs ≡ true → vs ≡ map str (strings vs)
unfolding strings
strings-all_str [] h = refl
strings-all_str (str s ∷ vs) h = ap (λ rest. str s ∷ rest) (strings-all_str vs h)
strings-all_str (v ∷ vs) h = cc

shard_values-eq-ok :
    (vs : List Json) (shards : List String)
    → shard_values vs ≡ ok shards
    → (names : List String) × (vs ≡ map str names) × (shards ≡ sorted (distinct names))
unfolding shard_values
shard_values-eq-ok vs shards h = elim (Bool-cases (all is_hashable vs)) [
  | inr bad ↦ cc (rw bad at h)
  | inl good ↦ elim (Bool-cases (all is_str vs)) [
    | inl texts ↦ (strings vs, strings-all_str vs texts, sym (ok-injective (rw (good, texts) at h)))
    | inr other ↦ elim (Bool-cases (all is_number vs || all is_none vs)) [
      | inl alike ↦ cc (rw (good, other, alike) at h)
      | inr mixed ↦ cc (rw (good, other, mixed) at h)
    ]
  ]
]

sibling_list-eq-ok : (v : Json) (xs : Items) → sibling_list v ≡ ok xs → v ≡ list xs
sibling_list-eq-ok (list ys) xs h = ground arith
sibling_list-eq-ok v xs h = cc

module _ (is_decimal : ℕ → Bool) where
  manifest_of-eq-ok :
      (index weight_map : Fields) (siblings : Json) (m : WeightManifest)
      → manifest_of is_decimal index weight_map siblings ≡ ok m
      → (xs : Items) × (siblings ≡ list xs) × IsManifest is_decimal weight_map xs m
  unfolding manifest_of
  manifest_of-eq-ok index weight_map siblings m h =
      let (shards, e₁, h₁) = >>=-eq-ok (shard_values (values weight_map)) _ h in
      let (names, all_texts, is_sorted) = shard_values-eq-ok _ shards e₁ in
      let (c₂, h₂) =
        require-eq-ok (not (length shards == 0) && all (is_safe_shard is_decimal) shards)
          unsafe_shards _ h₁ in
      let (total, e₃, h₃) =
        >>=-eq-ok (total_size_of (metadata_total (get index "metadata"))) _ h₂ in
      let (xs, e₄, h₄) = >>=-eq-ok (sibling_list siblings) _ h₃ in
      let (c₅, h₅) =
        require-eq-ok (all (λ s. contains (sibling_names (elements xs)) s) shards) absent_shards _
          h₄ in
      subst (λ m. (xs : Items) × (siblings ≡ list xs) × IsManifest is_decimal weight_map xs m)
        (ok-injective h₅)
        (
          xs,
          sibling_list-eq-ok siblings xs e₄,
          record {
            names = names;
            all_texts = all_texts;
            shards = is_sorted;
            once = subst IsDistinct (sym is_sorted) (sorted-distinct-IsDistinct names);
            same_names = λ s. ap (λ ss. contains ss s) is_sorted ∙ contains-sorted-distinct s names;
            some_shard = λ z. ground arith;
            tensors = refl;
            positive = total_size_of_pos _ total e₃;
            safe = λ s i. contains-all (is_safe_shard is_decimal) shards s (ground arith) i;
            present =
                λ s i. contains-all (λ s. contains (sibling_names (elements xs)) s) shards s c₅ i;
          },
        )

  -- If the weight index is accepted, it has a weight map and the siblings are a list; the manifest
  -- counts the tensors of the map, its payload is positive, the values of the map are texts, and its
  -- shards are these texts in order, each once, at least one; each has a safe shard name and is
  -- among the siblings.
  pub weight_manifest-IsManifest :
      (index siblings : Json) (m : WeightManifest)
      → weight_manifest is_decimal index siblings ≡ ok m
      → (fields : Fields) × (weight_map : Fields) × (xs : Items) × (index ≡ dict fields)
        × (get fields "weight_map" ≡ dict weight_map)
        × (siblings ≡ list xs)
        × IsManifest is_decimal weight_map xs m
  unfolding weight_manifest
  weight_manifest-IsManifest (dict fields) siblings m h =
      elim (Option-cases (as_dict (get fields "weight_map"))) [
        | inl other ↦ cc (rw (other, weight_manifest) at h)
        | inr (weight_map, e) ↦
            let (xs, is_list, good) =
              manifest_of-eq-ok fields weight_map siblings m (rw (e, weight_manifest) at h) in
            (fields, weight_map, xs, refl, as_dict-eq-some _ e, is_list, good)
      ]
  weight_manifest-IsManifest v siblings m h = cc
