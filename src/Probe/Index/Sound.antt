-- ===== src/Probe/Index/Sound.antt =====
-- What a parsed index promises.
use mlx_spark.Base.{
  String, List, [], ◌∷◌, map, true, Option, none, some, string_eq, nat_eq, all, ◌≡◌, ◌≢◌, ◌↔◌, refl,
  ap, arith, Option-cases, Bool-cases, inl, inr,
}
use mathlib.Core.Path.{subst}
use mlx_spark.Base.Sort.{sorted, distinct}
use mlx_spark.Json.{Json, str, dict, Fields, get, values, as_dict}
use mlx_spark.Json.Views.{as_dict-eq-some}
use mlx_spark.Probe.{Text}
use mlx_spark.Probe.Index.{
  IndexKind, IndexStatus, add_shard, reject, parsed, is_safe_name, safe_shard_name, collect_shards,
  index_of, read_document,
}

text_safe :
    (s : String) (kind : IndexKind)
    → is_safe_name kind s ≡ true
    → safe_shard_name (str s) kind ≡ some s
unfolding safe_shard_name
text_safe s kind h = rw h refl

safe_shard_name-eq-some :
    (v : Json) (kind : IndexKind) (s : String)
    → safe_shard_name v kind ≡ some s
    → (v ≡ str s) × (is_safe_name kind s ≡ true)
unfolding safe_shard_name
safe_shard_name-eq-some (str t) kind s h = elim (Bool-cases (is_safe_name kind t)) [
  | inl safe ↦
      let h₁ = rw safe at h in
      let same : t ≡ s = ground arith in
      (ap str same, subst (λ x. is_safe_name kind x ≡ true) same safe)
  | inr unsafe ↦ cc (rw unsafe at h)
]
safe_shard_name-eq-some v kind s h = cc

add_shard-eq-parsed :
    (s : String) (r : List String × IndexStatus) (ss : List String)
    → add_shard s r ≡ (ss, parsed)
    → (rest : List String) × (r ≡ (rest, parsed)) × (ss ≡ s ∷ rest)
add_shard-eq-parsed s (shards, parsed) ss h = (shards, refl, ground arith)
add_shard-eq-parsed s (shards, status) ss h = cc

reject-ne-parsed : (v : Json) (ss : List String) → reject v ≢ (ss, parsed)
reject-ne-parsed (str s) ss h = cc
reject-ne-parsed v ss h = cc

collected :
    (kind : IndexKind) (v : Json) (vs : List Json) (ss : List String)
    → ((rest : List String)
        → (vs ≡ map str rest) × (all (is_safe_name kind) rest ≡ true)
        → collect_shards kind vs ≡ (rest, parsed))
    → v ∷ vs ≡ map str ss
    → all (is_safe_name kind) ss ≡ true
    → collect_shards kind (v ∷ vs) ≡ (ss, parsed)
unfolding collect_shards
collected kind v vs [] later h safe = cc
collected kind v vs (s ∷ ss) later h safe =
    let is_text : v ≡ str s = cc in
    let are_texts : vs ≡ map str ss = cc in
    let safe_head : is_safe_name kind s ≡ true = ground arith in
    rw (is_text, safe_head, later ss (are_texts, ground arith), collect_shards) refl

-- The loop accepts the values exactly when they are texts with safe names, and returns those.
collect_shards_iff :
    (kind : IndexKind) (vs : List Json) (ss : List String)
    → (collect_shards kind vs ≡ (ss, parsed))
      ↔ ((vs ≡ map str ss) × (all (is_safe_name kind) ss ≡ true))
unfolding collect_shards
collect_shards_iff kind [] [] = (λ h. (refl, refl), λ h. refl)
collect_shards_iff kind [] (s ∷ ss) = (λ h. cc, λ (h, _). cc)
collect_shards_iff kind (v ∷ vs) ss = (
  λ h. elim (Option-cases (safe_shard_name v kind)) [
    | inl other ↦ absurd (reject-ne-parsed v ss (rw (other, collect_shards) at h))
    | inr (s, e) ↦
        let (rest, later, is_cons) =
          add_shard-eq-parsed s (collect_shards kind vs) ss (rw (e, collect_shards) at h) in
        let (is_text, safe) = safe_shard_name-eq-some v kind s e in
        let (are_texts, are_safe) = (collect_shards_iff kind vs rest).0 later in
        rw (is_cons, is_text, are_texts, safe, are_safe) (refl, refl)
  ],
  λ (h, safe). collected kind v vs ss (λ rest. (collect_shards_iff kind vs rest).1) h safe,
)

index_of-eq-parsed :
    (kind : IndexKind) (hash : Text) (r : List String × IndexStatus)
    → (index_of kind hash r).status ≡ parsed
    → (s : String) × (ss : List String) × (r ≡ (s ∷ ss, parsed))
      × ((index_of kind hash r).shards ≡ sorted (distinct (s ∷ ss)))
unfolding index_of
index_of-eq-parsed kind hash ([], parsed) h = cc
index_of-eq-parsed kind hash (s ∷ ss, parsed) h = (s, ss, refl, refl)
index_of-eq-parsed kind hash (ss, status) h = cc

-- If the document counts as parsed, it is a dict whose weight map is a dict of texts, at least one,
-- each a safe shard name; the shards are the distinct ones in order.
pub read_document-eq-parsed :
    (kind : IndexKind) (hash : Text) (o : Option Json)
    → (read_document kind hash o).status ≡ parsed
    → (fields : Fields) × (weight_map : Fields) × (s : String) × (ss : List String) × (o
        ≡ some (dict fields))
      × (get fields "weight_map" ≡ dict weight_map)
      × (values weight_map ≡ map str (s ∷ ss))
      × (all (is_safe_name kind) (s ∷ ss) ≡ true)
      × ((read_document kind hash o).shards ≡ sorted (distinct (s ∷ ss)))
unfolding read_document
read_document-eq-parsed kind hash none h = cc
read_document-eq-parsed kind hash (some (dict fields)) h =
    elim (Option-cases (as_dict (get fields "weight_map"))) [
      | inl other ↦ cc (rw (other, read_document) at h)
      | inr (weight_map, e) ↦
          let (s, ss, accepted, shards) =
            index_of-eq-parsed kind hash (collect_shards kind (values weight_map))
              (rw (e, read_document) at h) in
          let (texts, safe) = (collect_shards_iff kind (values weight_map) (s ∷ ss)).0 accepted in
          (
            fields,
            weight_map,
            s,
            ss,
            refl,
            as_dict-eq-some _ e,
            texts,
            safe,
            rw (e, read_document) shards,
          )
    ]
read_document-eq-parsed kind hash (some v) h = cc
