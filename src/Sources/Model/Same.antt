-- ===== src/Sources/Model/Same.antt =====
-- What an accepted model source promises.
use mlx_spark.Base.{
  ℕ, String, List, [], ◌∷◌, Bool, true, none, some, Option, ◌≡◌, refl, ap, ◌∙◌, arith, Bool-cases,
  inl, inr, ◌&&◌, ◌==◌, ◌<>◌, string_eq,
}
use mlx_spark.Base.Result.{ok, ◌>>=◌, ◌>>◌, require, >>=-eq-ok, require-eq-ok, ok-injective}
use mathlib.Core.Path.{subst}
use mlx_spark.Base.Text.{codes, ends_with}
use mlx_spark.Base.Dict.{Dict, lookup}
use mlx_spark.Json.{Json, str, dict, Fields, get, is_text, py_eq}
use mlx_spark.Json.Lawful.{IsJson}
use mlx_spark.Json.Views.{is_text_iff}
use mlx_spark.Compare.{json_diff}
use mlx_spark.Compare.Exact.{json_diff-eq-nil}
use mlx_spark.Sources.{unexpected_model, not_apache}
use mlx_spark.Sources.Library.{Library, Bytes, max_metadata_bytes, parse_json, parse_json-eq-ok}
use mlx_spark.Sources.Revision.{Entry}
use mlx_spark.Sources.Tables.{qwen_paths}
use mlx_spark.Sources.Audit.{check_markers}
use mlx_spark.Sources.Model.{
  Documents, item, architectures, as_config, declares_apache, require_same, fetch_documents,
  audit_config, audit_qwen_source, resolve_url, parse_if_json, parsed_entry,
}

-- What the audit found of the configuration: the snapshot parses, and is equal to the configuration
-- at the revision, which has the expected identity.
pub record IsAudited (lib : Library) (is_decimal : ℕ → Bool) (url_of : String → String)
    (metadata : Fields) (snapshot_bytes : Bytes) : Type 0 where
  pub docs : Documents
  pub fetched : fetch_documents lib is_decimal url_of qwen_paths ≡ ok docs
  pub config : Fields
  pub listed : lookup "config" docs.parsed ≡ some (dict config)
  pub snapshot : Json
  pub parsed : lib.loads snapshot_bytes ≡ some snapshot
  pub same : py_eq snapshot (dict config) ≡ true
  pub model_type : get config "model_type" ≡ str "qwen3_5"
  pub one_architecture : py_eq (get config "architectures") architectures ≡ true
  pub licensed :
      (card : Fields) × (get metadata "cardData" ≡ dict card)
      × (get card "license" ≡ str "apache-2.0")

require_same-eq-ok : (paths : List String) → require_same paths ≡ ok tt → paths ≡ []
unfolding require_same
require_same-eq-ok [] h = refl
require_same-eq-ok (p ∷ ps) h = cc

item-eq-ok : (d : Dict Json) (k : String) (v : Json) → item d k ≡ ok v → lookup k d ≡ some v
unfolding item
item-eq-ok d k v h = ground arith

as_config-eq-ok : (v : Json) (fs : Fields) → as_config v ≡ ok fs → v ≡ dict fs
unfolding as_config
as_config-eq-ok (dict gs) fs h = ground arith
as_config-eq-ok v fs h = cc

declares_apache-eq-true :
    (v : Json)
    → declares_apache v ≡ true
    → (card : Fields) × (v ≡ dict card) × (get card "license" ≡ str "apache-2.0")
unfolding declares_apache
declares_apache-eq-true (dict card) h = (card, refl, (is_text_iff _ _).0 h)
declares_apache-eq-true v h = cc

check_all :
    (lib : Library) (is_decimal : ℕ → Bool) (metadata : Fields) (snapshot_bytes : Bytes)
    (docs : Documents) (out : Dict Json × Json)
    → (do
      check_markers docs.payloads "license" "Qwen license"
          ("Apache License" ∷ "Version 2.0, January 2004" ∷ [])
      check_markers docs.payloads "model_card" "Qwen model card"
          ("license: apache-2.0" ∷ "Qwen3.8-27B" ∷ [])
      require (declares_apache (get metadata "cardData")) not_apache
      config ← item docs.parsed "config"
      audit ← audit_config lib is_decimal metadata snapshot_bytes docs config
      ok (docs.artifacts, audit))
      ≡ ok out
    → (declares_apache (get metadata "cardData") ≡ true)
      × ((config : Json) × (audit : Json) × (lookup "config" docs.parsed ≡ some config)
          × (audit_config lib is_decimal metadata snapshot_bytes docs config ≡ ok audit))
check_all lib is_decimal metadata snapshot_bytes docs out h =
    let (_, _, h₁) = >>=-eq-ok (check_markers docs.payloads "license" "Qwen license" _) _ h in
    let (_, _, h₂) =
      >>=-eq-ok (check_markers docs.payloads "model_card" "Qwen model card" _) _ h₁ in
    let (apache, h₃) = require-eq-ok (declares_apache (get metadata "cardData")) not_apache _ h₂ in
    let (config, found, h₄) = >>=-eq-ok (item docs.parsed "config") _ h₃ in
    let (audit, audited, _) =
      >>=-eq-ok (audit_config lib is_decimal metadata snapshot_bytes docs config) _ h₄ in
    (apache, (config, audit, item-eq-ok docs.parsed "config" config found, audited))

module _ (lib : Library) (is_decimal : ℕ → Bool)
    (lawful : (content : Bytes) (v : Json) → lib.loads content ≡ some v → IsJson v) where
  -- A successful comparison, by its steps.
  audit_config-eq-ok :
      (metadata : Fields) (snapshot_bytes : Bytes) (docs : Documents) (value out : Json)
      → audit_config lib is_decimal metadata snapshot_bytes docs value ≡ ok out
      → (config : Fields) × (value ≡ dict config)
        × (get config "model_type" ≡ str "qwen3_5")
        × (py_eq (get config "architectures") architectures ≡ true)
        × ((snapshot : Json) × (lib.loads snapshot_bytes ≡ some snapshot)
            × (json_diff snapshot value "" ≡ []))
  unfolding audit_config
  audit_config-eq-ok metadata snapshot_bytes docs value out h =
      let (config, is_config, h₁) = >>=-eq-ok (as_config value) _ h in
      let (identity, h₂) =
        require-eq-ok
          (is_text (get config "model_type") "qwen3_5"
            && py_eq (get config "architectures") architectures)
          unexpected_model _ h₁ in
      let (snapshot, parsed, h₃) =
        >>=-eq-ok (parse_json lib snapshot_bytes "local normalized Qwen snapshot") _ h₂ in
      let (_, same, _) = >>=-eq-ok (require_same (json_diff snapshot value "")) _ h₃ in
      (
        config,
        as_config-eq-ok value config is_config,
        (is_text_iff _ _).0 (ground arith),
        ground arith,
        (
          snapshot,
          parse_json-eq-ok lib snapshot_bytes _ snapshot parsed,
          require_same-eq-ok _ same,
        ),
      )

  parse_if_json-IsJson :
      (source_path : String) (content : Bytes) (v : Json)
      → parse_if_json lib is_decimal source_path content ≡ ok (some v)
      → IsJson v
  unfolding parse_if_json
  parse_if_json-IsJson source_path content v h =
      elim (Bool-cases (ends_with (codes source_path) (codes ".json"))) [
        | inl is_json ↦
            let (w, parsed, h₁) =
              >>=-eq-ok (parse_json lib content ("Qwen " <> source_path)) _
                (rw (is_json, parse_if_json) at h) in
            let same : w ≡ v = ground arith in
            subst IsJson same (lawful content w (parse_json-eq-ok lib content _ w parsed))
        | inr plain ↦ cc (rw (plain, parse_if_json) at h)
      ]

  -- Every parsed document has dicts with distinct keys.
  abbrev AreLawful : Dict Json → Type 0
  AreLawful d = (k : String) (v : Json) → lookup k d ≡ some v → IsJson v

  parsed_entry-AreLawful :
      (name : String) (o : Option Json) (d : Dict Json)
      → ((v : Json) → o ≡ some v → IsJson v)
      → AreLawful d
      → AreLawful (parsed_entry lib is_decimal name o d)
  unfolding lookup
  parsed_entry-AreLawful name none d new old k v e = old k v e
  parsed_entry-AreLawful name (some w) d new old k v e = elim (Bool-cases (name == k)) [
    | inl same ↦ new v (ground arith)
    | inr other ↦ old k v (ground arith)
  ]

  fetch_documents-AreLawful :
      (url_of : String → String) (paths : List (String × String)) (docs : Documents)
      → fetch_documents lib is_decimal url_of paths ≡ ok docs
      → AreLawful docs.parsed
  unfolding fetch_documents lookup
  fetch_documents-AreLawful url_of [] docs h =
      subst (λ docs. AreLawful docs.parsed) (ok-injective h) (λ k v e. cc)
  fetch_documents-AreLawful url_of ((name, source_path) ∷ paths) docs h =
      let (content, _, h₁) = >>=-eq-ok (lib.fetch (url_of source_path) max_metadata_bytes) _ h in
      let (value, parsed, h₂) = >>=-eq-ok (parse_if_json lib is_decimal source_path content) _ h₁ in
      let (rest, fetched, h₃) = >>=-eq-ok (fetch_documents lib is_decimal url_of paths) _ h₂ in
      subst (λ docs. AreLawful docs.parsed) (ok-injective h₃)
        (parsed_entry-AreLawful name value rest.parsed
          (λ v e. parse_if_json-IsJson source_path content v (parsed ∙ ap ok e))
          (fetch_documents-AreLawful url_of paths rest fetched))

  -- If the audit of the model succeeds, the configuration fetched at the revision has the expected
  -- identity and is equal to the local snapshot, and the metadata declares the license. The one
  -- assumption is that parsed dicts have distinct keys.
  pub audit_qwen_source-IsAudited :
      (entry : Entry) (revision : String) (metadata : Fields) (snapshot_bytes : Bytes)
      (out : Dict Json × Json)
      → audit_qwen_source lib is_decimal entry revision metadata snapshot_bytes ≡ ok out
      → IsAudited lib is_decimal
          (resolve_url lib is_decimal entry.repository revision)
          metadata
          snapshot_bytes
  unfolding audit_qwen_source
  audit_qwen_source-IsAudited entry revision metadata snapshot_bytes out h =
      let url_of = resolve_url lib is_decimal entry.repository revision in
      let (docs, fetched, h₁) = >>=-eq-ok (fetch_documents lib is_decimal url_of qwen_paths) _ h in
      let (apache, (value, audit, found, audited)) =
        check_all lib is_decimal metadata snapshot_bytes docs out h₁ in
      let (config, is_config, model, one, (snapshot, parsed, same)) =
        audit_config-eq-ok metadata snapshot_bytes docs value audit audited in
      let sound = fetch_documents-AreLawful url_of qwen_paths docs fetched "config" value found in
      record {
        docs = docs;
        fetched = fetched;
        config = config;
        listed = subst (λ v. lookup "config" docs.parsed ≡ some v) is_config found;
        snapshot = snapshot;
        parsed = parsed;
        same =
            subst (λ v. py_eq snapshot v ≡ true) is_config
              ((json_diff-eq-nil snapshot value "" (lawful snapshot_bytes snapshot parsed) sound).0
                same).0;
        model_type = model;
        one_architecture = one;
        licensed = declares_apache-eq-true _ apache;
      }
