-- ===== src/Gate/Exact.antt =====
-- Which evidence has no errors.
use mlx_spark.Base.{
  String, List, [], ◌∷◌, Bool, true, false, Option, none, some, not, ◌||◌, string_eq, ◌==◌,
  if◌then◌else◌, All, append-eq-nil, ==_iff, ◌≡◌, ◌≢◌, ◌↔◌, refl, sym, ap, ◌∙◌, arith, Bool-cases,
  inl, inr,
}
use mlx_spark.Base.Result.{ok, >>=-eq-ok, ok-injective}
use mlx_spark.Json.{Json, null, str, dict, Fields, find, get, or_null, is_text}
use mlx_spark.Json.Views.{is_text_iff}
use mlx_spark.Gate.{Root, unless, or_default, get_or, path_text, artifact_errors, artifacts_errors}

pub get_or-eq-ok :
    (v : Json) (key : String) (default w : Json)
    → get_or v key default ≡ ok w
    → (fs : Fields) × (v ≡ dict fs) × (w ≡ or_default (find key fs) default)
unfolding get_or
get_or-eq-ok (dict fs) key default w h = (fs, refl, ground arith)
get_or-eq-ok v key default w h = cc

-- An artifact with a path below the root, to a file of the recorded hash.
pub record IsArtifact (root : Root) (item : Json) : Type 0 where
  pub fields : Fields
  pub is_dict : item ≡ dict fields
  pub rel : String
  pub path : find "path" fields ≡ some (str rel)
  pub named : rel ≢ ""
  pub within : root.within rel ≡ true
  pub is_file : root.is_file rel ≡ true
  pub hash : get fields "sha256" ≡ str (root.hash rel)

pub or_default-get : (fs : Fields) (key : String) → or_default (find key fs) null ≡ get fs key
unfolding get
or_default-get fs key = by_case (find key fs)
  where
    by_case : (o : Option Json) → or_default o null ≡ or_null o
    by_case none = refl
    by_case (some v) = refl

pub get_or_ok :
    (fs : Fields) (key : String) (default : Json)
    → get_or (dict fs) key default ≡ ok (or_default (find key fs) default)
unfolding get_or
get_or_ok fs key default = refl

path_text-eq-ok : (v : Json) (s : String) → path_text v ≡ ok s → v ≡ str s
path_text-eq-ok (str t) s h = ground arith
path_text-eq-ok v s h = cc

-- A text that is not the default was listed.
or_default-eq-text :
    (o : Option Json) (s : String) → or_default o (str "") ≡ str s → s ≢ "" → o ≡ some (str s)
or_default-eq-text none s h other = absurd (other (ground arith))
or_default-eq-text (some v) s h other = ap some h

-- The three tests of an artifact, and the comparison of hashes.
artifact_tests :
    (c w f m : Bool) (first second : String)
    → ((if c || not w || not f then first ∷ [] else unless m second) ≡ [])
      ↔ ((c ≡ false) × (w ≡ true) × (f ≡ true) × (m ≡ true))
artifact_tests true w f m first second = (λ h. cc, λ (h, _, _, _). cc)
artifact_tests false false f m first second = (λ h. cc, λ (_, h, _, _). cc)
artifact_tests false true false m first second = (λ h. cc, λ (_, _, h, _). cc)
artifact_tests false true true false first second = (λ h. cc, λ (_, _, _, h). cc)
artifact_tests false true true true first second = (λ h. (refl, refl, refl, refl), λ h. refl)

module _ (root : Root) where
  artifact_errors-eq-nil :
      (name : String) (item : Json) → artifact_errors root name item ≡ ok [] → IsArtifact root item
  unfolding artifact_errors
  artifact_errors-eq-nil name item h =
      let (path, e₁, h₁) = >>=-eq-ok (get_or item "path" (str "")) _ h in
      let (rel, e₂, h₂) = >>=-eq-ok (path_text path) _ h₁ in
      let (sha, e₃, h₃) = >>=-eq-ok (get_or item "sha256" null) _ h₂ in
      let (fields, is_dict, is_path) = get_or-eq-ok item "path" (str "") path e₁ in
      let (named, within, is_file, same) =
        (artifact_tests (rel == "") (root.within rel) (root.is_file rel)
            (is_text sha (root.hash rel)) _ _).0
          (ok-injective h₃) in
      let is_text = path_text-eq-ok path rel e₂ in
      let is_named : rel ≢ "" = λ e. cc (sym named ∙ (==_iff rel "").1 e) in
      let found : or_default (find "sha256" fields) null ≡ sha = ok-injective (
        sym (get_or_ok fields "sha256" null)
        ∙ (ap (λ v. get_or v "sha256" null) (sym is_dict) ∙ e₃)) in
      record {
        fields = fields;
        is_dict = is_dict;
        rel = rel;
        path = or_default-eq-text (find "path" fields) rel (sym is_path ∙ is_text) is_named;
        named = is_named;
        within = within;
        is_file = is_file;
        hash =
            sym (or_default-get fields "sha256")
            ∙ (found ∙ (is_text_iff sha (root.hash rel)).0 same);
      }

  IsArtifact-artifact_errors :
      (name : String) (item : Json) → IsArtifact root item → artifact_errors root name item ≡ ok []
  unfolding artifact_errors get_or
  IsArtifact-artifact_errors name item i =
      let sha : or_default (find "sha256" i.fields) null ≡ str (root.hash i.rel) =
        or_default-get i.fields "sha256" ∙ i.hash in
      let named : (i.rel == "") ≡ false = elim (Bool-cases (i.rel == "")) [
        | inl e ↦ absurd (i.named ((==_iff i.rel "").0 e))
        | inr e ↦ e
      ] in
      rw (i.is_dict, i.path, sha)
        (ap ok (
          (artifact_tests _ _ _ _ _ _).1
            (named, i.within, i.is_file, (is_text_iff _ (root.hash i.rel)).1 refl)))

  pub artifacts_errors_iff :
      (name : String) (items : List Json)
      → (artifacts_errors root name items ≡ ok []) ↔ All (IsArtifact root) items
  unfolding artifacts_errors
  artifacts_errors_iff name [] = (λ h. tt, λ h. refl)
  artifacts_errors_iff name (item ∷ items) = (
    λ h.
        let (first, e₁, h₁) = >>=-eq-ok (artifact_errors root name item) _ h in
        let (later, e₂, h₂) = >>=-eq-ok (artifacts_errors root name items) _ h₁ in
        let (nil₁, nil₂) = append-eq-nil first later (ok-injective h₂) in
        (
          artifact_errors-eq-nil name item (e₁ ∙ ap ok nil₁),
          (artifacts_errors_iff name items).0 (e₂ ∙ ap ok nil₂),
        ),
    λ (first, later).
        rw (IsArtifact-artifact_errors name item first, (artifacts_errors_iff name items).1 later)
          refl,
  )
