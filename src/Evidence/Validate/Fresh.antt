-- ===== src/Evidence/Validate/Fresh.antt =====
-- A lock that was just built is not accepted before it is approved.
use mlx_spark.Base.{
  ℕ, String, List, Bool, false, Option, ◌≡◌, refl, ap, sym, ◌∙◌, string_eq, nat_eq,
}
use mlx_spark.Base.Result.{Result, ok, err, ◌>>=◌, >>=-eq-ok, ok-injective}
use mlx_spark.Json.{Json, dict, Fields, end, find, get, py_eq, scalar_eq, float_eq}
use mlx_spark.Base.Int.{int_eq}
use mlx_spark.Sources.Library.{Library, Bytes, parse_json}
use mlx_spark.Sources.Candidate.{expected_sources, validate_candidate}
use mlx_spark.Sources.Lock.{lock_of, lock_sources, timestamp, build_lock}
use mlx_spark.Evidence.{EvidenceError, Files, invalid, require_dict}
use mlx_spark.Evidence.Tables.{lock_path, run_path, cache_path, provenance_path, pinned_input_path}
use mlx_spark.Evidence.Checks.{require_fields}
use mlx_spark.Evidence.Model.{load_dict}
use mlx_spark.Evidence.Validate.{
  check_state, check_lock, validate_evidence, main_outcome, exits, outcome_of,
}

-- A call that returned, and what follows it.
then_eq :
    {A B : Type 0} {call : Result EvidenceError A} {value : A}
    → call ≡ ok value
    → (next : A → Result EvidenceError B) → (call >>= next) ≡ next value
then_eq h next = ap (λ c. c >>= next) h

stop_eq :
    {A B : Type 0} {call : Result EvidenceError A} {e : EvidenceError}
    → call ≡ err e
    → (next : A → Result EvidenceError B) → (call >>= next) ≡ err e
stop_eq h next = ap (λ c. c >>= next) h

-- What `_load` gives where the file holds a dict.
load_dict_ok :
    (files : Files) (path : String) (fs : Fields)
    → files.load path ≡ ok (dict fs)
    → load_dict files path ≡ ok fs
unfolding load_dict require_dict
load_dict_ok files path fs h = rw h refl

module _ (lib : Library) (is_decimal : ℕ → Bool) (snapshot : Bytes) where
  -- A lock that was built has its version and its state, and is a dict.
  build_lock-eq-ok :
      (candidate : Bytes) (resolved_at : Option String) (now : String) {lock : Json}
      → build_lock lib is_decimal snapshot candidate resolved_at now ≡ ok lock
      → (sources : List (String × Json)) × (lock
          ≡ lock_of lib is_decimal snapshot candidate (timestamp resolved_at now) sources)
  unfolding build_lock
  build_lock-eq-ok candidate resolved_at now h =
      let (value, _, h₁) = >>=-eq-ok (parse_json lib candidate "source candidate") _ h in
      let (fields, _, h₂) = >>=-eq-ok (validate_candidate value) _ h₁ in
      let (sources, _, h₃) =
        >>=-eq-ok (lock_sources lib is_decimal snapshot fields expected_sources) _ h₂ in
      (sources, sym (ok-injective h₃))

  abbrev fields_of_lock : Json → Fields
  fields_of_lock (dict fs) = fs
  fields_of_lock v = end

  lock_fields : Bytes → String → List (String × Json) → Fields
  lock_fields candidate at sources =
      fields_of_lock (lock_of lib is_decimal snapshot candidate at sources)

  check_lock-lock_of :
      (files : Files) (candidate : Bytes) (at : String) (sources : List (String × Json))
      → check_lock files false (lock_fields candidate at sources)
        ≡ err (invalid "source lock is not independently approved")
  unfolding lock_fields check_lock check_state require_fields get find py_eq scalar_eq float_eq
      string_eq nat_eq int_eq
  check_lock-lock_of files candidate at sources = refl

  lock_of-lock_fields :
      (candidate : Bytes) (at : String) (sources : List (String × Json))
      → lock_of lib is_decimal snapshot candidate at sources
        ≡ dict (lock_fields candidate at sources)
  unfolding lock_fields
  lock_of-lock_fields candidate at sources = refl

-- A refused lock ends the validation, once the records are read.
validate_evidence-refused :
    (files : Files) (lock run cache provenance pinned_input : Fields) (e : EvidenceError)
    → load_dict files lock_path ≡ ok lock
    → load_dict files run_path ≡ ok run
    → load_dict files cache_path ≡ ok cache
    → load_dict files provenance_path ≡ ok provenance
    → load_dict files pinned_input_path ≡ ok pinned_input
    → check_lock files false lock ≡ err e
    → validate_evidence false files ≡ err e
unfolding validate_evidence
validate_evidence-refused files lock run cache provenance pinned_input e h₁ h₂ h₃ h₄ h₅ refused =
    then_eq h₁ _
    ∙ (then_eq h₂ _ ∙ (then_eq h₃ _ ∙ (then_eq h₄ _ ∙ (then_eq h₅ _ ∙ stop_eq refused _))))

-- If the lock that was built is the one that is validated, and the other records are dicts, the
-- command ends with the message that the lock is not approved, unless unreviewed evidence is
-- allowed.
pub main_outcome-build_lock :
    (lib : Library) (is_decimal : ℕ → Bool) (snapshot candidate : Bytes)
    → (resolved_at : Option String) (now : String) (lock : Json)
    → (files : Files) (run cache provenance pinned_input : Fields)
    → build_lock lib is_decimal snapshot candidate resolved_at now ≡ ok lock
    → files.load lock_path ≡ ok lock
    → files.load run_path ≡ ok (dict run)
    → files.load cache_path ≡ ok (dict cache)
    → files.load provenance_path ≡ ok (dict provenance)
    → files.load pinned_input_path ≡ ok (dict pinned_input)
    → main_outcome false files ≡ exits (invalid "source lock is not independently approved")
unfolding main_outcome
main_outcome-build_lock lib is_decimal snapshot candidate resolved_at now lock files run cache
      provenance pinned_input built h₁ h₂ h₃ h₄ h₅ =
    let (sources, is_lock) =
      build_lock-eq-ok lib is_decimal snapshot candidate resolved_at now built in
    let at = timestamp resolved_at now in
    let fields = lock_fields lib is_decimal snapshot candidate at sources in
    let is_dict = is_lock ∙ lock_of-lock_fields lib is_decimal snapshot candidate at sources in
    ap outcome_of (
      validate_evidence-refused files fields run cache provenance pinned_input _
        (load_dict_ok files lock_path fields (h₁ ∙ ap ok is_dict))
        (load_dict_ok files run_path run h₂) (load_dict_ok files cache_path cache h₃)
        (load_dict_ok files provenance_path provenance h₄)
        (load_dict_ok files pinned_input_path pinned_input h₅)
        (check_lock-lock_of lib is_decimal snapshot files candidate at sources))
