-- ===== src/Evidence/Validate/Accepted.antt =====
-- What evidence is accepted: the lock, the refs in it, and the review.
use mlx_spark.Base.{ℕ, String, Bool, true, false, not, string_eq, ◌==◌, ◌≡◌, refl, ap, ◌∙◌}
use mlx_spark.Base.Result.{ok, >>=-eq-ok}
use mlx_spark.Json.{Json, str, dict, Fields, end, get, find, keys}
use mlx_spark.Json.Views.{is_text_iff}
use mlx_spark.Sources.Candidate.{same_members}
use mlx_spark.Evidence.{Files, found_or}
use mlx_spark.Evidence.Tables.{
  lock_path, run_path, cache_path, provenance_path, pinned_input_path, expected_revisions,
  expected_artifact_hashes, names_of,
}
use mlx_spark.Evidence.Checks.{require_fields}
use mlx_spark.Evidence.Checks.Met.{
  MeetsAll, require_that-eq-ok, require_that-true, require_fields_iff, require_all-eq-ok,
  require_dict-eq-ok,
}
use mlx_spark.Evidence.Lock.{exactly_named, check_revisions, check_hashes, check_pinned_input}
use mlx_spark.Evidence.Lock.Pinned.{
  ArePinned, HaveHashes, check_revisions-ArePinned, check_hashes-HaveHashes, exactly_named-eq-ok,
}
use mlx_spark.Evidence.Refs.{strings_of, check_strings}
use mlx_spark.Evidence.Refs.Immutable.{StandsIn, IsStable, check_strings-IsStable}
use mlx_spark.Evidence.Model.{load_dict}
use mlx_spark.Evidence.Records.{
  review_checks, check_cache, check_provenance, check_run, check_review,
}
use mlx_spark.Evidence.Records.Logged.{IsRecorded, check_run-IsRecorded}
use mlx_spark.Evidence.Validate.{
  check_evidence, state_checks, check_state, version_checks, check_lock, check_audits, check_final,
  validate_evidence,
}

load_dict-eq-ok :
    (files : Files) (path : String) {fs : Fields}
    → load_dict files path ≡ ok fs
    → files.load path ≡ ok (dict fs)
unfolding load_dict
load_dict-eq-ok files path h =
    let (value, e, h₁) = >>=-eq-ok (files.load path) _ h in
    e ∙ ap ok (require_dict-eq-ok value _ h₁)

-- The parts of a validation that returns, each of which returned.
record Stages (allow_unreviewed : Bool) (files : Files) : Type 0 where
  lock : Fields
  run : Fields
  sources : Fields
  load_lock : load_dict files lock_path ≡ ok lock
  load_run : load_dict files run_path ≡ ok run
  lock_ok : check_lock files allow_unreviewed lock ≡ ok sources
  run_ok : check_run files run ≡ ok tt
  final_ok : check_final allow_unreviewed run lock ≡ ok tt

validate_evidence-Stages :
    (allow_unreviewed : Bool) (files : Files) {out : Json}
    → validate_evidence allow_unreviewed files ≡ ok out
    → Stages allow_unreviewed files
unfolding validate_evidence
validate_evidence-Stages allow_unreviewed files h =
    let (lock, e₁, h₁) = >>=-eq-ok (load_dict files lock_path) _ h in
    let (run, e₂, h₂) = >>=-eq-ok (load_dict files run_path) _ h₁ in
    let (cache, e₃, h₃) = >>=-eq-ok (load_dict files cache_path) _ h₂ in
    let (provenance, e₄, h₄) = >>=-eq-ok (load_dict files provenance_path) _ h₃ in
    let (pinned_input, e₅, h₅) = >>=-eq-ok (load_dict files pinned_input_path) _ h₄ in
    let (sources, e₆, h₆) = >>=-eq-ok (check_lock files allow_unreviewed lock) _ h₅ in
    let (manifest, e₇, h₇) = >>=-eq-ok (check_audits files lock sources) _ h₆ in
    let (_, e₈, h₈) = >>=-eq-ok (check_cache files cache manifest) _ h₇ in
    let (_, e₉, h₉) = >>=-eq-ok (check_provenance provenance pinned_input) _ h₈ in
    let (_, e₁₀, h₁₀) = >>=-eq-ok (check_run files run) _ h₉ in
    let (_, e₁₁, h₁₁) = >>=-eq-ok (check_final allow_unreviewed run lock) _ h₁₀ in
    record {
      lock = lock;
      run = run;
      sources = sources;
      load_lock = e₁;
      load_run = e₂;
      lock_ok = e₆;
      run_ok = e₁₀;
      final_ok = e₁₁;
    }

-- The lock has exactly the pinned sources, with the hashes of their artifacts.
pub record IsPinnedLock (lock : Fields) : Type 0 where
  pub sources : Fields
  pub has_sources : get lock "sources" ≡ dict sources
  pub exactly : same_members (keys sources) (names_of expected_revisions) ≡ true
  pub pinned : ArePinned sources expected_revisions
  pub hashed : HaveHashes sources expected_artifact_hashes

record LockStages (allow_unreviewed : Bool) (files : Files) (lock : Fields) : Type 0 where
  state_ok : check_state files allow_unreviewed lock ≡ ok tt
  pinned : IsPinnedLock lock
  strings_ok : check_strings files (strings_of (dict lock)) ≡ ok tt

check_lock-LockStages :
    (allow_unreviewed : Bool) (files : Files) (lock : Fields) {sources : Fields}
    → check_lock files allow_unreviewed lock ≡ ok sources
    → LockStages allow_unreviewed files lock
unfolding check_lock
check_lock-LockStages allow_unreviewed files lock h =
    let (_, e₁, h₁) = >>=-eq-ok (require_fields lock version_checks) _ h in
    let (_, e₂, h₂) = >>=-eq-ok (check_state files allow_unreviewed lock) _ h₁ in
    let (_, e₃, h₃) = >>=-eq-ok (check_pinned_input files lock) _ h₂ in
    let named = exactly_named (get lock "sources") expected_revisions "unexpected source set" in
    let (sources, e₄, h₄) = >>=-eq-ok named _ h₃ in
    let (_, e₅, h₅) = >>=-eq-ok (check_revisions sources expected_revisions) _ h₄ in
    let (_, e₆, h₆) = >>=-eq-ok (check_hashes sources expected_artifact_hashes) _ h₅ in
    let (_, e₇, h₇) = >>=-eq-ok (check_strings files (strings_of (dict lock))) _ h₆ in
    let (has_sources, exactly) =
      exactly_named-eq-ok (get lock "sources") expected_revisions "unexpected source set" e₄ in
    record {
      state_ok = e₂;
      pinned = record {
        sources = sources;
        has_sources = has_sources;
        exactly = exactly;
        pinned = check_revisions-ArePinned sources expected_revisions e₅;
        hashed = check_hashes-HaveHashes sources expected_artifact_hashes e₆;
      };
      strings_ok = e₇;
    }

-- If the evidence is accepted, the lock is a dict whose sources are exactly the four that are
-- pinned, each at its revision, which was verified, with artifacts that are not empty and have
-- the revision in their URL, and every hash that the table lists is that of its artifact.
pub validate_evidence-IsPinnedLock :
    (allow_unreviewed : Bool) (files : Files) (out : Json)
    → validate_evidence allow_unreviewed files ≡ ok out
    → (lock : Fields) × (files.load lock_path ≡ ok (dict lock)) × IsPinnedLock lock
validate_evidence-IsPinnedLock allow_unreviewed files out h =
    let s = validate_evidence-Stages allow_unreviewed files h in
    (
      s.lock,
      load_dict-eq-ok files lock_path s.load_lock,
      (check_lock-LockStages allow_unreviewed files s.lock s.lock_ok).pinned,
    )

-- If the evidence is accepted, and each character matches itself, no text at any depth of the
-- lock, nor a key, is in lower case the name of a branch that moves or has such a name as a part
-- after a slash.
pub validate_evidence-IsStable :
    (allow_unreviewed : Bool) (files : Files) (out : Json)
    → ((c : ℕ) → files.same c c ≡ true)
    → validate_evidence allow_unreviewed files ≡ ok out
    → (lock : Fields) × (files.load lock_path ≡ ok (dict lock))
      × ((t : String) → StandsIn t (dict lock) → IsStable files t)
validate_evidence-IsStable allow_unreviewed files out same_self h =
    let s = validate_evidence-Stages allow_unreviewed files h in
    let stages = check_lock-LockStages allow_unreviewed files s.lock s.lock_ok in
    (
      s.lock,
      load_dict-eq-ok files lock_path s.load_lock,
      λ t stands. check_strings-IsStable files same_self (dict s.lock) t stages.strings_ok stands,
    )

-- An approved lock with its evidence, and a run whose review is approved on the same evidence.
pub record IsReviewed (files : Files) (lock run : Fields) : Type 0 where
  pub state : get lock "review_state" ≡ str "approved"
  pub path : String
  pub evidence : get lock "review_evidence" ≡ str path
  pub is_file : files.is_file path ≡ true
  pub review : MeetsAll (review_checks lock) (found_or (find "review" run) (dict end))

check_evidence-eq-ok :
    (files : Files) (v : Json)
    → check_evidence files v ≡ ok tt
    → (path : String) × (v ≡ str path) × (files.is_file path ≡ true)
unfolding check_evidence
check_evidence-eq-ok files (str path) h =
    let (_, h₁) = require_that-eq-ok (not (path == "")) _ _ h in
    (path, refl, require_that-true (files.is_file path) _ h₁)
check_evidence-eq-ok files v h = cc

check_review-MeetsAll :
    (run lock : Fields)
    → check_review run lock ≡ ok tt
    → MeetsAll (review_checks lock) (found_or (find "review" run) (dict end))
unfolding check_review
check_review-MeetsAll run lock h =
    require_all-eq-ok (found_or (find "review" run) (dict end)) (review_checks lock) h

check_state-eq-ok :
    (files : Files) (lock : Fields)
    → check_state files false lock ≡ ok tt
    → (get lock "review_state" ≡ str "approved")
      × (path : String) × (get lock "review_evidence" ≡ str path)
      × (files.is_file path ≡ true)
unfolding check_state
check_state-eq-ok files lock h =
    let (_, e, h₁) = >>=-eq-ok (require_fields lock state_checks) _ h in
    let (path, is_path, is_file) = check_evidence-eq-ok files (get lock "review_evidence") h₁ in
    (
      (is_text_iff (get lock "review_state") "approved").0
          ((require_fields_iff lock state_checks).0 e).0,
      path,
      is_path,
      is_file,
    )

-- If the evidence is accepted where unreviewed evidence is not allowed, the lock is approved, its
-- review evidence is a file, the review of the run is approved on that evidence, and the run names
-- a full commit, keeps to its scope and has commands, each with three logs that are files at paths
-- that start with evidence/runs/fnd-03/.
pub validate_evidence-IsReviewed :
    (files : Files) (out : Json)
    → validate_evidence false files ≡ ok out
    → (lock run : Fields) × (files.load lock_path ≡ ok (dict lock))
      × (files.load run_path ≡ ok (dict run))
      × IsReviewed files lock run
      × IsRecorded files run
validate_evidence-IsReviewed files out h =
    let s = validate_evidence-Stages false files h in
    let stages = check_lock-LockStages false files s.lock s.lock_ok in
    let (state, path, evidence, is_file) = check_state-eq-ok files s.lock stages.state_ok in
    (
      s.lock,
      s.run,
      load_dict-eq-ok files lock_path s.load_lock,
      load_dict-eq-ok files run_path s.load_run,
      record {
        state = state;
        path = path;
        evidence = evidence;
        is_file = is_file;
        review = check_review-MeetsAll s.run s.lock s.final_ok;
      },
      check_run-IsRecorded files s.run s.run_ok,
    )
