-- ===== src/Evidence/Records/Logged.antt =====
-- What the tests of the run tell of its commands, and of its review.
use mlx_spark.Base.{
  String, List, [], ◌∷◌, true, false, nat_eq, All, some, ◌≡◌, ◌≢◌, refl, ap, sym, ◌∙◌,
}
use mathlib.Core.Path.{subst}
use mlx_spark.Base.Result.{ok, >>=-eq-ok, ok-injective}
use mlx_spark.Base.Text.{is_sha40}
use mlx_spark.Json.{Json, str, list, dict, Items, nil, cons, Fields, end, get, find, elements}
use mlx_spark.Evidence.{Files, found_or, read_or, full_match, is_log_path}
use mlx_spark.Evidence.Checks.{require_fields, require_all}
use mlx_spark.Evidence.Checks.Met.{
  MeetsAll, require_that-eq-ok, require_that-true, require_all-eq-ok, read_or-eq-ok, read_or-dict,
  full_match-eq-ok, found_or-eq-text,
}
use mlx_spark.Evidence.Records.{
  task_checks, hardware_checks, check_log, check_command, check_commands, require_commands,
  check_run,
}

-- The command names a log: a file at a path that starts with the name of the run's directory.
abbrev pub HasLog : Files → String → Fields → Type 0
HasLog files key fields =
    (path : String) × (find key fields ≡ some (str path))
    × (is_log_path (str path) ≡ true)
    × (files.is_file path ≡ true)

pub record IsLogged (files : Files) (command : Json) : Type 0 where
  pub fields : Fields
  pub is_dict : command ≡ dict fields
  pub log : HasLog files "log_path" fields
  pub out : HasLog files "stdout_log_path" fields
  pub errors : HasLog files "stderr_log_path" fields

-- A run at a commit, within its scope, with commands that are all logged.
pub record IsRecorded (files : Files) (run : Fields) : Type 0 where
  pub commit : String
  pub has_commit : find "implementation_commit" run ≡ some (str commit)
  pub full : is_sha40 commit ≡ true
  pub hardware : MeetsAll hardware_checks (found_or (find "hardware" run) (dict end))
  pub commands : Items
  pub listed : get run "commands" ≡ list commands
  pub some_command : commands ≢ nil
  pub each : All (IsLogged files) (elements commands)

check_log-eq-ok :
    (files : Files) (v : Json) (unsafe missing : String)
    → check_log files v unsafe missing ≡ ok tt
    → (path : String) × (v ≡ str path)
      × (is_log_path (str path) ≡ true)
      × (files.is_file path ≡ true)
unfolding check_log
check_log-eq-ok files (str path) unsafe missing h =
    let (below, h₁) = require_that-eq-ok (is_log_path (str path)) _ _ h in
    (path, refl, below, require_that-true (files.is_file path) _ h₁)
check_log-eq-ok files v unsafe missing h = cc

log_path-empty : is_log_path (str "") ≡ false
unfolding is_log_path
log_path-empty = refl

-- The default is no such path.
check_log-HasLog :
    (files : Files) (key unsafe missing : String) (fields : Fields) {v : Json}
    → found_or (find key fields) (str "") ≡ v
    → check_log files v unsafe missing ≡ ok tt
    → HasLog files key fields
check_log-HasLog files key unsafe missing fields {v} is_v h =
    let (path, is_path, below, is_file) = check_log-eq-ok files v unsafe missing h in
    (
      path,
      found_or-eq-text (find key fields) (λ s. is_log_path (str s)) path log_path-empty
          (is_v ∙ is_path) below,
      below,
      is_file,
    )

check_command-IsLogged :
    (files : Files) (command : Json) → check_command files command ≡ ok tt → IsLogged files command
unfolding check_command
check_command-IsLogged files command h =
    let (path, e₁, h₁) = >>=-eq-ok (read_or command "log_path" (str "")) _ h in
    let (_, e₂, h₂) = >>=-eq-ok (check_log files path _ _) _ h₁ in
    let (out, e₃, h₃) = >>=-eq-ok (read_or command "stdout_log_path" (str "")) _ h₂ in
    let (_, e₄, h₄) = >>=-eq-ok (check_log files out _ _) _ h₃ in
    let (errors, e₅, h₅) = >>=-eq-ok (read_or command "stderr_log_path" (str "")) _ h₄ in
    let (fs, is_fs, is_path) = read_or-eq-ok command "log_path" (str "") e₁ in
    let read = λ (key : String) (w : Json) (e : read_or command key (str "") ≡ ok w).
      read_or-dict command fs key (str "") is_fs e in
    record {
      fields = fs;
      is_dict = is_fs;
      log = check_log-HasLog files "log_path" _ _ fs is_path e₂;
      out = check_log-HasLog files "stdout_log_path" _ _ fs (read _ out e₃) e₄;
      errors = check_log-HasLog files "stderr_log_path" _ _ fs (read _ errors e₅) h₅;
    }

check_commands-AreLogged :
    (files : Files) (commands : List Json)
    → check_commands files commands ≡ ok tt
    → All (IsLogged files) commands
unfolding check_commands
check_commands-AreLogged files [] h = tt
check_commands-AreLogged files (command ∷ rest) h =
    let (_, first, later) = >>=-eq-ok (check_command files command) _ h in
    (check_command-IsLogged files command first, check_commands-AreLogged files rest later)

require_commands-eq-ok :
    (v : Json) {commands : List Json}
    → require_commands v ≡ ok commands
    → (xs : Items) × (v ≡ list xs) × (xs ≢ nil) × (elements xs ≡ commands)
unfolding require_commands
require_commands-eq-ok (list (cons x xs)) h = (cons x xs, refl, λ e. cc, ok-injective h)
require_commands-eq-ok (list nil) h = cc
require_commands-eq-ok v h = cc

sha40-empty : is_sha40 "" ≡ false
unfolding is_sha40 nat_eq
sha40-empty = refl

-- The first key of a run is its task; what is read later are its other keys.
pub check_run-IsRecorded :
    (files : Files) (run : Fields) → check_run files run ≡ ok tt → IsRecorded files run
unfolding check_run
check_run-IsRecorded files run h =
    let (_, _, h₁) = >>=-eq-ok (require_fields run task_checks) _ h in
    let commit = found_or (find "implementation_commit" run) (str "") in
    let (full, e₃, h₃) = >>=-eq-ok (full_match is_sha40 commit) _ h₁ in
    let (is_full, h₄) = require_that-eq-ok full _ _ h₃ in
    let hardware = found_or (find "hardware" run) (dict end) in
    let (_, e₆, h₆) = >>=-eq-ok (require_all hardware hardware_checks) _ h₄ in
    let (commands, e₇, h₇) = >>=-eq-ok (require_commands (get run "commands")) _ h₆ in
    let (s, is_s, is_sha) = full_match-eq-ok is_sha40 commit (e₃ ∙ ap ok is_full) in
    let (xs, listed, some_command, is_commands) = require_commands-eq-ok (get run "commands") e₇ in
    record {
      commit = s;
      has_commit =
          found_or-eq-text (find "implementation_commit" run) is_sha40 s sha40-empty is_s is_sha;
      full = is_sha;
      hardware = require_all-eq-ok hardware hardware_checks e₆;
      commands = xs;
      listed = listed;
      some_command = some_command;
      each =
          subst (All (IsLogged files)) (sym is_commands)
            (check_commands-AreLogged files commands h₇);
    }
