-- ===== src/Upstream.antt =====
-- tools/fetch_upstream.py: one reviewed source into a new directory. The host is a parameter.
pub mod Reviewed
pub mod Runs
mod Tests
use mlx_spark.Base.{
  ℕ, String, List, [], ◌∷◌, ◌++◌, Bool, true, false, not, ◌&&◌, ◌||◌, Option, none, some, string_eq,
  ◌==◌, if◌then◌else◌,
}
use mlx_spark.Base.Result.{Result, ok, err, ◌>>=◌, ◌>>◌, require}
use mlx_spark.Base.Text.{codes, codes_eq, is_sha40}
use mlx_spark.Base.Lines.{strip}
use mlx_spark.Json.{Json, str, dict, Fields, find, get, is_text, truthy}

-- The messages of SystemExit, and what Python, the files and git raise.
pub data FetchError : Type 0 where
  network_disabled not_approved no_review_evidence not_immutable destination_exists
        revision_mismatch :
      FetchError
  unreadable_lock attribute_error key_error type_error os_error git_failed : FetchError

pub record Host : Type 0 where
  -- the parsed lock, where it can be read and parsed
  pub lock : Option Json
  -- `dest.exists()`, and whether `dest.mkdir(parents=True)` succeeds
  pub exists : Bool
  pub can_make : Bool
  -- the standard output of git with the arguments, where it succeeds in time
  pub git : List String → Option (List ℕ)

pub data Action : Type 0 where
  make_directory : Action
  call : List String → Action

-- `v[key]`
unfoldable pub item : Json → String → Result FetchError Json
item (dict fs) key = elim (find key fs) [ none ↦ err key_error | some v ↦ ok v ]
item v key = err type_error

abbrev pub lock_of : Option Json → Result FetchError Fields
lock_of none = err unreadable_lock
lock_of (some (dict fs)) = ok fs
lock_of (some v) = err attribute_error

-- `entry['repository'] != ... or not re.fullmatch(..., sha)`: a pattern is matched with texts only.
abbrev pub immutable_revision : Json → Json → Result FetchError String
immutable_revision repository (str sha) =
    if is_text repository "ml-explore/mlx" && is_sha40 sha then ok sha else err not_immutable
immutable_revision repository v =
    if is_text repository "ml-explore/mlx" then err type_error else err not_immutable

-- The tests before the directory is made, in their order.
unfoldable pub reviewed_revision : Bool → Host → Result FetchError String
unfolding item
reviewed_revision allow_network host = do
  require allow_network network_disabled
  lock ← lock_of host.lock
  require (is_text (get lock "review_state") "approved") not_approved
  require (truthy (get lock "review_evidence")) no_review_evidence
  sources ← item (dict lock) "sources"
  entry ← item sources "mlx"
  revision ← item entry "revision"
  repository ← item entry "repository"
  sha ← immutable_revision repository revision
  require (not host.exists) destination_exists
  ok sha

-- The calls of git up to the check of the revision, and that one.
abbrev pub commands : String → List (List String)
commands sha =
    ("init" ∷ [])
    ∷ ("remote" ∷ "add" ∷ "origin" ∷ "https://github.com/ml-explore/mlx.git" ∷ [])
    ∷ ("fetch" ∷ "--depth" ∷ "1" ∷ "origin" ∷ sha ∷ [])
    ∷ ("checkout" ∷ "--detach" ∷ sha ∷ [])
    ∷ []

abbrev pub head : List String
head = "rev-parse" ∷ "HEAD" ∷ []

-- What was done, in order, and how it ended.
abbrev pub Run : Type 0
Run = List Action × Result FetchError (Unit {0})

abbrev pub then_do : List Action → Run → Run
then_do actions (later, r) = (actions ++ later, r)

-- The check of the revision that was checked out.
unfoldable pub check_head : Host → String → Run
check_head host sha = elim (host.git head) [
  | none ↦ (call head ∷ [], err git_failed)
  | some out ↦ (call head ∷ [], if strip out == codes sha then ok tt else err revision_mismatch)
]

-- The calls one after the other, up to the first that fails.
unfoldable pub call_all : Host → String → List (List String) → Run
unfolding check_head
call_all host sha [] = check_head host sha
call_all host sha (arguments ∷ rest) =
    let later = call_all host sha rest in
    elim (host.git arguments) [
      | none ↦ (call arguments ∷ [], err git_failed)
      | some out ↦ then_do (call arguments ∷ []) later
    ]

unfoldable pub materialize : Host → String → Run
unfolding call_all
materialize host sha =
    if host.can_make
    then then_do (make_directory ∷ []) (call_all host sha (commands sha))
    else (make_directory ∷ [], err os_error)

unfoldable pub fetch : Bool → Host → Run
unfolding reviewed_revision materialize
fetch allow_network host = elim (reviewed_revision allow_network host) [
  | err e ↦ ([], err e)
  | ok sha ↦ materialize host sha
]
