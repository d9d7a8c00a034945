-- ===== src/Upstream/Tests.antt =====
-- A host whose lock is reviewed, and two that are refused or fail.
use mlx_spark.Base.{
  String, [], ◌∷◌, Bool, true, false, none, some, string_eq, nat_eq, if◌then◌else◌, ◌≡◌, refl,
}
use mlx_spark.Base.Result.{ok, err}
use mlx_spark.Base.Text.{codes, codes_eq, is_sha40}
use mlx_spark.Base.Lines.{strip, strip_start, strip_end}
use mlx_spark.Json.{Json, str, object, find, get, py_eq}
use mlx_spark.Upstream.{
  Host, make_directory, call, commands, not_approved, git_failed, item, reviewed_revision,
  check_head, call_all, materialize, fetch,
}
use mlx_spark.Upstream.Runs.{calls}

abbrev sha : String
sha = "0123456789abcdef0123456789abcdef01234567"

abbrev lock : String → Json
lock state = object (
    ("review_state", str state)
    ∷ ("review_evidence", str "review.md")
    ∷ (
      "sources",
      object (
          ("mlx", object (("repository", str "ml-explore/mlx") ∷ ("revision", str sha) ∷ [])) ∷ []),
    )
    ∷ [])

abbrev host : String → Bool → Host
host state online = record {
  lock = some (lock state);
  exists = false;
  can_make = true;
  git = λ arguments.
      if online then some (codes "0123456789abcdef0123456789abcdef01234567\n") else none;
}

all_done : fetch true (host "approved" true) ≡ (make_directory ∷ calls (commands sha), ok tt)
unfolding fetch reviewed_revision materialize call_all check_head item get find py_eq string_eq
    nat_eq codes_eq is_sha40 strip strip_start strip_end
all_done = refl

refused : fetch true (host "candidate" true) ≡ ([], err not_approved)
unfolding fetch reviewed_revision get find py_eq string_eq
refused = refl

offline :
    fetch true (host "approved" false) ≡ (make_directory ∷ call ("init" ∷ []) ∷ [], err git_failed)
unfolding fetch reviewed_revision materialize call_all item get find py_eq string_eq nat_eq is_sha40
offline = refl
