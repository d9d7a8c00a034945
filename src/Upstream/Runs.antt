-- ===== src/Upstream/Runs.antt =====
-- What a run does, in order, and how it ends.
use mlx_spark.Base.{
  ℕ, String, List, [], ◌∷◌, ◌++◌, map, Bool, true, none, some, string_eq, All, ◌≡◌, ◌≢◌,
}
use mlx_spark.Base.Result.{ok, err}
use mlx_spark.Base.Text.{codes, codes_eq}
use mlx_spark.Base.Lines.{strip}
use mlx_spark.Json.{Json}
use mlx_spark.Upstream.{FetchError, Host, Action, make_directory, call, commands, head, Run}
use mlx_spark.Upstream.Reviewed.{IsReviewed}

-- Each call succeeds, and the revision that is checked out is the one asked for.
abbrev pub AreGood : Host → String → List (List String) → Type 0
AreGood host sha cs =
    All (λ c. host.git c ≢ none) cs
    × ((out : List ℕ) × (host.git head ≡ some out) × (strip out ≡ codes sha))

abbrev pub calls : List (List String) → List Action
calls cs = map call (cs ++ (head ∷ []))

-- A run of calls ends well, or stops in the order of the calls where they do not all succeed.
data IsCalled (host : Host) (sha : String) (cs : List (List String)) : Run → Type 0 where
  stopped :
      {done : List Action} (rest : List Action) {e : FetchError}
      → done ++ rest ≡ calls cs
      → (AreGood host sha cs → ⊥)
      → IsCalled host sha cs (done, err e)
  ended : AreGood host sha cs → IsCalled host sha cs (calls cs, ok tt)

-- The directory is made, each call succeeds, and the revision is the one asked for.
abbrev pub Succeeds : Host → String → Type 0
Succeeds host sha = (host.can_make ≡ true) × AreGood host sha (commands sha)

-- A run does nothing without a review; with one it makes the directory and then the calls, in order,
-- all of them where they succeed, and up to one that does not otherwise.
pub data IsRun (allow_network : Bool) (host : Host) : Run → Type 0 where
  refused :
      {e : FetchError}
      → ((sha : String) → IsReviewed allow_network host sha → ⊥)
      → IsRun allow_network host ([], err e)
  failed :
      (sha : String) {done : List Action} (rest : List Action) {e : FetchError}
      → IsReviewed allow_network host sha
      → done ++ rest ≡ make_directory ∷ calls (commands sha)
      → (Succeeds host sha → ⊥)
      → IsRun allow_network host (done, err e)
  finished :
      (sha : String)
      → IsReviewed allow_network host sha
      → Succeeds host sha
      → IsRun allow_network host (make_directory ∷ calls (commands sha), ok tt)
