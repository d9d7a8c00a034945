-- ===== src/Compare/Tests.antt =====
-- Comparisons of small values, and the theorems at them.
use mlx_spark.Base.{[], ◌∷◌, true, ◌≡◌, refl, ◌↔◌, string_eq, nat_eq}
use mlx_spark.Base.Int.{pos, int_eq}
use mlx_spark.Json.{Json, bool, int, str, list, dict, nil, cons, end, field, py_eq, float, nan}
use mlx_spark.Json.Lawful.{IsJson}
use mlx_spark.Json.NanFree.{IsNanFree}
use mlx_spark.Compare.{json_diff, diff}
use mlx_spark.Compare.Exact.{json_diff-eq-nil}
use mlx_spark.Compare.Agree.{diff-json_diff}

abbrev expected : Json
expected = dict (
    field "b" (list (cons (int (pos 1)) (cons (str "x") nil)))
      (field "a" (dict (field "n" (bool true) end)) end))

abbrev observed : Json
observed = dict (
    field "a" (dict (field "n" (int (pos 1)) end))
      (field "b" (list (cons (int (pos 2)) (cons (str "x") nil))) (field "c" (str "") end)))

differences : json_diff expected observed "" ≡ "/b/0" ∷ "/c" ∷ []
unfolding json_diff string_eq nat_eq int_eq
differences = refl

flat_differences : diff expected observed "" ≡ "/b" ∷ "/c" ∷ []
unfolding diff string_eq nat_eq int_eq
flat_differences = refl

-- A NaN in a list: one object to `==`, a difference to `json_diff`.
abbrev nan_list : Json
nan_list = dict (field "a" (list (cons (float nan) nil)) end)

nan_differences : json_diff nan_list nan_list "" ≡ "/a/0" ∷ []
unfolding json_diff string_eq nat_eq
nan_differences = refl

no_nan_differences : diff nan_list nan_list "" ≡ []
unfolding diff string_eq nat_eq
no_nan_differences = refl

root : json_diff (str "a") (list nil) "" ≡ "/" ∷ []
unfolding json_diff string_eq nat_eq
root = refl

lawful_expected : IsJson expected
unfolding string_eq
lawful_expected = (refl, (tt, (tt, tt)), (refl, (refl, tt, tt), tt))

lawful_observed : IsJson observed
unfolding string_eq
lawful_observed = (refl, (refl, tt, tt), (refl, (tt, (tt, tt)), (refl, tt, tt)))

json_diff-eq-nil_example :
    (json_diff expected observed "" ≡ []) ↔ ((py_eq expected observed ≡ true) × IsNanFree expected)
json_diff-eq-nil_example = json_diff-eq-nil expected observed "" lawful_expected lawful_observed

diff-json_diff_example :
    (json_diff expected observed "" ≡ []) ↔ ((diff expected observed "" ≡ []) × IsNanFree expected)
diff-json_diff_example = diff-json_diff expected observed "" lawful_expected lawful_observed
