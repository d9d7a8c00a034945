-- ===== src/Integrity/Tests.antt =====
-- A bundle of two files.
use mlx_spark.Base.{ℕ, List, [], ◌∷◌, true, some, nat_eq, length, ◌≡◌, ◌↔◌, All, refl}
use mlx_spark.Base.Result.{ok, err}
use mlx_spark.Base.Text.{codes, codes_eq, extend}
use mlx_spark.Base.Lines.{split_lines, cut}
use mlx_spark.Integrity.{Bundle, IntegrityReport, manifest_errors, check_integrity, value_error}
use mlx_spark.Integrity.Intact.{IsIntact, check_integrity_iff}

abbrev bundle : List ℕ → Bundle
bundle text = record {
  manifest = some text;
  within = λ rel. true;
  is_file = λ rel. true;
  hash = λ rel. codes "aa";
}

abbrev listed : List ℕ
listed = codes "aa  README\naa  a b\n"

intact : check_integrity (bundle listed) ≡ ok (record { checked = 2; errors = []; code = 0 })
unfolding check_integrity manifest_errors split_lines extend cut nat_eq codes_eq
intact = refl

changed :
    check_integrity (bundle (codes "bb  x"))
    ≡ ok (record { checked = 1; errors = codes "x: mismatch" ∷ []; code = 1 })
unfolding check_integrity manifest_errors split_lines extend cut nat_eq codes_eq
changed = refl

one_space : check_integrity (bundle (codes "aa x")) ≡ err value_error
unfolding check_integrity manifest_errors split_lines extend cut nat_eq codes_eq
one_space = refl

check_integrity_iff_example :
    ((r : IntegrityReport) × (check_integrity (bundle listed) ≡ ok r)
      × (r.code ≡ 0)
      × (r.checked ≡ length (split_lines listed)))
    ↔ All (IsIntact (bundle listed)) (split_lines listed)
check_integrity_iff_example = check_integrity_iff (bundle listed) listed refl
