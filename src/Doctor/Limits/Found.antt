-- ===== src/Doctor/Limits/Found.antt =====
-- What the memory report of a control group says, from the texts of the process on.
use mlx_spark.Base.{
  ℕ, List, [], true, ◌||◌, Option, some, nat_eq, ◌==◌, ==_iff, All, if◌then◌else◌, ◌≡◌, ◌⊎◌, inl,
  inr, sym, Bool-cases, Option-cases,
}
use mathlib.Core.Path.{subst}
use mlx_spark.Base.Result.{Result, ok, err, >>=-eq-ok, ok-injective}
use mlx_spark.Doctor.{Text}
use mlx_spark.Doctor.Context.{Context, resolve_cgroup_context}
use mlx_spark.Doctor.Context.Complete.{
  IsPreferred, memberships, mounts, resolve_cgroup_context-IsPreferred,
}
use mlx_spark.Doctor.Limits.{
  Reason, unsupported_cgroup_version, CgroupMemory, found, levels_onto, finite_levels,
  from_hierarchy, report_of, cgroup_memory,
}
use mlx_spark.Doctor.Limits.Levels.{is_plain, levels_onto-eq-ok}
use mlx_spark.Doctor.Limits.Minimum.{
  IsTightest, finite_levels-Kept, finite_levels-At, report-IsTightest,
}

-- The report of the directories below a mount.
pub record IsReport (digit : ℕ → Option ℕ) (read : Text → List Text → Text → Option Text)
    (c : Context) (m : CgroupMemory) : Type 0 where
  pub supported : (c.version ≡ 2) ⊎ (c.version ≡ 1)
  pub plain : All (λ part. is_plain part ≡ true) c.relative_parts
  pub tightest : IsTightest digit read c.version c.mount_point c.relative_parts m

supported_version :
    (version v : ℕ)
    → (if version == 2 || version == 1 then ok version else err unsupported_cgroup_version) ≡ ok v
    → (v ≡ version) × ((version ≡ 2) ⊎ (version ≡ 1))
supported_version version v h = elim (Bool-cases (version == 2)) [
  | inl two ↦ (sym (ok-injective (rw two at h)), inl ((==_iff version 2).0 two))
  | inr other ↦ elim (Bool-cases (version == 1)) [
    | inl one ↦ (sym (ok-injective (rw (other, one) at h)), inr ((==_iff version 1).0 one))
    | inr neither ↦ cc (rw (other, neither) at h)
  ]
]

module _ (digit : ℕ → Option ℕ) (read : Text → List Text → Text → Option Text) where
  from_hierarchy-IsReport :
      (c : Context) (m : CgroupMemory)
      → from_hierarchy digit read c.version c.mount_point c.relative_parts ≡ ok m
      → IsReport digit read c m
  unfolding from_hierarchy
  from_hierarchy-IsReport c m h =
      let (v, e₁, h₁) =
        >>=-eq-ok
          (if c.version == 2 || c.version == 1
            then ok c.version
            else err unsupported_cgroup_version)
          _ h in
      let (levels, e₂, h₂) = >>=-eq-ok (levels_onto [] c.relative_parts) _ h₁ in
      let (finite, e₃, h₃) = >>=-eq-ok (finite_levels digit read v c.mount_point levels) _ h₂ in
      let (same, which) = supported_version c.version v e₁ in
      record {
        supported = which;
        plain = levels_onto-eq-ok [] c.relative_parts levels e₂;
        tightest =
            subst (λ w. IsTightest digit read w c.mount_point c.relative_parts m) same
              (subst (IsTightest digit read v c.mount_point c.relative_parts) (ok-injective h₃) (
                report-IsTightest digit read v c.mount_point c.relative_parts levels finite e₂
                  (finite_levels-Kept digit read v c.mount_point levels finite e₃)
                  (finite_levels-At digit read v c.mount_point levels finite e₃)));
      }

  report_of-eq-found :
      (r : Result Reason CgroupMemory) (m : CgroupMemory) → report_of r ≡ found m → r ≡ ok m
  report_of-eq-found (ok n) m h = cc
  report_of-eq-found (err reason) m h = cc

  -- A memory report is that of the preferred mount of the control group, whose path has plain parts
  -- only. In each directory from the mount down neither file is readable, or the limit is, and so
  -- is the use where the limit is finite. The numbers are those of a finite limit that leaves the
  -- least of what the limits exceed their uses by, or there is no finite limit at all.
  pub cgroup_memory-IsReport :
      (cgroup_text mountinfo_text : Text) (m : CgroupMemory)
      → cgroup_memory digit read (some cgroup_text) (some mountinfo_text) ≡ found m
      → (c : Context) × IsPreferred (memberships cgroup_text) (mounts mountinfo_text) c
        × IsReport digit read c m
  unfolding cgroup_memory
  cgroup_memory-IsReport cgroup_text mountinfo_text m h =
      elim (Option-cases (resolve_cgroup_context cgroup_text mountinfo_text)) [
        | inl missing ↦ cc (rw (cgroup_memory, missing) at h)
        | inr (c, is_context) ↦ (
          c,
          resolve_cgroup_context-IsPreferred cgroup_text mountinfo_text c is_context,
          from_hierarchy-IsReport c m
              (report_of-eq-found _ m (rw (cgroup_memory, is_context) at h)),
        )
      ]
