-- ===== src/Doctor/Limits.antt =====
-- `_cgroup_memory`: the tightest finite limit from the mount down to the current control group.
pub mod Levels
pub mod Tightest
pub mod Minimum
pub mod Found
use mlx_spark.Base.{
  ℕ, zero, suc, ◌+◌, ◌-◌, ◌^◌, List, [], ◌∷◌, ◌++◌, Bool, true, false, not, ◌&&◌, ◌||◌, Option,
  none, some, nat_eq, ◌==◌, contains, length, leb, ltb, if◌then◌else◌,
}
use mlx_spark.Base.Result.{Result, ok, err, ◌>>=◌, ◌>>◌}
use mlx_spark.Base.Int.{ℤ, pos, negsuc}
use mlx_spark.Base.Text.{codes, codes_eq}
use mlx_spark.Base.Lines.{strip}
use mlx_spark.Doctor.{Text}
use mlx_spark.Doctor.Paths.{is_dots}
use mlx_spark.Doctor.Context.{Context, resolve_cgroup_context}
use mlx_spark.Doctor.Integer.{int_of}

-- The `reason` of a status that is unknown.
pub data Reason : Type 0 where
  unsupported_cgroup_version invalid_cgroup_membership cgroup_limit_unreadable
        invalid_cgroup_limit :
      Reason
  cgroup_usage_unreadable invalid_cgroup_usage current_cgroup_mount_not_resolved : Reason

-- A level with a finite limit.
pub record Level : Type 0 where
  pub available : ℕ
  pub limit : ℤ
  pub current : ℤ

-- The status is ok; the numbers are None where no level has a finite limit.
pub record CgroupMemory : Type 0 where
  pub version : ℕ
  pub tightest : Option Level
  pub finite_limit_levels : ℕ

pub data Report : Type 0 where
  unavailable : Report
  unknown : Reason → Report
  found : CgroupMemory → Report

-- `max(0, limit - current)`
abbrev pub headroom : ℤ → ℤ → ℕ
headroom (pos a) (pos b) = a - b
headroom (pos a) (negsuc b) = a + suc b
headroom (negsuc a) (pos b) = 0
headroom (negsuc a) (negsuc b) = b - a

-- From here on a limit of version 1 is none.
unfoldable pub v1_unlimited_min : ℕ
v1_unlimited_min = 2 ^ 60

abbrev pub is_unlimited : ℕ → ℤ → Bool
is_unlimited version (pos n) = version == 1 && leb v1_unlimited_min n
is_unlimited version (negsuc n) = false

abbrev pub limit_name : ℕ → Text
limit_name version = if version == 2 then codes "memory.max" else codes "memory.limit_in_bytes"

abbrev pub current_name : ℕ → Text
current_name version =
    if version == 2 then codes "memory.current" else codes "memory.usage_in_bytes"

-- The directories from the mount down, each as its parts below the mount.
unfoldable pub levels_onto : List Text → List Text → Result Reason (List (List Text))
levels_onto above [] = ok (above ∷ [])
levels_onto above (part ∷ parts) =
    let below = levels_onto (above ++ (part ∷ [])) parts >>= λ levels. ok (above ∷ levels) in
    if part == [] || is_dots part || contains part b'/'
    then err invalid_cgroup_membership
    else below

abbrev pub onto : Option Level → List Level → List Level
onto none later = later
onto (some level) later = level ∷ later

-- `min(finite, key=lambda item: item[0])`, the first of the least
unfoldable pub least : Level → List Level → Level
least best [] = best
least best (x ∷ xs) = least (if ltb x.available best.available then x else best) xs

abbrev pub tightest_of : List Level → Option Level
tightest_of [] = none
tightest_of (x ∷ xs) = some (least x xs)

abbrev pub report_of : Result Reason CgroupMemory → Report
report_of (ok m) = found m
report_of (err reason) = unknown reason

module _ (digit : ℕ → Option ℕ) where
  -- `_parse_cgroup_limit`, with `err` where it raises ValueError
  unfoldable pub parse_cgroup_limit : Text → ℕ → Result Reason (Option ℤ)
  unfolding int_of strip
  parse_cgroup_limit text version =
      let value = strip text in
      if value == codes "max" then ok none else elim (int_of digit value) [
        | none ↦ err invalid_cgroup_limit
        | some n ↦ ok (if is_unlimited version n then none else some n)
      ]

  -- The use at a level with a limit.
  unfoldable pub usage_at : ℤ → Option Text → Result Reason Level
  unfolding int_of strip
  usage_at limit none = err cgroup_usage_unreadable
  usage_at limit (some text) = elim (int_of digit (strip text)) [
    | none ↦ err invalid_cgroup_usage
    | some current ↦
        ok (record { available = headroom limit current; limit = limit; current = current })
  ]

  -- The body of the loop over the levels, from the two texts read: a finite limit, if there is one.
  unfoldable pub level_of : ℕ → Option Text → Option Text → Result Reason (Option Level)
  unfolding parse_cgroup_limit usage_at
  level_of version none none = ok none
  level_of version none (some used) = err cgroup_limit_unreadable
  level_of version (some text) usage = parse_cgroup_limit text version >>= λ limit. elim limit [
    | none ↦ ok none
    | some n ↦ usage_at n usage >>= λ level. ok (some level)
  ]

-- `read mount parts name` is the text of the file `name` in a directory below the mount, and `none`
-- where reading raises OSError.
module _ (digit : ℕ → Option ℕ) (read : Text → List Text → Text → Option Text) where
  unfoldable pub finite_levels : ℕ → Text → List (List Text) → Result Reason (List Level)
  unfolding level_of
  finite_levels version mount [] = ok []
  finite_levels version mount (at ∷ levels) = do
    level ←
        level_of digit version (read mount at (limit_name version))
          (read mount at (current_name version))
    later ← finite_levels version mount levels
    ok (onto level later)

  unfoldable pub from_hierarchy : ℕ → Text → List Text → Result Reason CgroupMemory
  unfolding levels_onto finite_levels least
  from_hierarchy version mount parts = do
    supported ← if version == 2 || version == 1 then ok version else err unsupported_cgroup_version
    levels ← levels_onto [] parts
    finite ← finite_levels supported mount levels
    ok (record {
      version = supported;
      tightest = tightest_of finite;
      finite_limit_levels = length finite;
    })

  -- From the texts of /proc/self/cgroup and /proc/self/mountinfo.
  unfoldable pub cgroup_memory : Option Text → Option Text → Report
  unfolding from_hierarchy
  cgroup_memory (some cgroup_text) (some mountinfo_text) =
      elim (resolve_cgroup_context cgroup_text mountinfo_text) [
        | none ↦ unknown current_cgroup_mount_not_resolved
        | some c ↦ report_of (from_hierarchy c.version c.mount_point c.relative_parts)
      ]
  cgroup_memory _ _ = unavailable
