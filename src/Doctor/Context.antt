-- ===== src/Doctor/Context.antt =====
-- `_resolve_cgroup_context`: the mount and the path below it that hold the current control group.
pub mod Sound
pub mod Complete
use mlx_spark.Base.{
  ℕ, zero, suc, ◌-◌, List, [], ◌∷◌, ◌++◌, Bool, true, false, not, ◌&&◌, ◌||◌, Option, none, some,
  nat_eq, ◌==◌, contains, length, if◌then◌else◌,
}
use mlx_spark.Base.Maybe.{◌>>=◌, when, or_else}
use mlx_spark.Base.Text.{codes, codes_eq, parts_eq, split}
use mlx_spark.Base.Lines.{split_lines, words, cut, join, filter, at}
use mlx_spark.Doctor.{Text}
use mlx_spark.Doctor.Paths.{mountinfo_path, path_parts}

pub record Membership : Type 0 where
  pub version : ℕ
  pub path : Text

pub record Mount : Type 0 where
  pub version : ℕ
  pub root_parts : Option (List Text)
  pub mount_point : Text

pub record Context : Type 0 where
  pub version : ℕ
  pub mount_point : Text
  pub relative_parts : List Text

-- The version that a number of a hierarchy and its controllers say, where they say one.
abbrev pub hierarchy_version : Text → List Text → Option ℕ
hierarchy_version hierarchy controllers =
    if hierarchy == codes "0" && controllers == []
    then some 2
    else when (contains controllers (codes "memory")) 1

-- A line of /proc/self/cgroup.
unfoldable pub membership_of : Text → Option Membership
unfolding cut filter
membership_of line = do
  (hierarchy, remainder) ← cut (codes ":") line
  (names, path) ← cut (codes ":") remainder
  let controllers = filter (λ name. not (name == [])) (split b',' names)
  version ← hierarchy_version hierarchy controllers
  some (record { version = version; path = path })

-- The values of the lines that have one.
unfoldable pub each_line {ℓ} : {A : Type ℓ} → (Text → Option A) → List Text → List A
each_line f [] = []
each_line f (line ∷ lines) =
    let rest = each_line f lines in elim (f line) [ none ↦ rest | some a ↦ a ∷ rest ]

-- The version that a file system type and the controllers say, where they say one.
abbrev pub version_of : Text → List Text → Option ℕ
version_of filesystem controllers =
    if filesystem == codes "cgroup2"
    then some 2
    else when (filesystem == codes "cgroup" && contains controllers (codes "memory")) 1

-- A line of /proc/self/mountinfo.
unfoldable pub mount_of : Text → Option Mount
unfolding cut words join
mount_of line = do
  (left, right) ← cut (codes " - ") line
  let left_fields = words left
  let right_fields = words right
  options ← at 5 left_fields
  root ← at 3 left_fields
  mount_point ← at 4 left_fields
  filesystem ← at 0 right_fields
  source ← at 1 right_fields
  super_options ← at 2 right_fields
  let controllers = split b',' (join (codes ",") (options ∷ source ∷ super_options ∷ []))
  version ← version_of filesystem controllers
  some (record {
    version = version;
    root_parts = path_parts (mountinfo_path root);
    mount_point = mountinfo_path mount_point;
  })

abbrev pub take : ℕ → List Text → List Text
take zero xs = []
take (suc n) [] = []
take (suc n) (x ∷ xs) = x ∷ take n xs

abbrev pub drop_parts : ℕ → List Text → List Text
drop_parts zero xs = xs
drop_parts (suc n) [] = []
drop_parts (suc n) (x ∷ xs) = drop_parts n xs

-- The path below the mount, where the membership lies below its root.
unfoldable pub relative_to : Text → List Text → List Text → Option (List Text)
relative_to path parts root =
    if path == codes "/"
    then some []
    else if take (length root) parts == root
    then some (drop_parts (length root) parts)
    else when (root == []) parts

-- The body of the loop over the mounts.
unfoldable pub at_mount : ℕ → Text → List Text → Mount → Option Context
unfolding relative_to
at_mount version path parts mount = do
  same ← when (mount.version == version) mount
  root ← same.root_parts
  relative ← relative_to path parts root
  some (record { version = version; mount_point = same.mount_point; relative_parts = relative })

unfoldable pub over_mounts : ℕ → Text → List Text → List Mount → Option Context
unfolding at_mount
over_mounts version path parts [] = none
over_mounts version path parts (mount ∷ mounts) =
    or_else (at_mount version path parts mount) (over_mounts version path parts mounts)

unfoldable pub at_membership : ℕ → List Mount → Membership → Option Context
unfolding over_mounts
at_membership version mounts member = do
  same ← when (member.version == version) member
  parts ← path_parts same.path
  over_mounts version same.path parts mounts

unfoldable pub over_memberships : ℕ → List Mount → List Membership → Option Context
unfolding at_membership
over_memberships version mounts [] = none
over_memberships version mounts (member ∷ members) =
    or_else (at_membership version mounts member) (over_memberships version mounts members)

-- Version 1 comes before version 2.
unfoldable pub resolve_cgroup_context : Text → Text → Option Context
unfolding split_lines each_line over_memberships
resolve_cgroup_context cgroup_text mountinfo_text =
    let memberships = each_line membership_of (split_lines cgroup_text) in
    let mounts = each_line mount_of (split_lines mountinfo_text) in
    or_else (over_memberships 1 mounts memberships) (over_memberships 2 mounts memberships)
