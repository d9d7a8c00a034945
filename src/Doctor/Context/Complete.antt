-- ===== src/Doctor/Context/Complete.antt =====
-- A control group that has a mount is found, in version 1 first.
use mlx_spark.Base.{
  ℕ, List, [], ◌∷◌, ◌++◌, Among, here, there, Bool, true, false, Option, none, some, nat_eq, ◌==◌,
  ==_iff, ==_self, length, ◌≡◌, ◌≢◌, inl, inr, refl, sym, ap, ◌∙◌, Bool-cases, Option-cases,
}
use mlx_spark.Base.Maybe.{◌>>=◌, when, or_else, some-injective}
use mlx_spark.Base.Text.{codes, codes_eq, parts_eq}
use mlx_spark.Base.Lines.{split_lines}
use mlx_spark.Doctor.{Text}
use mlx_spark.Doctor.Paths.{path_parts}
use mlx_spark.Doctor.Context.{
  Membership, Mount, Context, membership_of, mount_of, each_line, take, relative_to, at_mount,
  over_mounts, at_membership, over_memberships, resolve_cgroup_context,
}
use mlx_spark.Doctor.Context.Sound.{
  or_else-eq-some, IsRelative, IsBelow, Leads, over_memberships-Leads,
}

take_root : (root relative : List Text) → take (length root) (root ++ relative) ≡ root
take_root [] relative = refl
take_root (x ∷ root) relative = ap (λ rest. x ∷ rest) (take_root root relative)

relative_to-ne-none :
    (path : Text) (parts root relative : List Text)
    → IsRelative path parts root relative
    → relative_to path parts root ≢ none
unfolding relative_to
relative_to-ne-none path parts root relative (inl (top, _)) h =
    cc (rw (top, ==_self (codes "/")) at h)
relative_to-ne-none path parts root relative (inr below) h = elim (Bool-cases (path == codes "/")) [
  | inl top ↦ cc (rw top at h)
  | inr other ↦
      let same : (take (length root) parts == root) ≡ true =
        (==_iff (take (length root) parts) root).1
          (ap (take (length root)) below ∙ take_root root relative) in
      cc (rw (other, same) at h)
]

or_else-eq-none :
    {A : Type 0} (first later : Option A)
    → or_else first later ≡ none
    → (first ≡ none) × (later ≡ none)
or_else-eq-none none later h = (refl, h)
or_else-eq-none (some a) later h = cc

>>=-ne-none :
    {A B : Type 0} {first : Option A} {a : A} (next : A → Option B)
    → first ≡ some a
    → next a ≢ none
    → (first >>= next) ≢ none
>>=-ne-none next is_some some_next h = some_next (ap (λ o. o >>= next) (sym is_some) ∙ h)

when-true : {A : Type 0} (b : Bool) (a : A) → b ≡ true → when b a ≡ some a
when-true true a h = refl
when-true false a h = cc

at_mount-ne-none :
    (version : ℕ) (member : Membership) (mount : Mount) (c : Context)
    (below : IsBelow version member mount c)
    → at_mount version member.path below.parts mount ≢ none
unfolding at_mount
at_mount-ne-none version member mount c below =
    let of_version = (==_iff mount.version version).1 below.mount_version in
    >>=-ne-none _ (when-true (mount.version == version) mount of_version) (
      >>=-ne-none _ below.is_root
        (elim (Option-cases (relative_to member.path below.parts below.root)) [
          | inl missing ↦ absurd (
              relative_to-ne-none member.path below.parts below.root c.relative_parts below.relative
                missing)
          | inr (relative, found) ↦ >>=-ne-none _ found (λ h. cc)
        ]))

over_mounts-ne-none :
    (version : ℕ) (member : Membership) (mounts : List Mount) (parts : List Text) (c : Context)
    → path_parts member.path ≡ some parts
    → Among (λ mount. IsBelow version member mount c) mounts
    → over_mounts version member.path parts mounts ≢ none
unfolding over_mounts
over_mounts-ne-none version member [] parts c is_parts lies h = elim lies [ ]
over_mounts-ne-none version member (mount ∷ mounts) parts c is_parts (here below) h =
    let same : below.parts ≡ parts = some-injective (sym below.is_parts ∙ is_parts) in
    let first = (or_else-eq-none (at_mount version member.path parts mount) _ h).0 in
    at_mount-ne-none version member mount c below
      (ap (λ ps. at_mount version member.path ps mount) same ∙ first)
over_mounts-ne-none version member (mount ∷ mounts) parts c is_parts (there later) h =
    over_mounts-ne-none version member mounts parts c is_parts later
      ((or_else-eq-none (at_mount version member.path parts mount) _ h).1)

-- What a mount among them says of the membership.
its_parts :
    (version : ℕ) (member : Membership) (mounts : List Mount) (c : Context)
    → Among (λ mount. IsBelow version member mount c) mounts
    → (parts : List Text) × (member.version ≡ version) × (path_parts member.path ≡ some parts)
its_parts version member [] c lies = elim lies [ ]
its_parts version member (mount ∷ mounts) c (here below) =
    (below.parts, below.member_version, below.is_parts)
its_parts version member (mount ∷ mounts) c (there later) = its_parts version member mounts c later

over_memberships-ne-none :
    (version : ℕ) (mounts : List Mount) (members : List Membership) (c : Context)
    → Leads version mounts members c
    → over_memberships version mounts members ≢ none
unfolding over_memberships at_membership
over_memberships-ne-none version mounts [] c leads h = elim leads [ ]
over_memberships-ne-none version mounts (member ∷ members) c (here found) h =
    let (parts, of_version, is_parts) = its_parts version member mounts c found in
    let first = (or_else-eq-none (at_membership version mounts member) _ h).0 in
    >>=-ne-none _
      (when-true (member.version == version) member ((==_iff member.version version).1 of_version))
      (>>=-ne-none _ is_parts (over_mounts-ne-none version member mounts parts c is_parts found))
      first
over_memberships-ne-none version mounts (member ∷ members) c (there later) h =
    over_memberships-ne-none version mounts members c later
      ((or_else-eq-none (at_membership version mounts member) _ h).1)

abbrev pub memberships : Text → List Membership
memberships cgroup_text = each_line membership_of (split_lines cgroup_text)

abbrev pub mounts : Text → List Mount
mounts mountinfo_text = each_line mount_of (split_lines mountinfo_text)

-- The version that is preferred: the first, or the second where no pair of the first leads anywhere.
pub data IsPreferred (members : List Membership) (at : List Mount) (c : Context) : Type 0 where
  first : Leads 1 at members c → IsPreferred members at c
  second :
      Leads 2 at members c
      → ((other : Context) → Leads 1 at members other → ⊥)
      → IsPreferred members at c

pub resolve_cgroup_context-IsPreferred :
    (cgroup_text mountinfo_text : Text) (c : Context)
    → resolve_cgroup_context cgroup_text mountinfo_text ≡ some c
    → IsPreferred (memberships cgroup_text) (mounts mountinfo_text) c
unfolding resolve_cgroup_context
resolve_cgroup_context-IsPreferred cgroup_text mountinfo_text c h =
    let members = memberships cgroup_text in
    let at = mounts mountinfo_text in
    elim (or_else-eq-some (over_memberships 1 at members) (over_memberships 2 at members) c h) [
      | inl found ↦ first (over_memberships-Leads 1 at members c found)
      | inr (missing, found) ↦
          second (over_memberships-Leads 2 at members c found)
            (λ other leads. over_memberships-ne-none 1 at members other leads missing)
    ]
