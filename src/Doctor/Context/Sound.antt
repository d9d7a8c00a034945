-- ===== src/Doctor/Context/Sound.antt =====
-- Where the control group is found.
use mlx_spark.Base.{
  ℕ, zero, suc, List, [], ◌∷◌, ◌++◌, Bool, true, false, Option, none, some, Among, here, there,
  nat_eq, ◌==◌, ==_iff, length, ◌≡◌, ◌⊎◌, inl, inr, refl, sym, ap, ◌∙◌, Bool-cases,
}
use mathlib.Core.Path.{subst}
use mlx_spark.Base.Maybe.{when, or_else, >>=-eq-some, some-injective}
use mlx_spark.Base.Text.{codes, codes_eq, parts_eq}
use mlx_spark.Doctor.{Text}
use mlx_spark.Doctor.Paths.{path_parts}
use mlx_spark.Doctor.Context.{
  Membership, Mount, Context, take, drop_parts, relative_to, at_mount, over_mounts, at_membership,
  over_memberships,
}

when-eq-some : {A : Type 0} (b : Bool) (a x : A) → when b a ≡ some x → (b ≡ true) × (a ≡ x)
when-eq-some true a x h = (refl, some-injective h)
when-eq-some false a x h = cc

pub or_else-eq-some :
    {A : Type 0} (first later : Option A) (x : A)
    → or_else first later ≡ some x
    → (first ≡ some x) ⊎ ((first ≡ none) × (later ≡ some x))
or_else-eq-some none later x h = inr (refl, h)
or_else-eq-some (some a) later x h = inl h

take-drop_parts : (n : ℕ) (xs : List Text) → take n xs ++ drop_parts n xs ≡ xs
take-drop_parts zero xs = refl
take-drop_parts (suc n) [] = refl
take-drop_parts (suc n) (x ∷ xs) = ap (λ rest. x ∷ rest) (take-drop_parts n xs)

-- The member is at the root of the hierarchy, or its parts are those of the mount's root and then
-- the relative ones.
abbrev pub IsRelative : Text → List Text → List Text → List Text → Type 0
IsRelative path parts root relative =
    ((path ≡ codes "/") × (relative ≡ [])) ⊎ (parts ≡ root ++ relative)

relative_to-IsRelative :
    (path : Text) (parts root relative : List Text)
    → relative_to path parts root ≡ some relative
    → IsRelative path parts root relative
unfolding relative_to
relative_to-IsRelative path parts root relative h = elim (Bool-cases (path == codes "/")) [
  | inl top ↦ inl ((==_iff path (codes "/")).0 top, sym (some-injective (rw top at h)))
  | inr other ↦ elim (Bool-cases (take (length root) parts == root)) [
    | inl below ↦
        let rest : drop_parts (length root) parts ≡ relative =
          some-injective (rw (other, below) at h) in
        inr (
          sym (take-drop_parts (length root) parts)
          ∙ (ap (λ xs. xs ++ drop_parts (length root) parts)
                ((==_iff (take (length root) parts) root).0 below)
              ∙ ap (λ xs. root ++ xs) rest))
    | inr differ ↦
        let (empty, same) = when-eq-some (root == []) parts relative (rw (other, differ) at h) in
        inr (same ∙ ap (λ xs. xs ++ relative) (sym ((==_iff root []).0 empty)))
  ]
]

-- The context is that of a membership and a mount of one version, both with sound paths.
pub record IsBelow (version : ℕ) (member : Membership) (mount : Mount) (c : Context) : Type 0 where
  pub of_version : c.version ≡ version
  pub member_version : member.version ≡ version
  pub mount_version : mount.version ≡ version
  pub mount_point : c.mount_point ≡ mount.mount_point
  pub parts : List Text
  pub is_parts : path_parts member.path ≡ some parts
  pub root : List Text
  pub is_root : mount.root_parts ≡ some root
  pub relative : IsRelative member.path parts root c.relative_parts

at_mount-IsBelow :
    (version : ℕ) (member : Membership) (mount : Mount) (parts : List Text) (c : Context)
    → member.version ≡ version
    → path_parts member.path ≡ some parts
    → at_mount version member.path parts mount ≡ some c
    → IsBelow version member mount c
unfolding at_mount
at_mount-IsBelow version member mount parts c of_member is_parts h =
    let (same, e₁, h₁) = >>=-eq-some (when (mount.version == version) mount) _ h in
    let (root, e₂, h₂) = >>=-eq-some same.root_parts _ h₁ in
    let (relative, e₃, h₃) = >>=-eq-some (relative_to member.path parts root) _ h₂ in
    let (of_mount, is_mount) = when-eq-some (mount.version == version) mount same e₁ in
    subst (IsBelow version member mount) (some-injective h₃) (record {
      of_version = refl;
      member_version = of_member;
      mount_version = (==_iff mount.version version).0 of_mount;
      mount_point = sym (ap (λ m. m.mount_point) is_mount);
      parts = parts;
      is_parts = is_parts;
      root = root;
      is_root = ap (λ m. m.root_parts) is_mount ∙ e₂;
      relative = relative_to-IsRelative member.path parts root relative e₃;
    })

over_mounts-IsBelow :
    (version : ℕ) (member : Membership) (parts : List Text) (mounts : List Mount) (c : Context)
    → member.version ≡ version
    → path_parts member.path ≡ some parts
    → over_mounts version member.path parts mounts ≡ some c
    → Among (λ mount. IsBelow version member mount c) mounts
unfolding over_mounts
over_mounts-IsBelow version member parts [] c of_member is_parts h = cc
over_mounts-IsBelow version member parts (mount ∷ mounts) c of_member is_parts h =
    elim (or_else-eq-some (at_mount version member.path parts mount) _ c h) [
      | inl first ↦ here (at_mount-IsBelow version member mount parts c of_member is_parts first)
      | inr (_, later) ↦
          there (over_mounts-IsBelow version member parts mounts c of_member is_parts later)
    ]

-- A pair of a membership and a mount of the version leads to the context.
abbrev pub Leads : ℕ → List Mount → List Membership → Context → Type 0
Leads version mounts members c =
    Among (λ member. Among (λ mount. IsBelow version member mount c) mounts) members

pub over_memberships-Leads :
    (version : ℕ) (mounts : List Mount) (members : List Membership) (c : Context)
    → over_memberships version mounts members ≡ some c
    → Leads version mounts members c
unfolding over_memberships at_membership
over_memberships-Leads version mounts [] c h = cc
over_memberships-Leads version mounts (member ∷ members) c h =
    elim (or_else-eq-some (at_membership version mounts member) _ c h) [
      | inl first ↦
          let (same, e₁, h₁) = >>=-eq-some (when (member.version == version) member) _ first in
          let (parts, e₂, h₂) = >>=-eq-some (path_parts same.path) _ h₁ in
          let (of_version, is_member) = when-eq-some (member.version == version) member same e₁ in
          let is_path = ap (λ m. m.path) is_member in
          here (
            over_mounts-IsBelow version member parts mounts c
              ((==_iff member.version version).0 of_version) (ap path_parts is_path ∙ e₂)
              (ap (λ path. over_mounts version path parts mounts) is_path ∙ h₂))
      | inr (_, later) ↦ there (over_memberships-Leads version mounts members c later)
    ]
