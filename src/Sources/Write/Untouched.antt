-- ===== src/Sources/Write/Untouched.antt =====
-- What a write changes.
use mlx_spark.Base.{
  String, List, [], ◌∷◌, false, Option, none, some, ◌≡◌, inl, inr, refl, sym, ◌∙◌, arith, string_eq,
  ◌==◌, ==_self, if◌then◌else◌, Option-cases,
}
use mlx_spark.Base.Result.{Result, ok, err}
use mlx_spark.Base.Dict.{lookup, insert, lookup-insert}
use mlx_spark.Sources.Library.{Bytes}
use mlx_spark.Sources.Write.{
  OsError, WriteError, Step, mkdir, create, write, flush, fsync, close, link, unlink, Files,
  without, fill, link_new, clean_up, then_link, atomic_write_new,
}

lookup-without :
    (k j : String) (d : Files) → lookup j (without k d) ≡ (if k == j then none else lookup j d)
unfolding lookup without
lookup-without k j [] = ground arith
lookup-without k j ((i, v) ∷ d) = ground (arith, lookup-without k j d)

module _ (fault : Step → Option OsError) (rest : Bytes) (temporary path : String)
    (content : Bytes) where
  -- What a stage of the write has done to the files it was given.
  abbrev pub Stage : Files → Result WriteError (Unit {0}) × Files → Type 0
  Stage files (r, out) =
      ((p : String)
        → (temporary == p) ≡ false
        → (path == p) ≡ false
        → lookup p out ≡ lookup p files)
      × (r ≡ ok tt → (lookup path files ≡ none) × (lookup path out ≡ some content))
      × ((e : WriteError) → r ≡ err e → lookup path out ≡ lookup path files)

  -- The temporary file is filled, and nothing else is changed.
  abbrev Filled : Files → Result WriteError (Unit {0}) × Files → Type 0
  Filled files (r, out) =
      ((p : String) → (temporary == p) ≡ false → lookup p out ≡ lookup p files)
      × (r ≡ ok tt → lookup temporary out ≡ some content)

  fill-Filled :
      (ss : List Step) (files : Files)
      → Filled files (fill fault rest temporary path content ss files)
  unfolding fill
  fill-Filled [] files = (
    λ p off. rw (lookup-insert temporary p content files, off) refl,
    λ _. rw (lookup-insert temporary temporary content files, ==_self temporary) refl,
  )
  fill-Filled (s ∷ ss) files = elim (Option-cases (fault s)) [
    | inl fine ↦ rw (fine, fill) (fill-Filled ss files)
    | inr (e, failed) ↦
        rw (failed, fill) (λ p off. rw (lookup-insert temporary p rest files, off) refl, λ h. cc)
  ]

  module _ (apart : (temporary == path) ≡ false) where
    link_new-Stage :
        (files g : Files)
        → Filled files (ok tt, g)
        → Stage files (link_new fault rest temporary path content g)
    unfolding link_new
    link_new-Stage files g (off, full) = elim (Option-cases (lookup path g)) [
      | inr (old, there) ↦ rw (there, link_new) (λ p o _. off p o, λ h. cc, λ e h. off path apart)
      | inl absent ↦ elim (Option-cases (fault link)) [
        | inr (e, failed) ↦
            rw (absent, failed, link_new) (λ p o _. off p o, λ h. cc, λ e h. off path apart)
        | inl fine ↦
            rw (absent, fine, full refl, link_new)
              (
                λ p o other. rw (lookup-insert path p content g, other) (off p o),
                λ h. (
                  sym (off path apart) ∙ absent,
                  rw (lookup-insert path path content g, ==_self path) refl,
                ),
                λ e h. cc,
              )
      ]
    ]

    then_link-Stage :
        (files : Files) (m : Result WriteError (Unit {0}) × Files)
        → Filled files m
        → Stage files (then_link fault rest temporary path content m)
    unfolding then_link
    then_link-Stage files (ok tt, g) f = link_new-Stage files g f
    then_link-Stage files (err e, g) (off, full) =
        (λ p o _. off p o, λ h. cc, λ e h. off path apart)

    module _ (unlinked : fault unlink ≡ none) where
      clean_up-Stage :
          (files : Files) (r : Result WriteError (Unit {0})) (g : Files)
          → Stage files (r, g)
          → Stage files (clean_up fault rest temporary path content r g)
            × (lookup temporary (clean_up fault rest temporary path content r g).1 ≡ none)
      unfolding clean_up
      clean_up-Stage files r g (off, done, kept) = elim (Option-cases (lookup temporary g)) [
        | inl absent ↦ rw (absent, clean_up) ((off, done, kept), absent)
        | inr (old, there) ↦
            rw (there, unlinked, clean_up)
              (
                (
                  λ p o other. rw (lookup-without temporary p g, o) (off p o other),
                  λ h. ((done h).0, rw (lookup-without temporary path g, apart) (done h).1),
                  λ e h. rw (lookup-without temporary path g, apart) (kept e h),
                ),
                rw (lookup-without temporary temporary g, ==_self temporary) refl,
              )
      ]

      -- Where the temporary name is new, is not the path, and can be removed: every path but the
      -- output and the temporary one is as before, and the temporary file is gone. On success the
      -- output was absent and holds the content; on any error the output is as before.
      pub atomic_write_new-Stage :
          (files : Files)
          → lookup temporary files ≡ none
          → Stage files (atomic_write_new fault rest temporary path content files)
            × (lookup temporary (atomic_write_new fault rest temporary path content files).1 ≡ none)
      unfolding atomic_write_new
      atomic_write_new-Stage files new = elim (Option-cases (fault mkdir)) [
        | inr (e, failed) ↦
            rw (failed, atomic_write_new) ((λ p _ _. refl, λ h. cc, λ e h. refl), new)
        | inl made ↦ elim (Option-cases (fault create)) [
          | inr (e, failed) ↦
              rw (made, failed, atomic_write_new) ((λ p _ _. refl, λ h. cc, λ e h. refl), new)
          | inl created ↦
              let start = insert temporary [] files in
              let filled = fill-Filled (write ∷ flush ∷ fsync ∷ close ∷ []) start in
              let same : (p : String) → (temporary == p) ≡ false → lookup p start ≡ lookup p files =
                λ p off. rw (lookup-insert temporary p [] files, off) refl in
              let m =
                fill fault rest temporary path content (write ∷ flush ∷ fsync ∷ close ∷ []) start in
              let linked =
                then_link-Stage files m (λ p off. filled.0 p off ∙ same p off, filled.1) in
              let after = then_link fault rest temporary path content m in
              rw (made, created, atomic_write_new) (clean_up-Stage files after.0 after.1 linked)
        ]
      ]
