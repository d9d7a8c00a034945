-- ===== src/Sources/Write/Run.antt =====
-- What a run that returns 0 has done.
use mlx_spark.Base.{
  ℕ, String, Bool, true, false, Option, none, some, ◌≡◌, ◌∙◌, sym, ==_iff, refl, arith, string_eq,
  ◌==◌, Bool-cases, inl, inr,
}
use mlx_spark.Base.Result.{Result, ok, err, ◌>>=◌, >>=-eq-ok, ok-injective, Result-cases}
use mathlib.Core.Path.{subst}
use mlx_spark.Base.Dict.{lookup}
use mlx_spark.Json.{Json}
use mlx_spark.Sources.{SourceError}
use mlx_spark.Sources.Library.{Library, Bytes}
use mlx_spark.Sources.Lock.{build_lock}
use mlx_spark.Sources.Write.{
  OsError, WriteError, Step, unlink, Files, Arguments, output_exists, read_bytes, audited, written,
  prepare, run, atomic_write_new,
}
use mlx_spark.Sources.Write.Untouched.{Stage, atomic_write_new-Stage}

read_bytes-eq-ok :
    (path : String) (files : Files) (content : Bytes)
    → read_bytes path files ≡ ok content
    → lookup path files ≡ some content
unfolding read_bytes
read_bytes-eq-ok path files content h = ground arith

audited-eq-ok : (r : Result SourceError Json) (lock : Json) → audited r ≡ ok lock → r ≡ ok lock
audited-eq-ok (ok l) lock h = ground arith
audited-eq-ok (err e) lock h = cc

output_exists-eq-false :
    (path : String) (files : Files) → output_exists path files ≡ false → lookup path files ≡ none
output_exists-eq-false path files h = ground arith

module _ (lib : Library) (is_decimal : ℕ → Bool) (now : String) (render : Json → Bytes) where
  -- The lock of the two files, which the run is allowed to build.
  pub record IsPrepared (arguments : Arguments) (files : Files) (content : Bytes) : Type 0 where
    pub allowed : arguments.allow_network ≡ true
    pub absent : lookup arguments.output files ≡ none
    pub candidate_bytes : Bytes
    pub candidate : lookup arguments.candidate files ≡ some candidate_bytes
    pub snapshot_bytes : Bytes
    pub snapshot : lookup arguments.snapshot files ≡ some snapshot_bytes
    pub lock : Json
    pub built : build_lock lib is_decimal snapshot_bytes candidate_bytes none now ≡ ok lock
    pub rendered : render lock ≡ content

  prepare-guards :
      (arguments : Arguments) (files : Files) (content : Bytes)
      → prepare lib is_decimal now render arguments files ≡ ok content
      → (arguments.allow_network ≡ true)
        × (output_exists arguments.output files ≡ false)
        × ((do
          candidate_bytes ← read_bytes arguments.candidate files
          snapshot_bytes ← read_bytes arguments.snapshot files
          lock ← audited (build_lock lib is_decimal snapshot_bytes candidate_bytes none now)
          ok (render lock))
            ≡ ok content)
  unfolding prepare
  prepare-guards arguments files content h = elim (Bool-cases arguments.allow_network) [
    | inr off ↦ cc (rw off at h)
    | inl on ↦ elim (Bool-cases (output_exists arguments.output files)) [
      | inl there ↦ cc (rw (on, there) at h)
      | inr absent ↦ (on, absent, rw (on, absent) at h)
    ]
  ]

  prepare-IsPrepared :
      (arguments : Arguments) (files : Files) (content : Bytes)
      → prepare lib is_decimal now render arguments files ≡ ok content
      → IsPrepared arguments files content
  prepare-IsPrepared arguments files content h =
      let (on, absent, h₁) = prepare-guards arguments files content h in
      let (candidate_bytes, c, h₂) = >>=-eq-ok (read_bytes arguments.candidate files) _ h₁ in
      let (snapshot_bytes, s, h₃) = >>=-eq-ok (read_bytes arguments.snapshot files) _ h₂ in
      let (lock, built, h₄) =
        >>=-eq-ok (audited (build_lock lib is_decimal snapshot_bytes candidate_bytes none now)) _
          h₃ in
      record {
        allowed = on;
        absent = output_exists-eq-false arguments.output files absent;
        candidate_bytes = candidate_bytes;
        candidate = read_bytes-eq-ok arguments.candidate files candidate_bytes c;
        snapshot_bytes = snapshot_bytes;
        snapshot = read_bytes-eq-ok arguments.snapshot files snapshot_bytes s;
        lock = lock;
        built = audited-eq-ok _ lock built;
        rendered = ok-injective h₄;
      }

  written-eq-ok :
      (m : Result WriteError (Unit {0}) × Files) (out : Files)
      → written m ≡ (ok tt, out)
      → m ≡ (ok tt, out)
  written-eq-ok (ok tt, g) out h = ground arith
  written-eq-ok (err e, g) out h = cc

  module _ (fault : Step → Option OsError) (rest : Bytes) (temporary : String)
      (arguments : Arguments) (files : Files) where
    -- If the run returns 0, the network was allowed and the output was absent; the output now holds
    -- the rendering of the lock built from the candidate and the snapshot, and every other path is
    -- as before. The temporary name must be new and not that of the output, and its removal must not fail.
    pub run-IsPrepared :
        (out : Files)
        → (temporary == arguments.output) ≡ false
        → fault unlink ≡ none
        → lookup temporary files ≡ none
        → run lib is_decimal now render fault rest temporary arguments files ≡ (ok tt, out)
        → (content : Bytes) × IsPrepared arguments files content
          × (lookup arguments.output out ≡ some content)
          × ((p : String) → (arguments.output == p) ≡ false → lookup p out ≡ lookup p files)
    unfolding run
    run-IsPrepared out apart unlinked new h =
        elim (Result-cases (prepare lib is_decimal now render arguments files)) [
          | inr (e, failed) ↦ cc (rw (failed, run) at h)
          | inl (content, prepared) ↦
              let done =
                written-eq-ok (atomic_write_new fault rest temporary arguments.output content files)
                  out (rw (prepared, run) at h) in
              let (stage, gone) =
                atomic_write_new-Stage fault rest temporary arguments.output content apart unlinked
                  files new in
              let (others, full, _) =
                subst (Stage fault rest temporary arguments.output content files) done stage in
              let removed : lookup temporary out ≡ none =
                subst (λ m. lookup temporary m.1 ≡ none) done gone in
              (
                content,
                prepare-IsPrepared arguments files content prepared,
                (full refl).1,
                λ p other. elim (Bool-cases (temporary == p)) [
                  | inr off ↦ others p off other
                  | inl same ↦
                      subst (λ q. lookup q out ≡ lookup q files) ((==_iff _ _).0 same)
                        (removed ∙ sym new)
                ],
              )
        ]
