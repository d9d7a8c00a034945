-- ===== src/Sources/Write.antt =====
-- `atomic_write_new` and `run`: the lock is written to a new file, never over an old one. The
-- files are a dict from paths to contents; which steps fail is a parameter.
pub mod Untouched
pub mod Run
use mlx_spark.Base.{
  ℕ, String, List, [], ◌∷◌, Bool, true, false, Option, none, some, not, string_eq, ◌==◌,
  if◌then◌else◌,
}
use mlx_spark.Base.Result.{Result, ok, err, ◌>>=◌, ◌>>◌}
use mlx_spark.Base.Dict.{Dict, lookup, insert}
use mlx_spark.Json.{Json}
use mlx_spark.Sources.{SourceError}
use mlx_spark.Sources.Library.{Library, Bytes}
use mlx_spark.Sources.Lock.{build_lock}

pub data OsError : Type 0 where
  file_exists not_found other : OsError

-- SourceAuditError, or an OSError that is not caught
pub data WriteError : Type 0 where
  refusing : WriteError
  os_error : OsError → WriteError

-- The calls that may fail.
pub data Step : Type 0 where
  mkdir create write flush fsync close link unlink : Step

abbrev pub Files : Type 0
Files = Dict Bytes

-- `os.unlink` of a path that is there
unfoldable pub without : String → Files → Files
without k [] = []
without k ((j, v) ∷ d) = let rest = without k d in if j == k then rest else (j, v) ∷ rest

-- `except FileExistsError: raise SourceAuditError`
abbrev pub caught : OsError → WriteError
caught file_exists = refusing
caught not_found = os_error not_found
caught other = os_error other

module _ (fault : Step → Option OsError) (rest : Bytes) (temporary path : String)
    (content : Bytes) where
  -- `handle.write`, `flush`, `fsync` and the close; where one fails, the file holds `rest`.
  unfoldable pub fill : List Step → Files → Result WriteError (Unit {0}) × Files
  fill [] files = (ok tt, insert temporary content files)
  fill (s ∷ ss) files =
      let later = fill ss files in
      elim (fault s) [ none ↦ later | some e ↦ (err (caught e), insert temporary rest files) ]

  -- `os.link(temporary_path, path)`
  unfoldable pub link_new : Files → Result WriteError (Unit {0}) × Files
  link_new files = elim (lookup path files) [
    | some old ↦ (err (caught file_exists), files)
    | none ↦ elim (fault link) [
      | some e ↦ (err (caught e), files)
      | none ↦ elim (lookup temporary files) [
        | none ↦ (err (caught not_found), files)
        | some written ↦ (ok tt, insert path written files)
      ]
    ]
  ]

  -- The `finally` clause.
  unfoldable pub clean_up :
      Result WriteError (Unit {0}) → Files → Result WriteError (Unit {0}) × Files
  clean_up result files = elim (lookup temporary files) [
    | none ↦ (result, files)
    | some written ↦ elim (fault unlink) [
      | none ↦ (result, without temporary files)
      | some e ↦ elim e [
        | not_found ↦ (result, files)
        | file_exists ↦ (err (os_error file_exists), files)
        | other ↦ (err (os_error other), files)
      ]
    ]
  ]

  -- The link follows if the file was filled.
  unfoldable pub then_link :
      Result WriteError (Unit {0}) × Files → Result WriteError (Unit {0}) × Files
  unfolding link_new
  then_link (ok _, files) = link_new files
  then_link (err e, files) = (err e, files)

  unfoldable pub atomic_write_new : Files → Result WriteError (Unit {0}) × Files
  unfolding fill then_link clean_up without
  atomic_write_new files = elim (fault mkdir) [
    | some e ↦ (err (os_error e), files)
    | none ↦ elim (fault create) [
      | some e ↦ (err (caught e), files)
      | none ↦
          let (result, after) =
            then_link (fill (write ∷ flush ∷ fsync ∷ close ∷ []) (insert temporary [] files)) in
          clean_up result after
    ]
  ]

-- `os.path.lexists`
abbrev pub output_exists : String → Files → Bool
output_exists path files = elim (lookup path files) [ none ↦ false | some content ↦ true ]

pub record Arguments : Type 0 where
  pub allow_network : Bool
  pub candidate : String
  pub snapshot : String
  pub output : String

-- How `run` ends other than by returning 0.
pub data RunError : Type 0 where
  network_disabled output_present no_file : RunError
  audit : SourceError → RunError
  writing : WriteError → RunError

unfoldable pub read_bytes : String → Files → Result RunError Bytes
read_bytes path files = elim (lookup path files) [ none ↦ err no_file | some content ↦ ok content ]

abbrev pub audited : Result SourceError Json → Result RunError Json
audited (ok lock) = ok lock
audited (err e) = err (audit e)

abbrev pub written : Result WriteError (Unit {0}) × Files → Result RunError (Unit {0}) × Files
written (ok _, files) = (ok tt, files)
written (err e, files) = (err (writing e), files)

module _ (lib : Library) (is_decimal : ℕ → Bool) (now : String) (render : Json → Bytes) where
  -- What is written: the lock of the two files, unless a guard stops the run.
  unfoldable pub prepare : Arguments → Files → Result RunError Bytes
  unfolding read_bytes
  prepare arguments files =
      if not arguments.allow_network
      then err network_disabled
      else if output_exists arguments.output files
      then err output_present
      else (do
        candidate_bytes ← read_bytes arguments.candidate files
        snapshot_bytes ← read_bytes arguments.snapshot files
        lock ← audited (build_lock lib is_decimal snapshot_bytes candidate_bytes none now)
        ok (render lock))

  unfoldable pub run :
      (Step → Option OsError)
      → Bytes
      → String
      → Arguments
      → Files
      → Result RunError (Unit {0}) × Files
  unfolding prepare atomic_write_new
  run fault rest temporary arguments files = elim (prepare arguments files) [
    | err e ↦ (err e, files)
    | ok content ↦ written (atomic_write_new fault rest temporary arguments.output content files)
  ]
