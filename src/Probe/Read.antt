-- ===== src/Probe/Read.antt =====
-- `_read_bounded_regular` and the tests on files.
pub mod Bounded
use mlx_spark.Base.{
  ℕ, zero, suc, ◌+◌, ◌-◌, ◌*◌, List, [], ◌∷◌, ◌++◌, Bool, true, false, not, Option, none, some, ltb,
  leb, length, if◌then◌else◌,
}
use mlx_spark.Base.Result.{Result, ok, err, ◌>>=◌, ◌>>◌, require}
use mlx_spark.Base.Int.{ℤ, pos, negsuc}
use mlx_spark.Probe.{Text, Stat, Opened, descriptor, not_found, refused, Disk}

pub data Status : Type 0 where
  good missing unreadable not_regular too_large : Status

-- How the loop of reads may fail; the model ends a loop that is given too little fuel.
pub data ReadError : Type 0 where
  os_error out_of_fuel : ReadError

abbrev pub min : ℕ → ℕ → ℕ
min a b = if leb a b then a else b

abbrev pub max_chunk : ℕ
max_chunk = 1024 * 1024

-- `st_size > limit`
abbrev pub exceeds : ℤ → ℕ → Bool
exceeds (pos n) limit = ltb limit n
exceeds (negsuc n) limit = false

-- What the function returns: the bytes, the status, and whether an entry appeared to exist.
abbrev pub Reading : Type 0
Reading = Option (List ℕ) × Status × Bool

module _ {S : Type 0} (disk : Disk S) where
  -- `while remaining`
  unfoldable pub read_chunks : ℕ → ℕ → S → Result ReadError (List ℕ)
  read_chunks zero remaining s = err out_of_fuel
  read_chunks (suc fuel) zero s = ok []
  read_chunks (suc fuel) (suc remaining) s = elim (disk.read (min max_chunk (suc remaining)) s) [
    | none ↦ err os_error
    | some ([], t) ↦ ok []
    | some (c ∷ cs, t) ↦ do
      rest ← read_chunks fuel (suc remaining - length (c ∷ cs)) t
      ok ((c ∷ cs) ++ rest)
  ]

  pub checked : ℕ → Result ReadError (List ℕ) → Reading
  checked limit (ok content) =
      if ltb limit (length content) then (none, too_large, true) else (some content, good, true)
  checked limit (err e) = (none, unreadable, true)

  -- The body of the `try`, whose `finally` closes the descriptor.
  pub read_descriptor : ℕ → S → Reading
  unfolding read_chunks checked
  read_descriptor limit s = elim (disk.fstat s) [
    | none ↦ (none, unreadable, true)
    | some st ↦
        if not st.is_regular
        then (none, not_regular, true)
        else if exceeds st.size limit
        then (none, too_large, true)
        else checked limit (read_chunks (suc (suc limit)) (suc limit) s)
  ]

  pub from_opened : ℕ → Opened S → Reading
  unfolding read_descriptor
  from_opened limit (descriptor s) = read_descriptor limit s
  from_opened limit not_found = (none, missing, false)
  from_opened limit (refused absent) = (none, unreadable, not absent)

  unfoldable pub read_bounded_regular : Text → ℕ → Reading
  unfolding from_opened
  read_bounded_regular path limit = from_opened limit (disk.open_path path)

  abbrev size_of : Stat → Option ℕ
  size_of st = if not st.is_regular then none else elim st.size [ pos n ↦ some n | negsuc n ↦ none ]

  unfoldable pub regular_file_size : Text → Option ℕ
  regular_file_size path = elim (disk.stat path) [ none ↦ none | some st ↦ size_of st ]

  unfoldable pub is_directory : Text → Bool
  is_directory path = elim (disk.stat path) [ none ↦ false | some st ↦ st.is_directory ]

  -- `_bounded_sha256`
  abbrev hash_of : Reading → Bool × Option Text
  hash_of (some content, good, _) = (true, some (disk.sha256 content))
  hash_of (_, _, _) = (false, none)

  unfoldable pub bounded_sha256 : Text → ℕ → Bool × Option Text
  unfolding read_bounded_regular
  bounded_sha256 path limit = hash_of (read_bounded_regular path limit)
