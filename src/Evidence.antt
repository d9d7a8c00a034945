-- ===== src/Evidence.antt =====
-- tools/validate_fnd03_evidence.py: the retained evidence of the source audit. Here is what Python
-- does with the JSON values that the validator reads; the files, hashes and cases are a parameter.
pub mod Tables
pub mod Checks
pub mod Lock
pub mod Refs
pub mod Model
pub mod Records
pub mod Validate
mod Tests
use mlx_spark.Base.{
  ℕ, String, List, [], ◌∷◌, Bool, true, false, Option, none, some, ◌&&◌, ◌||◌, nat_eq, string_eq,
  ◌==◌, any, all, contains, length, ltb, leb, map, if◌then◌else◌,
}
use mlx_spark.Base.Result.{Result, ok, err, ◌>>=◌}
use mlx_spark.Base.Int.{ℤ, pos, negsuc, is_positive, scale}
use mlx_spark.Base.Text.{codes, is_lower_hex, starts_with, includes}
use mlx_spark.Json
use mlx_spark.Json.{
  Json, null, str, list, dict, Float, nan, infinite, finite, float, Items, nil, cons, Fields, end,
  field, find, get, keys, elements, py_eq, number, size,
}

-- `invalid` is the ValueError of a test that fails. An `unreadable` file is not JSON.
pub data EvidenceError : Type 0 where
  invalid : String → EvidenceError
  unreadable os_error key_error type_error attribute_error index_error : EvidenceError

-- Paths are relative to the root of the repository.
pub record Files : Type 0 where
  -- `json.loads(path.read_text())` and `_sha256(path)`
  pub load : String → Result EvidenceError Json
  pub sha256 : String → Result EvidenceError String
  pub is_file : String → Bool
  pub canonical_sha256 : Json → Result EvidenceError String
  pub dumps : Json → List ℕ
  -- `str.lower`, and whether a character matches another where case is ignored
  pub lower : List ℕ → List ℕ
  pub same : ℕ → ℕ → Bool

-- `v.get(key, default)`
abbrev pub found_or : Option Json → Json → Json
found_or none default = default
found_or (some v) default = v

unfoldable pub read_or : Json → String → Json → Result EvidenceError Json
read_or (dict fs) key default = ok (found_or (find key fs) default)
read_or v key default = err attribute_error

-- `v.get(key)`
unfoldable pub read_key : Json → String → Result EvidenceError Json
read_key (dict fs) key = ok (get fs key)
read_key v key = err attribute_error

-- `v[key]`
unfoldable pub subscript : Json → String → Result EvidenceError Json
subscript (dict fs) key = elim (find key fs) [ none ↦ err key_error | some v ↦ ok v ]
subscript v key = err type_error

-- `isinstance(v, dict)`, with the message of the test
unfoldable pub require_dict : Json → String → Result EvidenceError Fields
require_dict (dict fs) message = ok fs
require_dict v message = err (invalid message)

-- `[0-9a-f]{64}`, matched in full
unfoldable pub is_sha256 : String → Bool
is_sha256 s = length (codes s) == 64 && all is_lower_hex (codes s)

-- `bool(PATTERN.fullmatch(v))`
unfoldable pub full_match : (String → Bool) → Json → Result EvidenceError Bool
full_match pattern (str s) = ok (pattern s)
full_match pattern v = err type_error

-- `text in v`
unfoldable pub occurs_in : String → Json → Result EvidenceError Bool
occurs_in text (str s) = ok (includes (codes s) (codes text))
occurs_in text (list xs) = ok (any (λ x. py_eq x (str text)) (elements xs))
occurs_in text (dict fs) = ok (contains (keys fs) text)
occurs_in text v = err type_error

abbrev positive_float : Float → Bool
positive_float nan = false
positive_float (infinite positive) = positive
positive_float (finite n k) = is_positive n

-- `v > 0`
unfoldable pub exceeds_zero : Json → Result EvidenceError Bool
exceeds_zero v = elim (number v) [ none ↦ err type_error | some x ↦ ok (positive_float x) ]

abbrev int_le : ℤ → ℤ → Bool
int_le (pos m) (pos n) = leb m n
int_le (pos m) (negsuc n) = false
int_le (negsuc m) (pos n) = true
int_le (negsuc m) (negsuc n) = leb n m

abbrev float_le : Float → Float → Bool
float_le nan y = false
float_le x nan = false
float_le (infinite false) y = true
float_le x (infinite true) = true
float_le (infinite true) y = false
float_le x (infinite false) = false
float_le (finite n k) (finite m j) = int_le (scale n j) (scale m k)

-- `v >= w`, for values of which one is a number
unfoldable pub at_least : Json → Json → Result EvidenceError Bool
at_least v w = elim (number v) [
  | none ↦ err type_error
  | some x ↦ elim (number w) [ none ↦ err type_error | some y ↦ ok (float_le y x) ]
]

-- the characters of a text, each a text
abbrev letters : String → List Json
letters String.[] = []
letters (String.◌∷◌ letter text) = str (String.◌∷◌ letter String.[]) ∷ letters text

-- `for x in v`
unfoldable pub members : Json → Result EvidenceError (List Json)
members (list xs) = ok (elements xs)
members (dict fs) = ok (map str (keys fs))
members (str s) = ok (letters s)
members v = err type_error

-- `len(v)`
unfoldable pub size_of : Json → Result EvidenceError ℕ
size_of (dict fs) = ok (size fs)
size_of v = members v >>= λ vs. ok (length vs)

abbrev first_of : List Json → Result EvidenceError Json
first_of [] = err index_error
first_of (v ∷ vs) = ok v

-- `v[0]`; the keys of a dict are texts
unfoldable pub first_item : Json → Result EvidenceError Json
unfolding members
first_item (dict fs) = err key_error
first_item v = members v >>= first_of

abbrev is_hashable : Json → Bool
is_hashable (list xs) = false
is_hashable (dict fs) = false
is_hashable v = true

-- `hash(v)`, which the members of a set and the keys of a dict need
unfoldable pub require_hashable : List Json → Result EvidenceError (List Json)
require_hashable vs = if all is_hashable vs then ok vs else err type_error

-- Members of a set are the same where they are equal, or one object, as NaN is.
abbrev same_member : Json → Json → Bool
same_member (float nan) (float nan) = true
same_member v w = py_eq v w

-- `set(vs).issubset(set(ws))`
unfoldable pub all_among : List Json → List Json → Bool
all_among vs ws = all (λ v. any (same_member v) ws) vs

-- `isinstance(v, str) and v.startswith("evidence/runs/fnd-03/")`
unfoldable pub is_log_path : Json → Bool
is_log_path (str s) = starts_with (codes s) (codes "evidence/runs/fnd-03/")
is_log_path v = false
