-- ===== src/Evidence/Checks.antt =====
-- The tests of `_require` on the keys of one dict, as a table: each key, what it must be, and the
-- message where it is not.
pub mod Met
use mlx_spark.Base.{String, List, [], ◌∷◌, Bool, true, false}
use mlx_spark.Base.Result.{Result, ok, err, ◌>>=◌, ◌>>◌, require}
use mlx_spark.Json.{Json, dict, Fields, get, py_eq, is_bool}
use mlx_spark.Evidence.{EvidenceError, invalid, attribute_error}

-- `== v`, `is True` and `is False`
pub data Expectation : Type 0 where
  equals : Json → Expectation
  is_true is_false : Expectation

pub record Check : Type 0 where
  pub key : String
  pub expected : Expectation
  pub message : String

abbrev pub holds : Expectation → Json → Bool
holds (equals v) w = py_eq w v
holds is_true w = is_bool true w
holds is_false w = is_bool false w

-- `_require(condition, message)`
abbrev pub require_that : Bool → String → Result EvidenceError (Unit {0})
require_that condition message = require condition (invalid message)

-- `_require(fields.get(key) == ..., message)`, one after the other
unfoldable pub require_fields : Fields → List Check → Result EvidenceError (Unit {0})
require_fields fields [] = ok tt
require_fields fields (c ∷ cs) =
    require_that (holds c.expected (get fields c.key)) c.message >> require_fields fields cs

-- The same of a value that may be no dict; a table has at least one test.
unfoldable pub require_all : Json → List Check → Result EvidenceError (Unit {0})
unfolding require_fields
require_all (dict fields) cs = require_fields fields cs
require_all v cs = err attribute_error
