-- ===== src/Evidence/Checks/Met.antt =====
-- What the tests and the readings of a value tell where they return.
use mlx_spark.Base.{
  String, List, [], ◌∷◌, Bool, true, false, Option, none, some, All, ◌≡◌, ◌↔◌, refl, ap, sym, ◌∙◌,
  arith, inl, inr, Option-cases,
}
use mlx_spark.Base.Result.{Result, ok, ◌>>◌, ok-injective, require-eq-ok}
use mlx_spark.Json.{Json, str, dict, Fields, get, find}
use mlx_spark.Evidence.{
  EvidenceError, invalid, found_or, read_or, read_key, subscript, require_dict, full_match,
}
use mlx_spark.Evidence.Checks.{Check, holds, require_that, require_fields, require_all}

-- Each key of the table is as expected.
abbrev pub Meets : List Check → Fields → Type 0
Meets cs fields = All (λ c. holds c.expected (get fields c.key) ≡ true) cs

-- A dict whose keys are as expected.
abbrev pub MeetsAll : List Check → Json → Type 0
MeetsAll cs v = (fields : Fields) × (v ≡ dict fields) × Meets cs fields

pub require_that-eq-ok :
    {B : Type 0} (c : Bool) (message : String) (m : Result EvidenceError B) {b : B}
    → (require_that c message >> m) ≡ ok b
    → (c ≡ true) × (m ≡ ok b)
require_that-eq-ok c message m h = require-eq-ok c (invalid message) m h

-- The last test of a chain.
pub require_that-true :
    (c : Bool) (message : String) {u : Unit {0}} → require_that c message ≡ ok u → c ≡ true
require_that-true true message h = refl
require_that-true false message h = cc

-- The tests of a table succeed exactly when each key is as expected.
pub require_fields_iff :
    (fields : Fields) (cs : List Check) → (require_fields fields cs ≡ ok tt) ↔ Meets cs fields
unfolding require_fields
require_fields_iff fields [] = (λ h. tt, λ h. refl)
require_fields_iff fields (c ∷ cs) = (
  λ h.
      let (first, later) =
        require_that-eq-ok (holds c.expected (get fields c.key)) c.message
          (require_fields fields cs) h in
      (first, (require_fields_iff fields cs).0 later),
  λ (first, later). rw (first, (require_fields_iff fields cs).1 later) refl,
)

pub require_all-eq-ok : (v : Json) (cs : List Check) → require_all v cs ≡ ok tt → MeetsAll cs v
unfolding require_all
require_all-eq-ok (dict fields) cs h = (fields, refl, (require_fields_iff fields cs).0 h)
require_all-eq-ok v cs h = cc

pub subscript-eq-ok :
    (v : Json) (key : String) {w : Json}
    → subscript v key ≡ ok w
    → (fs : Fields) × (v ≡ dict fs) × (find key fs ≡ some w)
unfolding subscript
subscript-eq-ok (dict fs) key h = elim (Option-cases (find key fs)) [
  | inl absent ↦ cc (rw (absent, subscript) at h)
  | inr (w, found) ↦ (fs, refl, found ∙ ap some (ok-injective (rw (found, subscript) at h)))
]
subscript-eq-ok v key h = cc

pub read_key-eq-ok :
    (v : Json) (key : String) {w : Json}
    → read_key v key ≡ ok w
    → (fs : Fields) × (v ≡ dict fs) × (get fs key ≡ w)
unfolding read_key
read_key-eq-ok (dict fs) key h = (fs, refl, ok-injective h)
read_key-eq-ok v key h = cc

pub read_or-eq-ok :
    (v : Json) (key : String) (default : Json) {w : Json}
    → read_or v key default ≡ ok w
    → (fs : Fields) × (v ≡ dict fs) × (found_or (find key fs) default ≡ w)
unfolding read_or
read_or-eq-ok (dict fs) key default h = (fs, refl, ok-injective h)
read_or-eq-ok v key default h = cc

-- What is read of a value that is known to be a dict.
pub read_key-dict :
    (v : Json) (fs : Fields) (key : String) {w : Json}
    → v ≡ dict fs
    → read_key v key ≡ ok w
    → get fs key ≡ w
unfolding read_key
read_key-dict v fs key is_dict h = ok-injective (ap (λ u. read_key u key) (sym is_dict) ∙ h)

pub read_or-dict :
    (v : Json) (fs : Fields) (key : String) (default : Json) {w : Json}
    → v ≡ dict fs
    → read_or v key default ≡ ok w
    → found_or (find key fs) default ≡ w
unfolding read_or
read_or-dict v fs key default is_dict h =
    ok-injective (ap (λ u. read_or u key default) (sym is_dict) ∙ h)

pub subscript-dict :
    (v : Json) (fs : Fields) (key : String) {w : Json}
    → v ≡ dict fs
    → subscript v key ≡ ok w
    → find key fs ≡ some w
subscript-dict v fs key is_dict h =
    let (gs, is_gs, found) = subscript-eq-ok v key h in
    let same : gs ≡ fs = cc (sym is_gs ∙ is_dict) in ap (find key) (sym same) ∙ found

pub require_dict-eq-ok :
    (v : Json) (message : String) {fs : Fields} → require_dict v message ≡ ok fs → v ≡ dict fs
unfolding require_dict
require_dict-eq-ok (dict fs) message h = ap dict (ok-injective h)
require_dict-eq-ok v message h = cc

pub full_match-eq-ok :
    (pattern : String → Bool) (v : Json)
    → full_match pattern v ≡ ok true
    → (s : String) × (v ≡ str s) × (pattern s ≡ true)
unfolding full_match
full_match-eq-ok pattern (str s) h = (s, refl, ok-injective h)
full_match-eq-ok pattern v h = cc

-- A text that is not the default stands there.
pub found_or-eq-text :
    (o : Option Json) (p : String → Bool) (s : String)
    → p "" ≡ false
    → found_or o (str "") ≡ str s
    → p s ≡ true
    → o ≡ some (str s)
found_or-eq-text none p s empty h good = let same : "" ≡ s = ground arith in cc (ap p same)
found_or-eq-text (some v) p s empty h good = ap some h
