-- ===== src/Json.antt =====
-- Python values as `json.loads` returns them, and Python's `==` on them.
pub mod Lawful
pub mod NanFree
pub mod Views
use mlx_spark.Base.{
  ℕ, zero, suc, String, Bool, true, false, ◌&&◌, ◌||◌, not, Option, none, some, List, [], ◌∷◌, map,
  ◌==◌, string_eq, nat_eq, if◌then◌else◌,
}
use mlx_spark.Base.Int.{ℤ, pos, int_eq, scale}

-- A float that is a number is n / 2 ** k.
pub data Float : Type 0 where
  nan : Float
  infinite : Bool → Float
  finite : ℤ → ℕ → Float

mutual
  pub data Json : Type 0 where
    null : Json
    bool : Bool → Json
    int : ℤ → Json
    float : Float → Json
    str : String → Json
    list : Items → Json
    dict : Fields → Json

  pub data Items : Type 0 where
    nil : Items
    cons : Json → Items → Items

  pub data Fields : Type 0 where
    end : Fields
    field : String → Json → Fields → Fields

-- `d.get(key)`, with `none` for an absent key
unfoldable pub find : String → Fields → Option Json
find key end = none
find key (field k v rest) = if k == key then some v else find key rest

-- `d.get(key)`, where an absent key and a null are alike
abbrev pub or_null : Option Json → Json
or_null none = null
or_null (some v) = v

unfoldable pub get : Fields → String → Json
unfolding find
get fs key = or_null (find key fs)

abbrev pub keys : Fields → List String
keys end = []
keys (field k v rest) = k ∷ keys rest

abbrev pub size : Fields → ℕ
size end = 0
size (field k v rest) = suc (size rest)

abbrev pub count : Items → ℕ
count nil = 0
count (cons v rest) = suc (count rest)

-- Booleans are the integers 0 and 1.
abbrev pub number : Json → Option Float
number (bool true) = some (finite (pos 1) 0)
number (bool false) = some (finite (pos 0) 0)
number (int n) = some (finite n 0)
number (float x) = some x
number _ = none

unfoldable pub float_eq : Float → Float → Bool
float_eq (finite n k) (finite m j) = scale n j == scale m k
float_eq (infinite true) (infinite true) = true
float_eq (infinite false) (infinite false) = true
float_eq _ _ = false

abbrev pub number_eq : Option Float → Option Float → Bool
number_eq (some x) (some y) = float_eq x y
number_eq _ _ = false

-- `a == b` where not both are lists and not both are dicts
unfoldable pub scalar_eq : Json → Json → Bool
unfolding float_eq
scalar_eq null null = true
scalar_eq (str s) (str t) = s == t
scalar_eq a b = number_eq (number a) (number b)

-- `a is b` for two floats that are not numbers: `json.loads` returns one object for every NaN.
abbrev pub both_nan : Json → Json → Bool
both_nan (float nan) (float nan) = true
both_nan _ _ = false

unfoldable mutual
  unfolding find scalar_eq

  -- `a == b`
  pub py_eq : Json → Json → Bool
  py_eq (list xs) (list ys) = items_eq xs ys
  py_eq (dict fs) (dict gs) = size fs == size gs && fields_eq fs gs
  py_eq a b = scalar_eq a b

  -- Lists and dicts compare their elements by identity first, and then by `==`.
  pub items_eq : Items → Items → Bool
  items_eq nil nil = true
  items_eq (cons v xs) (cons w ys) = (both_nan v w || py_eq v w) && items_eq xs ys
  items_eq _ _ = false

  -- Every field of the first dict has an equal in the second.
  pub fields_eq : Fields → Fields → Bool
  fields_eq end gs = true
  fields_eq (field k v rest) gs =
      (elim (find k gs) [ none ↦ false | some w ↦ both_nan v w || py_eq v w ]) && fields_eq rest gs

-- `isinstance` tests, with the value that they find
abbrev pub as_dict : Json → Option Fields
as_dict (dict fs) = some fs
as_dict _ = none

abbrev pub as_list : Json → Option Items
as_list (list xs) = some xs
as_list _ = none

abbrev pub as_str : Json → Option String
as_str (str s) = some s
as_str _ = none

-- `isinstance(v, str) and p(v)`
abbrev pub text_or : (String → Bool) → Json → Bool
text_or p (str s) = p s
text_or p _ = false

-- `v is None`
abbrev pub is_null : Json → Bool
is_null null = true
is_null _ = false

-- `v == s` for a text s
abbrev pub is_text : Json → String → Bool
is_text v s = py_eq v (str s)

-- `v is True` and `v is False`
abbrev pub is_bool : Bool → Json → Bool
is_bool true (bool true) = true
is_bool false (bool false) = true
is_bool _ _ = false

-- the truth value of `v`
abbrev pub truthy : Json → Bool
truthy null = false
truthy (bool b) = b
truthy (int (pos zero)) = false
truthy (float (finite (pos zero) k)) = false
truthy (str s) = not (s == "")
truthy (list nil) = false
truthy (dict end) = false
truthy _ = true

abbrev pub fields_of : List (String × Json) → Fields
fields_of [] = end
fields_of ((k, v) ∷ rest) = field k v (fields_of rest)

abbrev pub items_of : List Json → Items
items_of [] = nil
items_of (v ∷ rest) = cons v (items_of rest)

-- `{k: v, ...}` and `[v, ...]`
abbrev pub object : List (String × Json) → Json
object entries = dict (fields_of entries)

abbrev pub array : List Json → Json
array vs = list (items_of vs)

-- the texts of a list, and a list of texts
abbrev pub texts : List String → Json
texts ss = list (items_of (map str ss))

abbrev pub values : Fields → List Json
values end = []
values (field k v rest) = v ∷ values rest

abbrev pub elements : Items → List Json
elements nil = []
elements (cons v rest) = v ∷ elements rest
