-- ===== src/Base/Lines.antt =====
-- Python's methods of texts, on code points: lines, words, cuts, and replacement.
use Prim.Native.Nat.{ℕ, zero, suc, ◌-◌}
use mathlib.Core.Bool.{Bool, true, ◌&&◌, ◌||◌}
use mathlib.Core.Option.{Option, none, some}
use mathlib.Core.List.{List, [], ◌∷◌, ◌++◌}
use mlx_spark.Base.Equality.{◌==◌, nat_eq}
use mlx_spark.Base.Tests.{if◌then◌else◌}
use mlx_spark.Base.Lists.{length}
use mlx_spark.Base.Text.{codes_eq, between, starts_with, extend}

-- `str.isspace` of one character
abbrev pub is_space : ℕ → Bool
is_space c =
    between 9 13 c
    || between 28 32 c
    || c == 133
    || c == 160
    || c == 5760
    || between 8192 8202 c
    || between 8232 8233 c
    || c == 8239
    || c == 8287
    || c == 12288

-- the characters that end a line
abbrev pub is_line_end : ℕ → Bool
is_line_end c = between 10 13 c || between 28 30 c || c == 133 || between 8232 8233 c

-- `text.splitlines()`: a carriage return and a line feed end one line
unfoldable pub split_lines : List ℕ → List (List ℕ)
unfolding extend
split_lines [] = []
split_lines (c ∷ cs) =
    let rest = split_lines cs in
    if is_line_end c
    then if c == 13 && starts_with cs (10 ∷ []) then rest else [] ∷ rest
    else extend c rest

unfoldable pub strip_start : (ℕ → Bool) → List ℕ → List ℕ
strip_start p [] = []
strip_start p (c ∷ cs) = let rest = strip_start p cs in if p c then rest else c ∷ cs

unfoldable pub strip_end : (ℕ → Bool) → List ℕ → List ℕ
strip_end p [] = []
strip_end p (c ∷ cs) = let rest = strip_end p cs in if p c && rest == [] then [] else c ∷ rest

-- `text.strip()`, and `text.strip(quote)` for one character
unfoldable pub strip : List ℕ → List ℕ
unfolding strip_start strip_end
strip cs = strip_end is_space (strip_start is_space cs)

unfoldable pub strip_char : ℕ → List ℕ → List ℕ
unfolding strip_start strip_end
strip_char quote cs = strip_end (λ c. c == quote) (strip_start (λ c. c == quote) cs)

-- No character, or a space first.
abbrev pub ends_word : List ℕ → Bool
ends_word [] = true
ends_word (c ∷ cs) = is_space c

-- `text.split()`
unfoldable pub words : List ℕ → List (List ℕ)
unfolding extend
words [] = []
words (c ∷ cs) =
    let rest = words cs in
    if is_space c then rest else if ends_word cs then (c ∷ []) ∷ rest else extend c rest

abbrev pub drop : ℕ → List ℕ → List ℕ
drop zero cs = cs
drop (suc n) [] = []
drop (suc n) (c ∷ cs) = drop n cs

abbrev before : ℕ → Option (List ℕ × List ℕ) → Option (List ℕ × List ℕ)
before c none = none
before c (some (a, b)) = some (c ∷ a, b)

-- `text.partition(separator)`, with `none` where it does not occur
unfoldable pub cut : List ℕ → List ℕ → Option (List ℕ × List ℕ)
cut separator [] = none
cut separator (c ∷ cs) =
    let rest = before c (cut separator cs) in
    if starts_with (c ∷ cs) separator then some ([], drop (length separator) (c ∷ cs)) else rest

-- `text.split(separator, n)`
unfoldable pub split_most : ℕ → List ℕ → List ℕ → List (List ℕ)
unfolding cut
split_most zero separator cs = cs ∷ []
split_most (suc n) separator cs = elim (cut separator cs) [
  | none ↦ cs ∷ []
  | some (a, b) ↦ a ∷ split_most n separator b
]

-- `text.replace(old, new)`, where `skip` characters of an occurrence are still to be left out
unfoldable pub replace_from : ℕ → List ℕ → List ℕ → List ℕ → List ℕ
replace_from skip old new [] = []
replace_from (suc skip) old new (c ∷ cs) = replace_from skip old new cs
replace_from zero old new (c ∷ cs) =
    let found = new ++ replace_from (length old - 1) old new cs in
    let passed = c ∷ replace_from 0 old new cs in if starts_with (c ∷ cs) old then found else passed

unfoldable pub replace : List ℕ → List ℕ → List ℕ → List ℕ
unfolding replace_from
replace old new cs = replace_from 0 old new cs

-- `separator.join(parts)`
unfoldable pub join : List ℕ → List (List ℕ) → List ℕ
join separator [] = []
join separator (x ∷ []) = x
join separator (x ∷ y ∷ xs) = x ++ (separator ++ join separator (y ∷ xs))

-- `[x for x in xs if p(x)]`
unfoldable pub filter {ℓ} : {A : Type ℓ} → (A → Bool) → List A → List A
filter p [] = []
filter p (x ∷ xs) = let rest = filter p xs in if p x then x ∷ rest else rest

-- `xs[i]` within the list
abbrev pub at {ℓ} : {A : Type ℓ} → ℕ → List A → Option A
at i [] = none
at zero (x ∷ xs) = some x
at (suc i) (x ∷ xs) = at i xs
