-- ===== src/Doctor/Paths/Escapes.antt =====
-- The escapes that the kernel writes are decoded.
use mlx_spark.Base.{ℕ, [], ◌∷◌, ◌++◌, nat_eq, ◌==◌, if◌then◌else◌, ◌≡◌, refl, ap, ◌∙◌, arith}
use mlx_spark.Base.Text.{codes}
use mlx_spark.Base.Lines.{replace, replace_from}
use mlx_spark.Doctor.{Text}
use mlx_spark.Doctor.Paths.{mountinfo_path}

-- A character as mountinfo writes it: a space, a tab, a line feed and a backslash in octal.
unfoldable pub escape_char : ℕ → Text
escape_char c =
    if c == b' '
    then codes "\\040"
    else if c == 9
    then codes "\\011"
    else if c == 10
    then codes "\\012"
    else if c == b'\\'
    then codes "\\134"
    else c ∷ []

unfoldable pub escape : Text → Text
unfolding escape_char
escape [] = []
escape (c ∷ cs) = escape_char c ++ escape cs

-- Each character as a text of its own.
encode : (ℕ → Text) → Text → Text
encode f [] = []
encode f (c ∷ cs) = f c ++ encode f cs

-- A replacement that does its work on each character does it on the text.
replace_from-encode :
    (f g : ℕ → Text) (old new : Text)
    → ((c : ℕ) (rest : Text)
        → replace_from 0 old new (f c ++ rest) ≡ g c ++ replace_from 0 old new rest)
    → (cs : Text) → replace_from 0 old new (encode f cs) ≡ encode g cs
unfolding encode replace_from
replace_from-encode f g old new each [] = refl
replace_from-encode f g old new each (c ∷ cs) =
    each c (encode f cs) ∙ ap (λ rest. g c ++ rest) (replace_from-encode f g old new each cs)

-- What is left to decode after one, two and three of the replacements.
abbrev spaced : ℕ → Text
spaced c = if c == b' ' then c ∷ [] else escape_char c

abbrev tabbed : ℕ → Text
tabbed c = if c == 9 then c ∷ [] else spaced c

abbrev broken : ℕ → Text
broken c = if c == 10 then c ∷ [] else tabbed c

spaces :
    (c : ℕ) (rest : Text)
    → replace_from 0 (codes "\\040") (codes " ") (escape_char c ++ rest)
      ≡ spaced c ++ replace_from 0 (codes "\\040") (codes " ") rest
unfolding replace_from escape_char
spaces c rest = ground arith

tabs :
    (c : ℕ) (rest : Text)
    → replace_from 0 (codes "\\011") (9 ∷ []) (spaced c ++ rest)
      ≡ tabbed c ++ replace_from 0 (codes "\\011") (9 ∷ []) rest
unfolding replace_from escape_char
tabs c rest = ground arith

breaks :
    (c : ℕ) (rest : Text)
    → replace_from 0 (codes "\\012") (10 ∷ []) (tabbed c ++ rest)
      ≡ broken c ++ replace_from 0 (codes "\\012") (10 ∷ []) rest
unfolding replace_from escape_char
breaks c rest = ground arith

slashes :
    (c : ℕ) (rest : Text)
    → replace_from 0 (codes "\\134") (codes "\\") (broken c ++ rest)
      ≡ (c ∷ []) ++ replace_from 0 (codes "\\134") (codes "\\") rest
unfolding replace_from escape_char
slashes c rest = ground arith

escape-encode : (cs : Text) → escape cs ≡ encode escape_char cs
unfolding escape encode
escape-encode [] = refl
escape-encode (c ∷ cs) = ap (λ rest. escape_char c ++ rest) (escape-encode cs)

encode_self : (cs : Text) → encode (λ c. c ∷ []) cs ≡ cs
unfolding encode
encode_self [] = refl
encode_self (c ∷ cs) = ap (λ rest. c ∷ rest) (encode_self cs)

-- Every path is read back from its escapes: the order of the four replacements decodes no
-- backslash twice.
pub mountinfo_path-escape : (path : Text) → mountinfo_path (escape path) ≡ path
unfolding mountinfo_path replace
mountinfo_path-escape path =
    rw
      (
        escape-encode path,
        replace_from-encode escape_char spaced (codes "\\040") (codes " ") spaces path,
        replace_from-encode spaced tabbed (codes "\\011") (9 ∷ []) tabs path,
        replace_from-encode tabbed broken (codes "\\012") (10 ∷ []) breaks path,
        replace_from-encode broken (λ c. c ∷ []) (codes "\\134") (codes "\\") slashes path,
        encode_self path,
      )
      refl
