-- ===== src/Doctor/Release.antt =====
-- `_os_release` and `_dgx_os`: the fields of the release files that are reported.
pub mod Safe
use mlx_spark.Base.{
  ℕ, List, [], ◌∷◌, Bool, true, false, not, ◌&&◌, ◌||◌, Option, none, some, all, nat_eq, ◌==◌,
  contains, length, leb, if◌then◌else◌,
}
use mlx_spark.Base.Text.{codes, codes_eq, is_alphanumeric}
use mlx_spark.Base.Lines.{split_lines, cut, strip, strip_char}
use mlx_spark.Doctor.{Text}

-- The keys of the dict that are there, with their values.
pub record OsRelease : Type 0 where
  pub id : Option Text
  pub version_id : Option Text
  pub pretty_name : Option Text

abbrev no_release : OsRelease
no_release = record { id = none; version_id = none; pretty_name = none }

abbrev set_os_field : Text → Text → OsRelease → OsRelease
set_os_field key value r =
    if key == codes "ID"
    then record r { id = some value }
    else if key == codes "VERSION_ID"
    then record r { version_id = some value }
    else if key == codes "PRETTY_NAME"
    then record r { pretty_name = some value }
    else r

unfoldable pub os_lines : List Text → OsRelease → OsRelease
unfolding cut strip_char
os_lines [] r = r
os_lines (line ∷ lines) r = elim (cut (codes "=") line) [
  | none ↦ os_lines lines r
  | some (key, value) ↦ os_lines lines (set_os_field key (strip_char b'"' value) r)
]

-- `_os_release`, with `none` for the status unavailable
unfoldable pub os_release : Option Text → Option OsRelease
unfolding os_lines split_lines
os_release none = none
os_release (some text) = some (os_lines (split_lines text) no_release)

pub record DgxRelease : Type 0 where
  pub pretty_name : Option Text
  pub swbuild_version : Option Text
  pub ota_version : Option Text

pub data DgxOs : Type 0 where
  unavailable no_safe_version_fields : DgxOs
  release : DgxRelease → DgxOs

-- `[A-Za-z0-9 ._()+-]` and `[A-Za-z0-9._+~:-]`
abbrev pub is_name_char : ℕ → Bool
is_name_char c = is_alphanumeric c || contains (codes " ._()+-") c

abbrev pub is_version_char : ℕ → Bool
is_version_char c = is_alphanumeric c || contains (codes "._+~:-") c

-- One to eighty characters of a class, in full.
abbrev pub is_field : (ℕ → Bool) → Text → Bool
is_field p value = leb 1 (length value) && leb (length value) 80 && all p value

-- `value.strip().strip('"').strip("'")`
unfoldable pub clean : Text → Text
unfolding strip strip_char
clean value = strip_char b'\'' (strip_char b'"' (strip value))

-- The body of the loop, for a line with a key and a value.
unfoldable pub set_dgx_field : Text → Text → DgxRelease → DgxRelease
set_dgx_field key value r =
    if key == codes "DGX_PRETTY_NAME"
    then if is_field is_name_char value then record r { pretty_name = some value } else r
    else if key == codes "DGX_SWBUILD_VERSION"
    then if is_field is_version_char value then record r { swbuild_version = some value } else r
    else if key == codes "DGX_OTA_VERSION"
    then if is_field is_version_char value then record r { ota_version = some value } else r
    else r

unfoldable pub dgx_lines : List Text → DgxRelease → DgxRelease
unfolding cut strip clean set_dgx_field
dgx_lines [] r = r
dgx_lines (line ∷ lines) r = elim (cut (codes "=") line) [
  | none ↦ dgx_lines lines r
  | some (key, value) ↦ dgx_lines lines (set_dgx_field (strip key) (clean value) r)
]

abbrev pub is_absent : Option Text → Bool
is_absent none = true
is_absent (some value) = false

-- `len(result) == 1`: only the status is there.
abbrev pub is_empty : DgxRelease → Bool
is_empty r = is_absent r.pretty_name && is_absent r.swbuild_version && is_absent r.ota_version

unfoldable pub parse_dgx_release : Text → DgxOs
unfolding dgx_lines split_lines
parse_dgx_release text =
    let r =
      dgx_lines (split_lines text)
        (record { pretty_name = none; swbuild_version = none; ota_version = none }) in
    if is_empty r then no_safe_version_fields else release r

unfoldable pub dgx_os : Option Text → DgxOs
unfolding parse_dgx_release
dgx_os none = unavailable
dgx_os (some text) = parse_dgx_release text
