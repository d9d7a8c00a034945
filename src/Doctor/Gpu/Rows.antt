-- ===== src/Doctor/Gpu/Rows.antt =====
-- The rows that nvidia-smi writes are read back as the devices.
use mlx_spark.Base.{
  ℕ, suc, ◌/◌, ◌^◌, List, [], ◌∷◌, ◌++◌, map, Bool, true, false, not, Option, some, all, nat_eq,
  ◌==◌, ==_iff, length, All, ◌≡◌, refl, ap, ◌∙◌, arith, Bool-cases, inl, inr,
}
use mlx_spark.Base.Result.{ok}
use mlx_spark.Base.Int.{pos, scale}
use mlx_spark.Json.{Float, finite}
use mlx_spark.Base.Text.{codes, codes_eq}
use mlx_spark.Base.Lines.{is_space, is_line_end, split_lines, split_most, strip, strip_start}
use mlx_spark.Doctor.{Text}
use mlx_spark.Doctor.Gpu.Fields.{
  is_plain, IsField, split_lines-line, cut-comma, strip-space, is_visible, any-append,
  strip_start-any, strip_end-ne-nil, not-line_end,
}
use mlx_spark.Doctor.Gpu.{Device, listed, mib_to_bytes, device_of, devices_of, parse_gpu_csv}

-- A row as it is queried: three texts, and two sizes in MiB with their texts.
pub record Row : Type 0 where
  pub name : Text
  pub driver_version : Text
  pub compute_capability : Text
  pub total_text : Text
  pub total : ℕ
  pub free_text : Text
  pub free : ℕ

abbrev separated : Text → Text → Text
separated a b = a ++ (b',' ∷ b' ' ∷ b)

-- The line, with a comma and a space after each field but the last.
abbrev pub line_of : Row → Text
line_of r = separated r.name (
    separated r.driver_version
      (separated r.compute_capability (separated r.total_text r.free_text)))

abbrev pub render : List Row → Text
render [] = []
render (r ∷ rows) = line_of r ++ (10 ∷ render rows)

abbrev pub device : Row → Device
device r = record {
  name = r.name;
  driver_version = r.driver_version;
  compute_capability = r.compute_capability;
  memory_total_bytes = some (scale (pos r.total) 20);
  memory_free_bytes = some (scale (pos r.free) 20);
}

pub record IsRow (float_of : Text → Option Float) (r : Row) : Type 0 where
  pub name : IsField r.name
  pub driver_version : IsField r.driver_version
  pub compute_capability : IsField r.compute_capability
  pub total : IsField r.total_text
  pub free : IsField r.free_text
  pub is_total : float_of r.total_text ≡ some (finite (pos r.total) 0)
  pub is_free : float_of r.free_text ≡ some (finite (pos r.free) 0)

first_field :
    (n : ℕ) (a b : Text)
    → all is_plain a ≡ true
    → split_most (suc n) (codes ",") (a ++ (b',' ∷ b)) ≡ a ∷ split_most n (codes ",") b
unfolding split_most
first_field n a b h = rw (split_most, cut-comma a b h) refl

split_most-fields :
    (float_of : Text → Option Float) (r : Row)
    → IsRow float_of r
    → split_most 4 (codes ",") (line_of r)
      ≡ r.name
        ∷ (b' ' ∷ r.driver_version)
        ∷ (b' ' ∷ r.compute_capability)
        ∷ (b' ' ∷ r.total_text)
        ∷ (b' ' ∷ r.free_text)
        ∷ []
unfolding split_most nat_eq
split_most-fields float_of r i =
    first_field 3 r.name _ i.name.0
    ∙ ap (λ rest. r.name ∷ rest)
        (first_field 2 (b' ' ∷ r.driver_version) _ i.driver_version.0
          ∙ ap (λ rest. (b' ' ∷ r.driver_version) ∷ rest)
              (first_field 1 (b' ' ∷ r.compute_capability) _ i.compute_capability.0
                ∙ ap (λ rest. (b' ' ∷ r.compute_capability) ∷ rest)
                    (first_field 0 (b' ' ∷ r.total_text) _ i.total.0)))

all-separated :
    (p : ℕ → Bool) (a b : Text)
    → p b',' ≡ true
    → p b' ' ≡ true
    → all p a ≡ true
    → all p b ≡ true
    → all p (separated a b) ≡ true
all-separated p [] b comma space h k = rw (comma, space) k
all-separated p (c ∷ a) b comma space h k = elim (Bool-cases (p c)) [
  | inl e ↦ rw e (all-separated p a b comma space (rw e at h) k)
  | inr e ↦ cc (rw e at h)
]

module _ (float_of : Text → Option Float) where
  line_of-one_line :
      (r : Row) → IsRow float_of r → all (λ c. not (is_line_end c)) (line_of r) ≡ true
  unfolding nat_eq
  line_of-one_line r i =
      let join = λ (a b : Text). all-separated (λ c. not (is_line_end c)) a b refl refl in
      join r.name _ (not-line_end r.name i.name.0) (
        join r.driver_version _ (not-line_end r.driver_version i.driver_version.0) (
          join r.compute_capability _ (not-line_end r.compute_capability i.compute_capability.0) (
            join r.total_text _ (not-line_end r.total_text i.total.0)
              (not-line_end r.free_text i.free.0))))

  line_of-not_blank : (r : Row) → (strip (line_of r) == []) ≡ false
  unfolding strip nat_eq
  line_of-not_blank r = elim (Bool-cases (strip (line_of r) == [])) [
    | inl blank ↦ absurd (
        strip_end-ne-nil (strip_start is_space (line_of r))
          (strip_start-any (line_of r) (any-append is_visible r.name _ b',' refl))
          ((==_iff _ _).0 blank))
    | inr other ↦ other
  ]

  mib_to_bytes-whole :
      (text : Text) (n : ℕ)
      → float_of text ≡ some (finite (pos n) 0)
      → mib_to_bytes float_of text ≡ ok (some (scale (pos n) 20))
  unfolding mib_to_bytes
  mib_to_bytes-whole text n h =
      rw (mib_to_bytes, h) (ap (λ m. ok (some (scale (pos m) 20))) (whole n))
    where
      whole : (n : ℕ) → n / 2 ^ 0 ≡ n
      whole n = omega arith

  device_of-row :
      (r : Row)
      → IsRow float_of r
      → device_of float_of (map strip (split_most 4 (codes ",") (line_of r))) ≡ ok (some (device r))
  unfolding device_of
  device_of-row r i =
      rw
        (
          split_most-fields float_of r i,
          i.name.1,
          strip-space r.driver_version i.driver_version.1,
          strip-space r.compute_capability i.compute_capability.1,
          strip-space r.total_text i.total.1,
          strip-space r.free_text i.free.1,
          mib_to_bytes-whole r.total_text r.total i.is_total,
          mib_to_bytes-whole r.free_text r.free i.is_free,
        )
        refl

  devices_of-render :
      (rows : List Row)
      → All (IsRow float_of) rows
      → devices_of float_of (split_lines (render rows)) ≡ ok (some (map device rows))
  unfolding devices_of
  devices_of-render [] h = unfold split_lines in refl
  devices_of-render (r ∷ rows) (i, h) =
      rw
        (
          split_lines-line (line_of r) (render rows) (line_of-one_line r i),
          devices_of,
          line_of-not_blank r,
          device_of-row r i,
          devices_of-render rows h,
        )
        refl

  -- The rows that are written with commas and spaces are read back as their devices, as many as
  -- there are, with the sizes in bytes; fields have no comma, line end or outer space.
  pub parse_gpu_csv-render :
      (rows : List Row)
      → All (IsRow float_of) rows
      → parse_gpu_csv float_of (render rows) ≡ ok (listed (length rows) (map device rows))
  unfolding parse_gpu_csv
  parse_gpu_csv-render rows h = rw (devices_of-render rows h, length-map rows) refl
    where
      length-map : (rows : List Row) → length (map device rows) ≡ length rows
      length-map [] = refl
      length-map (r ∷ rows) = ap suc (length-map rows)
