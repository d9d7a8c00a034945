-- ===== src/Probe/Read/Bounded.antt =====
-- The reads end, stay within the limit and return the whole file.
use mlx_spark.Base.{
  ℕ, zero, suc, ◌-◌, ◌≤◌, ◌<◌, List, [], ◌∷◌, ◌++◌, Bool, true, some, ltb, leb, length,
  length-append, ◌≡◌, ◌≢◌, refl, sym, ap, ◌∙◌, arith, Option-cases, Bool-cases, leb→le, ◌⊎◌, inl,
  inr,
}
use mathlib.Core.List.{append_assoc, append-nil}
use mlx_spark.Base.Result.{Result, ok, err, ok-injective}
use mlx_spark.Probe.{Text, descriptor, Disk}
use mlx_spark.Probe.Read.{
  good, ReadError, os_error, out_of_fuel, min, max_chunk, exceeds, read_chunks, checked,
  read_descriptor, from_opened, read_bounded_regular,
}

-- `os.read` as documented: no more bytes than asked for, and none only at the end of the file;
-- `left` is what the descriptor has not delivered yet.
pub record IsReader {S : Type 0} (disk : Disk S) (left : S → List ℕ) : Type 0 where
  pub short :
      (n : ℕ) (s t : S) (chunk : List ℕ) → disk.read n s ≡ some (chunk, t) → length chunk ≤ n
  pub next :
      (n : ℕ) (s t : S) (chunk : List ℕ)
      → disk.read n s ≡ some (chunk, t)
      → left s ≡ chunk ++ left t
  pub end_of_file : (n : ℕ) (s t : S) → disk.read (suc n) s ≡ some ([], t) → left s ≡ []

min_pos : (n : ℕ) → (k : ℕ) × (min max_chunk (suc n) ≡ suc k) × (suc k ≤ suc n)
min_pos n = elim (Bool-cases (leb max_chunk (suc n))) [
  | inl over ↦ (1048575, rw over refl, leb→le max_chunk (suc n) over)
  | inr below ↦ (n, rw below refl, omega arith)
]

module _ {S : Type 0} (disk : Disk S) (left : S → List ℕ) (reader : IsReader disk left) where
  -- The loop fails, or it ends with a first part of the file, and with all of it if that is less
  -- than was asked for.
  abbrev Delivers : ℕ → S → Result ReadError (List ℕ) → Type 0
  Delivers remaining s r =
      (r ≡ err os_error)
      ⊎ ((content rest : List ℕ) × (r ≡ ok content)
          × (length content ≤ remaining)
          × (left s ≡ content ++ rest)
          × (length content < remaining → rest ≡ []))

  more-Delivers :
      (fuel remaining : ℕ) (s t : S) (c : ℕ) (cs : List ℕ)
      → disk.read (min max_chunk (suc remaining)) s ≡ some (c ∷ cs, t)
      → remaining < fuel
      → length (c ∷ cs) ≤ min max_chunk (suc remaining)
      → Delivers
          (suc remaining - length (c ∷ cs))
          t
          (read_chunks disk fuel (suc remaining - length (c ∷ cs)) t)
      → Delivers (suc remaining) s (read_chunks disk (suc fuel) (suc remaining) s)
  unfolding read_chunks
  more-Delivers fuel remaining s t c cs e h short (inl failed) =
      inl (rw (e, failed, read_chunks) refl)
  more-Delivers fuel remaining s t c cs e h short
        (inr (content, after, got, within, parts, whole)) =
      let (k, asked, bound) = min_pos remaining in
      let fits : length (c ∷ cs) ≤ suc remaining = omega arith in
      let total = length-append (c ∷ cs) content in
      inr (
        (c ∷ cs) ++ content,
        after,
        rw (e, got, read_chunks) refl,
        omega arith,
        reader.next _ s t (c ∷ cs) e
            ∙ (ap (λ xs. (c ∷ cs) ++ xs) parts ∙ sym (append_assoc (c ∷ cs) content after)),
        λ below. whole (omega arith),
      )

  read_chunks-Delivers :
      (fuel remaining : ℕ) (s : S)
      → remaining < fuel
      → Delivers remaining s (read_chunks disk fuel remaining s)
  unfolding read_chunks
  read_chunks-Delivers zero remaining s h = absurd (omega arith)
  read_chunks-Delivers (suc fuel) zero s h =
      inr ([], left s, refl, omega arith, refl, λ h. absurd (omega arith))
  read_chunks-Delivers (suc fuel) (suc remaining) s h =
      let (k, asked, bound) = min_pos remaining in
      elim (Option-cases (disk.read (min max_chunk (suc remaining)) s)) [
        | inl failed ↦ inl (rw (failed, read_chunks) refl)
        | inr (([], t), e) ↦
            rw (e, read_chunks)
              (inr ([], [], refl, omega arith, reader.end_of_file k s t (rw asked at e), λ _. refl))
        | inr ((c ∷ cs, t), e) ↦
            more-Delivers fuel remaining s t c cs e (omega arith) (reader.short _ s t (c ∷ cs) e)
              (read_chunks-Delivers fuel (suc remaining - length (c ∷ cs)) t (omega arith))
      ]

  -- Where reads behave as documented, the fuel that `_read_bounded_regular` gives to its loop is
  -- enough.
  pub read_chunks-ne-out_of_fuel :
      (limit : ℕ) (s : S) → read_chunks disk (suc (suc limit)) (suc limit) s ≢ err out_of_fuel
  read_chunks-ne-out_of_fuel limit s e =
      elim (read_chunks-Delivers (suc (suc limit)) (suc limit) s (omega arith)) [
        | inl failed ↦ cc
        | inr (content, rest, got, _, _, _) ↦ cc
      ]

  checked-whole :
      (limit : ℕ) (s : S) (r : Result ReadError (List ℕ)) (content : List ℕ) (found : Bool)
      → Delivers (suc limit) s r
      → checked disk limit r ≡ (some content, good, found)
      → (left s ≡ content) × (length content ≤ limit) × (found ≡ true)
  unfolding checked
  checked-whole limit s (err e) content found d h = cc
  checked-whole limit s (ok c) content found (inl failed) h = cc
  checked-whole limit s (ok c) content found (inr (d, rest, got, within, parts, whole)) h =
      elim (Bool-cases (ltb limit (length c))) [
        | inl over ↦ cc (rw over at h)
        | inr fits ↦
            let h₁ = rw fits at h in
            let same : c ≡ content = ground arith in
            let is_c : c ≡ d = ok-injective got in
            let small : length d < suc limit = ground arith in
            (
              parts ∙ (ap (λ w. d ++ w) (whole small) ∙ (append-nil d ∙ (sym is_c ∙ same))),
              ground arith,
              ground arith,
            )
      ]

  read_descriptor-whole :
      (limit : ℕ) (s : S) (content : List ℕ) (found : Bool)
      → read_descriptor disk limit s ≡ (some content, good, found)
      → (left s ≡ content) × (length content ≤ limit) × (found ≡ true)
  unfolding read_descriptor
  read_descriptor-whole limit s content found h = elim (Option-cases (disk.fstat s)) [
    | inl failed ↦ cc (rw (failed, read_descriptor) at h)
    | inr (st, e) ↦ elim (Bool-cases st.is_regular) [
      | inr special ↦ cc (rw (e, read_descriptor, special) at h)
      | inl regular ↦ elim (Bool-cases (exceeds st.size limit)) [
        | inl large ↦ cc (rw (e, read_descriptor, regular, large) at h)
        | inr small ↦
            checked-whole limit s (read_chunks disk (suc (suc limit)) (suc limit) s) content found
              (read_chunks-Delivers (suc (suc limit)) (suc limit) s (omega arith))
              (rw (e, read_descriptor, regular, small) at h)
      ]
    ]
  ]

  -- Where reads behave as documented, the path opens at a descriptor and bytes are returned as good, they are the whole of what
  -- the descriptor has to deliver, and no more than the limit.
  pub read_bounded_regular-whole :
      (path : Text) (limit : ℕ) (s : S) (content : List ℕ) (found : Bool)
      → disk.open_path path ≡ descriptor s
      → read_bounded_regular disk path limit ≡ (some content, good, found)
      → (left s ≡ content) × (length content ≤ limit) × (found ≡ true)
  unfolding read_bounded_regular from_opened
  read_bounded_regular-whole path limit s content found opened h =
      read_descriptor-whole limit s content found (rw opened at h)
