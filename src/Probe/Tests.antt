-- ===== src/Probe/Tests.antt =====
-- A small disk, and the theorems at it.
use mlx_spark.Base.{
  ℕ, suc, ◌≤◌, List, [], ◌∷◌, ◌++◌, true, false, Option, none, some, ◌≡◌, ◌≢◌, ◌↔◌, refl, leb,
  leb→le, String, length, if◌then◌else◌, string_eq, nat_eq, Bool-cases, inl, inr, ap, sym, ◌∙◌, map,
  all,
}
use mathlib.Core.Path.{subst}
use mathlib.Core.List.{append-nil}
use mlx_spark.Base.Result.{err}
use mlx_spark.Base.Sort.{sorted, distinct}
use mlx_spark.Base.Text.{codes, codes_eq}
use mlx_spark.Base.Int.{pos}
use mlx_spark.Json.{Json, str, dict, end, field, get, values, Fields}
use mlx_spark.Probe.{Text, descriptor, Disk}
use mlx_spark.Probe.Read.{read_bounded_regular, out_of_fuel, read_chunks}
use mlx_spark.Probe.Read.Bounded.{IsReader, read_bounded_regular-whole, read_chunks-ne-out_of_fuel}
use mlx_spark.Probe.Index.{safetensors, is_safe_name, read_document}
use mlx_spark.Probe.Index.Sound.{read_document-eq-parsed}
use mlx_spark.Probe.Snapshot.{Snapshot, Expected, report, probe_snapshot}
use mlx_spark.Probe.Snapshot.Complete.{IsComplete, probe_snapshot_complete_iff}
use mlx_spark.Probe.Search.{best_of, candidate_of, outranks, probe, search}
use mlx_spark.Probe.Search.Order.{IsAscending}
use mlx_spark.Probe.Search.Sorted.{probe-IsAscending}
use mlx_spark.Probe.Search.Best.{Offers, search_best}

abbrev deliver : ℕ → List ℕ → Option (List ℕ × List ℕ)
deliver n content = if leb (length content) n then some (content, []) else none

abbrev weights : Fields
weights = field "layer" (str "a.safetensors") end

abbrev document : Json
document = dict (field "weight_map" (dict weights) end)

-- Every path is a directory and also a file of three bytes.
abbrev disk : Disk (List ℕ)
disk = record {
  open_path = λ path. descriptor (1 ∷ 2 ∷ 3 ∷ []);
  fstat = λ s. some (record { is_regular = true; is_directory = false; size = pos 3 });
  read = deliver;
  stat = λ path. some (record { is_regular = true; is_directory = true; size = pos 3 });
  loads = λ content. some document;
  sha256 = λ content. content;
}

deliver-parts :
    (n : ℕ) (s t chunk : List ℕ)
    → deliver n s ≡ some (chunk, t)
    → (length s ≤ n) × (s ≡ chunk) × ([] ≡ t)
deliver-parts n s t chunk h = elim (Bool-cases (leb (length s) n)) [
  | inl fits ↦ let h₁ = rw fits at h in (leb→le (length s) n fits, cc, cc)
  | inr long ↦ cc (rw long at h)
]

deliver-IsReader : IsReader disk (λ content. content)
deliver-IsReader = record {
  short = λ n s t chunk h.
      let (fits, same, _) = deliver-parts n s t chunk h in subst (λ xs. length xs ≤ n) same fits;
  next = λ n s t chunk h.
      let (_, same, rest) = deliver-parts n s t chunk h in
      same ∙ (sym (append-nil chunk) ∙ ap (λ xs. chunk ++ xs) rest);
  end_of_file = λ n s t h. (deliver-parts (suc n) s t [] h).1;
}

abbrev here : Text
here = codes "/cache"

abbrev no_hashes : Expected
no_hashes = record { config = none; index = none; tokenizer_config = none }

abbrev three : List ℕ
three = 1 ∷ 2 ∷ 3 ∷ []

read_bounded_regular-whole_example : (three ≡ three) × (length three ≤ 10) × (true ≡ true)
unfolding read_bounded_regular nat_eq
read_bounded_regular-whole_example =
    read_bounded_regular-whole disk (λ content. content) deliver-IsReader here 10 three three true
      refl refl

read_chunks-ne-out_of_fuel_example : read_chunks disk 12 11 (1 ∷ 2 ∷ 3 ∷ []) ≢ err out_of_fuel
read_chunks-ne-out_of_fuel_example =
    read_chunks-ne-out_of_fuel disk (λ content. content) deliver-IsReader 10 (1 ∷ 2 ∷ 3 ∷ [])

read_document-eq-parsed_example :
    (fields : Fields) × (weight_map : Fields) × (s : String) × (ss : List String) × (◌≡◌
      {A = Option Json}
      (some document)
      (some (dict fields)))
    × (get fields "weight_map" ≡ dict weight_map)
    × (values weight_map ≡ map str (s ∷ ss))
    × (all (is_safe_name safetensors) (s ∷ ss) ≡ true)
    × ((read_document safetensors [] (some document)).shards ≡ sorted (distinct (s ∷ ss)))
unfolding read_document string_eq nat_eq codes_eq get
read_document-eq-parsed_example = read_document-eq-parsed safetensors [] (some document) refl

complete_report : probe_snapshot disk here here no_hashes ≡ some (report disk here here no_hashes)
unfolding probe_snapshot
complete_report = refl

is_complete : (report disk here here no_hashes).complete ≡ true
unfolding report string_eq nat_eq codes_eq get sorted distinct
is_complete = refl

probe_snapshot_complete_iff_example :
    (((report disk here here no_hashes).complete ≡ true) ↔ IsComplete disk here no_hashes)
    × ((report disk here here no_hashes).present_shard_count
        ≤ (report disk here here no_hashes).expected_shard_count)
probe_snapshot_complete_iff_example =
    probe_snapshot_complete_iff disk here here no_hashes (report disk here here no_hashes)
      complete_report

abbrev revision : Text
revision = codes "0000000000000000000000000000000000000000"

abbrev snapshot : Snapshot
snapshot =
    report disk
      (codes "/models--Qwen--Qwen3.8-27B/snapshots/0000000000000000000000000000000000000000")
      revision no_hashes

offered : Offers disk (some revision) no_hashes ([] ∷ []) revision snapshot
unfolding candidate_of
offered = inl refl

search_best_example :
    (t : Snapshot) × (best_of revision (search disk (some revision) no_hashes ([] ∷ []) [])
      ≡ some t)
    × Offers disk (some revision) no_hashes ([] ∷ []) revision t
    × (outranks snapshot t ≡ false)
search_best_example = search_best disk (some revision) no_hashes ([] ∷ []) revision snapshot offered

probe-IsAscending_example :
    IsAscending
      (probe disk (some revision) no_hashes (λ t. some t) (λ t. t) ([] ∷ [])).snapshot_revisions
probe-IsAscending_example =
    probe-IsAscending disk (some revision) no_hashes (λ t. some t) (λ t. t) ([] ∷ [])
