-- ===== src/Doctor/Tests.antt =====
-- Runs on small texts, and on a hierarchy of two levels.
use mlx_spark.Base.{
  ℕ, ◌-◌, List, [], ◌∷◌, map, true, Option, none, some, nat_eq, ◌==◌, if◌then◌else◌, ◌≡◌, refl,
}
use mlx_spark.Base.Result.{ok, err}
use mlx_spark.Base.Int.{pos, negsuc}
use mlx_spark.Base.Text.{codes, codes_eq, parts_eq, split, extend, is_digit}
use mlx_spark.Base.Lines.{
  replace, replace_from, filter, split_lines, words, cut, join, strip, strip_start, strip_end,
  strip_char, split_most,
}
use mlx_spark.Json.{Float, finite, infinite}
use mlx_spark.Doctor.{Text}
use mlx_spark.Doctor.Paths.{mountinfo_path, path_parts, pure_parts}
use mlx_spark.Doctor.Paths.Escapes.{escape, mountinfo_path-escape}
use mlx_spark.Doctor.Context.{
  Context, membership_of, mount_of, each_line, over_memberships, at_membership, over_mounts,
  at_mount, relative_to, resolve_cgroup_context,
}
use mlx_spark.Doctor.Context.Complete.{
  IsPreferred, memberships, mounts, resolve_cgroup_context-IsPreferred,
}
use mlx_spark.Doctor.Integer.{digits, natural, int_of}
use mlx_spark.Doctor.Limits.{
  CgroupMemory, found, cgroup_usage_unreadable, levels_onto, parse_cgroup_limit, usage_at, level_of,
  finite_levels, least, from_hierarchy, cgroup_memory, v1_unlimited_min,
}
use mlx_spark.Doctor.Limits.Found.{IsReport, cgroup_memory-IsReport}
use mlx_spark.Doctor.Release.{release, clean, set_dgx_field, dgx_lines, parse_dgx_release}
use mlx_spark.Doctor.Release.Safe.{IsJustified, parse_dgx_release-IsJustified}
use mlx_spark.Doctor.Meminfo.{memory, size_lines, size_of, partition_colon}
use mlx_spark.Doctor.Gpu.{
  listed, unexpected_csv, overflow_error, mib_to_bytes, device_of, devices_of, parse_gpu_csv,
}
use mlx_spark.Doctor.Gpu.Rows.{Row, IsRow, render, device, parse_gpu_csv-render}

decoded : mountinfo_path (codes "/a\\040b\\134040") ≡ codes "/a b\\040"
unfolding mountinfo_path replace replace_from nat_eq codes_eq
decoded = refl

three_parts : path_parts (codes "/a//b/./c/") ≡ some (map codes ("a" ∷ "b" ∷ "c" ∷ []))
unfolding path_parts pure_parts filter split extend nat_eq codes_eq
three_parts = refl

upwards : path_parts (codes "/a/../b") ≡ none
unfolding path_parts pure_parts filter split extend nat_eq codes_eq
upwards = refl

abbrev cgroup_lines : List ℕ
cgroup_lines = codes "0::/user.slice/session.scope\n5:cpu,memory:/machine.slice/job.scope\n"

abbrev mount_lines : List ℕ
mount_lines =
    codes
      "36 29 0:32 / /unified rw - cgroup2 cgroup rw\n41 29 0:37 /machine.slice /mem\\040ory rw - cgroup cgroup rw,memory"

-- Version 1 is preferred, and the root of its mount is left out.
hybrid :
    resolve_cgroup_context cgroup_lines mount_lines
    ≡ some (record {
      version = 1;
      mount_point = codes "/mem ory";
      relative_parts = codes "job.scope" ∷ [];
    })
unfolding resolve_cgroup_context split_lines each_line membership_of mount_of over_memberships
    at_membership over_mounts at_mount relative_to mountinfo_path path_parts pure_parts filter split
    extend words cut join replace replace_from nat_eq codes_eq parts_eq
hybrid = refl

mountinfo_path-escape_example : mountinfo_path (escape (codes "/a b\\040")) ≡ codes "/a b\\040"
mountinfo_path-escape_example = mountinfo_path-escape (codes "/a b\\040")

abbrev job : Context
job = record {
  version = 1;
  mount_point = codes "/mem ory";
  relative_parts = codes "job.scope" ∷ [];
}

resolve_cgroup_context-IsPreferred_example :
    IsPreferred (memberships cgroup_lines) (mounts mount_lines) job
resolve_cgroup_context-IsPreferred_example =
    resolve_cgroup_context-IsPreferred cgroup_lines mount_lines job hybrid

first_version : over_memberships 1 (mounts mount_lines) (memberships cgroup_lines) ≡ some job
unfolding split_lines each_line membership_of mount_of over_memberships at_membership over_mounts
    at_mount relative_to mountinfo_path path_parts pure_parts filter split extend words cut join
    replace replace_from nat_eq codes_eq parts_eq
first_version = refl

abbrev digit : ℕ → Option ℕ
digit c = if is_digit c then some (c - b'0') else none

signed_number : int_of digit (codes " -1_024\n") ≡ some (negsuc 1023)
unfolding int_of natural digits strip strip_start strip_end nat_eq codes_eq
signed_number = refl

two_underscores : int_of digit (codes "1__0") ≡ none
unfolding int_of natural digits strip strip_start strip_end nat_eq codes_eq
two_underscores = refl

-- The mount has 800 bytes, of which 100 are left; the directory of the job has 300 of 500 left.
abbrev read : Text → List Text → Text → Option Text
read mount [] name =
    some (if name == codes "memory.limit_in_bytes" then codes "800\n" else codes "700\n")
read mount (part ∷ parts) name =
    some (if name == codes "memory.limit_in_bytes" then codes "500\n" else codes "200\n")

abbrev report : CgroupMemory
report = record {
  version = 1;
  tightest = some (record { available = 100; limit = pos 800; current = pos 700 });
  finite_limit_levels = 2;
}

reported : cgroup_memory digit read (some cgroup_lines) (some mount_lines) ≡ found report
unfolding cgroup_memory from_hierarchy levels_onto finite_levels level_of parse_cgroup_limit
    usage_at least int_of natural digits strip strip_start strip_end v1_unlimited_min
    resolve_cgroup_context split_lines each_line membership_of mount_of over_memberships
    at_membership over_mounts at_mount relative_to mountinfo_path path_parts pure_parts filter split
    extend words cut join replace replace_from nat_eq codes_eq parts_eq
reported = refl

cgroup_memory-IsReport_example :
    (c : Context) × IsPreferred (memberships cgroup_lines) (mounts mount_lines) c
    × IsReport digit read c report
cgroup_memory-IsReport_example =
    cgroup_memory-IsReport digit read cgroup_lines mount_lines report reported

unreadable_use : level_of digit 2 (some (codes "500")) none ≡ err cgroup_usage_unreadable
unfolding level_of parse_cgroup_limit usage_at int_of natural digits strip strip_start strip_end
    nat_eq codes_eq
unreadable_use = refl

sentinel : parse_cgroup_limit digit (codes "9223372036854771712") 1 ≡ ok none
unfolding parse_cgroup_limit int_of natural digits strip strip_start strip_end v1_unlimited_min
    nat_eq codes_eq
sentinel = refl

abbrev dgx_text : Text
dgx_text =
    codes
      "DGX_PRETTY_NAME=\"DGX OS 7\"\nDGX_SERIAL_NUMBER=\"secret\"\n DGX_OTA_VERSION = '7.3.1'\nDGX_SWBUILD_VERSION=a b\n"

-- The serial number and a version with a space are left out.
dgx_fields :
    parse_dgx_release dgx_text
    ≡ release (record {
      pretty_name = some (codes "DGX OS 7");
      swbuild_version = none;
      ota_version = some (codes "7.3.1");
    })
unfolding parse_dgx_release dgx_lines set_dgx_field clean split_lines extend cut strip strip_start
    strip_end strip_char nat_eq codes_eq
dgx_fields = refl

parse_dgx_release-IsJustified_example :
    IsJustified (split_lines dgx_text) (parse_dgx_release dgx_text)
parse_dgx_release-IsJustified_example = parse_dgx_release-IsJustified dgx_text

sizes :
    memory digit (some (codes "MemTotal:  16 kB\nMemFree: 3 kB\nSwapFree:\n"))
    ≡ some (record {
      total = some (some (pos 16384));
      available = none;
      swap_total = none;
      swap_free = some none;
    })
unfolding memory size_lines size_of partition_colon split_lines extend cut words int_of natural
    digits strip strip_start strip_end nat_eq codes_eq
sizes = refl

abbrev float_of : Text → Option Float
float_of text =
    if text == codes "16"
    then some (finite (pos 16) 0)
    else if text == codes "8"
    then some (finite (pos 8) 0)
    else if text == codes "inf"
    then some (infinite true)
    else none

infinite_size : mib_to_bytes float_of (codes "inf") ≡ err overflow_error
unfolding mib_to_bytes nat_eq codes_eq
infinite_size = refl

four_fields : parse_gpu_csv float_of (codes "a, b, c, 16\n") ≡ ok unexpected_csv
unfolding parse_gpu_csv devices_of device_of split_lines extend split_most cut strip strip_start
    strip_end nat_eq codes_eq
four_fields = refl

abbrev row : Row
row = record {
  name = codes "NVIDIA GB10";
  driver_version = codes "580.95";
  compute_capability = codes "12.1";
  total_text = codes "16";
  total = 16;
  free_text = codes "8";
  free = 8;
}

row-IsRow : IsRow float_of row
unfolding strip strip_start strip_end nat_eq codes_eq
row-IsRow = record {
  name = (refl, refl);
  driver_version = (refl, refl);
  compute_capability = (refl, refl);
  total = (refl, refl);
  free = (refl, refl);
  is_total = refl;
  is_free = refl;
}

parse_gpu_csv-render_example :
    parse_gpu_csv float_of (render (row ∷ row ∷ [])) ≡ ok (listed 2 (device row ∷ device row ∷ []))
parse_gpu_csv-render_example =
    parse_gpu_csv-render float_of (row ∷ row ∷ []) (row-IsRow, (row-IsRow, tt))
