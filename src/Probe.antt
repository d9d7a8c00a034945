-- ===== src/Probe.antt =====
-- tools/probe_qwen_cache.py: the read-only probe for a cached model. What it asks of the operating
-- system is the section parameter `Disk`; paths are their code points.
pub mod Read
pub mod Index
pub mod Snapshot
pub mod Search
mod Tests
use mlx_spark.Base.{ℕ, String, List, ◌++◌, Bool, Option, not}
use mlx_spark.Base.Int.{ℤ}
use mlx_spark.Base.Text.{codes}
use mlx_spark.Json.{Json}

abbrev pub Text : Type 0
Text = List ℕ

-- `path / name`
abbrev pub under : Text → Text → Text
under path name = path ++ codes "/" ++ name

pub record Stat : Type 0 where
  pub is_regular : Bool
  pub is_directory : Bool
  pub size : ℤ

-- `os.open`: a descriptor, FileNotFoundError, or another OSError and whether its number is ENOENT
-- or ENOTDIR
pub data Opened (S : Type 0) : Type 0 where
  descriptor : S → Opened S
  not_found : Opened S
  refused : Bool → Opened S

-- `S` is the state of a descriptor; `none` is an exception that the program catches. `read` is
-- `os.read`, `stat` is `Path.stat`, and `loads` decodes UTF-8 and JSON.
pub record Disk (S : Type 0) : Type 0 where
  pub open_path : Text → Opened S
  pub fstat : S → Option Stat
  pub read : ℕ → S → Option (List ℕ × S)
  pub stat : Text → Option Stat
  pub loads : List ℕ → Option Json
  pub sha256 : List ℕ → Text
