-- ===== src/Doctor.antt =====
-- src/mlx_spark/runtime/doctor.py: what the inventory of a host reads from texts. A text is its code points.
pub mod Paths
pub mod Context
pub mod Integer
pub mod Limits
pub mod Release
pub mod Meminfo
pub mod Gpu
pub mod Versions
mod Tests
use mlx_spark.Base.{ℕ, List}

abbrev pub Text : Type 0
Text = List ℕ
