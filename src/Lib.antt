-- ===== src/Lib.antt =====
-- MLX-Spark, a scaffold for running one model on one machine: the tools on the list of tasks, the
-- resolver that turns a reviewed candidate into a source lock, the read-only probe of a model cache,
-- the checks of configurations, benchmarks, bundles and release evidence, the inventory of the host,
-- and the reference recurrence. Python is modelled as it is written, with exceptions as values.
--
-- Base        equality, lists, dicts in insertion order, results, sorting and texts, that all the
--             parts share.
-- Task lists: the scripts tools/validate_plan.py and tools/next_task.py are Plan.antt and the folder
--             beside it. The dict `by` is `by_ident`, the recursive function is `visit` with the
--             sets `seen` and `active` as state, and the selection of tasks is `next_task`. Fuel
--             bounds the depth of the recursion; it is one more than the number of tasks, since the
--             active tasks are distinct.
-- Json        the values that json.loads returns, with Python's == (`py_eq`), and views of them.
--             Lists and dicts compare elements by identity first, so one NaN is equal to itself in
--             them, and only there.
-- Compare     `json_diff` of tools/resolve_sources.py and `diff` of tools/compare_config.py.
-- Sources     tools/resolve_sources.py: Candidate is validate_candidate, Library the helpers on
--             fetched documents, Revision the two resolvers, Tables the constants, Audit
--             audit_git_source and resolve_mlx_transitive_sources, Weights _qwen_weight_manifest,
--             Model audit_qwen_source, Lock build_lock, Write atomic_write_new and run. `run` calls
--             build_lock, which validates the candidate, resolves each source, audits it and records
--             it. What comes from elsewhere is the parameter `Library`: fetch, JSON, SHA-256, quote.
-- Probe       tools/probe_qwen_cache.py: Read is _read_bounded_regular and the tests on files, Index
--             _read_index and _read_main_revision, Snapshot _probe_snapshot, Search probe. The
--             operating system is the parameter `Disk`. The loop of reads has one unit of fuel more
--             than the bytes it may still ask for, since each read but the last delivers a byte.
-- Config      from_mapping of src/mlx_spark/models/qwen3_8/config.py, and Memory the estimate of
--             src/mlx_spark/runtime/memory.py that the command memory-estimate prints.
-- Benchmark   the records and series of times that src/mlx_spark/benchmark.py accepts.
-- Gate        tools/check_gate.py: the list of errors of the evidence for a release. The files are
--             the parameter `Root`.
-- Doctor      src/mlx_spark/runtime/doctor.py, from the texts read on: Paths _mountinfo_path and
--             _path_parts, Context _resolve_cgroup_context, Limits _cgroup_memory, Release _os_release
--             and _dgx_os, Meminfo _memory, Gpu _parse_gpu_csv, Versions _safe_version_result with
--             nvcc and cmake, Integer Python's int of a text. The values of digits, the classes
--             of characters and float() are parameters.
-- Upstream    tools/fetch_upstream.py: `fetch` gives the actions that were done and how it ended.
--             Files and git are the parameter `Host`.
-- Gdn         src/mlx_spark/reference/gdn.py: `validate`, the forward pass `loop`, and in
--             Vjp the cotangents of `gdn_vjp`, over the parameter `Scalar`. Arrays are functions of
--             indices with their shape. The backward loop computes the states of the trace again.
-- Evidence    tools/validate_fnd03_evidence.py: Tables holds its constants, Checks the tests on the
--             keys of a dict, Lock the loops over sources and artifacts, Refs _strings and the refs
--             that move, Model the audits, Records the cache, the provenance and the run, Validate
--             `validate` and `main`. It reads the lock that Sources builds. The files, hashes and
--             cases of letters are the parameter `Files`.
-- Integrity   tools/check_integrity.py, with the files as the parameter `Bundle`.
--
-- Not modelled: the summary statistics of the benchmark, the versions of the host compiler and of cuDNN, the
-- other NumPy references, the evidence of the inventory, argument parsing,
-- printing, HTTP, process calls, native code, and Python's recursion limit.
pub mod Base
pub mod Plan
pub mod Json
pub mod Compare
pub mod Sources
pub mod Probe
pub mod Config
pub mod Memory
pub mod Gate
pub mod Benchmark
pub mod Doctor
pub mod Upstream
pub mod Gdn
pub mod Integrity
pub mod Evidence
