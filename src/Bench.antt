-- ===== src/Bench.antt =====
-- The benchmarks of bench/: the workloads that they build, the loops that they time, and the
-- helpers that make their inputs. The benchmark library's loop is a number of rounds, an argument.
pub mod Draws
pub mod Shootout
pub mod Replay
pub mod Loop
pub mod Orders
pub mod Snapshots
pub mod Buffers
pub mod Mixed
pub mod Recorder
