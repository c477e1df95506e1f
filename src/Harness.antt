-- ===== src/Harness.antt =====
-- bench-harness/bench-harness/src/utils.rs: waiting for a process, durations as texts, and the
-- working directory of a machine.
pub mod Waiting
pub mod Durations
pub mod Workdir
