-- ===== src/Tasks.antt =====
-- bench-harness/bench-harness/src/tasks.rs: the tasks that a benchmark configuration lists. The
-- interpreter and the proofs are in the modules below.
pub mod Process
pub mod Files
pub mod Walk
pub mod Bugs
pub mod Run
pub mod Sequence
pub mod Earliest
pub mod Overwrite
use multi_fuzz_benchmarks.Prelude.{
  ℕ, zero, suc, ℤ, ◌+◌, Bool, true, false, Option, none, some, List, [], ◌∷◌, Text,
}
use multi_fuzz_benchmarks.Rpc.{Bytes, Duration}

pub record Pattern : Type 0 where
  pub key : Text
  pub offset : ℕ
  pub bytes : Bytes

pub record InputPatternVerifier : Type 0 where
  pub crash_dir : Text
  pub dst : Text
  pub patterns : List Pattern

-- `DynamicTask`, over the type of the floating point seconds of `Sleep`.
mutual
  pub data DynamicTask (F64 : Type 0) : Type 0 where
    exit_if_existing : Text → DynamicTask F64
    save_env : Text → DynamicTask F64
    run : Text → Option Text → Option Text → Option Duration → DynamicTask F64
    spawn_task : Text → Text → Option Text → Option Text → DynamicTask F64
    result_collector : Text → Text → DynamicTask F64
    sleep : F64 → DynamicTask F64
    kill : ℤ → List Text → DynamicTask F64
    copy_file : Text → Text → Bool → DynamicTask F64
    copy_dir : Text → Text → Bool → DynamicTask F64
    merge_with_prefix : Text → Text → Text → Text → DynamicTask F64
    merge_json : Text → Text → Text → DynamicTask F64
    run_host : Text → Option Text → Option Text → DynamicTask F64
    input_pattern_verifier : InputPatternVerifier → DynamicTask F64
    save_tagged_afl_plot_data_v4 : Text → Text → DynamicTask F64
    task_list : DynamicTasks F64 → DynamicTask F64

  pub data DynamicTasks (F64 : Type 0) : Type 0 where
    nil : DynamicTasks F64
    cons : DynamicTask F64 → DynamicTasks F64 → DynamicTasks F64

module _ {F64 : Type 0} (from_secs_f64 : F64 → Duration) where
  unfoldable mutual
    pub estimate_duration : DynamicTask F64 → Duration
    estimate_duration (run command stdout stderr none) = 0
    estimate_duration (run command stdout stderr (some duration)) = duration
    estimate_duration (sleep time_sec) = from_secs_f64 time_sec
    estimate_duration (task_list tasks) = estimate_all tasks
    estimate_duration _ = 0

    pub estimate_all : DynamicTasks F64 → Duration
    estimate_all nil = 0
    estimate_all (cons task tasks) = estimate_duration task + estimate_all tasks
