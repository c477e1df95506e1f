-- ===== src/Launch.antt =====
-- bench-harness/bench-harness/src/main.rs: how the command line leads to a configuration, to the
-- workers of a backend, and to the pool that runs a benchmark.
pub mod Included
pub mod Distinct
pub mod Complete
use multi_fuzz_benchmarks.Prelude.{
  ℕ, zero, suc, min, Bool, true, false, Option, none, some, List, [], ◌∷◌, ◌++◌, Text, codes,
  length, map,
}
use multi_fuzz_benchmarks.Prelude.Outcome.{Result, ok, err, ok_or}
use multi_fuzz_benchmarks.Prelude.Exec.{Exec, pure, lift, with_context, ◌>>=◌, ◌>>◌}
use multi_fuzz_benchmarks.Prelude.Radix.{to_decimal}
use multi_fuzz_benchmarks.Rpc.{FilePath, Duration}
use multi_fuzz_benchmarks.Env.{Failure, cause, within}
use multi_fuzz_benchmarks.Config.{KeyValue}
use multi_fuzz_benchmarks.Schedule.{TaskConfig, Task, bench_tasks, estimate_total_duration}
use multi_fuzz_benchmarks.Tasks.{estimate_all}
use multi_fuzz_benchmarks.Workers.{WorkerBackend, local, firecracker, docker, dummy}
use multi_fuzz_benchmarks.Pool.{Pool, new, start_workers}

-- What a worker's thread calls: the worker of its backend, with its id.
pub data Runner (Local Instances Containers : Type 0) : Type 0 where
  local_worker : ℕ → Local → Runner Local Instances Containers
  firecracker_worker : Text → Instances → Runner Local Instances Containers
  docker_worker : Text → Containers → Runner Local Instances Containers
  dummy_worker : ℕ → Runner Local Instances Containers

module _ {Local Instances Containers : Type 0} where
  -- `for i in 0..workers`, from `i` on.
  unfoldable pub runners_from :
      (ℕ → Runner Local Instances Containers) → ℕ → ℕ → List (Runner Local Instances Containers)
  runners_from make i zero = []
  runners_from make i (suc workers) = make i ∷ runners_from make (suc i) workers

  unfoldable pub vm_worker : Instances → ℕ → Runner Local Instances Containers
  vm_worker instances i =
      firecracker_worker (codes "vm" ++ (to_decimal i ++ codes "-data")) instances

  unfoldable pub container_worker : Containers → ℕ → Runner Local Instances Containers
  container_worker instances i = docker_worker (codes "container-" ++ to_decimal i) instances

module _ {World : Type 0} {Local Instances Containers : Type 0} (local_config : Option Local)
    (get_instance_config : Exec World Failure Instances)
    (prepare_instances : Exec World Failure Containers) where
  -- The workers of `start_workers`.
  unfoldable pub runners :
      WorkerBackend → ℕ → Exec World Failure (List (Runner Local Instances Containers))
  unfolding runners_from vm_worker container_worker
  runners local workers = do
    config ← lift (ok_or local_config (cause (codes "No local worker config")))
    pure (runners_from (λ i. local_worker i config) 0 workers)
  runners firecracker workers = do
    instances ← get_instance_config
    pure (runners_from (vm_worker instances) 0 workers)
  runners docker workers = do
    instances ← prepare_instances
    pure (runners_from (container_worker instances) 0 workers)
  runners dummy workers = pure (runners_from dummy_worker 0 workers)

  -- The part of `run_bench_v2` behind the tasks, up to the pool and its workers, which then run on
  -- their own; nothing is started in a dry run.
  unfoldable pub start_unless :
      {F64 : Type 0}
      → Bool
      → List KeyValue
      → WorkerBackend
      → ℕ
      → List (TaskConfig F64)
      → Exec World Failure (Option (List (Runner Local Instances Containers) × Pool (Task F64)))
  unfolding runners
  start_unless true vars backend workers tasks = pure none
  start_unless false vars backend workers tasks = do
    started ← runners backend workers
    pure (some (started, start_workers workers (new (bench_tasks vars 0 tasks))))

-- The estimate of the duration, which is logged. A sum that is out of range is a panic of the main
-- thread, here a failure.
unfoldable pub estimated :
    {World F64 : Type 0}
    → (F64 → Duration)
    → ℕ
    → List (TaskConfig F64)
    → Exec World Failure Duration
estimated from_secs_f64 workers tasks = lift (
    ok_or
      (estimate_total_duration (map (λ t. estimate_all from_secs_f64 t.tasks) tasks)
        (min workers (length tasks)))
      (cause (codes "overflow when adding durations")))

module _ {World F64 : Type 0} (read_to_string : FilePath → Exec World Failure Text)
    (render_str : Text → Result Failure Text)
    (render_tasks_template : Text → Result Failure (List (TaskConfig F64))) where
  -- The tasks of a benchmark file.
  unfoldable pub task_list : FilePath → Exec World Failure (List (TaskConfig F64))
  task_list benchmark = do
    data' ← with_context (within (codes "failed to read: " ++ benchmark)) (read_to_string benchmark)
    rendered ←
        with_context (within (codes "error rendering: " ++ benchmark)) (lift (render_str data'))
    lift (render_tasks_template rendered)

  unfoldable pub run_bench_v2 :
      {Local Instances Containers : Type 0}
      → (F64 → Duration)
      → Option Local
      → Exec World Failure Instances
      → Exec World Failure Containers
      → List KeyValue
      → WorkerBackend
      → ℕ
      → Bool
      → FilePath
      → Exec World Failure (Option (List (Runner Local Instances Containers) × Pool (Task F64)))
  unfolding task_list estimated start_unless
  run_bench_v2 from_secs_f64 local_config get_instances prepare_instances vars backend workers
        dry_run benchmark =
      do
        tasks ← task_list benchmark
        estimated from_secs_f64 workers tasks
        start_unless local_config get_instances prepare_instances dry_run vars backend workers tasks
