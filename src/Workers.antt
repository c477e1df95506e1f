-- ===== src/Workers.antt =====
-- bench-harness/bench-harness/src/worker.rs: what a worker of each backend does with a task, and the
-- agent that only pretends; main.rs, WorkerBackend.
pub mod Dummy
pub mod Leaks
use multi_fuzz_benchmarks.Prelude.{
  ℕ, zero, Bool, true, false, Option, none, some, List, [], ◌∷◌, ◌++◌, Text, codes, ◌==◌, text_eq,
  if◌then◌else◌,
}
use multi_fuzz_benchmarks.Prelude.Outcome.{Result, ok, err, ok_or}
use multi_fuzz_benchmarks.Prelude.Exec.{Exec, pure, raise, lift, with_context, ◌>>=◌, ◌>>◌}
use multi_fuzz_benchmarks.Rpc.{Bytes, FilePath}
use multi_fuzz_benchmarks.Env.{Failure, cause, within}

pub data WorkerBackend : Type 0 where
  local firecracker docker dummy : WorkerBackend

-- `Display` and `FromStr`.
unfoldable pub fmt : WorkerBackend → Text
fmt local = codes "local"
fmt firecracker = codes "firecracker"
fmt docker = codes "docker"
fmt dummy = codes "dummy"

unfoldable pub backend_of : Text → Result Text WorkerBackend
backend_of s =
    if s == codes "local"
    then ok local
    else if s == codes "firecracker"
    then ok firecracker
    else if s == codes "docker"
    then ok docker
    else if s == codes "dummy"
    then ok dummy
    else err (codes "Invalid worker backend: " ++ s)

-- What a worker does to the machines of the host: their configurations, and the calls of
-- firecracker.rs, docker.rs and agent.rs. An agent is what a task runs on.
pub record Machines (World : Type 0) : Type 1 where
  pub Config : Type 0
  pub Machine : Type 0
  pub Agent : Type 0
  -- The name of the instance of a task, and `Task::run` with the id of a worker.
  pub Task : Type 0
  pub instance_of : Task → Text
  pub run : Task → ℕ → Agent → Exec World Failure (Unit {0})
  pub kernel_entropy : Config → Option Bytes
  pub spawn_vm : Text → Config → Exec World Failure Machine
  pub connect_to_vsock_agent : Machine → Exec World Failure Agent
  pub add_entropy : Agent → Bytes → Exec World Failure (Unit {0})
  pub shutdown_vm : Agent → Exec World Failure (Unit {0})
  pub spawn_docker_worker : Text → Config → Exec World Failure Machine
  pub connect_unix : Machine → Exec World Failure Agent
  pub exit : Agent → Exec World Failure (Unit {0})
  -- The error of this call is logged.
  pub wait_for_exit : Machine → World → World
  -- Dropping a machine kills its process.
  pub drop_machine : Machine → World → World
  pub exists_dir : FilePath → World → Bool
  pub spawn_local_agent : FilePath → Exec World Failure (Agent × Machine)
  -- `handle.join()`; an agent thread is not joined when its handle is dropped.
  pub join_handle : Machine → World → World

module _ {World : Type 0} (machines : Machines World) where
  open machines use {
    Config, Machine, Agent, Task, instance_of, run, kernel_entropy, spawn_vm,
    connect_to_vsock_agent, add_entropy, shutdown_vm, spawn_docker_worker, connect_unix, exit,
    wait_for_exit, drop_machine, exists_dir, spawn_local_agent, join_handle,
  }

  unfoldable pub config_of : (Text → Option Config) → Task → Exec World Failure Config
  config_of instances task =
      lift (
        ok_or (instances (instance_of task))
          (cause (codes "Unknown instance " ++ instance_of task)))

  -- The machine is dropped when the block that owns it is left, with or without an error.
  abbrev pub owning : {A : Type 0} → Machine → Exec World Failure A → Exec World Failure A
  owning machine body w = let (r, w') = body w in (r, drop_machine machine w')

  abbrev pub add_kernel_entropy : Option Bytes → Agent → Exec World Failure (Unit {0})
  add_kernel_entropy none agent = pure tt
  add_kernel_entropy (some entropy) agent =
      with_context (within (codes "failed to add entropy to VM")) (add_entropy agent entropy)

  -- `FirecrackerWorker::run_task` with its machine: the task gets 0 as the id of its worker.
  unfoldable pub vm_session : Config → Task → Machine → Exec World Failure (Unit {0})
  vm_session vm_config task vm = do
    agent ← connect_to_vsock_agent vm
    add_kernel_entropy (kernel_entropy vm_config) agent
    run task 0 agent
    shutdown_vm agent
    λ w. (ok tt, wait_for_exit vm w)

  unfoldable pub firecracker_run_task :
      Text → (Text → Option Config) → Task → Exec World Failure (Unit {0})
  unfolding config_of vm_session
  firecracker_run_task id instances task = do
    vm_config ← config_of instances task
    vm ← spawn_vm id vm_config
    owning vm (vm_session vm_config task vm)

  -- `DockerWorker::run_task` with its container.
  unfoldable pub container_session : Task → Machine → Exec World Failure (Unit {0})
  container_session task container = do
    agent ← connect_unix container
    run task 0 agent
    exit agent
    λ w. (ok tt, wait_for_exit container w)

  unfoldable pub docker_run_task :
      Text → (Text → Option Config) → Task → Exec World Failure (Unit {0})
  unfolding config_of container_session
  docker_run_task id instances task = do
    docker_config ← config_of instances task
    container ← spawn_docker_worker id docker_config
    owning container (container_session task container)

  -- `LocalWorker::run_task`.
  unfoldable pub local_run_task : FilePath → ℕ → Task → Exec World Failure (Unit {0})
  local_run_task workdir id task w = elim (exists_dir workdir w) [
    | false ↦ (err (cause (codes "workdir: " ++ (workdir ++ codes " does not exist"))), w)
    | true ↦
        (do
          local_agent ←
              with_context (within (codes "failed to spawn local agent"))
                (spawn_local_agent workdir)
          run task id local_agent.0
          exit local_agent.0
          λ w. (ok tt, join_handle local_agent.1 w))
          w
  ]
