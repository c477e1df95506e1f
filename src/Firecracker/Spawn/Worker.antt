-- ===== src/Firecracker/Spawn/Worker.antt =====
-- worker.rs, FirecrackerWorker, over spawn_vm and the machines of firecracker.rs.
use multi_fuzz_benchmarks.Prelude.{ℕ, ◌≡◌, false, Option, some, Text, codes}
use multi_fuzz_benchmarks.Prelude.Exec.{Exec, raise}
use multi_fuzz_benchmarks.Rpc.{Bytes, from_secs}
use multi_fuzz_benchmarks.Env.{Failure, cause}
use multi_fuzz_benchmarks.Workers.{Machines, firecracker_run_task}
use multi_fuzz_benchmarks.Workers.Leaks.{Keeps, IsCount, firecracker_run_task-balance}
use multi_fuzz_benchmarks.Firecracker.{VmConfig, Host}
use multi_fuzz_benchmarks.Firecracker.Spawn.{Processes, ActiveVm, exit_within, drop_vm, spawn_vm}
use multi_fuzz_benchmarks.Firecracker.Spawn.Process.{IsCounted}
use multi_fuzz_benchmarks.Firecracker.Spawn.Starts.{spawn_vm-Starts}
use multi_fuzz_benchmarks.Firecracker.Spawn.Ended.{
  spawn_vm-HasProcess, exit_within-Keeps, drop_vm-kills,
}

-- The tasks, and the agents in the machines that they run on.
pub record Agents (World Task Agent : Type 0) : Type 0 where
  pub instance_of : Task → Text
  pub run : Task → ℕ → Agent → Exec World Failure (Unit {0})
  pub connect_to_vsock_agent : ActiveVm → Exec World Failure Agent
  pub add_entropy : Agent → Bytes → Exec World Failure (Unit {0})
  pub shutdown_vm : Agent → Exec World Failure (Unit {0})

module _ {World Task Agent : Type 0} (alive : World → ℕ) (agents : Agents World Task Agent) where
  -- Neither a task nor an agent starts or ends a machine's process on the host.
  pub record AreApart : Type 0 where
    pub run : (task : Task) (id : ℕ) (agent : Agent) → Keeps alive (agents.run task id agent)
    pub connect_to_vsock_agent : (vm : ActiveVm) → Keeps alive (agents.connect_to_vsock_agent vm)
    pub add_entropy : (agent : Agent) (bytes : Bytes) → Keeps alive (agents.add_entropy agent bytes)
    pub shutdown_vm : (agent : Agent) → Keeps alive (agents.shutdown_vm agent)

module _ {World Task Agent : Type 0} (rounds : ℕ) (host : Host World) (processes : Processes World)
    (agents : Agents World Task Agent) where
  -- What a worker of firecracker calls, which takes neither a container nor an agent on the host.
  abbrev pub vm_machines : Machines World
  vm_machines = record {
    Config = VmConfig;
    Machine = ActiveVm;
    Agent = Agent;
    Task = Task;
    instance_of = agents.instance_of;
    run = agents.run;
    kernel_entropy = λ config. config.kernel_entropy;
    spawn_vm = λ id config. spawn_vm host processes rounds id config false;
    connect_to_vsock_agent = agents.connect_to_vsock_agent;
    add_entropy = agents.add_entropy;
    shutdown_vm = agents.shutdown_vm;
    spawn_docker_worker = λ id config. raise (cause (codes "no container"));
    connect_unix = λ vm. raise (cause (codes "no container"));
    exit = λ agent. raise (cause (codes "no container"));
    wait_for_exit = λ vm w. (exit_within host processes vm (from_secs 10) w).1;
    drop_machine = drop_vm host processes;
    exists_dir = λ path w. false;
    spawn_local_agent = λ path. raise (cause (codes "no local agent"));
    join_handle = λ vm w. w;
  }

module _ {World Task Agent : Type 0} (alive : World → ℕ) (rounds : ℕ) (host : Host World)
    (processes : Processes World) (agents : Agents World Task Agent) where
  abbrev HasOwn : ActiveVm → Type 0
  HasOwn vm = (process : ℕ) × (vm.instance' ≡ some process)

  vm_machines-IsCount :
      IsCounted alive host processes
      → AreApart alive agents
      → IsCount (vm_machines rounds host processes agents) alive HasOwn
  vm_machines-IsCount counted apart = record {
    spawn_vm = λ id config. spawn_vm-Starts alive host processes counted rounds id config false;
    spawn_vm_own = λ id config. spawn_vm-HasProcess host processes rounds id config false;
    drop_machine = λ vm w own. drop_vm-kills alive host processes counted vm w w own;
    run = apart.run;
    connect_to_vsock_agent = apart.connect_to_vsock_agent;
    add_entropy = apart.add_entropy;
    shutdown_vm = apart.shutdown_vm;
    wait_for_exit = λ vm. exit_within-Keeps alive host processes counted vm (from_secs 10);
  }

  -- However a task ends on a machine of firecracker, and wherever its start or its connection fails:
  -- the worker leaves as many processes as there were before, if a process counts from a spawn that
  -- succeeds until it is killed, and nothing else that the worker calls starts or kills one.
  pub firecracker_run_task-Keeps :
      IsCounted alive host processes
      → AreApart alive agents
      → (id : Text) (instances : Text → Option VmConfig) (task : Task)
      → Keeps alive
          (firecracker_run_task (vm_machines rounds host processes agents) id instances task)
  firecracker_run_task-Keeps counted apart id instances task =
      firecracker_run_task-balance alive (vm_machines rounds host processes agents) HasOwn
        (vm_machines-IsCount counted apart) id instances task
