-- ===== src/Workers/Leaks.antt =====
-- worker.rs: no machine outlives the task that it was started for.
use multi_fuzz_benchmarks.Prelude.{ℕ, ◌+◌, ◌-◌, ◌≡◌, refl, ap, ◌∙◌, arith, Option, none, some, Text}
use multi_fuzz_benchmarks.Prelude.Outcome.{Result, ok, err}
use multi_fuzz_benchmarks.Prelude.Exec.{Exec, continue, ◌>>=◌, ◌>>◌}
use multi_fuzz_benchmarks.Env.{Failure}
use multi_fuzz_benchmarks.Rpc.{Bytes}
use multi_fuzz_benchmarks.Workers.{
  Machines, config_of, owning, add_kernel_entropy, vm_session, firecracker_run_task,
}

-- A call that leaves a count as it was.
abbrev pub Keeps : {World A : Type 0} → (World → ℕ) → Exec World Failure A → Type 0
Keeps {World} alive m = (w : World) → alive (m w).1 ≡ alive w

-- A call that starts a machine exactly if it succeeds.
abbrev pub started : {A : Type 0} → Result Failure A → ℕ
started (ok a) = 1
started (err e) = 0

abbrev pub Starts : {World A : Type 0} → (World → ℕ) → Exec World Failure A → Type 0
Starts {World} alive m = (w : World) → alive (m w).1 ≡ alive w + started (m w).0

-- A call whose results have a property.
abbrev pub Yields : {World A : Type 0} → (A → Type 0) → Exec World Failure A → Type 0
Yields {World} {A} P m = (w : World) (a : A) → (m w).0 ≡ ok a → P a

-- What a worker of firecracker needs of its machines and agents: `alive` counts the processes of the
-- machines, and a machine that was started has the process that it was started with.
pub record IsCount {World : Type 0} (machines : Machines World) (alive : World → ℕ)
    (HasOwn : machines.Machine → Type 0) : Type 0 where
  pub spawn_vm : (id : Text) (config : machines.Config) → Starts alive (machines.spawn_vm id config)
  pub spawn_vm_own :
      (id : Text) (config : machines.Config) → Yields HasOwn (machines.spawn_vm id config)
  pub drop_machine :
      (machine : machines.Machine) (w : World)
      → HasOwn machine
      → alive (machines.drop_machine machine w) ≡ alive w - 1
  pub run :
      (task : machines.Task) (id : ℕ) (agent : machines.Agent)
      → Keeps alive (machines.run task id agent)
  pub connect_to_vsock_agent :
      (machine : machines.Machine) → Keeps alive (machines.connect_to_vsock_agent machine)
  pub add_entropy :
      (agent : machines.Agent) (bytes : Bytes) → Keeps alive (machines.add_entropy agent bytes)
  pub shutdown_vm : (agent : machines.Agent) → Keeps alive (machines.shutdown_vm agent)
  pub wait_for_exit :
      (machine : machines.Machine) (w : World) → alive (machines.wait_for_exit machine w) ≡ alive w

module _ {World : Type 0} (alive : World → ℕ) where
  continue-Keeps :
      {A B : Type 0} (r : Result Failure A) (f : A → Exec World Failure B) (w : World)
      → ((a : A) → Keeps alive (f a))
      → alive (continue r f w).1 ≡ alive w
  continue-Keeps (ok a) f w keep = keep a w
  continue-Keeps (err e) f w keep = refl

  pub bind-Keeps :
      {A B : Type 0} (m : Exec World Failure A) (f : A → Exec World Failure B)
      → Keeps alive m
      → ((a : A) → Keeps alive (f a))
      → Keeps alive (m >>= f)
  bind-Keeps m f k keep w = continue-Keeps (m w).0 f (m w).1 keep ∙ k w

  then-Keeps :
      (m n : Exec World Failure (Unit {0})) → Keeps alive m → Keeps alive n → Keeps alive (m >> n)
  then-Keeps m n k l w = continue-Keeps (m w).0 (λ _. n) (m w).1 (λ _. l) ∙ k w

  module _ (machines : Machines World) (HasOwn : machines.Machine → Type 0)
      (count : IsCount machines alive HasOwn) where
    continue-owning :
        (r : Result Failure (machines.Machine))
        (body : machines.Machine → Exec World Failure (Unit {0})) (w : World) (n : ℕ)
        → alive w ≡ n + started r
        → ((machine : machines.Machine) → r ≡ ok machine → HasOwn machine)
        → ((machine : machines.Machine) → Keeps alive (body machine))
        → alive (continue r (λ m. owning machines m (body m)) w).1 ≡ n
    continue-owning (ok m) body w n h own keep =
        count.drop_machine m (body m w).1 (own m refl)
        ∙ ap (λ k. k - 1) (keep m w ∙ h)
        ∙ omega arith
    continue-owning (err e) body w n h own keep = h ∙ omega arith

    config_of-Keeps :
        (instances : Text → Option machines.Config) (task : machines.Task)
        → Keeps alive (config_of machines instances task)
    unfolding config_of
    config_of-Keeps instances task w = refl

    add_kernel_entropy-Keeps :
        (entropy : Option Bytes) (agent : machines.Agent)
        → Keeps alive (add_kernel_entropy machines entropy agent)
    add_kernel_entropy-Keeps none agent w = refl
    add_kernel_entropy-Keeps (some entropy) agent w = count.add_entropy agent entropy w

    -- What is left to do once there is an agent.
    abbrev finish_run :
        machines.Task
        → machines.Agent
        → Exec World Failure (Unit {0})
        → machines.Machine
        → Exec World Failure (Unit {0})
    finish_run task agent stop machine =
        machines.run task 0 agent >> (stop >> (λ w. (ok tt, machines.wait_for_exit machine w)))

    finish_run-Keeps :
        (task : machines.Task) (agent : machines.Agent) (stop : Exec World Failure (Unit {0}))
        (machine : machines.Machine)
        → Keeps alive stop
        → Keeps alive (finish_run task agent stop machine)
    finish_run-Keeps task agent stop machine k =
        let waiting : Exec World Failure (Unit {0}) =
          λ w. (ok tt, machines.wait_for_exit machine w) in
        then-Keeps (machines.run task 0 agent) (stop >> waiting) (count.run task 0 agent)
          (then-Keeps stop waiting k (count.wait_for_exit machine))

    vm_session-Keeps :
        (config : machines.Config) (task : machines.Task) (vm : machines.Machine)
        → Keeps alive (vm_session machines config task vm)
    unfolding vm_session
    vm_session-Keeps config task vm =
        let entropy = machines.kernel_entropy config in
        bind-Keeps (machines.connect_to_vsock_agent vm)
          (λ agent.
            add_kernel_entropy machines entropy agent
            >> finish_run task agent (machines.shutdown_vm agent) vm)
          (count.connect_to_vsock_agent vm)
          (λ agent.
            then-Keeps (add_kernel_entropy machines entropy agent)
              (finish_run task agent (machines.shutdown_vm agent) vm)
              (add_kernel_entropy-Keeps entropy agent)
              (finish_run-Keeps task agent (machines.shutdown_vm agent) vm
                (count.shutdown_vm agent)))

    spawn-Keeps :
        (spawn : Exec World Failure machines.Machine)
        (body : machines.Machine → Exec World Failure (Unit {0}))
        → Starts alive spawn
        → Yields HasOwn spawn
        → ((machine : machines.Machine) → Keeps alive (body machine))
        → Keeps alive (spawn >>= λ m. owning machines m (body m))
    spawn-Keeps spawn body starts own keep w =
        continue-owning (spawn w).0 body (spawn w).1 (alive w) (starts w) (own w) keep

    -- The worker leaves the count as it was, where the machines are as IsCount says.
    pub firecracker_run_task-balance :
        (id : Text) (instances : Text → Option machines.Config) (task : machines.Task)
        → Keeps alive (firecracker_run_task machines id instances task)
    unfolding firecracker_run_task
    firecracker_run_task-balance id instances task =
        bind-Keeps (config_of machines instances task)
          (λ config. machines.spawn_vm id config >>= λ vm.
            owning machines vm (vm_session machines config task vm))
          (config_of-Keeps instances task)
          (λ config.
            spawn-Keeps (machines.spawn_vm id config) (vm_session machines config task)
              (count.spawn_vm id config) (count.spawn_vm_own id config)
              (vm_session-Keeps config task))
