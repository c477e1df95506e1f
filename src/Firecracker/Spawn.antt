-- ===== src/Firecracker/Spawn.antt =====
-- firecracker.rs, spawn_vm and ActiveVm: the process of a machine, from its start to its end.
pub mod Process
pub mod Starts
pub mod Waiting
pub mod Ended
pub mod Worker
use multi_fuzz_benchmarks.Prelude.{
  ℕ, zero, suc, ◌*◌, Bool, true, false, Option, none, some, List, [], ◌∷◌, ◌++◌, Text, codes,
}
use multi_fuzz_benchmarks.Prelude.Outcome.{Result, ok, err, ok_or}
use multi_fuzz_benchmarks.Prelude.Exec.{Exec, pure, raise, lift, with_context, ◌>>=◌, ◌>>◌}
use multi_fuzz_benchmarks.Prelude.Radix.{to_decimal}
use multi_fuzz_benchmarks.Rpc.{Bytes, FilePath, Duration}
use multi_fuzz_benchmarks.Env.{Failure, cause, within, unfinished}
use multi_fuzz_benchmarks.Harness.Workdir.{ErrorKind, not_found, other}
use multi_fuzz_benchmarks.Firecracker.{Drive, VmConfig, Host, configure, firecracker_handshake}
use multi_fuzz_benchmarks.Client.{Attempt, retry}

-- What `spawn_vm` and the end of a machine call beside the API: files, a process, its socket.
pub record Processes (World : Type 0) : Type 0 where
  pub temp_dir : FilePath
  -- `utils::prepare_workdir` and `utils::redirect_stdio`.
  pub prepare_workdir : FilePath → FilePath → Bool → Exec World Failure (Unit {0})
  pub redirect_stdio : FilePath → Exec World Failure (Unit {0})
  -- `Command::spawn` of the binary with the API socket: the id of the process.
  pub spawn : FilePath → FilePath → Exec World Failure ℕ
  -- `Child::kill`, whose error is ignored.
  pub kill : ℕ → World → World
  -- Sleep, in milliseconds.
  pub sleep : ℕ → World → World
  pub connect_api : FilePath → Exec World Failure (Unit {0})
  pub remove_file : FilePath → World → Result ErrorKind (Unit {0}) × World
  -- `utils::wait_for_process_timeout`: whether the process ended with success.
  pub wait_for_process_timeout : ℕ → Duration → Exec World Failure (Option Bool)
  -- `Child::wait`.
  pub wait : ℕ → Exec World Failure Bool

pub record ActiveVm : Type 0 where
  pub workdir : FilePath
  pub drives : List Drive
  pub vsock_path : FilePath
  pub instance' : Option ℕ

module _ {World : Type 0} (host : Host World) (processes : Processes World) where
  open host use {join, exists_path}
  open processes use {
    temp_dir, prepare_workdir, redirect_stdio, spawn, kill, sleep, connect_api, remove_file,
    wait_for_process_timeout, wait,
  }

  -- The wait for the API socket, which the code does not bound, for a number of rounds.
  unfoldable pub await_socket : ℕ → FilePath → Exec World Failure (Unit {0})
  await_socket zero api_socket w = (err unfinished, w)
  await_socket (suc rounds) api_socket w = elim (exists_path api_socket w) [
    | true ↦ (ok tt, w)
    | false ↦ await_socket rounds api_socket (sleep 100 w)
  ]

  abbrev pub unless_not_found :
      FilePath → Result ErrorKind (Unit {0}) × World → Result Failure (Unit {0}) × World
  unless_not_found path (ok _, w) = (ok tt, w)
  unless_not_found path (err not_found, w) = (ok tt, w)
  unless_not_found path (err (other e), w) =
      (err (cause (codes "error removing: " ++ (path ++ (codes ", " ++ e)))), w)

  unfoldable pub connect : ℕ → FilePath → Exec World Failure (Unit {0})
  unfolding await_socket
  connect rounds api_socket = do
    λ w. (ok tt, sleep 100 w)
    await_socket rounds api_socket
    with_context (within (codes "error connecting to api socket " ++ api_socket))
        (connect_api api_socket)

  unfoldable pub remove_socket : FilePath → Exec World Failure (Unit {0})
  remove_socket path w = unless_not_found path (remove_file path w)

  unfoldable pub started_vm : FilePath → VmConfig → ℕ → List Drive → Exec World Failure ActiveVm
  started_vm workdir config process drives w = (
    ok (record {
      workdir = workdir;
      drives = drives;
      vsock_path = join workdir (codes "vm.vsock");
      instance' = some process;
    }),
    sleep (config.boot_delay_sec * 1000) w,
  )

  unfoldable pub configured : FilePath → VmConfig → ℕ → Exec World Failure ActiveVm
  unfolding started_vm
  configured workdir config process =
      configure host workdir config >>= started_vm workdir config process

  -- The part of `spawn_vm` behind the start of the process.
  unfoldable pub boot : ℕ → FilePath → FilePath → VmConfig → ℕ → Exec World Failure ActiveVm
  unfolding connect remove_socket configured
  boot rounds api_socket workdir config process = do
    connect rounds api_socket
    remove_socket (join workdir (codes "vm.vsock"))
    configured workdir config process

  -- `FirecrakerInstance` kills its process when it is dropped, here with an error.
  abbrev pub kill_on_error : ℕ → Result Failure ActiveVm → World → Result Failure ActiveVm × World
  kill_on_error process (ok vm) w = (ok vm, w)
  kill_on_error process (err e) w = (err e, kill process w)

  unfoldable pub boot_or_kill : ℕ → FilePath → FilePath → VmConfig → ℕ → Exec World Failure ActiveVm
  unfolding boot
  boot_or_kill rounds api_socket workdir config process w =
      let (r, w') = boot rounds api_socket workdir config process w in kill_on_error process r w'

  unfoldable pub redirected : FilePath → Bool → Exec World Failure (Unit {0})
  redirected workdir true = pure tt
  redirected workdir false = redirect_stdio workdir

  unfoldable pub start_process : FilePath → FilePath → VmConfig → Bool → Exec World Failure ℕ
  unfolding redirected
  start_process workdir api_socket config interactive = do
    prepare_workdir api_socket workdir config.recreate_work_dir
    redirected workdir interactive
    with_context (within (codes "Failed to start " ++ config.bin)) (spawn config.bin api_socket)

  -- `spawn_vm` in its working directory.
  unfoldable pub spawn_in : ℕ → VmConfig → Bool → FilePath → Exec World Failure ActiveVm
  unfolding start_process boot_or_kill
  spawn_in rounds config interactive workdir = do
    process ←
        start_process workdir (join workdir (codes "firecracker-api.socket")) config interactive
    boot_or_kill rounds (join workdir (codes "firecracker-api.socket")) workdir config process

  unfoldable pub spawn_vm : ℕ → Text → VmConfig → Bool → Exec World Failure ActiveVm
  unfolding spawn_in
  spawn_vm rounds id config interactive =
      spawn_in rounds config interactive (join (join temp_dir (codes "bench-harness")) id)

  abbrev pub vm_exit_of : Duration → Option Bool → Result Failure (Unit {0})
  vm_exit_of timeout none = err (cause (codes "VM timed out after: "))
  vm_exit_of timeout (some false) = err (cause (codes "VM exited with error: "))
  vm_exit_of timeout (some true) = ok tt

  unfoldable pub exit_within : ActiveVm → Duration → Exec World Failure (Unit {0})
  exit_within self timeout = elim self.instance' [
    | none ↦ raise (cause (codes "VM exited"))
    | some process ↦ do
      exit ← wait_for_process_timeout process timeout
      lift (vm_exit_of timeout exit)
  ]

  -- The instance of a machine is dropped with it.
  unfoldable pub drop_vm : ActiveVm → World → World
  drop_vm self w = elim self.instance' [ none ↦ w | some process ↦ kill process w ]

  -- The process is killed at the end, whatever came of the wait.
  unfoldable pub wait_for_exit_timeout : ActiveVm → Duration → Exec World Failure (Unit {0})
  unfolding exit_within drop_vm
  wait_for_exit_timeout self timeout w =
      let (r, w') = exit_within self timeout w in (r, drop_vm self w')

  abbrev pub success_of : Bool → Result Failure (Unit {0})
  success_of false = err (cause (codes "VM exited with error: "))
  success_of true = ok tt

  unfoldable pub await_exit : ActiveVm → Exec World Failure (Unit {0})
  await_exit self = elim self.instance' [
    | none ↦ raise (cause (codes "VM exited"))
    | some process ↦ do success ← wait process; lift (success_of success)
  ]

  unfoldable pub wait_for_exit : ActiveVm → Exec World Failure (Unit {0})
  unfolding await_exit drop_vm
  wait_for_exit self w = let (r, w') = await_exit self w in (r, drop_vm self w')

-- connect_to_vsock_agent: each attempt looks at the stop flag before it connects; over what they
-- give, by the number of the attempt.
unfoldable pub connect_to_vsock_agent :
    {Agent : Type 0} → (ℕ → Bool) → (ℕ → Result Failure Agent) → Result Failure Agent × ℕ
connect_to_vsock_agent {Agent} should_stop connect_firecracker = retry attempt 3
  where
    attempt : ℕ → Attempt Failure Agent
    attempt i = elim (should_stop i) [
      | true ↦ err (cause (codes "task cancelled"))
      | false ↦ ok (connect_firecracker i)
    ]

-- `put`, behind the transfer: an empty answer is none, and an error or a fault is an error.
pub data FirecrakerResult (O : Type 0) : Type 0 where
  okay : O → FirecrakerResult O
  error : Text → FirecrakerResult O
  fault : Text → FirecrakerResult O

unfoldable pub answer_of :
    {O : Type 0} → (Bytes → Option (FirecrakerResult O)) → Bytes → Result Failure (Option O)
answer_of parse [] = ok none
answer_of parse (b ∷ bytes) = elim (parse (b ∷ bytes)) [
  | none ↦ err (cause (codes "failed to deserialize response: "))
  | some result ↦ elim result [
    | okay value ↦ ok (some value)
    | error e ↦ err (cause e)
    | fault e ↦ err (cause e)
  ]
]
