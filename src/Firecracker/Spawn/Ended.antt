-- ===== src/Firecracker/Spawn/Ended.antt =====
-- firecracker.rs: from the start of a machine to its end.
use multi_fuzz_benchmarks.Prelude.{
  ℕ, ◌+◌, ◌-◌, ◌≡◌, refl, sym, ap, ◌∙◌, arith, Bool, none, some, Option, Text, codes,
}
use multi_fuzz_benchmarks.Prelude.Outcome.{Result, ok, err}
use multi_fuzz_benchmarks.Prelude.Exec.{lift, ◌>>◌}
use multi_fuzz_benchmarks.Prelude.Returns.{Returns, ok_injective, then-Returns}
use multi_fuzz_benchmarks.Rpc.{FilePath, Duration}
use multi_fuzz_benchmarks.Env.{Failure}
use multi_fuzz_benchmarks.Workers.Leaks.{Keeps, started, bind-Keeps}
use multi_fuzz_benchmarks.Firecracker.{VmConfig, Host, configure}
use multi_fuzz_benchmarks.Firecracker.Spawn.{
  Processes, ActiveVm, connect, remove_socket, started_vm, configured, boot, kill_on_error,
  boot_or_kill, start_process, spawn_in, spawn_vm, exit_within, drop_vm, await_exit, vm_exit_of,
  success_of, wait_for_exit_timeout, wait_for_exit,
}
use multi_fuzz_benchmarks.Firecracker.Spawn.Process.{IsCounted}
use multi_fuzz_benchmarks.Firecracker.Spawn.Starts.{spawn_vm-Starts}

-- A machine that has a process, before and behind each step.
abbrev pub HasProcess : {World : Type 0} → ActiveVm → World → Type 0
HasProcess vm w = (process : ℕ) × (vm.instance' ≡ some process)

module _ {World : Type 0} (host : Host World) (processes : Processes World) where
  configured-HasProcess :
      (workdir : FilePath) (config : VmConfig) (process : ℕ)
      → Returns HasProcess (configured host processes workdir config process)
  unfolding configured started_vm
  configured-HasProcess workdir config process =
      then-Returns HasProcess (configure host workdir config)
        (started_vm host processes workdir config process)
        (λ drives w vm h. (process, ap (λ v. v.instance') (sym (ok_injective h))))

  boot-HasProcess :
      (rounds : ℕ) (api_socket workdir : FilePath) (config : VmConfig) (process : ℕ)
      → Returns HasProcess (boot host processes rounds api_socket workdir config process)
  unfolding boot
  boot-HasProcess rounds api_socket workdir config process =
      let vsock_path = host.join workdir (codes "vm.vsock") in
      let rest = configured host processes workdir config process in
      then-Returns HasProcess (connect host processes rounds api_socket)
        (λ _. remove_socket host processes vsock_path >> rest)
        (λ _.
          then-Returns HasProcess (remove_socket host processes vsock_path) (λ _. rest)
            (λ _. configured-HasProcess workdir config process))

  kill_on_error-ok :
      (process : ℕ) (r : Result Failure ActiveVm) (w : World) (vm : ActiveVm)
      → (kill_on_error host processes process r w).0 ≡ ok vm
      → r ≡ ok vm
  kill_on_error-ok process (ok v) w vm h = h
  kill_on_error-ok process (err e) w vm h = absurd (cc)

  boot_or_kill-HasProcess :
      (rounds : ℕ) (api_socket workdir : FilePath) (config : VmConfig) (process : ℕ)
      → Returns HasProcess (boot_or_kill host processes rounds api_socket workdir config process)
  unfolding boot_or_kill
  boot_or_kill-HasProcess rounds api_socket workdir config process w vm h =
      let (r, w') = boot host processes rounds api_socket workdir config process w in
      boot-HasProcess rounds api_socket workdir config process w vm
        (kill_on_error-ok process r w' vm h)

  pub spawn_vm-HasProcess :
      (rounds : ℕ) (id : Text) (config : VmConfig) (interactive : Bool)
      → Returns HasProcess (spawn_vm host processes rounds id config interactive)
  unfolding spawn_vm spawn_in
  spawn_vm-HasProcess rounds id config interactive =
      let workdir = host.join (host.join processes.temp_dir (codes "bench-harness")) id in
      let api_socket = host.join workdir (codes "firecracker-api.socket") in
      then-Returns HasProcess (start_process host processes workdir api_socket config interactive)
        (boot_or_kill host processes rounds api_socket workdir config)
        (boot_or_kill-HasProcess rounds api_socket workdir config)

module _ {World : Type 0} (alive : World → ℕ) (host : Host World) (processes : Processes World)
    (counted : IsCounted alive host processes) where
  pub exit_within-Keeps :
      (vm : ActiveVm) (timeout : Duration) → Keeps alive (exit_within host processes vm timeout)
  unfolding exit_within
  exit_within-Keeps vm timeout w = go vm.instance' w
    where
      go :
          (instance' : Option ℕ) (w : World)
          → alive (exit_within host processes (record vm { instance' = instance' }) timeout w).1
            ≡ alive w
      go none w = refl
      go (some process) w =
          bind-Keeps alive (processes.wait_for_process_timeout process timeout)
            (λ exit. lift (vm_exit_of host processes timeout exit))
            (counted.wait_for_process_timeout process timeout) (λ exit v. refl) w

  await_exit-Keeps : (vm : ActiveVm) → Keeps alive (await_exit host processes vm)
  unfolding await_exit
  await_exit-Keeps vm w = go vm.instance' w
    where
      go :
          (instance' : Option ℕ) (w : World)
          → alive (await_exit host processes (record vm { instance' = instance' }) w).1 ≡ alive w
      go none w = refl
      go (some process) w =
          bind-Keeps alive (processes.wait process)
            (λ success. lift (success_of host processes success)) (counted.wait process)
            (λ success v. refl) w

  pub drop_vm-kills :
      (vm : ActiveVm) (w v : World)
      → HasProcess vm w
      → alive (drop_vm host processes vm v) ≡ alive v - 1
  unfolding drop_vm
  drop_vm-kills vm w v (process, h) = rw (h, drop_vm) (counted.kill process v)

  -- A machine that has been started and has then been waited for, with a time-out or without one,
  -- leaves as many processes as there were before its start, whatever comes of the wait, if what is
  -- done in between starts and ends none.
  pub wait_for_exit-spawn_vm :
      (rounds : ℕ) (id : Text) (config : VmConfig) (interactive : Bool) (timeout : Duration)
      (before between : World) (vm : ActiveVm)
      → (spawn_vm host processes rounds id config interactive before).0 ≡ ok vm
      → alive between ≡ alive (spawn_vm host processes rounds id config interactive before).1
      → (alive (wait_for_exit_timeout host processes vm timeout between).1 ≡ alive before)
        × (alive (wait_for_exit host processes vm between).1 ≡ alive before)
  unfolding wait_for_exit_timeout wait_for_exit
  wait_for_exit-spawn_vm rounds id config interactive timeout before between vm h same =
      let has = spawn_vm-HasProcess host processes rounds id config interactive before vm h in
      let starts =
        spawn_vm-Starts alive host processes counted rounds id config interactive before in
      let one : alive between - 1 ≡ alive before =
        ap (λ n. n - 1) (same ∙ starts ∙ ap (λ r. alive before + started r) h) ∙ omega arith in
      (
        drop_vm-kills vm between (exit_within host processes vm timeout between).1 has
            ∙ ap (λ n. n - 1) (exit_within-Keeps vm timeout between)
            ∙ one,
        drop_vm-kills vm between (await_exit host processes vm between).1 has
            ∙ ap (λ n. n - 1) (await_exit-Keeps vm between)
            ∙ one,
      )
