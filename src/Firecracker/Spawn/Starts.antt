-- ===== src/Firecracker/Spawn/Starts.antt =====
-- firecracker.rs: a machine that does not start leaves no process, and one that ends leaves none.
use multi_fuzz_benchmarks.Prelude.{
  ℕ, zero, suc, ◌+◌, ◌*◌, ◌≡◌, refl, ap, sym, ◌∙◌, arith, Bool, true, false, ◌++◌, Text, codes,
  Bool-cases, inl, inr,
}
use multi_fuzz_benchmarks.Prelude.Outcome.{Result, ok, err}
use multi_fuzz_benchmarks.Prelude.Exec.{Exec, continue, relabel, with_context, ◌>>=◌, ◌>>◌}
use multi_fuzz_benchmarks.Rpc.{FilePath}
use multi_fuzz_benchmarks.Env.{Failure, within}
use multi_fuzz_benchmarks.Harness.Workdir.{ErrorKind, not_found, other}
use multi_fuzz_benchmarks.Workers.Leaks.{Keeps, Starts, started, bind-Keeps}
use multi_fuzz_benchmarks.Firecracker.{VmConfig, Host, configure}
use multi_fuzz_benchmarks.Firecracker.Spawn.{
  Processes, ActiveVm, await_socket, unless_not_found, connect, remove_socket, started_vm,
  configured, boot, kill_on_error, boot_or_kill, redirected, start_process, spawn_in, spawn_vm,
}
use multi_fuzz_benchmarks.Firecracker.Spawn.Process.{IsCounted, configure-Keeps}

module _ {World : Type 0} (alive : World → ℕ) (host : Host World) (processes : Processes World)
    (counted : IsCounted alive host processes) where
  await_socket-Keeps :
      (rounds : ℕ) (api_socket : FilePath)
      → Keeps alive (await_socket host processes rounds api_socket)
  unfolding await_socket
  await_socket-Keeps zero api_socket w = refl
  await_socket-Keeps (suc rounds) api_socket w = elim (Bool-cases (host.exists_path api_socket w)) [
    | inl b ↦ rw (b, await_socket) refl
    | inr b ↦
        rw (b, await_socket)
          (await_socket-Keeps rounds api_socket (processes.sleep 100 w) ∙ counted.sleep 100 w)
  ]

  missing-Keeps :
      (path : FilePath) (r : Result ErrorKind (Unit {0})) (w : World)
      → alive (unless_not_found host processes path (r, w)).1 ≡ alive w
  missing-Keeps path (ok _) w = refl
  missing-Keeps path (err not_found) w = refl
  missing-Keeps path (err (other e)) w = refl

  connect-Keeps :
      (rounds : ℕ) (api_socket : FilePath) → Keeps alive (connect host processes rounds api_socket)
  unfolding connect
  connect-Keeps rounds api_socket =
      let api : Exec World Failure (Unit {0}) =
        with_context (within (codes "error connecting to api socket " ++ api_socket))
          (processes.connect_api api_socket) in
      bind-Keeps alive (λ w. (ok tt, processes.sleep 100 w))
        (λ _. await_socket host processes rounds api_socket >> api) (counted.sleep 100)
        (λ _.
          bind-Keeps alive (await_socket host processes rounds api_socket) (λ _. api)
            (await_socket-Keeps rounds api_socket) (λ _. counted.connect_api api_socket))

  remove_socket-Keeps : (path : FilePath) → Keeps alive (remove_socket host processes path)
  unfolding remove_socket
  remove_socket-Keeps path w =
      missing-Keeps path (processes.remove_file path w).0 (processes.remove_file path w).1
      ∙ counted.remove_file path w

  configured-Keeps :
      (workdir : FilePath) (config : VmConfig) (process : ℕ)
      → Keeps alive (configured host processes workdir config process)
  unfolding configured started_vm
  configured-Keeps workdir config process =
      bind-Keeps alive (configure host workdir config)
        (started_vm host processes workdir config process)
        (configure-Keeps alive host processes counted workdir config)
        (λ drives. counted.sleep (config.boot_delay_sec * 1000))

  boot-Keeps :
      (rounds : ℕ) (api_socket workdir : FilePath) (config : VmConfig) (process : ℕ)
      → Keeps alive (boot host processes rounds api_socket workdir config process)
  unfolding boot
  boot-Keeps rounds api_socket workdir config process =
      let vsock_path = host.join workdir (codes "vm.vsock") in
      bind-Keeps alive (connect host processes rounds api_socket)
        (λ _.
          remove_socket host processes vsock_path
          >> configured host processes workdir config process)
        (connect-Keeps rounds api_socket)
        (λ _.
          bind-Keeps alive (remove_socket host processes vsock_path)
            (λ _. configured host processes workdir config process) (remove_socket-Keeps vsock_path)
            (λ _. configured-Keeps workdir config process))

  kill_on_error-started :
      (process : ℕ) (r : Result Failure ActiveVm) (w : World) (n : ℕ)
      → alive w ≡ n + 1
      → alive (kill_on_error host processes process r w).1
        ≡ n + started (kill_on_error host processes process r w).0
  kill_on_error-started process (ok vm) w n h = h
  kill_on_error-started process (err e) w n h = counted.kill process w ∙ omega (arith, h)

  boot_or_kill-started :
      (rounds : ℕ) (api_socket workdir : FilePath) (config : VmConfig) (process : ℕ) (w : World)
      (n : ℕ)
      → alive w ≡ n + 1
      → alive (boot_or_kill host processes rounds api_socket workdir config process w).1
        ≡ n + started (boot_or_kill host processes rounds api_socket workdir config process w).0
  unfolding boot_or_kill
  boot_or_kill-started rounds api_socket workdir config process w n h =
      kill_on_error-started process
        (boot host processes rounds api_socket workdir config process w).0
        (boot host processes rounds api_socket workdir config process w).1 n
        (boot-Keeps rounds api_socket workdir config process w ∙ h)

  continue-Starts :
      {A B : Type 0} (r : Result Failure A) (f : A → Exec World Failure B) (w : World)
      → ((a : A) → Starts alive (f a))
      → alive (continue r f w).1 ≡ alive w + started (continue r f w).0
  continue-Starts (ok a) f w starts = starts a w
  continue-Starts (err e) f w starts = omega arith

  bind-Starts :
      {A B : Type 0} (m : Exec World Failure A) (f : A → Exec World Failure B)
      → Keeps alive m
      → ((a : A) → Starts alive (f a))
      → Starts alive (m >>= f)
  bind-Starts m f k starts w =
      continue-Starts (m w).0 f (m w).1 starts ∙ ap (λ n. n + started ((m >>= f) w).0) (k w)

  relabel-started :
      {A : Type 0} (f : Failure → Failure) (r : Result Failure A)
      → started (relabel f r) ≡ started r
  relabel-started f (ok a) = refl
  relabel-started f (err e) = refl

  redirected-Keeps :
      (workdir : FilePath) (interactive : Bool)
      → Keeps alive (redirected host processes workdir interactive)
  unfolding redirected
  redirected-Keeps workdir true w = refl
  redirected-Keeps workdir false w = counted.redirect_stdio workdir w

  start_process-Starts :
      (workdir api_socket : FilePath) (config : VmConfig) (interactive : Bool)
      → Starts alive (start_process host processes workdir api_socket config interactive)
  unfolding start_process
  start_process-Starts workdir api_socket config interactive =
      let bin : Exec World Failure ℕ = processes.spawn config.bin api_socket in
      let label = within (codes "Failed to start " ++ config.bin) in
      bind-Starts (processes.prepare_workdir api_socket workdir config.recreate_work_dir)
        (λ _. redirected host processes workdir interactive >> with_context label bin)
        (counted.prepare_workdir api_socket workdir config.recreate_work_dir)
        (λ _.
          bind-Starts (redirected host processes workdir interactive) (λ _. with_context label bin)
            (redirected-Keeps workdir interactive)
            (λ _ w.
              counted.spawn config.bin api_socket w
              ∙ ap (λ n. alive w + n) (sym (relabel-started label (bin w).0))))

  continue-boot :
      (rounds : ℕ) (api_socket workdir : FilePath) (config : VmConfig) (r : Result Failure ℕ)
      (w : World) (n : ℕ)
      → alive w ≡ n + started r
      → alive (continue r (boot_or_kill host processes rounds api_socket workdir config) w).1
        ≡ n
          + started (continue r (boot_or_kill host processes rounds api_socket workdir config) w).0
  continue-boot rounds api_socket workdir config (ok process) w n h =
      boot_or_kill-started rounds api_socket workdir config process w n h
  continue-boot rounds api_socket workdir config (err e) w n h = h

  -- A start of a machine that fails leaves as many processes as there were before, whether it fails
  -- before its process is there or behind that, at any of the steps of its configuration; one that
  -- succeeds leaves one more. A wait for the socket that is cut off by the number of its rounds counts
  -- as a failure.
  pub spawn_vm-Starts :
      (rounds : ℕ) (id : Text) (config : VmConfig) (interactive : Bool)
      → Starts alive (spawn_vm host processes rounds id config interactive)
  unfolding spawn_vm spawn_in
  spawn_vm-Starts rounds id config interactive w =
      let workdir = host.join (host.join processes.temp_dir (codes "bench-harness")) id in
      let api_socket = host.join workdir (codes "firecracker-api.socket") in
      let start = start_process host processes workdir api_socket config interactive in
      continue-boot rounds api_socket workdir config (start w).0 (start w).1 (alive w)
        (start_process-Starts workdir api_socket config interactive w)
