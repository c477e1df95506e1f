-- ===== src/Firecracker/Spawn/Process.antt =====
-- firecracker.rs: what of the start of a machine leaves the processes as they are.
use multi_fuzz_benchmarks.Prelude.{
  ℕ, ◌-◌, ◌≡◌, refl, Bool, true, false, List, [], ◌∷◌, ◌++◌, Text, codes,
}
use multi_fuzz_benchmarks.Prelude.Outcome.{Result, err}
use multi_fuzz_benchmarks.Prelude.Exec.{Exec, pure, with_context, ◌>>=◌, ◌>>◌}
use multi_fuzz_benchmarks.Rpc.{FilePath, Duration}
use multi_fuzz_benchmarks.Env.{Failure, within}
use multi_fuzz_benchmarks.Workers.Leaks.{Keeps, Starts, bind-Keeps}
use multi_fuzz_benchmarks.Firecracker.{
  Drive, DriveConfig, MountKind, read_only, duplicate, reuse_duplicate, in_place, VmConfig, Host,
  Message, drive, missing, boot_source, machine_config, vsock, action, copy_path, path_of,
  add_drive, add_drives, all_drives, put_with, put_drives, send_config, configure,
}
use multi_fuzz_benchmarks.Firecracker.Spawn.{Processes}

module _ {World : Type 0} (alive : World → ℕ) (host : Host World)
    (processes : Processes World) where
  -- `alive` counts the processes: one is started by a spawn that succeeds and ends when it is killed;
  -- it counts as one until then.
  pub record IsCounted : Type 0 where
    pub spawn : (bin api_socket : FilePath) → Starts alive (processes.spawn bin api_socket)
    pub kill : (process : ℕ) (w : World) → alive (processes.kill process w) ≡ alive w - 1
    pub prepare_workdir :
        (api_socket workdir : FilePath) (recreate : Bool)
        → Keeps alive (processes.prepare_workdir api_socket workdir recreate)
    pub redirect_stdio : (workdir : FilePath) → Keeps alive (processes.redirect_stdio workdir)
    pub sleep : (time : ℕ) (w : World) → alive (processes.sleep time w) ≡ alive w
    pub connect_api : (path : FilePath) → Keeps alive (processes.connect_api path)
    pub remove_file :
        (path : FilePath) (w : World) → alive (processes.remove_file path w).1 ≡ alive w
    pub wait_for_process_timeout :
        (process : ℕ) (timeout : Duration)
        → Keeps alive (processes.wait_for_process_timeout process timeout)
    pub wait : (process : ℕ) → Keeps alive (processes.wait process)
    pub copy : (from to : FilePath) → Keeps alive (host.copy from to)
    pub canonicalize : (path : FilePath) → Keeps alive (host.canonicalize path)
    pub put : (url : Text) (message : Message) → Keeps alive (host.put url message)

  module _ (counted : IsCounted) where
    choose-Keeps :
        {A : Type 0} (test : World → Bool) (m n : Exec World Failure A)
        → Keeps alive m
        → Keeps alive n
        → (w : World)
        → alive (elim (test w) as (λ _. Result Failure A × World) [ true ↦ m w | false ↦ n w ]).1
          ≡ alive w
    choose-Keeps {A} test m n k l w = go (test w)
      where
        go :
            (b : Bool)
            → alive (elim b as (λ _. Result Failure A × World) [ true ↦ m w | false ↦ n w ]).1
              ≡ alive w
        go true = k w
        go false = l w

    abbrev canonical : FilePath → DriveConfig → Exec World Failure (Bool × FilePath)
    canonical workdir config =
        host.canonicalize (copy_path host workdir config) >>= λ path. pure (false, path)

    abbrev copying : FilePath → DriveConfig → Exec World Failure (Unit {0})
    copying workdir config =
        with_context
          (within (
            codes "error copying "
            ++ (config.path ++ (codes " to " ++ copy_path host workdir config))))
          (host.copy config.path (copy_path host workdir config))

    canonical-Keeps :
        (workdir : FilePath) (config : DriveConfig) → Keeps alive (canonical workdir config)
    canonical-Keeps workdir config =
        bind-Keeps alive (host.canonicalize (copy_path host workdir config))
          (λ path. pure {A = Bool × FilePath} (false, path))
          (counted.canonicalize (copy_path host workdir config)) (λ path w. refl)

    path_of-Keeps :
        (workdir : FilePath) (config : DriveConfig) (mount : MountKind)
        → Keeps alive (path_of host workdir config mount)
    unfolding path_of
    path_of-Keeps workdir config read_only w = refl
    path_of-Keeps workdir config in_place w = refl
    path_of-Keeps workdir config duplicate w =
        choose-Keeps (host.exists_path (copy_path host workdir config)) (canonical workdir config)
          (copying workdir config >> canonical workdir config) (canonical-Keeps workdir config)
          (bind-Keeps alive (copying workdir config) (λ _. canonical workdir config)
            (counted.copy config.path (copy_path host workdir config))
            (λ _. canonical-Keeps workdir config))
          w
    path_of-Keeps workdir config reuse_duplicate w =
        choose-Keeps (host.exists_path (copy_path host workdir config)) (canonical workdir config)
          (λ v. (err _, v)) (canonical-Keeps workdir config) (λ v. refl) w

    add_drive-Keeps :
        (workdir : FilePath) (config : DriveConfig) (is_root : Bool) (drives : List Drive)
        → Keeps alive (add_drive host workdir config is_root drives)
    unfolding add_drive
    add_drive-Keeps workdir config is_root drives w =
        choose-Keeps (host.exists_path config.path)
          (path_of host workdir config config.mount >>= λ mounted. pure {A = List Drive} (
            drives
            ++ record {
              drive_id = config.name;
              path_on_host = mounted.1;
              is_root_device = is_root;
              is_read_only = mounted.0;
            }
              ∷ []))
          (λ v. (err (missing config), v))
          (bind-Keeps alive (path_of host workdir config config.mount) _
            (path_of-Keeps workdir config config.mount) (λ mounted v. refl))
          (λ v. refl) w

    add_drives-Keeps :
        (workdir : FilePath) (configs : List DriveConfig) (drives : List Drive)
        → Keeps alive (add_drives host workdir configs drives)
    unfolding add_drives
    add_drives-Keeps workdir [] drives = λ w. refl
    add_drives-Keeps workdir (config ∷ configs) drives =
        bind-Keeps alive (add_drive host workdir config false drives)
          (add_drives host workdir configs) (add_drive-Keeps workdir config false drives)
          (add_drives-Keeps workdir configs)

    put_drives-Keeps : (drives : List Drive) → Keeps alive (put_drives host drives)
    unfolding put_drives
    put_drives-Keeps [] = λ w. refl
    put_drives-Keeps (d ∷ drives) =
        bind-Keeps alive
          (put_with host (codes "Error configuring drive: " ++ d.drive_id)
            (codes "http://localhost/drives/" ++ d.drive_id) (drive d))
          (λ _. put_drives host drives)
          (counted.put (codes "http://localhost/drives/" ++ d.drive_id) (drive d))
          (λ _. put_drives-Keeps drives)

    send_config-Keeps :
        (config : VmConfig) (drives : List Drive) (vsock_path : FilePath)
        → Keeps alive (send_config host config drives vsock_path)
    unfolding send_config
    send_config-Keeps config drives vsock_path =
        bind-Keeps alive
          (put_with host (codes "Error sending boot config") (codes "http://localhost/boot-source")
            (boot_source config.kernel_image_path config.boot_args))
          _
          (counted.put (codes "http://localhost/boot-source")
            (boot_source config.kernel_image_path config.boot_args))
          (λ _.
            bind-Keeps alive
              (put_with host (codes "Error sending machine config")
                (codes "http://localhost/machine-config") (machine_config config.machine))
              _
              (counted.put (codes "http://localhost/machine-config")
                (machine_config config.machine))
              (λ _. bind-Keeps alive (put_drives host drives) _ (put_drives-Keeps drives) (λ _.
                bind-Keeps alive
                  (put_with host (codes "Error configuring vsock") (codes "http://localhost/vsock")
                    (vsock 3 vsock_path))
                  _ (counted.put (codes "http://localhost/vsock") (vsock 3 vsock_path))
                  (λ _.
                    counted.put (codes "http://localhost/actions")
                      (action (codes "InstanceStart"))))))

    pub configure-Keeps :
        (workdir : FilePath) (config : VmConfig) → Keeps alive (configure host workdir config)
    unfolding configure all_drives
    configure-Keeps workdir config =
        bind-Keeps alive (all_drives host workdir config) _
          (bind-Keeps alive (add_drive host workdir config.rootfs true [])
            (add_drives host workdir config.drives) (add_drive-Keeps workdir config.rootfs true [])
            (add_drives-Keeps workdir config.drives))
          (λ drives.
            bind-Keeps alive (send_config host config drives (host.join workdir (codes "vm.vsock")))
              _ (send_config-Keeps config drives (host.join workdir (codes "vm.vsock")))
              (λ _ w. refl))
