-- ===== src/Firecracker.antt =====
-- bench-harness/bench-harness/src/firecracker.rs: the configuration of a virtual machine, its drives
-- and its start, over the file system, the process and the API socket of the host.
pub mod Drives
pub mod Instances
pub mod Spawn
use multi_fuzz_benchmarks.Prelude.{
  ℕ, zero, Bool, true, false, Option, none, some, List, [], ◌∷◌, ◌++◌, Text, codes, text_eq,
  starts_with, if◌then◌else◌,
}
use multi_fuzz_benchmarks.Prelude.Outcome.{Result, ok, err}
use multi_fuzz_benchmarks.Prelude.Exec.{Exec, pure, raise, lift, with_context, ◌>>=◌, ◌>>◌}
use multi_fuzz_benchmarks.Prelude.Radix.{to_decimal}
use multi_fuzz_benchmarks.Rpc.{Bytes, FilePath}
use multi_fuzz_benchmarks.Env.{Failure, cause, within}

-- config.rs.
pub data MountKind : Type 0 where
  read_only duplicate reuse_duplicate in_place : MountKind

pub record DriveConfig : Type 0 where
  pub name : Text
  pub path : FilePath
  pub mount : MountKind

pub record Drive : Type 0 where
  pub drive_id : Text
  pub path_on_host : FilePath
  pub is_root_device : Bool
  pub is_read_only : Bool

pub record MachineConfig : Type 0 where
  pub smt : Bool
  pub mem_size_mib : ℕ
  pub vcpu_count : ℕ

pub record VmConfig : Type 0 where
  pub bin : FilePath
  pub boot_delay_sec : ℕ
  pub kernel_entropy : Option (List ℕ)
  pub recreate_work_dir : Bool
  pub kernel_image_path : FilePath
  pub boot_args : Text
  pub machine : MachineConfig
  pub rootfs : DriveConfig
  pub drives : List DriveConfig

abbrev pub missing : DriveConfig → Failure
missing config = cause (
    codes "Failed to configure: "
    ++ (config.name ++ (codes ", " ++ (config.path ++ codes " does not exist"))))

-- What is put to the API of firecracker.
pub data Message : Type 0 where
  boot_source : FilePath → Text → Message
  machine_config : MachineConfig → Message
  drive : Drive → Message
  vsock : ℕ → FilePath → Message
  action : Text → Message

pub record Host (World : Type 0) : Type 0 where
  pub join : FilePath → FilePath → FilePath
  pub exists_path : FilePath → World → Bool
  pub copy : FilePath → FilePath → Exec World Failure (Unit {0})
  pub canonicalize : FilePath → Exec World Failure FilePath
  pub put : Text → Message → Exec World Failure (Unit {0})

module _ {World : Type 0} (host : Host World) where
  open host use {join, exists_path, copy, canonicalize, put}

  abbrev pub copy_path : FilePath → DriveConfig → FilePath
  copy_path workdir config = join workdir (config.name ++ codes ".ext4")

  -- The match on the kind of the mount: whether it is read-only, and the path on the host.
  unfoldable pub path_of : FilePath → DriveConfig → MountKind → Exec World Failure (Bool × FilePath)
  path_of workdir config read_only w = (ok (true, config.path), w)
  path_of workdir config in_place w = (ok (false, config.path), w)
  path_of workdir config duplicate w = elim (exists_path (copy_path workdir config) w) [
    | true ↦ (canonicalize (copy_path workdir config) >>= λ path. pure (false, path)) w
    | false ↦
        (do
          with_context
              (within (
                codes "error copying "
                ++ (config.path ++ (codes " to " ++ copy_path workdir config))))
              (copy config.path (copy_path workdir config))
          path ← canonicalize (copy_path workdir config)
          pure (false, path))
          w
  ]
  path_of workdir config reuse_duplicate w = elim (exists_path (copy_path workdir config) w) [
    | true ↦ (canonicalize (copy_path workdir config) >>= λ path. pure (false, path)) w
    | false ↦ (
      err (
          cause (
            codes "Attempting to reuse: "
            ++ (copy_path workdir config ++ codes " but file does not exist"))),
      w,
    )
  ]

  -- `ActiveVm::add_drive`: the drives with the new one at the end.
  unfoldable pub add_drive :
      FilePath → DriveConfig → Bool → List Drive → Exec World Failure (List Drive)
  unfolding path_of
  add_drive workdir config is_root_device drives w = elim (exists_path config.path w) [
    | false ↦ (err (missing config), w)
    | true ↦
        (do
          mounted ← path_of workdir config config.mount
          pure (
              drives
              ++ record {
                drive_id = config.name;
                path_on_host = mounted.1;
                is_root_device = is_root_device;
                is_read_only = mounted.0;
              }
                ∷ []))
          w
  ]

  -- The loop over `config.drives`.
  unfoldable pub add_drives :
      FilePath → List DriveConfig → List Drive → Exec World Failure (List Drive)
  unfolding add_drive
  add_drives workdir [] drives = pure drives
  add_drives workdir (config ∷ configs) drives = do
    more ← add_drive workdir config false drives
    add_drives workdir configs more

  -- All drives of a machine, the root first.
  unfoldable pub all_drives : FilePath → VmConfig → Exec World Failure (List Drive)
  unfolding add_drives
  all_drives workdir config = do
    root ← add_drive workdir config.rootfs true []
    add_drives workdir config.drives root

  abbrev pub put_with : Text → Text → Message → Exec World Failure (Unit {0})
  put_with context url message = with_context (within context) (put url message)

  unfoldable pub put_drives : List Drive → Exec World Failure (Unit {0})
  put_drives [] = pure tt
  put_drives (d ∷ drives) = do
    put_with (codes "Error configuring drive: " ++ d.drive_id)
        (codes "http://localhost/drives/" ++ d.drive_id) (drive d)
    put_drives drives

  -- `ActiveVm::send_config`: the machine is started last.
  unfoldable pub send_config : VmConfig → List Drive → FilePath → Exec World Failure (Unit {0})
  unfolding put_drives
  send_config config drives vsock_path = do
    put_with (codes "Error sending boot config") (codes "http://localhost/boot-source")
        (boot_source config.kernel_image_path config.boot_args)
    put_with (codes "Error sending machine config") (codes "http://localhost/machine-config")
        (machine_config config.machine)
    put_drives drives
    put_with (codes "Error configuring vsock") (codes "http://localhost/vsock") (vsock 3 vsock_path)
    put_with (codes "Error starting instance") (codes "http://localhost/actions")
        (action (codes "InstanceStart"))

  -- The part of `spawn_vm` behind the connection to the API server.
  unfoldable pub configure : FilePath → VmConfig → Exec World Failure (List Drive)
  unfolding all_drives send_config
  configure workdir config = do
    drives ← all_drives workdir config
    send_config config drives (join workdir (codes "vm.vsock"))
    pure drives

  -- `firecracker_handshake`: the request, and the test of at most 16 bytes of the answer.
  unfoldable pub firecracker_handshake :
      (Bytes → Exec World Failure (Unit {0}))
      → Exec World Failure Bytes
      → ℕ
      → Exec World Failure (Unit {0})
  firecracker_handshake write_all read port = do
    write_all (codes "CONNECT " ++ (to_decimal port ++ codes "\n"))
    msg ← read
    elim msg [
      | [] ↦ raise (cause (codes "firecracker responded with empty string to CONNECT message"))
      | c ∷ cs ↦
          if starts_with (codes "OK") (c ∷ cs)
          then pure tt
          else raise (cause (codes "Unexpected response from firecracker: "))
    ]
