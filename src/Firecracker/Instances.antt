-- ===== src/Firecracker/Instances.antt =====
-- firecracker.rs, build_instance and get_instance_config: the machines of a configuration.
use multi_fuzz_benchmarks.Prelude.{ℕ, Bool, Option, List, [], ◌∷◌, ◌++◌, Text, codes, text_eq}
use multi_fuzz_benchmarks.Prelude.Dict.{Dict, lookup}
use multi_fuzz_benchmarks.Prelude.Outcome.{Result, ok, err, ok_or, ◌>>=◌}
use multi_fuzz_benchmarks.Rpc.{FilePath}
use multi_fuzz_benchmarks.Firecracker.{MountKind, DriveConfig, MachineConfig, VmConfig}

-- config.rs, `DriveConfig`, `Instance` and the part of `Kernel` that a machine takes.
pub record Mount : Type 0 where
  pub name : Text
  pub image : Text
  pub mount_as : MountKind

pub record Instance : Type 0 where
  pub boot_delay_sec : ℕ
  pub recreate_workdir : Bool
  pub machine : MachineConfig
  pub rootfs : Mount
  pub drives : List Mount

pub record Kernel : Type 0 where
  pub boot_args : Text
  pub entropy : Option (List ℕ)

-- A drive with the path of its image.
unfoldable pub drive_of : Dict Text FilePath → Text → Mount → Result Text DriveConfig
drive_of image_paths what mount = do
  path ← ok_or (lookup mount.image image_paths) (what ++ mount.image)
  ok (record { name = mount.name; path = path; mount = mount.mount_as })

unfoldable pub drives_of : Dict Text FilePath → List Mount → Result Text (List DriveConfig)
unfolding drive_of
drives_of image_paths [] = ok []
drives_of image_paths (mount ∷ mounts) = do
  drive ← drive_of image_paths (codes "failed to find drive: ") mount
  drives ← drives_of image_paths mounts
  ok (drive ∷ drives)

unfoldable pub build_instance :
    FilePath → Instance → Kernel → FilePath → Dict Text FilePath → Result Text VmConfig
unfolding drive_of drives_of
build_instance firecracker instance' kernel_config kernel image_paths = do
  rootfs ← drive_of image_paths (codes "failed to find rootfs image: ") instance'.rootfs
  drives ← drives_of image_paths instance'.drives
  ok (record {
    bin = firecracker;
    boot_delay_sec = instance'.boot_delay_sec;
    kernel_entropy = kernel_config.entropy;
    recreate_work_dir = instance'.recreate_workdir;
    kernel_image_path = kernel;
    boot_args = kernel_config.boot_args;
    machine = instance'.machine;
    rootfs = rootfs;
    drives = drives;
  })

-- `with_context`: the context stands before the error.
abbrev pub built : Text → Result Text VmConfig → Result Text VmConfig
built name (ok vm_config) = ok vm_config
built name (err e) = err (codes "failed to build: " ++ (name ++ (codes ": " ++ e)))

-- The loop of `get_instance_config` over the instances.
unfoldable pub build_all :
    FilePath
    → Kernel
    → FilePath
    → Dict Text FilePath
    → Dict Text Instance
    → Result Text (Dict Text VmConfig)
unfolding build_instance
build_all firecracker kernel_config kernel image_paths [] = ok []
build_all firecracker kernel_config kernel image_paths ((name, instance') ∷ rest) = do
  vm_config ← built name (build_instance firecracker instance' kernel_config kernel image_paths)
  instances ← build_all firecracker kernel_config kernel image_paths rest
  ok ((name, vm_config) ∷ instances)
