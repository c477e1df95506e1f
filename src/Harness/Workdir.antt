-- ===== src/Harness/Workdir.antt =====
-- utils.rs, prepare_workdir: the working directory of a machine, and its old API socket.
pub mod Kept
use multi_fuzz_benchmarks.Prelude.{
  Bool, true, false, ◌||◌, Option, none, some, ◌++◌, Text, codes, if◌then◌else◌,
}
use multi_fuzz_benchmarks.Prelude.Outcome.{Result, ok, err}
use multi_fuzz_benchmarks.Prelude.Exec.{Exec, pure, raise, ◌>>=◌, ◌>>◌}

-- `std::io::ErrorKind`, as far as it is asked for.
pub data ErrorKind : Type 0 where
  not_found : ErrorKind
  other : Text → ErrorKind

-- What the code calls of `std::fs`, over the state of the file system.
pub record FileOps (Fs : Type 0) : Type 0 where
  pub exists_path : Text → Fs → Bool
  pub remove_dir_all : Text → Fs → Result ErrorKind (Unit {0}) × Fs
  pub create_dir_all : Text → Fs → Result ErrorKind (Unit {0}) × Fs
  pub remove_file : Text → Fs → Result ErrorKind (Unit {0}) × Fs

module _ {Fs : Type 0} (ops : FileOps Fs) where
  -- An error that something is not there is no error.
  abbrev pub unless_missing : Text → Result ErrorKind (Unit {0}) × Fs → Result Text (Unit {0}) × Fs
  unless_missing path (ok _, fs) = (ok tt, fs)
  unless_missing path (err not_found, fs) = (ok tt, fs)
  unless_missing path (err (other e), fs) = (err (codes "Error removing: " ++ (path ++ e)), fs)

  abbrev pub with_path : Text → Result ErrorKind (Unit {0}) × Fs → Result Text (Unit {0}) × Fs
  with_path path (ok _, fs) = (ok tt, fs)
  with_path path (err e, fs) = (err (codes "failed to create workdir " ++ path), fs)

  unfoldable pub remove_previous : Text → Text → Bool → Exec Fs Text (Unit {0})
  remove_previous api_socket workdir force fs = elim (ops.exists_path api_socket fs || force) [
    | true ↦ unless_missing workdir (ops.remove_dir_all workdir fs)
    | false ↦ (ok tt, fs)
  ]

  unfoldable pub create_workdir : Text → Exec Fs Text (Unit {0})
  create_workdir workdir fs = elim (ops.exists_path workdir fs) [
    | true ↦ (err (codes "workdir " ++ (workdir ++ codes " already exists")), fs)
    | false ↦ with_path workdir (ops.create_dir_all workdir fs)
  ]

  unfoldable pub recreate : Bool → Text → Text → Bool → Exec Fs Text (Unit {0})
  unfolding remove_previous create_workdir
  recreate false api_socket workdir force = pure tt
  recreate true api_socket workdir force = do
    remove_previous api_socket workdir force
    create_workdir workdir

  unfoldable pub prepare_workdir : Text → Text → Bool → Bool → Exec Fs Text (Unit {0})
  unfolding recreate
  prepare_workdir api_socket workdir recreate_work_dir force = do
    recreate recreate_work_dir api_socket workdir force
    λ fs. unless_missing api_socket (ops.remove_file api_socket fs)
