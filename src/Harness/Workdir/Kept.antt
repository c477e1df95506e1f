-- ===== src/Harness/Workdir/Kept.antt =====
-- utils.rs, prepare_workdir: a directory that is not known to be an old one is kept.
use multi_fuzz_benchmarks.Prelude.{◌≡◌, refl, Bool, true, false, Text, codes, ◌++◌}
use multi_fuzz_benchmarks.Prelude.Outcome.{Result, ok, err}
use multi_fuzz_benchmarks.Prelude.Exec.{Exec, continue}
use multi_fuzz_benchmarks.Harness.Workdir.{
  ErrorKind, not_found, other, FileOps, unless_missing, with_path, remove_previous, create_workdir,
  recreate, prepare_workdir,
}

module _ {Fs : Type 0} (ops : FileOps Fs) (P : Fs → Type 0) where
  unless_missing-keeps :
      (path : Text) (r : Result ErrorKind (Unit {0})) (fs : Fs)
      → P fs
      → P (unless_missing ops path (r, fs)).1
  unless_missing-keeps path (ok _) fs p = p
  unless_missing-keeps path (err not_found) fs p = p
  unless_missing-keeps path (err (other e)) fs p = p

  with_path-keeps :
      (path : Text) (r : Result ErrorKind (Unit {0})) (fs : Fs)
      → P fs
      → P (with_path ops path (r, fs)).1
  with_path-keeps path (ok _) fs p = p
  with_path-keeps path (err e) fs p = p

  continue-keeps :
      (r : Result Text (Unit {0})) (f : Unit {0} → Exec Fs Text (Unit {0})) (fs : Fs)
      → ((fs : Fs) → P fs → P (f tt fs).1)
      → P fs
      → P (continue r f fs).1
  continue-keeps (ok _) f fs keep p = keep fs p
  continue-keeps (err e) f fs keep p = p

  create_workdir-keeps :
      (workdir : Text) (fs : Fs)
      → ((fs : Fs) → P fs → P (ops.create_dir_all workdir fs).1)
      → P fs
      → P (create_workdir ops workdir fs).1
  unfolding create_workdir
  create_workdir-keeps workdir fs keep p = at (ops.exists_path workdir fs)
    where
      at :
          (b : Bool)
          → P
              (elim b as (λ _. Result Text (Unit {0}) × Fs) [
                | true ↦ (err (codes "workdir " ++ (workdir ++ codes " already exists")), fs)
                | false ↦ with_path ops workdir (ops.create_dir_all workdir fs)
              ]).1
      at true = p
      at false =
          with_path-keeps workdir (ops.create_dir_all workdir fs).0
            (ops.create_dir_all workdir fs).1 (keep fs p)

  remove_previous-idle :
      (api_socket workdir : Text) (fs : Fs)
      → ops.exists_path api_socket fs ≡ false
      → remove_previous ops api_socket workdir false fs ≡ (ok tt, fs)
  unfolding remove_previous
  remove_previous-idle api_socket workdir fs h = rw (h, remove_previous) refl

  recreate-keeps :
      (recreate_work_dir : Bool) (api_socket workdir : Text) (fs : Fs)
      → ((fs : Fs) → P fs → P (ops.create_dir_all workdir fs).1)
      → ops.exists_path api_socket fs ≡ false
      → P fs
      → P (recreate ops recreate_work_dir api_socket workdir false fs).1
  unfolding recreate
  recreate-keeps false api_socket workdir fs keep h p = p
  recreate-keeps true api_socket workdir fs keep h p =
      rw (remove_previous-idle api_socket workdir fs h, recreate)
        (create_workdir-keeps workdir fs keep p)

  -- Without an API socket of an earlier run, and unless it is forced to, the preparation of a working
  -- directory removes no directory: what the removal of the socket file and the creation of the
  -- directory keep is kept, whether the preparation succeeds or not.
  pub prepare_workdir-keeps :
      (api_socket workdir : Text) (recreate_work_dir : Bool) (fs : Fs)
      → ((fs : Fs) → P fs → P (ops.create_dir_all workdir fs).1)
      → ((fs : Fs) → P fs → P (ops.remove_file api_socket fs).1)
      → ops.exists_path api_socket fs ≡ false
      → P fs
      → P (prepare_workdir ops api_socket workdir recreate_work_dir false fs).1
  unfolding prepare_workdir
  prepare_workdir-keeps api_socket workdir recreate_work_dir fs create remove h p =
      continue-keeps (recreate ops recreate_work_dir api_socket workdir false fs).0 _ _
        (λ fs p.
          unless_missing-keeps api_socket (ops.remove_file api_socket fs).0
            (ops.remove_file api_socket fs).1 (remove fs p))
        (recreate-keeps recreate_work_dir api_socket workdir fs create h p)
