-- ===== src/Tasks/Overwrite.antt =====
-- tasks.rs: `CopyFile` with `append: false`.
use multi_fuzz_benchmarks.Prelude.{true, false, ◌≡◌, refl}
use multi_fuzz_benchmarks.Prelude.Exec.{Exec, pure}
use multi_fuzz_benchmarks.Prelude.Outcome.{Result, ok, err}
use multi_fuzz_benchmarks.Rpc.{Bytes, FilePath}
use multi_fuzz_benchmarks.Env.{Env, Failure}
use multi_fuzz_benchmarks.Methods
use multi_fuzz_benchmarks.Tasks.Files.{copy_to, try_copy}

module _ (env : Env) where
  open env use {World, create_parent, open_file}

  unfoldable pub only_parent : Result Failure Bytes → FilePath → World → World
  only_parent (err e) to w = w
  only_parent (ok bytes) to w = create_parent to w

  copy_to-create_parent :
      (e : Failure)
      (h : (to : FilePath) (w : World)
        → open_file (record { create = true; append = false }) to w ≡ (err e, w))
      (to : FilePath) (bytes : Bytes) (w : World)
      → copy_to env to false bytes w ≡ (ok tt, create_parent to w)
  unfolding copy_to
  copy_to-create_parent e h to bytes w = rw (h to (create_parent to w)) refl

  -- If a file can not be opened for creation without being opened for writing or appending, then a
  -- copy that does not append writes nothing: it reads the file from the agent, makes the parent
  -- directory if that succeeded, and reports success.
  pub try_copy-only_parent :
      (e : Failure)
      (h : (to : FilePath) (w : World)
        → open_file (record { create = true; append = false }) to w ≡ (err e, w))
      (from to : FilePath) (w : World)
      → try_copy env from to false w
        ≡ (ok tt, only_parent (Methods.read_file env from w).0 to (Methods.read_file env from w).1)
  unfolding try_copy only_parent
  try_copy-only_parent e h from to w =
      go (Methods.read_file env from w).0 (Methods.read_file env from w).1
    where
      go :
          (r : Result Failure Bytes) (w' : World)
          → (elim r as (λ _. Exec World Failure (Unit {0})) [
            | err _ ↦ pure tt
            | ok bytes ↦ copy_to env to false bytes
          ])
              w'
            ≡ (ok tt, only_parent r to w')
      go (err x) w' = refl
      go (ok bytes) w' = copy_to-create_parent e h to bytes w'
