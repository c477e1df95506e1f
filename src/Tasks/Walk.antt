-- ===== src/Tasks/Walk.antt =====
-- tasks.rs: copying a directory of the agent. The stack of entries is a list with its top first.
use multi_fuzz_benchmarks.Prelude.{
  ℕ, zero, suc, Bool, true, false, none, some, List, [], ◌∷◌, ◌++◌, if◌then◌else◌, codes,
}
use mathlib.Core.List.{reverse}
use multi_fuzz_benchmarks.Prelude.Exec.{Exec, pure, raise, attempt, with_context, ◌>>=◌, ◌>>◌}
use multi_fuzz_benchmarks.Prelude.Outcome.{Result, ok, err}
use multi_fuzz_benchmarks.Rpc.{Bytes, FilePath, DirEntry}
use multi_fuzz_benchmarks.Env.{Env, Failure, within, unfinished}
use multi_fuzz_benchmarks.Methods

-- `CopySink`: the two sinks of the program.
pub data Sink : Type 0 where
  host_folder : FilePath → Sink
  archive : Sink

module _ (env : Env) where
  open env use {World, join, strip_prefix, write, create_dir_all, archive_dir, archive_file}

  -- A host folder logs its errors and goes on; an archive passes them on.
  unfoldable pub add_dir : Sink → FilePath → Exec World Failure (Unit {0})
  add_dir (host_folder root) path = do attempt (create_dir_all (join root path)); pure tt
  add_dir archive path = archive_dir path

  unfoldable pub add_file : Sink → FilePath → Bytes → Exec World Failure (Unit {0})
  add_file (host_folder root) path content = do attempt (write (join root path) content); pure tt
  add_file archive path content = archive_file path content

  -- `AgentDirIterator::next`: an item, or the error of reading a directory, and the stack left.
  unfoldable pub next_entry :
      Bool → DirEntry → List DirEntry → Exec World Failure (Result Failure DirEntry × List DirEntry)
  next_entry recursive top stack =
      if recursive
      then elim top.is_file [
        | true ↦ pure (ok top, stack)
        | false ↦ do
          dir ← attempt (Methods.read_dir env top.path)
          elim dir [
            | ok entries ↦ pure (ok top, reverse entries ++ stack)
            | err e ↦ pure (err e, stack)
          ]
      ]
      else pure (ok top, stack)

  -- One round of the `while let` loop of `try_copy_dir`.
  unfoldable pub copy_entry :
      FilePath → Sink → Result Failure DirEntry → Exec World Failure (Unit {0})
  unfolding add_dir add_file
  copy_entry from sink (err e) = pure tt
  copy_entry from sink (ok entry) = elim (strip_prefix entry.path from) [
    | none ↦ pure tt
    | some relative_path ↦ elim entry.is_file [
      | true ↦ do
        data' ← attempt (Methods.read_file env entry.path)
        elim data' [ ok content ↦ add_file sink relative_path content | err e ↦ pure tt ]
      | false ↦ add_dir sink relative_path
    ]
  ]

  unfoldable pub copy_loop : ℕ → FilePath → Sink → List DirEntry → Exec World Failure (Unit {0})
  unfolding next_entry copy_entry
  copy_loop zero from sink stack = raise unfinished
  copy_loop (suc rounds) from sink [] = pure tt
  copy_loop (suc rounds) from sink (top ∷ stack) = do
    item ← next_entry true top stack
    copy_entry from sink item.0
    copy_loop rounds from sink item.1

  -- `try_copy_dir`, over a number of rounds of its loop.
  unfoldable pub try_copy_dir : ℕ → FilePath → Sink → Exec World Failure (Unit {0})
  unfolding copy_loop
  try_copy_dir rounds from sink = do
    dir ←
        with_context (within (codes "error reading " ++ (from ++ codes " from agent")))
          (Methods.read_dir env from)
    copy_loop rounds from sink (reverse dir)
