-- ===== src/Tasks/Files.antt =====
-- tasks.rs: results that are written to files of the host. The lock on the host's files is left
-- out: it only keeps two tasks from doing this at once.
use multi_fuzz_benchmarks.Prelude.{
  Bool, true, none, some, List, [], ◌∷◌, ◌++◌, if◌then◌else◌, Text, codes, ◌==◌, nat_eq,
}
use multi_fuzz_benchmarks.Prelude.Exec.{Exec, pure, lift, attempt, with_context, ◌>>=◌, ◌>>◌}
use multi_fuzz_benchmarks.Prelude.Outcome.{ok, err, ok_or}
use multi_fuzz_benchmarks.Prelude.Tree
use multi_fuzz_benchmarks.Prelude.Tree.{Tree, text_ord}
use multi_fuzz_benchmarks.Rpc.{Bytes, FilePath}
use multi_fuzz_benchmarks.Env.{Env, Failure, cause, within}
use multi_fuzz_benchmarks.Methods

module _ (env : Env) where
  open env use {
    World, Json, create_parent, open_file, write_all, write, read, parse_json, parse_json_map,
    print_json_map, csv_write,
  }

  -- An effect whose result is ignored.
  abbrev pub quietly : (World → World) → Exec World Failure (Unit {0})
  quietly f w = (ok tt, f w)

  unfoldable pub copy_to : FilePath → Bool → Bytes → Exec World Failure (Unit {0})
  copy_to to append bytes = do
    quietly (create_parent to)
    file ← attempt (open_file (record { create = true; append = append }) to)
    let fill = write_all to bytes
    elim file [ err _ ↦ pure tt | ok _ ↦ do attempt fill; pure tt ]

  -- Errors are logged and end the copy without failing the task.
  unfoldable pub try_copy : FilePath → FilePath → Bool → Exec World Failure (Unit {0})
  unfolding copy_to
  try_copy from to append = do
    found ← attempt (Methods.read_file env from)
    elim found [ err _ ↦ pure tt | ok bytes ↦ copy_to to append bytes ]

  -- The file opened for appending, with the header in front if it is empty.
  unfoldable pub open_with_header : FilePath → Text → Exec World Failure (Unit {0})
  open_with_header dst header = do
    quietly (create_parent dst)
    len ←
        with_context (within (codes "failed to open: " ++ dst))
          (open_file (record { create = true; append = true }) dst)
    if len == 0 then (do write_all dst header; write_all dst (b'\n' ∷ [])) else pure tt

  unfoldable pub merge_with_prefix : FilePath → Text → Text → Bytes → Exec World Failure (Unit {0})
  unfolding open_with_header
  merge_with_prefix dst header prefix data' = do
    open_with_header dst header
    write_all dst prefix
    write_all dst (b'\n' ∷ [])
    write_all dst data'

  unfoldable pub append_csv : FilePath → Text → List (List Text) → Exec World Failure (Unit {0})
  unfolding open_with_header
  append_csv dst header rows = do open_with_header dst header; csv_write dst rows

  unfoldable pub load_map : FilePath → Exec World Failure (Tree Text Json)
  load_map dst = do
    found ← with_context (within (codes "error reading " ++ dst)) (read dst)
    elim found [
      | none ↦ pure []
      | some bytes ↦ lift (ok_or (parse_json_map bytes) (cause (codes "failed to parse: " ++ dst)))
    ]

  unfoldable pub merge_json : Text → FilePath → FilePath → Exec World Failure (Unit {0})
  unfolding load_map
  merge_json tag src dst = do
    quietly (create_parent dst)
    map' ← load_map dst
    found ← with_context (within (codes "failed to read " ++ src)) (read src)
    bytes ← lift (ok_or found (cause (codes "failed to read " ++ src)))
    v ← lift (ok_or (parse_json bytes) (cause (codes "failed to parse as json " ++ src)))
    with_context (within (codes "failed to write updated json to " ++ dst))
        (write dst (print_json_map (Tree.insert tag v map')))
