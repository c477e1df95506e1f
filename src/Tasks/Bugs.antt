-- ===== src/Tasks/Bugs.antt =====
-- tasks.rs: which bugs the crashing inputs show, and when each was found first.
use multi_fuzz_benchmarks.Prelude.{
  ℕ, min, Bool, false, not, ◌||◌, Option, none, some, List, [], ◌∷◌, ◌++◌, if◌then◌else◌, Text,
  codes, drop, starts_with, text_eq, ◌==◌,
}
use multi_fuzz_benchmarks.Prelude.Exec.{Exec, pure, raise, with_context, ◌>>=◌}
use multi_fuzz_benchmarks.Prelude.Outcome.{ok}
use multi_fuzz_benchmarks.Prelude.Tree
use multi_fuzz_benchmarks.Prelude.Tree.{Tree, text_ord}
use multi_fuzz_benchmarks.Rpc.{Bytes, FilePath, DirEntry}
use multi_fuzz_benchmarks.Afl.{get_relative_time}
use multi_fuzz_benchmarks.Env.{Env, Failure, cause, within}
use multi_fuzz_benchmarks.Methods
use multi_fuzz_benchmarks.Tasks.{Pattern}

-- An entry of the map gets the time if it is new, or the earlier of its time and this one.
unfoldable pub note_bug : Text → ℕ → Tree Text ℕ → Tree Text ℕ
note_bug bug_id time bugs = elim (Tree.get bug_id bugs) [
  | none ↦ Tree.insert bug_id time bugs
  | some t ↦ Tree.insert bug_id (min t time) bugs
]

unfoldable pub note_bugs : List Text → ℕ → Tree Text ℕ → Tree Text ℕ
unfolding note_bug
note_bugs [] time bugs = bugs
note_bugs (bug_id ∷ ids) time bugs = note_bugs ids time (note_bug bug_id time bugs)

-- The key of the first pattern whose bytes stand in the data at its offset; an offset past the end
-- reads as no bytes.
unfoldable pub match_patterns : List Pattern → Bytes → List Text
match_patterns [] data' = []
match_patterns (pattern' ∷ patterns) data' =
    if starts_with pattern'.bytes (drop pattern'.offset data')
    then pattern'.key ∷ []
    else match_patterns patterns data'

module _ (env : Env) where
  open env use {World, file_name, is_numeric, should_stop}

  -- `input_entries` of afl.rs.
  unfoldable pub keep_inputs : List DirEntry → List DirEntry
  keep_inputs [] = []
  keep_inputs (entry ∷ entries) =
      let rest = keep_inputs entries in
      if not entry.is_file || is_readme (file_name entry.path) then rest else entry ∷ rest
    where
      is_readme : Option Text → Bool
      is_readme none = false
      is_readme (some name) = name == codes "README.txt"

  unfoldable pub input_entries : FilePath → Exec World Failure (List DirEntry)
  unfolding keep_inputs
  input_entries path = do
    entries ← with_context (within (codes "failed to read dir")) (Methods.read_dir env path)
    pure (keep_inputs entries)

  module _ (resolve_input : DirEntry → Exec World Failure (List Text)) where
    unfoldable pub resolve_entries :
        ℕ → List DirEntry → Tree Text ℕ → Exec World Failure (Tree Text ℕ)
    resolve_entries start_time [] bugs = pure bugs
    resolve_entries start_time (entry ∷ entries) bugs = do
      stop ← λ w. let (s, w') = should_stop w in (ok s, w')
      if stop then raise (cause (codes "stop requested")) else (do
        ids ← resolve_input entry
        resolve_entries start_time entries (
            note_bugs ids (get_relative_time is_numeric (file_name entry.path) entry start_time)
              bugs))

    unfoldable pub resolve_bug_ids : FilePath → Exec World Failure (List (Text × ℕ))
    unfolding input_entries resolve_entries
    resolve_bug_ids crash_dir = do
      dir ←
          with_context (within (codes "Failed to stat: " ++ crash_dir)) (Methods.stat env crash_dir)
      crashes ← input_entries crash_dir
      resolve_entries dir.modified crashes []
