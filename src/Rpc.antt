-- ===== src/Rpc.antt =====
-- bench-harness/agent-interface/src/lib.rs and utils.rs: what the harness asks of an agent. Paths
-- and `OsString`s are texts; a duration is a number of nanoseconds.
pub mod Split
use multi_fuzz_benchmarks.Prelude.{
  ℕ, zero, suc, ℤ, ◌+◌, ◌*◌, Bool, true, false, Option, none, some, List, [], ◌∷◌, ◌++◌, map,
  if◌then◌else◌, Text, String, codes, find, take, drop, trim_end,
}
use multi_fuzz_benchmarks.Prelude.Maybe.{◌>>=◌}
use mathlib.Core.Option

abbrev pub Bytes : Type 0
Bytes = List ℕ

abbrev pub FilePath : Type 0
FilePath = Text

abbrev pub Duration : Type 0
Duration = ℕ

-- `Duration::from_secs`.
abbrev pub from_secs : ℕ → Duration
from_secs n = n * 1000000000

pub record DirEntry : Type 0 where
  pub path : FilePath
  pub is_file : Bool
  pub len : ℕ
  pub modified : ℕ

pub data Stdio : Type 0 where
  null : Stdio
  file : FilePath → Stdio
  inherit : Stdio

pub record RunCommand : Type 0 where
  pub vars : List (Text × Text)
  pub program : FilePath
  pub args : List Text
  pub stdin : Stdio
  pub stdout : Stdio
  pub stderr : Stdio
  pub timeout : Option Duration
  pub current_dir : Option FilePath

-- `RunCommand::new`.
abbrev pub new : FilePath → RunCommand
new program = record {
  vars = [];
  program = program;
  args = [];
  stdin = null;
  stdout = null;
  stderr = null;
  timeout = none;
  current_dir = none;
}

pub data ExitKind : Type 0 where
  success : ExitKind
  exit : ℤ → ExitKind
  crash : ExitKind
  hang : ExitKind

pub record RunOutput : Type 0 where
  pub exit : ExitKind
  pub stdout : Bytes
  pub stderr : Bytes

mutual
  pub data Request : Type 0 where
    reboot restart_agent get_stats : Request
    spawn_process run_process : RunCommand → Request
    wait_pid get_status : ℕ → Request
    kill_process : ℕ → ℤ → Request
    read_file : FilePath → ℕ → Option ℕ → Request
    stat_file read_dir : FilePath → Request
    add_entropy : List ℕ → Request
    bulk : Requests → Request

  pub data Requests : Type 0 where
    nil : Requests
    cons : Request → Requests → Requests

-- `Response`, over the type of JSON values.
pub data Response {ℓ} (Json : Type ℓ) : Type ℓ where
  error : Text → Response Json
  value : Json → Response Json

-- The `while` loop of `split_command`: words with a `=` in front are variables.
unfoldable pub split_vars : List Text → List (Text × Text) × List Text
split_vars [] = ([], [])
split_vars (word ∷ words) =
    let (vars, rest) = split_vars words in
    elim (find b'=' word) [
      | some pos ↦ ((take pos word, drop 1 (drop pos word)) ∷ vars, rest)
      | none ↦ ([], word ∷ words)
    ]

-- `split_command`, over `shlex::split`.
unfoldable pub split_command :
    (Text → Option (List Text)) → Text → Option (List (Text × Text) × Text × List Text)
unfolding split_vars
split_command shlex input = do
  words ← shlex input
  let (vars, rest) = split_vars words
  elim rest [ [] ↦ none | bin ∷ args ↦ some (vars, bin, args) ]

unfoldable pub from_cmd_string : (Text → Option (List Text)) → Text → Option RunCommand
unfolding split_command
from_cmd_string shlex cmd = do
  parts ← split_command shlex cmd
  some (record (new parts.1) { args = parts.2; vars = parts.0 })

-- `'`, the text and `'`.
abbrev pub quoted : Text → Text
quoted t = b'\'' ∷ (t ++ b'\'' ∷ [])

unfoldable pub quote_vars : List (Text × Text) → Text
quote_vars [] = []
quote_vars ((key, v) ∷ vars) = (key ++ (b'=' ∷ (quoted v ++ b' ' ∷ []))) ++ quote_vars vars

unfoldable pub quote_args : List Text → Text
quote_args [] = []
quote_args (arg ∷ args) = (quoted arg ++ b' ' ∷ []) ++ quote_args args

unfoldable pub bash_string : RunCommand → Text
unfolding quote_vars quote_args
bash_string self =
    trim_end (quote_vars self.vars ++ ((quoted self.program ++ b' ' ∷ []) ++ quote_args self.args))
