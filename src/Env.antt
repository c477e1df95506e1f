-- ===== src/Env.antt =====
-- What the harness's tasks run on and the repository does not implement: the connection to an
-- agent, JSON, the file system and the processes of the host, timers and cancellation.
use multi_fuzz_benchmarks.Prelude.{ℕ, ℤ, Bool, Option, List, Text}
use multi_fuzz_benchmarks.Prelude.Exec.{Exec}
use multi_fuzz_benchmarks.Prelude.Outcome.{Result}
use multi_fuzz_benchmarks.Prelude.Tree.{Tree}
use multi_fuzz_benchmarks.Rpc.{
  Bytes, FilePath, Duration, DirEntry, RunCommand, RunOutput, Request, Response,
}

-- `anyhow::Error`: a cause, and the contexts around it. `unfinished` is no error of the program:
-- it says that a loop was still running when the rounds given to it were over.
pub data Failure : Type 0 where
  cause : Text → Failure
  within : Text → Failure → Failure
  unfinished : Failure

-- What `select!` of `MonitorPidTask` finds.
pub data Event : Type 0 where
  deadline cancelled tick : Event

-- How a file is opened: the calls made on `OpenOptions`.
pub record OpenOptions : Type 0 where
  pub create : Bool
  pub append : Bool

pub record Env : Type 1 where
  pub World : Type 0
  pub Json : Type 0
  -- `f64`, as far as the harness uses it.
  pub F64 : Type 0
  pub from_secs_f64 : F64 → Duration
  -- `Agent::send_request`.
  pub send_request : Request → Option Duration → Exec World Failure (Response Json)
  -- `serde_json::from_value` at the types that are asked for, and `Value::as_i64`.
  pub to_text : Json → Option Text
  pub to_pid : Json → Option ℕ
  pub to_bytes : Json → Option Bytes
  pub to_entry : Json → Option DirEntry
  pub to_entries : Json → Option (List DirEntry)
  pub to_output : Json → Option RunOutput
  pub as_i64 : Json → Option ℤ
  -- `shlex::split`.
  pub shlex : Text → Option (List Text)
  -- Paths of the platform: `Path::join`, `strip_prefix`, `file_name` as a text.
  pub join : FilePath → FilePath → FilePath
  pub strip_prefix : FilePath → FilePath → Option FilePath
  pub file_name : FilePath → Option Text
  -- `char::is_numeric`.
  pub is_numeric : ℕ → Bool
  -- The CSV writer: the rows, each a list of fields, go to the end of the open file.
  pub csv_write : FilePath → List (List Text) → Exec World Failure (Unit {0})
  -- The rows of a CSV file at the type of AFL's plot data, as the fields of a row.
  pub plot_rows : Bytes → List (Result Failure (List Text))
  -- `serde_json` on a map of values and on a value.
  pub parse_json_map : Bytes → Option (Tree Text Json)
  pub parse_json : Bytes → Option Json
  pub print_json_map : Tree Text Json → Bytes
  -- The directory archive of `CopyDir`: open it, add to it, finish it.
  pub archive_create : FilePath → Exec World Failure (Unit {0})
  pub archive_dir : FilePath → Exec World Failure (Unit {0})
  pub archive_file : FilePath → Bytes → Exec World Failure (Unit {0})
  pub archive_finish : Exec World Failure (Unit {0})
  -- The global stop flag, which a signal handler sets.
  pub should_stop : World → Bool × World
  -- Sleep for a time; whether the wait was cancelled.
  pub sleep : Duration → World → Bool × World
  -- Wait for the deadline of a timer started with the first duration, or one tick.
  pub select : Duration → Duration → World → Event × World
  -- The host's file system. `write` is `std::fs::write`; `open` gives the file's length.
  pub exists : FilePath → World → Bool × World
  -- `std::fs::read`; `none` is a file that is not found.
  pub read : FilePath → Exec World Failure (Option Bytes)
  pub write : FilePath → Bytes → Exec World Failure (Unit {0})
  pub create_parent : FilePath → World → World
  pub create_dir_all : FilePath → Exec World Failure (Unit {0})
  pub open_file : OpenOptions → FilePath → Exec World Failure ℕ
  pub write_all : FilePath → Bytes → Exec World Failure (Unit {0})
  -- Run a command on the host to its end; whether it was successful.
  pub run_host : RunCommand → Exec World Failure Bool
