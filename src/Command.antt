-- ===== src/Command.antt =====
-- bench-harness/agent-interface/src/command.rs: running a command with a timeout, while both of its
-- outputs are read. A timeout of 2^31 milliseconds or more, on which the code panics, is left out.
pub mod Sides
use multi_fuzz_benchmarks.Prelude.{
  ℕ, zero, suc, ℤ, pos, negsuc, ◌-◌, Bool, true, false, Option, none, some, List, [], ◌∷◌, ◌++◌,
  ltb, if◌then◌else◌,
}
use multi_fuzz_benchmarks.Prelude.Outcome.{Result, ok, err}
use multi_fuzz_benchmarks.Prelude.Exec.{Exec, pure, ◌>>=◌, ◌>>◌}
use multi_fuzz_benchmarks.Rpc.{Bytes, ExitKind, success, exit, crash, hang, RunOutput}

pub data Pipe : Type 0 where
  out_pipe err_pipe : Pipe

-- What `read_to_end` finds on a pipe that does not block: the bytes up to the end, the bytes that are
-- there, or an error.
pub data Read (Error : Type 0) : Type 0 where
  eof would_block : Bytes → Read Error
  broken : Error → Read Error

-- What an iteration meets: the timeout, before the call of `poll` or in it; an interrupted or a
-- failed `poll`; or pipes that are ready, with what they have to read.
pub data Poll (Error : Type 0) : Type 0 where
  expired interrupted : Poll Error
  failed_poll : Error → Poll Error
  ready : Bool → Bool → Read Error → Read Error → Poll Error

-- The variables of the loop. `fds` has two entries, each a pipe and its `revents`.
pub record Reader : Type 0 where
  pub out : Bytes
  pub err_out : Bytes
  pub fd0 : Pipe
  pub fd1 : Pipe
  pub revents0 : Bool
  pub revents1 : Bool
  pub nfds : ℕ
  pub outfd : Option ℕ
  pub errfd : Option ℕ

abbrev pub new_reader : Reader
new_reader = record {
  out = [];
  err_out = [];
  fd0 = out_pipe;
  fd1 = err_pipe;
  revents0 = false;
  revents1 = false;
  nfds = 2;
  outfd = some 0;
  errfd = some 1;
}

abbrev pub is_ready : Bool → Bool → Pipe → Bool
is_ready out_ready err_ready out_pipe = out_ready
is_ready out_ready err_ready err_pipe = err_ready

-- `poll` writes the first `nfds` entries.
unfoldable pub poll : Bool → Bool → Reader → Reader
poll out_ready err_ready self = record self {
  revents0 = if ltb 0 self.nfds then is_ready out_ready err_ready self.fd0 else self.revents0;
  revents1 = if ltb 1 self.nfds then is_ready out_ready err_ready self.fd1 else self.revents1;
}

-- `fds[fd].revents != 0`.
unfoldable pub revents : Reader → ℕ → Bool
revents self zero = self.revents0
revents self (suc fd) = self.revents1

abbrev pub first_position : Option ℕ → Option ℕ
first_position none = none
first_position (some _) = some 0

-- `Ok((out, err, timeout))`, an error, or a loop that still runs.
pub data Outcome (Error : Type 0) : Type 0 where
  returned : Bytes → Bytes → Bool → Outcome Error
  failed : Error → Outcome Error
  running : Outcome Error

module _ {Error : Type 0} where
  unfoldable pub read_err : Read Error → Reader → Result Error Reader
  read_err (eof bytes) self =
      ok (record self { err_out = self.err_out ++ bytes; errfd = none; nfds = self.nfds - 1 })
  read_err (would_block bytes) self = ok (record self { err_out = self.err_out ++ bytes })
  read_err (broken e) self = err e

  unfoldable pub handle_err : Read Error → Reader → Result Error Reader
  unfolding revents read_err
  handle_err read self = elim self.errfd [
    | none ↦ ok self
    | some fd ↦ elim (revents self fd) [ true ↦ read_err read self | false ↦ ok self ]
  ]

  -- When the output ends, the errors move to the first position.
  unfoldable pub read_out : Read Error → Reader → Result Error Reader
  read_out (eof bytes) self = ok (record self {
    out = self.out ++ bytes;
    outfd = none;
    nfds = self.nfds - 1;
    fd0 = err_pipe;
    errfd = first_position self.errfd;
  })
  read_out (would_block bytes) self = ok (record self { out = self.out ++ bytes })
  read_out (broken e) self = err e

  unfoldable pub handle_out : Read Error → Reader → Result Error Reader
  unfolding revents read_out
  handle_out read self = elim self.outfd [
    | none ↦ ok self
    | some fd ↦ elim (revents self fd) [ true ↦ read_out read self | false ↦ ok self ]
  ]

  -- The part of an iteration behind a `poll` that found something.
  unfoldable pub read_ready : Bool → Bool → Read Error → Read Error → Reader → Result Error Reader
  unfolding poll handle_err handle_out
  read_ready out_ready err_ready out_read err_read self =
      elim (handle_err err_read (poll out_ready err_ready self)) [
        | ok read ↦ handle_out out_read read
        | err e ↦ err e
      ]

  -- `read2_or_timeout`, over what its iterations meet.
  unfoldable pub read2_or_timeout : List (Poll Error) → Reader → Outcome Error
  unfolding read_ready
  read2_or_timeout [] self = elim self.nfds [
    | zero ↦ returned self.out self.err_out false
    | suc n ↦ running
  ]
  read2_or_timeout (p ∷ polls) self = elim self.nfds [
    | zero ↦ returned self.out self.err_out false
    | suc n ↦ elim p [
      | expired ↦ returned self.out self.err_out true
      | interrupted ↦ read2_or_timeout polls self
      | failed_poll e ↦ failed e
      | ready out_ready err_ready out_read err_read ↦
          elim (read_ready out_ready err_ready out_read err_read self) [
            | ok next ↦ read2_or_timeout polls next
            | err e ↦ failed e
          ]
    ]
  ]

-- An exit status: its code, and `None` for a process that a signal has ended.
abbrev pub Status : Type 0
Status = Option ℤ

unfoldable pub exit_of : Option Status → ExitKind
exit_of none = hang
exit_of (some none) = crash
exit_of (some (some (pos zero))) = success
exit_of (some (some code)) = exit code

-- What `run_command` calls on a process; the errors of `kill` and `try_wait` are not looked at.
pub record Child (World Error : Type 0) : Type 0 where
  pub spawn : Exec World Error (Unit {0})
  pub read_outputs : Exec World Error (Bytes × Bytes × Bool)
  pub kill : World → World
  pub wait : Exec World Error Status
  pub try_wait : World → World

module _ {World Error : Type 0} (child : Child World Error) where
  -- A process that is over its time is killed and waited for.
  unfoldable pub collect_status : Bool → Exec World Error (Option Status)
  collect_status true = do λ w. (ok tt, child.kill w); child.wait; pure none
  collect_status false = do status ← child.wait; pure (some status)

  abbrev pub kill_again : Option Status → World → World
  kill_again none w = child.try_wait (child.kill w)
  kill_again (some status) w = w

  unfoldable pub run_command : Exec World Error RunOutput
  unfolding collect_status exit_of
  run_command = do
    child.spawn
    read ← child.read_outputs
    result ← collect_status read.2
    λ w. (
      ok (record { exit = exit_of result; stdout = read.0; stderr = read.1 }),
      kill_again result w,
    )
