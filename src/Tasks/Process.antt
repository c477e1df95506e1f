-- ===== src/Tasks/Process.antt =====
-- tasks.rs: commands run by the agent, with a limit on their time.
use multi_fuzz_benchmarks.Prelude.{
  ℕ, zero, suc, ℤ, pos, Bool, true, false, Option, none, some, List, [], ◌∷◌, ◌++◌, Text, codes,
}
use multi_fuzz_benchmarks.Prelude.Exec.{Exec, pure, lift, attempt, ◌>>=◌, ◌>>◌}
use multi_fuzz_benchmarks.Prelude.Outcome.{Result, ok, err}
use multi_fuzz_benchmarks.Rpc
use multi_fuzz_benchmarks.Rpc.{FilePath, Duration, from_secs, RunCommand, Stdio}
use multi_fuzz_benchmarks.Vars.{Variables, expand_vars}
use multi_fuzz_benchmarks.Env.{Env, Failure, cause, unfinished, deadline, cancelled, tick}
use multi_fuzz_benchmarks.Methods

abbrev pub sigint : ℤ
sigint = pos 2

abbrev pub sigkill : ℤ
sigkill = pos 9

unfoldable pub get_stdio : Option Text → Variables → Stdio
get_stdio none vars = Stdio.inherit
get_stdio (some x) vars = Stdio.file (expand_vars vars x)

module _ (env : Env) where
  open env use {World, shlex, select}

  -- `cmd.vars.extend(..)`: the variables of the task go behind those of the command line.
  unfoldable pub command_with_vars : Text → Variables → Result Failure RunCommand
  command_with_vars command vars =
      let cmd_string = expand_vars vars command in
      elim (Rpc.from_cmd_string shlex cmd_string) [
        | none ↦ err (cause (codes "failed to parse command: " ++ cmd_string))
        | some cmd ↦ ok (record cmd { vars = cmd.vars ++ vars.vars })
      ]

  abbrev pub with_stdio : RunCommand → Option Text → Option Text → Variables → RunCommand
  with_stdio cmd stdout stderr vars = record cmd {
    stdin = Stdio.null;
    stdout = get_stdio stdout vars;
    stderr = get_stdio stderr vars;
  }

  unfoldable pub start : Text → Variables → Option Text → Option Text → Exec World Failure ℕ
  unfolding command_with_vars get_stdio
  start command vars stdout stderr = do
    cmd ← lift (command_with_vars command vars)
    Methods.spawn_task env (with_stdio cmd stdout stderr vars)

  unfoldable pub run_task :
      Text → Variables → Option Text → Option Text → Exec World Failure (Unit {0})
  unfolding start
  run_task command vars stdout stderr = do
    pid ← start command vars stdout stderr
    Methods.wait_pid env pid
    pure tt

  -- The `for` loop over the pids: whether one of them has stopped.
  unfoldable pub any_stopped : List ℕ → Exec World Failure Bool
  any_stopped [] = pure false
  any_stopped (pid ∷ pids) = do
    status ← Methods.get_status env pid
    let rest = any_stopped pids
    elim status [ none ↦ pure true | some _ ↦ rest ]

  -- `MonitorPidTask::run`, over a number of rounds of its `loop`.
  unfoldable pub monitor : ℕ → List ℕ → Duration → Exec World Failure (Unit {0})
  unfolding any_stopped
  monitor zero pids duration w = (err unfinished, w)
  monitor (suc rounds) pids duration w =
      let (event, w') = select duration (from_secs 5) w in
      let again = monitor rounds pids duration in
      elim event [
        | deadline ↦ (ok tt, w')
        | cancelled ↦ (err (cause (codes "early exit (task canceled)")), w')
        | tick ↦ (do stopped ← any_stopped pids; elim stopped [ true ↦ pure tt | false ↦ again ]) w'
      ]

  -- `if let Err(e) = kill(SIGINT) { kill(SIGKILL)? }`.
  unfoldable pub stop : ℕ → Exec World Failure (Unit {0})
  stop pid = do
    interrupted ← attempt (Methods.kill_process env pid sigint)
    elim interrupted [ ok _ ↦ pure tt | err _ ↦ Methods.kill_process env pid sigkill ]

  unfoldable pub run_timed_task :
      ℕ → Text → Variables → Option Text → Option Text → Duration → Exec World Failure (Unit {0})
  unfolding start monitor stop
  run_timed_task rounds command vars stdout stderr duration = do
    pid ← start command vars stdout stderr
    monitor rounds (pid ∷ []) duration
    stop pid
