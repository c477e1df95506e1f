-- ===== src/Methods.antt =====
-- bench-harness/agent-interface/src/client.rs: the methods that the trait `Agent` provides over
-- `send_request`.
use multi_fuzz_benchmarks.Prelude.{ℕ, ℤ, Option, none, some, List, [], ◌++◌, Text, codes}
use multi_fuzz_benchmarks.Prelude.Exec.{Exec, pure, raise, with_context, ◌>>=◌, ◌>>◌}
use multi_fuzz_benchmarks.Rpc.{
  Bytes, FilePath, Duration, from_secs, DirEntry, RunCommand, RunOutput, Request, Response, error,
  value,
}
use multi_fuzz_benchmarks.Env.{Env, Failure, cause, within}

module _ (env : Env) where
  open env use {
    World, Json, send_request, to_text, to_pid, to_bytes, to_entry, to_entries, to_output, as_i64,
  }

  -- `Response::Value(v) => Ok(v)`, `Response::Error { error } => bail!`.
  abbrev pub of_response : Response Json → Exec World Failure Json
  of_response (value v) = pure v
  of_response (error e) = raise (cause e)

  -- `serde_json::from_value(value).context(what)`.
  abbrev pub decode : {A : Type 0} → Option A → Text → Exec World Failure A
  decode (some a) what = pure a
  decode none what = raise (within what (cause []))

  unfoldable pub send_with_timeout : Request → Option Duration → Exec World Failure Json
  send_with_timeout request read_timeout = do
    response ← send_request request read_timeout
    of_response response

  unfoldable pub send : Request → Exec World Failure Json
  unfolding send_with_timeout
  send request = send_with_timeout request (some (from_secs 10))

  unfoldable pub get_stats : Exec World Failure Text
  unfolding send
  get_stats = do
    v ← with_context (within (codes "error getting stats")) (send Request.get_stats)
    decode (to_text v) (codes "invalid stats response")

  unfoldable pub spawn_task : RunCommand → Exec World Failure ℕ
  unfolding send
  spawn_task task = do
    v ← with_context (within (codes "error spawning process")) (send (Request.spawn_process task))
    decode (to_pid v) (codes "failed to read pid, invalid response from agent")

  unfoldable pub run_task : RunCommand → Exec World Failure RunOutput
  unfolding send_with_timeout
  run_task task = do
    v ←
        with_context (within (codes "error running process"))
          (send_with_timeout (Request.run_process task) task.timeout)
    decode (to_output v) (codes "failed process output, invalid response from agent")

  unfoldable pub wait_pid : ℕ → Exec World Failure (Option ℤ)
  unfolding send_with_timeout
  wait_pid pid = do
    v ←
        with_context (within (codes "error waiting for process exit"))
          (send_with_timeout (Request.wait_pid pid) none)
    pure (as_i64 v)

  unfoldable pub get_status : ℕ → Exec World Failure (Option ℤ)
  unfolding send
  get_status pid = do
    v ←
        with_context (within (codes "error checking process status"))
          (send (Request.get_status pid))
    pure (as_i64 v)

  unfoldable pub read_file : FilePath → Exec World Failure Bytes
  unfolding send
  read_file path = do
    v ←
        with_context (within (codes "error reading file: " ++ path))
          (send (Request.read_file path 0 none))
    decode (to_bytes v) (codes "failed to read file, invalid response from agent")

  unfoldable pub stat : FilePath → Exec World Failure DirEntry
  unfolding send
  stat path = do
    v ←
        with_context (within (codes "error reading file metadata: " ++ path))
          (send (Request.stat_file path))
    decode (to_entry v) (codes "failed to read file metadata, invalid response from agent")

  unfoldable pub read_dir : FilePath → Exec World Failure (List DirEntry)
  unfolding send
  read_dir path = do
    v ←
        with_context (within (codes "error reading directory: " ++ path))
          (send (Request.read_dir path))
    decode (to_entries v) (codes "failed to read directory, invalid response from agent")

  unfoldable pub kill_process : ℕ → ℤ → Exec World Failure (Unit {0})
  unfolding send
  kill_process pid signal = do
    with_context (within (codes "error sending SIGNAL to process"))
        (send (Request.kill_process pid signal))
    pure tt

  unfoldable pub shutdown_vm : Exec World Failure (Unit {0})
  unfolding send
  shutdown_vm = do
    with_context (within (codes "error shutting down vm")) (send Request.reboot)
    pure tt

  unfoldable pub exit : Exec World Failure (Unit {0})
  unfolding send
  exit = do
    with_context (within (codes "error restarting agent")) (send Request.restart_agent)
    pure tt
