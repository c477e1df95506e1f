-- ===== src/Agent.antt =====
-- bench-harness/agent/src/lib.rs and main.rs: the agent, which runs the commands of the harness in
-- the virtual machine and keeps the handles of the processes that it started.
pub mod Connection
pub mod Parts
pub mod Handles
pub mod Tracked
pub mod Answers
use multi_fuzz_benchmarks.Prelude.{
  ℕ, suc, ◌+◌, ◌-◌, min, ℤ, Bool, true, false, Option, none, some, List, [], ◌∷◌, ◌++◌, flatten,
  Text, codes, ◌==◌, nat_eq, length, take, drop,
}
use multi_fuzz_benchmarks.Prelude.Dict
use multi_fuzz_benchmarks.Prelude.Dict.{Dict}
use multi_fuzz_benchmarks.Prelude.Exec.{Exec, pure, raise, lift, attempt, with_context, ◌>>=◌, ◌>>◌}
use multi_fuzz_benchmarks.Prelude.Outcome.{Result, ok, err, ok_or}
use multi_fuzz_benchmarks.Rpc
use multi_fuzz_benchmarks.Rpc.{Bytes, FilePath, DirEntry, RunCommand, RunOutput, Request, Requests}
use multi_fuzz_benchmarks.Client.{IpcWrapper}
use multi_fuzz_benchmarks.Statsd.{StatsdData}
use multi_fuzz_benchmarks.Statsd

-- What the agent uses of the operating system. An error is its text.
pub record Host : Type 1 where
  pub World : Type 0
  pub Child : Type 0
  pub id : Child → ℕ
  pub spawn : RunCommand → Exec World Text Child
  pub run : RunCommand → Exec World Text RunOutput
  -- The exit code of a child, which a signal leaves out; `try_wait` is `none` while it runs.
  pub wait : Child → Exec World Text (Option ℤ)
  pub try_wait : Child → Exec World Text (Option (Option ℤ))
  pub kill : Child → World → World
  pub send_signal : ℕ → ℤ → Exec World Text (Unit {0})
  -- Opening a file, with what it holds.
  pub open_file : FilePath → Exec World Text Bytes
  pub metadata : FilePath → Exec World Text DirEntry
  pub read_dir_entries : FilePath → Exec World Text (List DirEntry)
  pub add_entropy : List ℕ → Exec World Text (Unit {0})
  pub reboot : Exec World Text (Unit {0})
  pub from_utf8 : Bytes → Option Text
  pub join : FilePath → FilePath → FilePath

-- The part of a file that a `ReadFile` asks for.
unfoldable pub read_part : ℕ → Option ℕ → Bytes → Bytes
read_part offset len content =
    let remaining_len = length content - offset in
    let len' : ℕ = elim len [ some n ↦ min n remaining_len | none ↦ remaining_len ] in
    take len' (drop offset content)

-- The JSON values that the agent answers with; `Response::Error` and `Response::Value` in a bulk.
mutual
  pub data Value : Type 0 where
    null : Value
    text : Text → Value
    number : ℕ → Value
    code : Option ℤ → Value
    boolean : Bool → Value
    bytes : Bytes → Value
    entry : DirEntry → Value
    entries : List DirEntry → Value
    output : RunOutput → Value
    bulk : Values → Value

  pub data Values : Type 0 where
    nil : Values
    cons_error : Text → Values → Values
    cons_value : Value → Values → Values

pub data Exit : Type 0 where
  restart_agent shutdown : Exit

pub record AgentState (Child : Type 0) : Type 0 where
  pub exit : Option Exit
  pub workdir : Option FilePath
  pub stats : StatsdData
  pub subprocesses : Dict ℕ Child

-- `map_response`, in the list of a bulk.
abbrev respond : Result Text Value → Values → Values
respond (ok v) vs = Values.cons_value v vs
respond (err e) vs = Values.cons_error e vs

module _ (host : Host) where
  open host use {World, Child}

  abbrev pub State : Type 0
  State = AgentState Child × World

  -- A call of the system, which leaves the agent's own state alone.
  abbrev pub on_host : {A : Type 0} → Exec World Text A → Exec State Text A
  on_host m (self, w) = let (r, w') = m w in (r, (self, w'))

  abbrev pub update : (AgentState Child → AgentState Child) → Exec State Text (Unit {0})
  update f (self, w) = (ok tt, (f self, w))

  abbrev pub this : Exec State Text (AgentState Child)
  this (self, w) = (ok self, (self, w))

  -- A relative path is taken from the working directory.
  unfoldable pub resolve : Option FilePath → FilePath → FilePath
  resolve (some workdir) path = host.join workdir path
  resolve none path = path

  -- `if subprocess.current_dir.is_none()`.
  unfoldable pub in_workdir : Option FilePath → RunCommand → RunCommand
  in_workdir workdir subprocess = elim subprocess.current_dir [
    | none ↦ record subprocess { current_dir = workdir }
    | some _ ↦ subprocess
  ]

  unfoldable pub get_stats : Exec State Text Value
  get_stats = do
    self ← this
    let (slices, stats) = Statsd.drain_all self.stats
    update (λ self. record self { stats = stats })
    stats ← lift (ok_or (host.from_utf8 (flatten slices)) (codes "invalid utf-8"))
    pure (text stats)

  unfoldable pub spawn_process : RunCommand → Exec State Text Value
  unfolding in_workdir
  spawn_process subprocess = do
    self ← this
    child ← on_host (host.spawn (in_workdir self.workdir subprocess))
    update
        (λ self. record self { subprocesses = Dict.insert (host.id child) child self.subprocesses })
    pure (number (host.id child))

  unfoldable pub forget : ℕ → AgentState Child → AgentState Child
  forget pid self = record self { subprocesses = Dict.remove pid self.subprocesses }

  -- The `match` of `WaitPid` on the handle.
  unfoldable pub wait_process : ℕ → Option Child → Exec State Text Value
  unfolding forget
  wait_process pid none = pure null
  wait_process pid (some p) = do exit ← on_host (host.wait p); update (forget pid); pure (code exit)

  unfoldable pub wait_pid : ℕ → Exec State Text Value
  unfolding wait_process
  wait_pid pid = do self ← this; wait_process pid (Dict.lookup pid self.subprocesses)

  -- The `match` of `GetStatus` on the handle.
  abbrev pub status_of : Option Child → Value
  status_of (some c) = number (host.id c)
  status_of none = null

  unfoldable pub get_status : ℕ → Exec State Text Value
  get_status pid = do self ← this; pure (status_of (Dict.lookup pid self.subprocesses))

  -- `kill_subprocess` on unix: the handle is dropped after the process has ended.
  unfoldable pub kill_handle : ℕ → ℤ → Option Child → Exec State Text Bool
  unfolding forget
  kill_handle key signal none = pure false
  kill_handle key signal (some process) = do
    on_host (host.send_signal (host.id process) signal)
    exit ← on_host (host.wait process)
    update (forget key)
    pure true

  unfoldable pub kill_subprocess : ℕ → ℤ → Exec State Text Bool
  unfolding kill_handle
  kill_subprocess key signal = do
    self ← this
    kill_handle key signal (Dict.lookup key self.subprocesses)

  unfoldable mutual
    pub handle_request : Request → Exec State Text Value
    handle_request Request.reboot = do
      update (λ self. record self { exit = some shutdown })
      pure null
    handle_request Request.restart_agent = do
      update (λ self. record self { exit = some restart_agent })
      pure null
    handle_request Request.get_stats = get_stats
    handle_request (Request.run_process subprocess) = do
      self ← this
      result ← on_host (host.run (in_workdir self.workdir subprocess))
      pure (output result)
    handle_request (Request.spawn_process subprocess) = spawn_process subprocess
    handle_request (Request.wait_pid pid) = wait_pid pid
    handle_request (Request.get_status pid) = get_status pid
    handle_request (Request.kill_process pid signal) = do
      result ← kill_subprocess pid signal
      pure (boolean result)
    handle_request (Request.read_file path offset len) = do
      self ← this
      content ← on_host (host.open_file (resolve self.workdir path))
      pure (bytes (read_part offset len content))
    handle_request (Request.stat_file path) = do
      self ← this
      metadata ← on_host (host.metadata (resolve self.workdir path))
      pure (entry metadata)
    handle_request (Request.read_dir path) = do
      self ← this
      let path' = resolve self.workdir path
      listing ←
          with_context (λ _. codes "failed to read " ++ path')
            (on_host (host.read_dir_entries path'))
      pure (entries listing)
    handle_request (Request.add_entropy data') = do on_host (host.add_entropy data'); pure null
    handle_request (Request.bulk requests) = do out ← handle_all requests; pure (bulk out)

    -- The requests of a bulk one after the other; an error is an answer like others.
    pub handle_all : Requests → Exec State Text Values
    handle_all Requests.nil = pure nil
    handle_all (Requests.cons request requests) = do
      first ← attempt (handle_request request)
      rest ← handle_all requests
      pure (respond first rest)
