-- ===== src/Agent/Connection.antt =====
-- agent/src/lib.rs and main.rs: the processes that end, and the loop of a connection.
use multi_fuzz_benchmarks.Prelude.{ℕ, ◌+◌, Bool, true, false, none, some, List, [], ◌∷◌, Text}
use multi_fuzz_benchmarks.Prelude.Dict.{Dict}
use multi_fuzz_benchmarks.Prelude.Exec.{Exec, pure, ◌>>=◌, ◌>>◌}
use multi_fuzz_benchmarks.Prelude.Outcome.{Result, ok, err}
use multi_fuzz_benchmarks.Rpc.{Request}
use multi_fuzz_benchmarks.Client.{IpcWrapper}
use multi_fuzz_benchmarks.Agent.{
  Host, Value, restart_agent, shutdown, AgentState, State, on_host, this, forget, handle_request,
}

module _ (host : Host) where
  open host use {World, Child}

  -- One round of `reap_dead`: the processes that have ended, in the order of the map.
  unfoldable pub find_dead : Dict ℕ Child → World → List ℕ × World
  find_dead [] w = ([], w)
  find_dead ((name, process) ∷ rest) w =
      let (status, w') = host.try_wait process w in
      let (dead, w'') = find_dead rest w' in
      elim status [
        | ok (some exit) ↦ (name ∷ dead, w'')
        | ok none ↦ (dead, w'')
        | err e ↦ (dead, w'')
      ]

  unfoldable pub forget_all : List ℕ → AgentState Child → AgentState Child
  unfolding forget
  forget_all [] self = self
  forget_all (pid ∷ pids) self = forget_all pids (forget host pid self)

  unfoldable pub reap_dead : State host → State host
  unfolding find_dead forget_all
  reap_dead (self, w) = let (dead, w') = find_dead self.subprocesses w in (forget_all dead self, w')

  -- `kill_all`: every process is killed, then waited for until a wait fails. The map is drained.
  unfoldable pub kill_each : Dict ℕ Child → World → World
  kill_each [] w = w
  kill_each ((pid, process) ∷ rest) w = kill_each rest (host.kill process w)

  unfoldable pub wait_each : Dict ℕ Child → Exec World Text (Unit {0})
  wait_each [] = pure tt
  wait_each ((pid, process) ∷ rest) = do host.wait process; wait_each rest

  unfoldable pub kill_all : Exec (State host) Text (Unit {0})
  unfolding kill_each wait_each
  kill_all (self, w) =
      let (r, w') = wait_each self.subprocesses (kill_each self.subprocesses w) in
      (r, (record self { subprocesses = [] }, w'))

  -- The loop of `handle_connection_rpc` over what the lines of the connection decode to: the
  -- answers and the state at the end.
  unfoldable pub serve :
      ℕ
      → List (Result Text (IpcWrapper Request))
      → State host
      → List (IpcWrapper (Result Text Value)) × State host
  unfolding reap_dead handle_request
  serve request_id [] s = ([], s)
  serve request_id (line ∷ lines) s = elim s.0.exit [
    | some exit ↦ ([], s)
    | none ↦
        let s' = reap_dead s in
        elim line [
          | ok request ↦
              let (result, s'') = handle_request host request.body s' in
              let (answers, last) = serve request.id lines s'' in
              (record { id = request.id; body = result } ∷ answers, last)
          | err e ↦
              let (answers, last) = serve (request_id + 1) lines s' in
              (record { id = request_id + 1; body = err e } ∷ answers, last)
        ]
  ]

  -- What `handle_connection_rpc` does after the loop: whether the agent ends.
  unfoldable pub finish : Exec (State host) Text Bool
  unfolding kill_all
  finish = do
    self ← this host
    elim self.exit [
      | none ↦ pure false
      | some restart_agent ↦ do kill_all; pure true
      | some shutdown ↦ do kill_all; on_host host host.reboot; pure true
    ]
