-- ===== src/Agent/Handles.antt =====
-- agent/src/lib.rs: the handles of the processes that the agent started.
use multi_fuzz_benchmarks.Prelude.{ℕ, ℤ, Option, none, some, ◌≡◌, refl, sym, ap, nat_eq, Text}
use mathlib.Core.Path.{subst}
use multi_fuzz_benchmarks.Prelude.Dict
use multi_fuzz_benchmarks.Prelude.Dict.{Dict, lookup-insert_self, lookup-remove, beq_refl}
use multi_fuzz_benchmarks.Prelude.Exec.{pure, continue, ◌>>◌}
use multi_fuzz_benchmarks.Prelude.Outcome.{Result, ok, err}
use multi_fuzz_benchmarks.Rpc.{RunCommand, Request}
use multi_fuzz_benchmarks.Agent.{
  Host, Value, number, null, code, AgentState, State, update, forget, spawn_process, wait_pid,
  get_status, handle_request, in_workdir, wait_process, status_of,
}

of_ok : {A : Type 0} {a b : A} → ◌≡◌ {A = Result Text A} (ok a) (ok b) → a ≡ b
of_ok e = cc

module _ (host : Host) where
  open host use {World, Child}

  get_status-status_of :
      (pid : ℕ) (s : State host) (o : Option Child)
      → Dict.lookup pid s.0.subprocesses ≡ o
      → handle_request host (Request.get_status pid) s ≡ (ok (status_of host o), s)
  unfolding handle_request get_status
  get_status-status_of pid s o e = ap (λ o'. (ok (status_of host o'), s)) e

  -- After a request to start a process that succeeded, the answer is the number of a process, and
  -- asking for its status gives that number back.
  pub spawn_process-get_status :
      (subprocess : RunCommand) (s : State host) (v : Value) (s' : State host)
      → handle_request host (Request.spawn_process subprocess) s ≡ (ok v, s')
      → (pid : ℕ) × (v ≡ number pid)
        × (handle_request host (Request.get_status pid) s' ≡ (ok (number pid), s'))
  unfolding handle_request spawn_process get_status
  spawn_process-get_status subprocess (self, w) v s' h =
      go (host.spawn (in_workdir host self.workdir subprocess) w).0
        (host.spawn (in_workdir host self.workdir subprocess) w).1 h
    where
      go :
          (r : Result Text Child) (w' : World)
          → continue r
              (λ child.
                update host (λ self. record self {
                  subprocesses = Dict.insert (host.id child) child self.subprocesses;
                })
                >> pure (number (host.id child)))
              (self, w')
            ≡ (ok v, s')
          → (pid : ℕ) × (v ≡ number pid)
            × (handle_request host (Request.get_status pid) s' ≡ (ok (number pid), s'))
      go (err e) w' h' = absurd (cc)
      go (ok child) w' h' =
          let pid = host.id child in
          let known : Dict.lookup pid s'.0.subprocesses ≡ some child =
            subst (λ (t : State host). Dict.lookup pid t.0.subprocesses ≡ some child)
              (ap (λ (x : Result Text Value × State host). x.1) h')
              (lookup-insert_self pid child self.subprocesses) in
          let same : number pid ≡ v = of_ok (ap (λ (x : Result Text Value × State host). x.0) h') in
          (pid, sym same, get_status-status_of pid s' (some child) known)

  lookup-remove_self : (pid : ℕ) (m : Dict ℕ Child) → Dict.lookup pid (Dict.remove pid m) ≡ none
  lookup-remove_self pid m = simp (lookup-remove, beq_refl)

  lookup-forgotten :
      (pid : ℕ) (self : AgentState Child) (exit : Result Text (Option ℤ)) (w : World) (v : Value)
      (s' : State host)
      → continue exit (λ exit. update host (forget host pid) >> pure (code exit)) (self, w)
        ≡ (ok v, s')
      → Dict.lookup pid s'.0.subprocesses ≡ none
  unfolding forget
  lookup-forgotten pid self (err e) w v s' h = absurd (cc)
  lookup-forgotten pid self (ok exit) w v s' h =
      subst (λ (t : State host). Dict.lookup pid t.0.subprocesses ≡ none)
        (ap (λ (x : Result Text Value × State host). x.1) h)
        (lookup-remove_self pid self.subprocesses)

  lookup-waited :
      (pid : ℕ) (self : AgentState Child) (o : Option Child) (w : World) (v : Value)
      (s' : State host)
      → Dict.lookup pid self.subprocesses ≡ o
      → wait_process host pid o (self, w) ≡ (ok v, s')
      → Dict.lookup pid s'.0.subprocesses ≡ none
  unfolding wait_process
  lookup-waited pid self none w v s' e h =
      subst (λ (t : State host). Dict.lookup pid t.0.subprocesses ≡ none)
        (ap (λ (x : Result Text Value × State host). x.1) h) e
  lookup-waited pid self (some p) w v s' e h =
      lookup-forgotten pid self (host.wait p w).0 (host.wait p w).1 v s' h

  -- Once a process has been waited for, the agent does not know it any more: its status is null.
  pub wait_pid-get_status :
      (pid : ℕ) (s : State host) (v : Value) (s' : State host)
      → handle_request host (Request.wait_pid pid) s ≡ (ok v, s')
      → handle_request host (Request.get_status pid) s' ≡ (ok null, s')
  unfolding handle_request wait_pid get_status forget
  wait_pid-get_status pid (self, w) v s' h =
      get_status-status_of pid s' none
        (lookup-waited pid self (Dict.lookup pid self.subprocesses) w v s' refl h)
