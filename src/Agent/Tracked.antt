-- ===== src/Agent/Tracked.antt =====
-- agent/src/lib.rs: each handle is kept under the number of its process.
use multi_fuzz_benchmarks.Prelude.{
  ℕ, ℤ, Option, none, some, [], ◌∷◌, ◌≡◌, refl, ◌==◌, nat_eq, Bool-cases, inl, inr, Text, codes,
  flatten, ◌++◌,
}
use multi_fuzz_benchmarks.Prelude.Dict
use multi_fuzz_benchmarks.Prelude.Dict.{Dict}
use multi_fuzz_benchmarks.Prelude.Exec.{Exec, relabel, continue}
use multi_fuzz_benchmarks.Prelude.Outcome.{Result, ok, err, ok_or}
use multi_fuzz_benchmarks.Rpc.{RunCommand, Request, Requests}
use multi_fuzz_benchmarks.Statsd
use multi_fuzz_benchmarks.Agent
use multi_fuzz_benchmarks.Agent.{
  Host, Value, AgentState, State, on_host, this, update, forget, in_workdir, resolve, wait_process,
  handle_request, handle_all, kill_handle,
}

module _ (host : Host) where
  open host use {World, Child}

  abbrev pub IsKeyed : Dict ℕ Child → Type 0
  IsKeyed [] = Unit
  IsKeyed ((pid, child) ∷ m) = (pid ≡ host.id child) × IsKeyed m

  abbrev pub IsTracked : State host → Type 0
  IsTracked s = IsKeyed s.0.subprocesses

  insert-IsKeyed :
      (child : Child) (m : Dict ℕ Child) → IsKeyed m → IsKeyed (Dict.insert (host.id child) child m)
  unfolding Dict.insert
  insert-IsKeyed child [] h = (refl, tt)
  insert-IsKeyed child ((pid, other) ∷ m) h = elim (Bool-cases (pid == host.id child)) [
    | inl e ↦ rw e (refl, h.1)
    | inr e ↦ rw e (h.0, insert-IsKeyed child m h.1)
  ]

  remove-IsKeyed : (pid : ℕ) (m : Dict ℕ Child) → IsKeyed m → IsKeyed (Dict.remove pid m)
  unfolding Dict.remove
  remove-IsKeyed pid [] h = tt
  remove-IsKeyed pid ((key, child) ∷ m) h = elim (Bool-cases (key == pid)) [
    | inl e ↦ rw e (remove-IsKeyed pid m h.1)
    | inr e ↦ rw e (h.0, remove-IsKeyed pid m h.1)
  ]

  -- Whatever a call of the system gives, what comes after it keeps the handles tracked.
  continue-IsTracked :
      {A B : Type 0} (r : Result Text A) (f : A → Exec (State host) Text B) (s : State host)
      → IsTracked s
      → ((a : A) → IsTracked (f a s).1)
      → IsTracked (continue r f s).1
  continue-IsTracked (ok a) f s h k = k a
  continue-IsTracked (err e) f s h k = h

  wait_process-IsTracked :
      (pid : ℕ) (o : Option Child) (s : State host)
      → IsTracked s
      → IsTracked (wait_process host pid o s).1
  unfolding wait_process forget
  wait_process-IsTracked pid none s h = h
  wait_process-IsTracked pid (some p) (self, w) h =
      continue-IsTracked (host.wait p w).0 _ (self, (host.wait p w).1) h
        (λ exit. remove-IsKeyed pid self.subprocesses h)

  spawn_process-IsTracked :
      (subprocess : RunCommand) (s : State host)
      → IsTracked s
      → IsTracked (Agent.spawn_process host subprocess s).1
  unfolding Agent.spawn_process
  spawn_process-IsTracked subprocess (self, w) h =
      let (r, w') = host.spawn (in_workdir host self.workdir subprocess) w in
      continue-IsTracked r _ (self, w') h (λ child. insert-IsKeyed child self.subprocesses h)

  kill_handle-IsTracked :
      (pid : ℕ) (signal : ℤ) (o : Option Child) (s : State host)
      → IsTracked s
      → IsTracked (kill_handle host pid signal o s).1
  unfolding kill_handle forget
  kill_handle-IsTracked pid signal none s h = h
  kill_handle-IsTracked pid signal (some p) (self, w) h =
      let (sent, w') = host.send_signal (host.id p) signal w in
      let (exit, w'') = host.wait p w' in
      continue-IsTracked sent _ (self, w') h
        (λ _. continue-IsTracked exit _ (self, w'') h (λ _. remove-IsKeyed pid self.subprocesses h))

  mutual
    unfolding handle_request Agent.get_stats Agent.wait_pid Agent.get_status Agent.kill_subprocess

    request_keeps :
        (r : Request) (s : State host) → IsTracked s → IsTracked (handle_request host r s).1
    request_keeps Request.reboot s h = h
    request_keeps Request.restart_agent s h = h
    request_keeps Request.get_stats s h =
        continue-IsTracked
          (ok_or (host.from_utf8 (flatten (Statsd.drain_all s.0.stats).0)) (codes "invalid utf-8"))
          _ (record s.0 { stats = (Statsd.drain_all s.0.stats).1 }, s.1) h (λ _. h)
    request_keeps (Request.run_process subprocess) (self, w) h =
        continue-IsTracked (host.run (in_workdir host self.workdir subprocess) w).0 _ _ h (λ _. h)
    request_keeps (Request.spawn_process subprocess) s h = spawn_process-IsTracked subprocess s h
    request_keeps (Request.wait_pid pid) s h =
        wait_process-IsTracked pid (Dict.lookup pid s.0.subprocesses) s h
    request_keeps (Request.get_status pid) s h = h
    request_keeps (Request.kill_process pid signal) s h =
        let (result, s') = kill_handle host pid signal (Dict.lookup pid s.0.subprocesses) s in
        continue-IsTracked result _ s'
          (kill_handle-IsTracked pid signal (Dict.lookup pid s.0.subprocesses) s h)
          (λ _. kill_handle-IsTracked pid signal (Dict.lookup pid s.0.subprocesses) s h)
    request_keeps (Request.read_file path offset len) (self, w) h =
        continue-IsTracked (host.open_file (resolve host self.workdir path) w).0 _ _ h (λ _. h)
    request_keeps (Request.stat_file path) (self, w) h =
        continue-IsTracked (host.metadata (resolve host self.workdir path) w).0 _ _ h (λ _. h)
    request_keeps (Request.read_dir path) (self, w) h =
        let path' = resolve host self.workdir path in
        let (r, w') = host.read_dir_entries path' w in
        continue-IsTracked (relabel (λ _. codes "failed to read " ++ path') r) _ (self, w') h
          (λ _. h)
    request_keeps (Request.add_entropy data') (self, w) h =
        continue-IsTracked (host.add_entropy data' w).0 _ _ h (λ _. h)
    request_keeps (Request.bulk requests) s h =
        let (out, s') = handle_all host requests s in
        continue-IsTracked out _ s' (requests_keep requests s h) (λ _. requests_keep requests s h)

    requests_keep :
        (rs : Requests) (s : State host) → IsTracked s → IsTracked (handle_all host rs s).1
    requests_keep Requests.nil s h = h
    requests_keep (Requests.cons r rs) s h =
        let (first, s') = handle_request host r s in
        let (rest, s'') = handle_all host rs s' in
        let kept = requests_keep rs s' (request_keeps r s h) in
        continue-IsTracked rest _ s'' kept (λ _. kept)

  -- The agent keeps every handle under the number of its process: each request, a bulk with all of
  -- its parts included, preserves this, whether it is answered with a value or an error.
  pub handle_request-IsTracked :
      (r : Request) (s : State host) → IsTracked s → IsTracked (handle_request host r s).1
  handle_request-IsTracked r s h = request_keeps r s h
