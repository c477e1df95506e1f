-- ===== src/Examples/Guest.antt =====
-- The agent on a concrete system, on which a state is the number of the next process.
use multi_fuzz_benchmarks.Prelude.{
  ℕ, pos, suc, true, none, some, List, [], ◌∷◌, ◌++◌, refl, Text, codes,
}
use multi_fuzz_benchmarks.Prelude.Exec.{Exec}
use multi_fuzz_benchmarks.Prelude.Outcome.{ok}
use multi_fuzz_benchmarks.Rpc.{Request, Bytes}
use multi_fuzz_benchmarks.Rpc
use multi_fuzz_benchmarks.Client.{IpcWrapper}
use multi_fuzz_benchmarks.Agent.{Host, AgentState, handle_request}
use multi_fuzz_benchmarks.Agent.Tracked.{IsTracked, handle_request-IsTracked}

abbrev call : {A : Type 0} → A → Exec ℕ Text A
call a w = (ok a, suc w)

-- A child is its number; every one of them runs until it is waited for.
abbrev machine : Host
machine = record {
  World = ℕ;
  Child = ℕ;
  id = λ c. c;
  spawn = λ cmd w. (ok w, suc w);
  run = λ cmd. call (record { exit = Rpc.success; stdout = []; stderr = [] });
  wait = λ c. call (some (pos 0));
  try_wait = λ c. call none;
  kill = λ c w. w;
  send_signal = λ pid signal. call tt;
  open_file = λ path. call (b'a' ∷ b'b' ∷ b'c' ∷ []);
  metadata = λ path. call (record { path = path; is_file = true; len = 3; modified = 0 });
  read_dir_entries = λ path. call [];
  add_entropy = λ data'. call tt;
  reboot = call tt;
  from_utf8 = λ b. some b;
  join = λ p q. p ++ q;
}

abbrev idle : AgentState ℕ
idle = record {
  exit = none;
  workdir = none;
  stats = record { buf = []; offset = 0; is_overflow = true };
  subprocesses = (40, 40) ∷ [];
}

abbrev started : AgentState ℕ
started = record idle { subprocesses = (40, 40) ∷ (41, 41) ∷ [] }

abbrev empty_handed : AgentState ℕ
empty_handed = record idle { subprocesses = [] }

abbrev requests : List (IpcWrapper Request)
requests =
    record { id = 5; body = Request.get_status 40 }
    ∷ record { id = 6; body = Request.restart_agent }
    ∷ record { id = 7; body = Request.get_stats }
    ∷ []

handle_request-IsTracked_example :
    IsTracked machine
      (handle_request machine
        (Request.bulk (
          Rpc.cons
            (Request.spawn_process (Rpc.new (codes "afl-fuzz")))
            (Rpc.cons (Request.kill_process 40 (pos 2)) Rpc.nil)))
        (idle, 41)).1
handle_request-IsTracked_example =
    handle_request-IsTracked machine
      (Request.bulk (
        Rpc.cons (Request.spawn_process (Rpc.new (codes "afl-fuzz")))
          (Rpc.cons (Request.kill_process 40 (pos 2)) Rpc.nil)))
      (idle, 41) (refl, tt)
