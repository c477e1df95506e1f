-- ===== src/Examples/Running.antt =====
-- Tasks on a concrete host and agent, on which a state is the number of the calls made.
use multi_fuzz_benchmarks.Prelude.{
  ℕ, pos, suc, true, false, none, some, List, [], ◌∷◌, ◌++◌, ◌≡◌, refl, Text, codes,
}
use multi_fuzz_benchmarks.Prelude.Exec.{Exec, pure}
use multi_fuzz_benchmarks.Prelude.Outcome.{ok, err}
use multi_fuzz_benchmarks.Prelude.Tree
use multi_fuzz_benchmarks.Prelude.Tree.{Tree, text_ord}
use multi_fuzz_benchmarks.Rpc.{DirEntry, value}
use multi_fuzz_benchmarks.Vars.{Variables}
use multi_fuzz_benchmarks.Env.{Env, Failure, cause, deadline}
use multi_fuzz_benchmarks.Methods
use multi_fuzz_benchmarks.Tasks.{DynamicTask, DynamicTasks, nil, cons}
use multi_fuzz_benchmarks.Tasks.Run.{run_all}
use multi_fuzz_benchmarks.Tasks.Files.{try_copy}
use multi_fuzz_benchmarks.Tasks.Bugs.{resolve_entries}
use multi_fuzz_benchmarks.Tasks.Sequence.{append, run_all-kill}
use multi_fuzz_benchmarks.Tasks.Earliest.{earliest, resolve_entries-earliest}
use multi_fuzz_benchmarks.Tasks.Overwrite.{only_parent, try_copy-only_parent}

abbrev call : {A : Type 0} → A → Exec ℕ Failure A
call a w = (ok a, suc w)

-- Every JSON value is the number of a process; every file that is opened for appending is empty.
abbrev host : Env
host = record {
  World = ℕ;
  Json = ℕ;
  F64 = ℕ;
  from_secs_f64 = λ s. s;
  send_request = λ request timeout. call (value 7);
  to_text = λ j. some [];
  to_pid = λ j. some j;
  to_bytes = λ j. some (j ∷ []);
  to_entry = λ j. none;
  to_entries = λ j. some [];
  to_output = λ j. none;
  as_i64 = λ j. some (pos j);
  shlex = λ t. some (t ∷ []);
  join = λ p q. p ++ q;
  strip_prefix = λ p q. some p;
  file_name = λ p. some p;
  is_numeric = λ c. true;
  csv_write = λ p rows. call tt;
  plot_rows = λ b. [];
  parse_json_map = λ b. some [];
  parse_json = λ b. none;
  print_json_map = λ m. [];
  archive_create = λ p. call tt;
  archive_dir = λ p. call tt;
  archive_file = λ p b. call tt;
  archive_finish = call tt;
  should_stop = λ w. (false, w);
  sleep = λ d w. (false, suc w);
  select = λ d t w. (deadline, suc w);
  exists = λ p w. (false, w);
  read = λ p. call none;
  write = λ p b. call tt;
  create_parent = λ p w. suc w;
  create_dir_all = λ p. call tt;
  open_file = λ options p w. elim options.append [
    | true ↦ (ok 0, suc w)
    | false ↦ (err (cause (codes "invalid argument")), w)
  ];
  write_all = λ p b. call tt;
  run_host = λ c. call true;
}

abbrev globals : Variables
globals = record { vars = (codes "WORKER_ID", codes "0") ∷ [] }

abbrev spawning : DynamicTasks ℕ
spawning = cons (DynamicTask.spawn_task (codes "server") (codes "httpd") none none) nil

abbrev ending : DynamicTasks ℕ
ending = cons (DynamicTask.sleep 5) nil

run_all-kill_example : ¬ (
    (run_all host 1 globals
      (append spawning (cons (DynamicTask.kill (pos 2) (codes "server" ∷ [])) ending))
      0).0
    ≡ ok tt)
run_all-kill_example = run_all-kill host 1 globals spawning ending (pos 2) (codes "server") [] 0

try_copy-only_parent_example : try_copy host (codes "a") (codes "b") false 0 ≡ (
  ok tt,
  only_parent host
      (Methods.read_file host (codes "a") 0).0
      (codes "b")
      (Methods.read_file host (codes "a") 0).1,
)
try_copy-only_parent_example =
    try_copy-only_parent host (cause (codes "invalid argument")) (λ to w. refl) (codes "a")
      (codes "b") 0

abbrev crashes : List DirEntry
crashes =
    record { path = codes "id:1,time:50,x"; is_file = true; len = 4; modified = 0 }
    ∷ record { path = codes "id:2,time:20,x"; is_file = true; len = 4; modified = 0 }
    ∷ []

resolve_entries-earliest_example :
    (m : Tree Text ℕ) × ((resolve_entries host (λ e. pure (codes "bug" ∷ [])) 0 crashes [] 0).0
      ≡ ok m)
    × ((j : Text)
        → Tree.get j m ≡ earliest host (λ e. codes "bug" ∷ []) 0 j crashes (Tree.get j []))
resolve_entries-earliest_example =
    resolve_entries-earliest host (λ e. pure (codes "bug" ∷ [])) (λ e. codes "bug" ∷ []) (λ w. refl)
      (λ e w. refl) 0 crashes [] 0
