-- ===== src/Examples/Launches.antt =====
-- A configuration with an include, and a benchmark of one task on one worker.
use multi_fuzz_benchmarks.Prelude.{
  ℕ, ◌≡◌, refl, false, Option, none, some, List, [], ◌∷◌, ◌++◌, Text, codes, text_eq, length, ltb,
  if◌then◌else◌,
}
use multi_fuzz_benchmarks.Prelude.Dict.{contains_key, insert}
use multi_fuzz_benchmarks.Prelude.Outcome.{Result, ok, err}
use multi_fuzz_benchmarks.Prelude.Exec.{Exec, pure}
use multi_fuzz_benchmarks.Prelude.Radix.{to_decimal}
use multi_fuzz_benchmarks.Rpc.{FilePath}
use multi_fuzz_benchmarks.Env.{Failure, cause}
use multi_fuzz_benchmarks.Config.{ConfigData, merge, checked_insert}
use multi_fuzz_benchmarks.Tasks.{DynamicTasks, estimate_all}
use multi_fuzz_benchmarks.Schedule.{estimate_total_duration, TaskConfig, Task, bench_tasks}
use multi_fuzz_benchmarks.Workers.{firecracker, dummy}
use multi_fuzz_benchmarks.Pool.{
  exited, joined, Pool, new, add_worker, start_workers, here, send, close, finish, leave, join,
  Reach, start, later,
}
use multi_fuzz_benchmarks.Launch.{
  Runner, firecracker_worker, dummy_worker, runners, task_list, run_bench_v2,
}
use multi_fuzz_benchmarks.Launch.Included.{
  IsLoaded, AreRead, toml_from_path, include_path, load_includes, load_includes-IsLoaded,
}
use multi_fuzz_benchmarks.Launch.Distinct.{AreDistinct, runners-AreDistinct}
use multi_fuzz_benchmarks.Launch.Complete.{times, run_bench_v2-once}

abbrev own : ConfigData ℕ ℕ ℕ ℕ
own = record { images = (codes "root", 1) ∷ []; instances = []; tasks = []; docker = [] }

abbrev other : ConfigData ℕ ℕ ℕ ℕ
other = record { images = (codes "data", 2) ∷ []; instances = []; tasks = []; docker = [] }

abbrev both : ConfigData ℕ ℕ ℕ ℕ
both = record {
  images = (codes "root", 1) ∷ (codes "data", 2) ∷ [];
  instances = [];
  tasks = [];
  docker = [];
}

abbrev read_file : FilePath → Option Text
read_file path = some path

abbrev parse_file : Text → Option (ConfigData ℕ ℕ ℕ ℕ)
parse_file text = some other

abbrev join_path : FilePath → FilePath → FilePath
join_path dir path = dir ++ (b'/' ∷ path)

both_lem :
    load_includes read_file parse_file
      (some (codes "bench"))
      join_path
      (codes "extra.toml" ∷ [])
      own
    ≡ ok both
unfolding load_includes toml_from_path include_path merge checked_insert contains_key insert
both_lem = refl

load_includes-IsLoaded_example :
    (files : List (ConfigData ℕ ℕ ℕ ℕ)) × AreRead read_file parse_file
      (some (codes "bench"))
      join_path
      (codes "extra.toml" ∷ [])
      files
    × IsLoaded both (own ∷ files)
load_includes-IsLoaded_example =
    load_includes-IsLoaded read_file parse_file (some (codes "bench")) join_path
      (codes "extra.toml" ∷ []) own both both_lem

abbrev no_containers : Exec ℕ Failure ℕ
no_containers w = (err (cause (codes "no containers")), w)

abbrev two_machines : List (Runner ℕ ℕ ℕ)
two_machines =
    firecracker_worker (codes "vm0-data") 5 ∷ firecracker_worker (codes "vm1-data") 5 ∷ []

two_machines_lem : (runners none (pure 5) no_containers firecracker 2 0).0 ≡ ok two_machines
unfolding runners to_decimal
two_machines_lem = refl

runners-AreDistinct_example : AreDistinct 2 two_machines
runners-AreDistinct_example =
    runners-AreDistinct none (pure 5) no_containers firecracker 2 0 two_machines two_machines_lem

abbrev config : TaskConfig ℕ
config = record { instance' = codes "default"; vars = []; tasks = DynamicTasks.nil }

abbrev task : Task ℕ
task = record {
  name = codes "task-0";
  instance' = codes "default";
  vars = [];
  tasks = DynamicTasks.nil;
}

abbrev ready : Pool (Task ℕ)
ready = start_workers 1 (new (task ∷ []))

abbrev finished : Pool (Task ℕ)
finished = record {
  phase = joined;
  cancelled = false;
  workers = exited ∷ [];
  pending = [];
  done = task ∷ [];
  lost = [];
  refused = [];
}

to_finished : Reach ready finished
unfolding start_workers add_worker
to_finished =
    later
      (later (later (later (later start (send refl refl here)) (finish here)) (close refl refl))
        (leave refl here))
      (join refl tt)

abbrev give_text : FilePath → Exec ℕ Failure Text
give_text path w = (ok (codes "bench"), w)

abbrev give_task : Text → Result Failure (List (TaskConfig ℕ))
give_task text = ok (config ∷ [])

abbrev no_local : Option ℕ
no_local = none

abbrev no_machines : Exec ℕ Failure ℕ
no_machines w = (err (cause (codes "no machines")), w)

ready_lem :
    (run_bench_v2 give_text
      (λ t. ok t)
      give_task
      (λ s. s)
      no_local
      no_machines
      no_containers
      []
      dummy
      1
      false
      (codes "b")
      0).0
    ≡ ok (some (dummy_worker 0 ∷ [], ready))
unfolding run_bench_v2 to_decimal bench_tasks estimate_total_duration estimate_all
ready_lem = refl

run_bench_v2-once_example :
    (tasks : List (TaskConfig ℕ)) × ((task_list give_text (λ t. ok t) give_task (codes "b") 0).0
      ≡ ok tasks)
    × ((i : ℕ) → times i finished.done ≡ (if ltb i (length tasks) then 1 else 0))
run_bench_v2-once_example =
    run_bench_v2-once give_text (λ t. ok t) give_task (λ s. s) no_local no_machines no_containers []
      dummy (codes "b") false 0 0 (dummy_worker 0 ∷ []) ready finished ready_lem to_finished refl
      refl refl
