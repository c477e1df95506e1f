-- ===== src/Schedule.antt =====
-- bench-harness/bench-harness/src/main.rs: the trials of a benchmark, and how long they will take.
pub mod Estimate
pub mod Trials
pub mod Render
use multi_fuzz_benchmarks.Prelude.{
  ℕ, zero, suc, ◌+◌, ◌-◌, ◌*◌, ◌^◌, min, max, Bool, true, false, not, ◌||◌, ◌&&◌, Option, none,
  some, List, [], ◌∷◌, ◌++◌, map, if◌then◌else◌, leb, nat_beq, Text, codes, trim, starts_with,
}
use multi_fuzz_benchmarks.Prelude.Maybe.{◌>>=◌}
use multi_fuzz_benchmarks.Prelude.Radix.{to_decimal}
use multi_fuzz_benchmarks.Prelude.Dict
use multi_fuzz_benchmarks.Rpc.{Duration, from_secs}
use multi_fuzz_benchmarks.Config.{KeyValue}
use multi_fuzz_benchmarks.Tasks.{DynamicTasks, estimate_all}

-- `Duration::MAX`, in nanoseconds. A sum past it is a panic, `none`.
abbrev pub duration_max : Duration
duration_max = from_secs (2 ^ 64) - 1

unfoldable pub add_durations : Duration → Duration → Option Duration
add_durations s t = if leb (s + t) duration_max then some (s + t) else none

-- The heap of the times at which the workers are free: a list with the earliest time first.
unfoldable pub push_time : Duration → List Duration → List Duration
push_time t [] = t ∷ []
push_time t (u ∷ heap) = if leb t u then t ∷ u ∷ heap else u ∷ push_time t heap

-- `Duration::from_millis(id * 100)` for each worker.
unfoldable pub free_times : ℕ → List Duration
unfolding push_time
free_times zero = []
free_times (suc id) = push_time (id * 100000000) (free_times id)

-- The `for` loop over the tasks: each goes to the worker that is free first.
unfoldable pub assign : List Duration → List Duration → Option (List Duration)
unfolding push_time add_durations
assign heap [] = some heap
assign [] (task ∷ tasks) = none
assign (current_time ∷ heap) (task ∷ tasks) = do
  t ← add_durations current_time task
  assign (push_time t heap) tasks

-- Popping the heap until it is empty: the last time, or the one that was current before.
unfoldable pub last_time : Duration → List Duration → Duration
last_time current_time [] = current_time
last_time current_time (t ∷ heap) = last_time t heap

-- `estimate_total_duration`, over the durations of the tasks.
unfoldable pub estimate_total_duration : List Duration → ℕ → Option Duration
unfolding free_times assign last_time
estimate_total_duration tasks workers = do
  heap ← assign (free_times (max 1 (min workers 10000))) tasks
  some (last_time 0 heap)

-- `split` at commas and line ends.
unfoldable pub split_names : Text → List Text
split_names [] = [] ∷ []
split_names (c ∷ cs) =
    let rest = split_names cs in if nat_beq c b',' || nat_beq c b'\n' then [] ∷ rest else grow rest
  where
    grow : List Text → List Text
    grow [] = (c ∷ []) ∷ []
    grow (word ∷ words) = (c ∷ word) ∷ words

-- The names of the list: trimmed, with the empty ones and the comments left out.
unfoldable pub keep_names : List Text → List Text
keep_names [] = []
keep_names (word ∷ words) =
    let name = trim word in
    let rest = keep_names words in if starts_with (codes "#") name then rest else keep name rest
  where
    keep : Text → List Text → List Text
    keep [] rest = rest
    keep (c ∷ cs) rest = (c ∷ cs) ∷ rest

pub record TaskConfig (F64 : Type 0) : Type 0 where
  pub instance' : Text
  pub vars : List KeyValue
  pub tasks : DynamicTasks F64

-- A `Task` of the pool; what it runs is the list of its tasks.
pub record Task (F64 : Type 0) : Type 0 where
  pub name : Text
  pub instance' : Text
  pub vars : List KeyValue
  pub tasks : DynamicTasks F64

module _ {F64 : Type 0} where
  -- One trial. The order matters: the variables of the task come last and may use the others.
  unfoldable pub trial_task : List KeyValue → Text → ℕ → TaskConfig F64 → Task F64
  trial_task globals task_name i task = record {
    name = task_name;
    instance' = task.instance';
    vars =
        (globals
          ++ record { key = codes "TRIAL"; value = to_decimal i }
            ∷ record { key = codes "TASK_NAME"; value = task_name }
            ∷ [])
        ++ task.vars;
    tasks = task.tasks;
  }

  -- `for i in 0..trials`, from trial `i` on.
  unfoldable pub trials_of : List KeyValue → Text → TaskConfig F64 → ℕ → ℕ → List (Task F64)
  unfolding trial_task
  trials_of globals task_name task i zero = []
  trials_of globals task_name task i (suc trials) =
      trial_task globals task_name i task ∷ trials_of globals task_name task (suc i) trials

  -- The loop over the names; a name that is not configured is logged and left out.
  unfoldable pub trials_of_all :
      (Text → Option (TaskConfig F64)) → List KeyValue → ℕ → List Text → List (Task F64)
  unfolding trials_of
  trials_of_all get_task globals trials [] = []
  trials_of_all get_task globals trials (name ∷ names) =
      let rest = trials_of_all get_task globals trials names in
      elim (get_task name) [
        | none ↦ rest
        | some task ↦ trials_of globals name task 0 trials ++ rest
      ]

  -- The tasks that `run_bench` gives to the pool, in order.
  unfoldable pub run_bench :
      (Text → Option (TaskConfig F64)) → List KeyValue → Text → ℕ → Text → List (Task F64)
  unfolding split_names keep_names trials_of_all
  run_bench get_task vars id trials task_list =
      trials_of_all get_task (vars ++ record { key = codes "BENCH_ID"; value = id } ∷ []) trials
        (keep_names (split_names task_list))

  -- The tasks that `run_bench_v2` gives to the pool: the `i`-th is called `task-{i}`.
  unfoldable pub bench_tasks : List KeyValue → ℕ → List (TaskConfig F64) → List (Task F64)
  bench_tasks globals i [] = []
  bench_tasks globals i (task ∷ tasks) =
      record {
        name = codes "task-" ++ to_decimal i;
        instance' = task.instance';
        vars = globals ++ task.vars;
        tasks = task.tasks;
      }
      ∷ bench_tasks globals (suc i) tasks
