-- ===== src/Launch/Complete.antt =====
-- main.rs, run_bench_v2, with the pool that it starts: which tasks of a benchmark are run.
use mathlib.Core.List.{append_cancel_left}
use mathlib.Core.Path.{subst}
use multi_fuzz_benchmarks.Prelude.{
  ℕ, suc, ◌+◌, ◌≡◌, refl, ap, arith, Bool, true, false, ◌&&◌, inl, inr, Option, some, List, [], ◌∷◌,
  ◌++◌, Text, codes, length, text_beq, text_beq_iff, leb, ltb, Bool-cases, if◌then◌else◌,
}
use multi_fuzz_benchmarks.Prelude.Outcome.{Result, ok}
use multi_fuzz_benchmarks.Prelude.Exec.{Exec, pure, ◌>>=◌}
use multi_fuzz_benchmarks.Prelude.Returns.{bind-ok}
use multi_fuzz_benchmarks.Prelude.Radix.{to_decimal}
use multi_fuzz_benchmarks.Rpc.{FilePath, Duration}
use multi_fuzz_benchmarks.Env.{Failure}
use multi_fuzz_benchmarks.Config.{KeyValue}
use multi_fuzz_benchmarks.Schedule.{TaskConfig, Task, bench_tasks}
use multi_fuzz_benchmarks.Workers.{WorkerBackend}
use multi_fuzz_benchmarks.Pool.{Pool, new, start_workers, joined, Reach}
use multi_fuzz_benchmarks.Pool.Conserved.{total, joined-total}
use multi_fuzz_benchmarks.Launch.{Runner, runners, start_unless, estimated, task_list, run_bench_v2}
use multi_fuzz_benchmarks.Launch.Distinct.{to_decimal-injective}

abbrev task_name : ℕ → Text
task_name i = codes "task-" ++ to_decimal i

task_name-eq : (i k : ℕ) → text_beq (task_name k) (task_name i) ≡ true → k ≡ i
task_name-eq i k h =
    to_decimal-injective k i
      (append_cancel_left (codes "task-") _ _ ((text_beq_iff (task_name k) (task_name i)).0 h))

task_name-same : (i : ℕ) → text_beq (task_name i) (task_name i) ≡ true
task_name-same i = (text_beq_iff (task_name i) (task_name i)).1 refl

task_name-ne : (i k : ℕ) → text_beq (task_name k) (task_name i) ≡ false → k ≡ i → ⊥
task_name-ne i k h e =
    let bad : text_beq (task_name i) (task_name i) ≡ false =
      subst (λ n. text_beq (task_name n) (task_name i) ≡ false) e h in
    let good = task_name-same i in absurd (cc)

module _ {F64 : Type 0} where
  -- One for the task of a number.
  abbrev is_task : ℕ → Task F64 → ℕ
  is_task i t = if text_beq t.name (task_name i) then 1 else 0

  -- How often the task of a number occurs.
  abbrev pub times : ℕ → List (Task F64) → ℕ
  times i tasks = total (is_task i) tasks

  bench_tasks-times :
      (globals : List KeyValue) (i k : ℕ) (tasks : List (TaskConfig F64))
      → times i (bench_tasks globals k tasks)
        ≡ (if leb k i && ltb i (k + length tasks) then 1 else 0)
  unfolding bench_tasks total
  bench_tasks-times globals i k [] = ground arith
  bench_tasks-times globals i k (task ∷ tasks) =
      let later = bench_tasks-times globals i (suc k) tasks in
      elim (Bool-cases (text_beq (task_name k) (task_name i))) [
        | inl b ↦ let same = task_name-eq i k b in rw (b, later) (ground arith)
        | inr b ↦ let differ = task_name-ne i k b in rw (b, later) (ground (arith, differ))
      ]

module _ {World F64 Local Instances Containers : Type 0}
    (read_to_string : FilePath → Exec World Failure Text) (render_str : Text → Result Failure Text)
    (render_tasks_template : Text → Result Failure (List (TaskConfig F64)))
    (from_secs_f64 : F64 → Duration) (local_config : Option Local)
    (get_instances : Exec World Failure Instances)
    (prepare_instances : Exec World Failure Containers) (vars : List KeyValue)
    (backend : WorkerBackend) (benchmark : FilePath) where
  start_unless-pool :
      (dry_run : Bool) (workers : ℕ) (tasks : List (TaskConfig F64)) (w : World)
      (started : List (Runner Local Instances Containers)) (pool : Pool (Task F64))
      → (start_unless local_config get_instances prepare_instances dry_run vars backend workers
          tasks w).0
        ≡ ok (some (started, pool))
      → pool ≡ start_workers workers (new (bench_tasks vars 0 tasks))
  unfolding start_unless
  start_unless-pool true workers tasks w started pool h = absurd (cc)
  start_unless-pool false workers tasks w started pool h =
      let (ws, made, given) =
        bind-ok (runners local_config get_instances prepare_instances backend workers)
          (λ started. pure (some (started, start_workers workers (new (bench_tasks vars 0 tasks)))))
          w h in
      cc

  -- A benchmark whose pool is started with at least one worker: whichever way the workers interleave,
  -- once the pool has been joined without a cancellation or a panic, the task of each number was run
  -- to its end exactly once if the benchmark's file has so many tasks, and never otherwise.
  pub run_bench_v2-once :
      (dry_run : Bool) (n : ℕ) (w : World) (started : List (Runner Local Instances Containers))
      (pool s : Pool (Task F64))
      → (run_bench_v2 read_to_string render_str render_tasks_template from_secs_f64 local_config
          get_instances prepare_instances vars backend
          (suc n)
          dry_run
          benchmark
          w).0
        ≡ ok (some (started, pool))
      → Reach pool s
      → s.phase ≡ joined
      → s.cancelled ≡ false
      → s.lost ≡ []
      → (tasks : List (TaskConfig F64)) × ((task_list read_to_string render_str
            render_tasks_template benchmark w).0
          ≡ ok tasks)
        × ((i : ℕ) → times i s.done ≡ (if ltb i (length tasks) then 1 else 0))
  unfolding run_bench_v2 total
  run_bench_v2-once dry_run n w started pool s h reach phase not_cancelled none_lost =
      let start =
        start_unless local_config get_instances prepare_instances dry_run vars backend (suc n) in
      let (tasks, listed, rest) =
        bind-ok (task_list read_to_string render_str render_tasks_template benchmark)
          (λ tasks. estimated from_secs_f64 (suc n) tasks >>= λ _. start tasks) w h in
      let (_, _, launched) =
        bind-ok (estimated from_secs_f64 (suc n) tasks) (λ _. start tasks) _ rest in
      let same = start_unless-pool dry_run (suc n) tasks _ started pool launched in
      let reached : Reach (start_workers (suc n) (new (bench_tasks vars 0 tasks))) s =
        subst (λ p. Reach p s) same reach in
      (
        tasks,
        listed,
        λ i.
            let (all, refused) =
              joined-total (is_task i) n (bench_tasks vars 0 tasks) reached phase in
            let none_refused = ap (total (is_task i)) (refused not_cancelled) in
            let none_panicked = ap (total (is_task i)) none_lost in
            let each = bench_tasks-times vars i 0 tasks in
            let moved : times i s.done ≡ times i (bench_tasks vars 0 tasks) = omega arith in
            ground (arith, moved, each),
      )
