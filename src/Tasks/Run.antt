-- ===== src/Tasks/Run.antt =====
-- tasks.rs: running a task, `Runable for DynamicTask` and `Task`.
use multi_fuzz_benchmarks.Prelude.{
  ℕ, ℤ, Bool, true, false, none, some, List, [], ◌∷◌, ◌++◌, map, Text, codes, text_eq,
}
use multi_fuzz_benchmarks.Prelude.Dict.{lookup, insert}
use multi_fuzz_benchmarks.Prelude.Exec.{Exec, pure, raise, lift, attempt, ◌>>=◌, ◌>>◌}
use multi_fuzz_benchmarks.Prelude.Outcome.{Result, ok, err, ok_or}
use multi_fuzz_benchmarks.Prelude.Radix.{to_decimal}
use multi_fuzz_benchmarks.Rpc
use multi_fuzz_benchmarks.Rpc.{Bytes, FilePath, Duration, DirEntry, RunCommand, RunOutput, Stdio}
use multi_fuzz_benchmarks.Vars
use multi_fuzz_benchmarks.Vars.{Variables, expand_vars}
use multi_fuzz_benchmarks.Config.{KeyValue, into}
use multi_fuzz_benchmarks.Env.{Env, Failure, cause, unfinished}
use multi_fuzz_benchmarks.Afl.{parse_plot_data}
use multi_fuzz_benchmarks.Methods
use multi_fuzz_benchmarks.Tasks.{DynamicTask, DynamicTasks, nil, cons, InputPatternVerifier}
use multi_fuzz_benchmarks.Tasks.Process.{
  command_with_vars, with_stdio, start, run_task, run_timed_task,
}
use multi_fuzz_benchmarks.Tasks.Files.{quietly, try_copy, append_csv, merge_with_prefix, merge_json}
use multi_fuzz_benchmarks.Tasks.Walk.{host_folder, archive, try_copy_dir}
use multi_fuzz_benchmarks.Tasks.Bugs.{match_patterns, resolve_bug_ids}

-- `vars.get("TAG").unwrap_or("?")`.
unfoldable pub tag_of : Variables → Text
tag_of vars = elim (Vars.get vars (codes "TAG")) [ none ↦ codes "?" | some tag ↦ tag ]

-- `PlotDataRowV4::FIELDS`, joined by commas.
abbrev pub plot_fields : Text
plot_fields =
    codes
      "relative_time,cycles_done,cur_item,corpus_count,pending_total,pending_favs,map_size,saved_crashes,saved_hangs,max_depth,execs_per_sec,total_execs,edges_found"

abbrev pub bug_row : Text → Text × ℕ → List Text
bug_row tag bug = tag ∷ bug.0 ∷ to_decimal bug.1 ∷ []

-- `{key}={value}`, a line for each variable.
abbrev pub env_lines : List (Text × Text) → Text
env_lines [] = []
env_lines ((key, val) ∷ vars) = key ++ (b'=' ∷ (val ++ (b'\n' ∷ env_lines vars)))

module _ (env : Env) where
  open env use {
    World, F64, from_secs_f64, plot_rows, exists, should_stop, write, run_host, create_parent,
    archive_create, archive_finish,
  }

  unfoldable pub input_pattern_verifier :
      InputPatternVerifier → Variables → Exec World Failure (Unit {0})
  unfolding match_patterns resolve_bug_ids tag_of append_csv
  input_pattern_verifier verifier vars = do
    bugs ←
        resolve_bug_ids env
          (λ entry. do
            data' ← Methods.read_file env entry.path
            pure (match_patterns verifier.patterns data'))
          (expand_vars vars verifier.crash_dir)
    append_csv env (expand_vars vars verifier.dst) (codes "tag,bug_id,time")
        (bug_row (tag_of vars) (codes "none", 0) ∷ map (bug_row (tag_of vars)) bugs)

  unfoldable pub save_tagged : Text → Text → Variables → Exec World Failure (Unit {0})
  unfolding tag_of append_csv
  save_tagged workdir dst vars = do
    data' ← Methods.read_file env (expand_vars vars workdir ++ codes "/default/plot_data")
    rows ← lift (parse_plot_data (plot_rows data'))
    append_csv env (expand_vars vars dst) (codes "tag," ++ plot_fields)
        (map (λ row. tag_of vars ∷ row) rows)

  -- The branch of `Kill`, over the map of `run`.
  unfoldable pub kill_tasks : List (Text × ℕ) → ℤ → List Text → Exec World Failure (Unit {0})
  kill_tasks pids signal [] = pure tt
  kill_tasks pids signal (task ∷ tasks) = do
    pid ← lift (ok_or (lookup task pids) (cause (codes "task " ++ (task ++ codes " not found"))))
    Methods.kill_process env pid signal
    kill_tasks pids signal tasks

  -- An error that is logged and not returned; a loop that was cut short is kept.
  abbrev pub logged : Result Failure (Unit {0}) → Result Failure (Unit {0})
  logged (err unfinished) = err unfinished
  logged (err (cause c)) = ok tt
  logged (err (Failure.within c e)) = ok tt
  logged (ok u) = ok u

  -- `match result.exit` of `ResultCollector`.
  unfoldable pub collect_output : FilePath → RunOutput → Exec World Failure (Unit {0})
  collect_output dst output = elim output.exit [
    | Rpc.success ↦ write dst output.stdout
    | Rpc.exit code ↦ raise (cause (codes "exit"))
    | Rpc.crash ↦ raise (cause (codes "crash"))
    | Rpc.hang ↦ raise (cause (codes "hang"))
  ]

  unfoldable pub copy_dir : ℕ → FilePath → FilePath → Bool → Exec World Failure (Unit {0})
  unfolding try_copy_dir
  copy_dir rounds src dst archived = do
    quietly env (create_parent dst)
    result ← elim archived [
      | true ↦ do
        archive_create dst
        result ← attempt (try_copy_dir env rounds src archive)
        archive_finish
        pure result
      | false ↦ attempt (try_copy_dir env rounds src (host_folder dst))
    ]
    lift (logged result)

  unfoldable pub save_env : Text → Variables → Exec World Failure (Unit {0})
  save_env path vars = do
    pid ← Methods.spawn_task env (record (Rpc.new (codes "echo")) {
      args = env_lines vars.vars ∷ [];
      stdout = Stdio.file (expand_vars vars path);
    })
    Methods.wait_pid env pid
    pure tt

  -- The test of the stop flag in front of a task.
  unfoldable pub guarded : Exec World Failure (Unit {0}) → Exec World Failure (Unit {0})
  guarded body w =
      let (stop, w') = should_stop w in
      elim stop [
        | true ↦ (err (cause (codes "exited without finishing task")), w')
        | false ↦ body w'
      ]

  -- `Runable::run`, over the number of rounds of the loops that wait for the agent.
  unfoldable mutual
    -- The `match` on the task. The map of the process ids is made anew by each call.
    pub run_branch : ℕ → Variables → DynamicTask F64 → Exec World Failure (Unit {0})
    run_branch rounds vars (DynamicTask.exit_if_existing path) = do
      let path' = expand_vars vars path
      found ← λ w. let (b, w') = exists path' w in (ok b, w')
      elim found [
        | true ↦ raise (cause (path' ++ codes " already exists (exiting)"))
        | false ↦ pure tt
      ]
    run_branch rounds vars (DynamicTask.save_env path) = save_env path vars
    run_branch rounds vars (DynamicTask.run command stdout stderr (some t)) =
        run_timed_task env rounds command vars stdout stderr t
    run_branch rounds vars (DynamicTask.run command stdout stderr none) =
        run_task env command vars stdout stderr
    run_branch rounds vars (DynamicTask.spawn_task key command stdout stderr) = do
      pid ← start env command vars stdout stderr
      let pids = insert key pid []
      pure tt
    run_branch rounds vars (DynamicTask.result_collector command dst) = do
      cmd ← lift (command_with_vars env command vars)
      output ← Methods.run_task env cmd
      collect_output (expand_vars vars dst) output
    run_branch rounds vars (DynamicTask.run_host command stdout stderr) = do
      cmd ← lift (command_with_vars env command vars)
      run_host (with_stdio env cmd stdout stderr vars)
      pure tt
    run_branch rounds vars (DynamicTask.sleep time_sec) = do
      cancelled ← λ w. let (b, w') = env.sleep (from_secs_f64 time_sec) w in (ok b, w')
      elim cancelled [ true ↦ raise (cause (codes "early exit (task canceled)")) | false ↦ pure tt ]
    run_branch rounds vars (DynamicTask.kill signal tasks) = kill_tasks [] signal tasks
    run_branch rounds vars (DynamicTask.copy_file src dst append) =
        try_copy env (expand_vars vars src) (expand_vars vars dst) append
    run_branch rounds vars (DynamicTask.copy_dir src dst archived) =
        copy_dir rounds (expand_vars vars src) (expand_vars vars dst) archived
    run_branch rounds vars (DynamicTask.merge_with_prefix prefix header src dst) = do
      data' ← Methods.read_file env (expand_vars vars src)
      merged ←
          attempt
            (merge_with_prefix env (expand_vars vars dst) header (expand_vars vars prefix) data')
      pure tt
    run_branch rounds vars (DynamicTask.merge_json tag src dst) = do
      attempt (merge_json env (expand_vars vars tag) (expand_vars vars src) (expand_vars vars dst))
      pure tt
    run_branch rounds vars (DynamicTask.input_pattern_verifier inner) =
        input_pattern_verifier inner vars
    run_branch rounds vars (DynamicTask.save_tagged_afl_plot_data_v4 workdir dst) =
        save_tagged workdir dst vars
    run_branch rounds vars (DynamicTask.task_list tasks) = run_all rounds vars tasks

    -- The `for` loop over the tasks of a list.
    pub run_all : ℕ → Variables → DynamicTasks F64 → Exec World Failure (Unit {0})
    run_all rounds vars nil = pure tt
    run_all rounds vars (cons task tasks) = do
      guarded (run_branch rounds vars task)
      run_all rounds vars tasks

  unfoldable pub run_dynamic : ℕ → Variables → DynamicTask F64 → Exec World Failure (Unit {0})
  unfolding guarded run_branch
  run_dynamic rounds vars task = guarded (run_branch rounds vars task)

  -- `Task::run`.
  unfoldable pub run_worker :
      ℕ → ℕ → List KeyValue → DynamicTask F64 → Exec World Failure (Unit {0})
  unfolding run_dynamic
  run_worker rounds worker_id vars task =
      let globals = Vars.insert Vars.default (codes "WORKER_ID") (to_decimal worker_id) in
      run_dynamic rounds (Vars.insert_all globals (map into vars)) task
