-- ===== src/Schedule/Trials.antt =====
-- main.rs: the trials that `run_bench` gives to the pool.
use native.Mathlib.Nat.{suc-mul}
use multi_fuzz_benchmarks.Prelude.{
  ℕ, zero, suc, ◌+◌, ◌*◌, ◌/◌, ◌%◌, ◌<◌, false, Option, none, some, List, [], ◌∷◌, ◌++◌, map, ◌≡◌,
  refl, ap, ◌∙◌, arith, length, length-append, map-append, append_assoc, Text, codes, contains, ltb,
  Bool-cases, Option-cases, inl, inr,
}
use multi_fuzz_benchmarks.Prelude.Radix.{to_decimal, decimal_digits}
use multi_fuzz_benchmarks.Vars
use multi_fuzz_benchmarks.Vars.{Variables, expand_vars}
use multi_fuzz_benchmarks.Vars.Expand.{expand_vars-of_no_brace}
use multi_fuzz_benchmarks.Vars.Scope.{binds, get-insert_all}
use multi_fuzz_benchmarks.Config.{KeyValue, into}
use multi_fuzz_benchmarks.Schedule.{
  TaskConfig, trial_task, trials_of, trials_of_all, run_bench, split_names, keep_names,
}

decimal_digits-contains :
    (fuel n : ℕ) (digits : Text)
    → contains b'{' digits ≡ false
    → contains b'{' (decimal_digits fuel n digits) ≡ false
unfolding decimal_digits
decimal_digits-contains zero n digits h = h
decimal_digits-contains (suc fuel) n digits h =
    let small : n % 10 < 10 = omega arith in
    let digits' = (b'0' + n % 10) ∷ digits in
    let plain : contains b'{' digits' ≡ false = ground (arith, small, h) in
    elim (Bool-cases (ltb n 10)) [
      | inl l ↦ rw (l, decimal_digits) plain
      | inr l ↦ rw (l, decimal_digits) (decimal_digits-contains fuel (n / 10) digits' plain)
    ]

to_decimal-contains : (n : ℕ) → contains b'{' (to_decimal n) ≡ false
unfolding to_decimal
to_decimal-contains n = decimal_digits-contains (n + 1) n [] refl

module _ {F64 : Type 0} where
  -- In every trial of a task that does not set `TRIAL` itself, that variable is the number of the
  -- trial, whatever the configuration sets and whatever was set before.
  pub trial_task-get :
      (known : Variables) (globals : List KeyValue) (name : Text) (i : ℕ) (task : TaskConfig F64)
      → binds (codes "TRIAL") (map into task.vars) ≡ false
      → Vars.get
          (Vars.insert_all known (map into (trial_task globals name i task).vars))
          (codes "TRIAL")
        ≡ some (to_decimal i)
  unfolding trial_task
  trial_task-get known globals name i task h =
      let trial : KeyValue = record { key = codes "TRIAL"; value = to_decimal i } in
      let task_name : KeyValue = record { key = codes "TASK_NAME"; value = name } in
      let before = map into globals in
      let after = into task_name ∷ map into task.vars in
      let parts : map into ((globals ++ trial ∷ task_name ∷ []) ++ task.vars)
          ≡ before ++ into trial ∷ after =
        ap (map into) (append_assoc globals (trial ∷ task_name ∷ []) task.vars)
        ∙ map-append into globals (trial ∷ task_name ∷ task.vars) in
      ap (λ vars. Vars.get (Vars.insert_all known vars) (codes "TRIAL")) parts
      ∙ get-insert_all known before after (codes "TRIAL") (to_decimal i) h
      ∙ ap (λ v. some v)
          (expand_vars-of_no_brace (Vars.insert_all known before) (to_decimal i)
            (to_decimal-contains i))

  trials_of-length :
      (globals : List KeyValue) (name : Text) (task : TaskConfig F64) (i trials : ℕ)
      → length (trials_of globals name task i trials) ≡ trials
  unfolding trials_of
  trials_of-length globals name task i zero = refl
  trials_of-length globals name task i (suc trials) =
      ap suc (trials_of-length globals name task (suc i) trials)

  -- The names that are configured.
  unfoldable pub configured : (Text → Option (TaskConfig F64)) → List Text → ℕ
  configured get_task [] = 0
  configured get_task (name ∷ names) = elim (get_task name) [
    | none ↦ configured get_task names
    | some _ ↦ suc (configured get_task names)
  ]

  trials_of_all-length :
      (get_task : Text → Option (TaskConfig F64)) (globals : List KeyValue) (trials : ℕ)
      (names : List Text)
      → length (trials_of_all get_task globals trials names) ≡ configured get_task names * trials
  unfolding trials_of_all configured
  trials_of_all-length get_task globals trials [] = omega arith
  trials_of_all-length get_task globals trials (name ∷ names) =
      let later = trials_of_all-length get_task globals trials names in
      elim (Option-cases (get_task name)) [
        | inl e ↦ rw (e, trials_of_all, configured) later
        | inr (task, e) ↦
            let here = trials_of-length globals name task 0 trials in
            rw (e, trials_of_all, configured)
              (length-append (trials_of globals name task 0 trials)
                  (trials_of_all get_task globals trials names)
                ∙ rw (here, later, suc-mul) (omega arith))
      ]

  -- Each name of the list that is configured gets all of its trials, and the others get none.
  pub run_bench-length :
      (get_task : Text → Option (TaskConfig F64)) (vars : List KeyValue) (id : Text) (trials : ℕ)
      (task_list : Text)
      → length (run_bench get_task vars id trials task_list)
        ≡ configured get_task (keep_names (split_names task_list)) * trials
  unfolding run_bench
  run_bench-length get_task vars id trials task_list =
      trials_of_all-length get_task (vars ++ record { key = codes "BENCH_ID"; value = id } ∷ [])
        trials (keep_names (split_names task_list))
