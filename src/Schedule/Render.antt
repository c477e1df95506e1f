-- ===== src/Schedule/Render.antt =====
-- main.rs, render_tasks_template: the tasks of a benchmark, made from a template for each trial.
pub mod Fresh
use multi_fuzz_benchmarks.Prelude.{ℕ, List, [], ◌∷◌, ◌++◌, Text, codes, text_eq}
use multi_fuzz_benchmarks.Prelude.Dict.{Dict, insert}
use multi_fuzz_benchmarks.Prelude.Outcome.{Result, ok, err, ◌>>=◌}
use multi_fuzz_benchmarks.Prelude.Radix.{to_decimal}

-- config.rs, `BenchGroup`.
pub record BenchGroup : Type 0 where
  pub template : Text
  pub trials : List ℕ
  pub config : Dict Text Text

-- Over minijinja's `get_template` and `render`, and the reader of a task with the context of its
-- error.
module _ {Template Task : Type 0} (get_template : Text → Result Text Template)
    (render : Template → Dict Text Text → Result Text Text)
    (parse_task : Text → Text → ℕ → Result Text Task) where
  -- The body of the inner loop.
  unfoldable pub render_trial : Text → ℕ → Dict Text Text → Result Text Task
  render_trial name trial ctx = do
    template ← get_template name
    task_str ← render template ctx
    parse_task task_str name trial

  -- The loop over the trials of a group; `ctx` goes from one to the next.
  unfoldable pub render_trials : Text → List ℕ → Dict Text Text → Result Text (List Task)
  unfolding render_trial
  render_trials name [] ctx = ok []
  render_trials name (trial ∷ trials) ctx = do
    let ctx' = insert (codes "trial") (to_decimal trial) ctx
    task ← render_trial name trial ctx'
    rest ← render_trials name trials ctx'
    ok (task ∷ rest)

  unfoldable pub render_groups : List BenchGroup → Result Text (List Task)
  unfolding render_trials
  render_groups [] = ok []
  render_groups (entry ∷ entries) = do
    tasks ← render_trials entry.template entry.trials entry.config
    rest ← render_groups entries
    ok (tasks ++ rest)

  -- The benchmark is a list of groups in RON.
  unfoldable pub render_tasks_template :
      (Text → Result Text (List BenchGroup)) → Text → Result Text (List Task)
  unfolding render_groups
  render_tasks_template parse_groups benchmark = do
    entries ← parse_groups benchmark
    render_groups entries
