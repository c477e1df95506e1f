-- ===== src/Schedule/Render/Fresh.antt =====
-- main.rs, render_tasks_template: a trial sees nothing of the trials before it.
use multi_fuzz_benchmarks.Prelude.{
  ℕ, ◌≡◌, refl, sym, ap, ◌∙◌, fun_ext, arith, List, [], ◌∷◌, ◌++◌, Text, codes, text_eq, Eq,
}
use multi_fuzz_benchmarks.Prelude.Dict.{Dict, insert, beq_refl}
use multi_fuzz_benchmarks.Prelude.Outcome.{Result, ok, err, ◌>>=◌}
use multi_fuzz_benchmarks.Prelude.Radix.{to_decimal}
use multi_fuzz_benchmarks.Schedule.Render.{
  BenchGroup, render_trial, render_trials, render_groups, render_tasks_template,
}

-- A second insertion takes the place of the first.
insert-insert {ℓ κ} :
    {K : Type ℓ} {V : Type κ} ⦃e : Eq K⦄ (k : K) (v w : V) (m : Dict K V)
    → insert k v (insert k w m) ≡ insert k v m
unfolding insert
insert-insert k v w [] = rw (beq_refl k, insert) refl
insert-insert k v w ((i, u) ∷ m) = ground (arith, insert-insert k v w m, beq_refl k)

abbrev joined {ℓ} : {A : Type ℓ} (first second : Result Text (List A)) → Result Text (List A)
joined first second = first >>= λ xs. second >>= λ ys. ok (xs ++ ys)

joined-nil {ℓ} : {A : Type ℓ} (r : Result Text (List A)) → joined (ok []) r ≡ r
joined-nil (ok xs) = refl
joined-nil (err e) = refl

joined-cons {ℓ} :
    {A : Type ℓ} (head : Result Text A) (first second : Result Text (List A))
    → (head >>= λ x. joined first second >>= λ xs. ok (x ∷ xs))
      ≡ joined (head >>= λ x. first >>= λ xs. ok (x ∷ xs)) second
joined-cons (err e) first second = refl
joined-cons (ok x) (err e) second = refl
joined-cons (ok x) (ok xs) (err e) = refl
joined-cons (ok x) (ok xs) (ok ys) = refl

-- The trials of all groups, in order.
unfoldable pub trials_of_group : BenchGroup → List ℕ → List (BenchGroup × ℕ)
trials_of_group entry [] = []
trials_of_group entry (trial ∷ trials) = (entry, trial) ∷ trials_of_group entry trials

unfoldable pub all_trials : List BenchGroup → List (BenchGroup × ℕ)
unfolding trials_of_group
all_trials [] = []
all_trials (entry ∷ entries) = trials_of_group entry entry.trials ++ all_trials entries

module _ {Template Task : Type 0} (get_template : Text → Result Text Template)
    (render : Template → Dict Text Text → Result Text Text)
    (parse_task : Text → Text → ℕ → Result Text Task) where
  -- Each trial from the variables of its group and its own number alone, up to the first error.
  unfoldable pub render_each : List (BenchGroup × ℕ) → Result Text (List Task)
  render_each [] = ok []
  render_each ((entry, trial) ∷ rest) = do
    task ←
        render_trial get_template render parse_task entry.template trial
          (insert (codes "trial") (to_decimal trial) entry.config)
    tasks ← render_each rest
    ok (task ∷ tasks)

  render_trials-fresh :
      (entry : BenchGroup) (trials : List ℕ) (ctx : Dict Text Text)
      → ((value : Text)
          → insert (codes "trial") value ctx ≡ insert (codes "trial") value entry.config)
      → render_trials get_template render parse_task entry.template trials ctx
        ≡ render_each (trials_of_group entry trials)
  unfolding render_trials render_each trials_of_group
  render_trials-fresh entry [] ctx same = refl
  render_trials-fresh entry (trial ∷ trials) ctx same =
      let ctx' = insert (codes "trial") (to_decimal trial) ctx in
      let later =
        render_trials-fresh entry trials ctx'
          (λ value. insert-insert (codes "trial") value (to_decimal trial) ctx ∙ same value) in
      rw (later, same (to_decimal trial)) refl

  render_each-append :
      (first second : List (BenchGroup × ℕ))
      → render_each (first ++ second) ≡ joined (render_each first) (render_each second)
  unfolding render_each
  render_each-append [] second = sym (joined-nil (render_each second))
  render_each-append ((entry, trial) ∷ first) second =
      rw (render_each-append first second) (joined-cons _ (render_each first) (render_each second))

  render_groups-each :
      (entries : List BenchGroup)
      → render_groups get_template render parse_task entries ≡ render_each (all_trials entries)
  unfolding render_groups all_trials render_each
  render_groups-each [] = refl
  render_groups-each (entry ∷ entries) =
      rw
        (
          render_trials-fresh entry entry.trials entry.config (λ v. refl),
          render_groups-each entries,
        )
        (sym (render_each-append (trials_of_group entry entry.trials) (all_trials entries)))

  -- The tasks of a benchmark are those of its trials in order, each rendered from the variables of
  -- its group and its own number, whatever the trials before it have put into the context; the first
  -- error is the result.
  pub render_tasks_template-each :
      (parse_groups : Text → Result Text (List BenchGroup)) (benchmark : Text)
      → render_tasks_template get_template render parse_task parse_groups benchmark
        ≡ (parse_groups benchmark >>= λ entries. render_each (all_trials entries))
  unfolding render_tasks_template
  render_tasks_template-each parse_groups benchmark =
      ap (λ f. parse_groups benchmark >>= f) (fun_ext render_groups-each)
