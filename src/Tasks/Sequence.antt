-- ===== src/Tasks/Sequence.antt =====
-- tasks.rs: lists of tasks in sequence, and the `Kill` tasks in them.
use multi_fuzz_benchmarks.Prelude.{ℕ, ℤ, Bool, true, false, List, ◌∷◌, Text, codes, ◌≡◌, refl}
use multi_fuzz_benchmarks.Prelude.Dict.{lookup}
use multi_fuzz_benchmarks.Prelude.Exec.{Exec, continue, continue-eq-ok, ◌>>◌}
use multi_fuzz_benchmarks.Prelude.Outcome.{Result, ok, err}
use multi_fuzz_benchmarks.Vars.{Variables}
use multi_fuzz_benchmarks.Env.{Env, Failure, cause}
use multi_fuzz_benchmarks.Tasks.{DynamicTask, DynamicTasks, nil, cons}
use multi_fuzz_benchmarks.Tasks.Run.{guarded, run_branch, run_all, kill_tasks}

unfoldable pub append : {F64 : Type 0} → DynamicTasks F64 → DynamicTasks F64 → DynamicTasks F64
append nil us = us
append (cons t ts) us = cons t (append ts us)

module _ {W E : Type 0} where
  -- Three steps in a row, the last two of them given by their values in every state.
  continue-sequence :
      (r : Result E (Unit {0})) (f g h : Exec W E (Unit {0})) (w : W)
      → ((v : W) → h v ≡ (f >> g) v)
      → continue r (λ _. h) w
        ≡ continue (continue r (λ _. f) w).0 (λ _. g) (continue r (λ _. f) w).1
  continue-sequence (ok a) f g h w e = e w
  continue-sequence (err x) f g h w e = refl

  continue-eq-ok_rest :
      (r : Result E (Unit {0})) (f : Exec W E (Unit {0})) (w : W)
      → (continue r (λ _. f) w).0 ≡ ok tt
      → (v : W) × ((f v).0 ≡ ok tt)
  continue-eq-ok_rest (ok a) f w e = (w, e)
  continue-eq-ok_rest (err x) f w e = absurd (cc)

module _ (env : Env) where
  open env use {World, F64, should_stop}

  run_all-cons :
      (rounds : ℕ) (vars : Variables) (t : DynamicTask F64) (ts : DynamicTasks F64) (w : World)
      → run_all env rounds vars (cons t ts) w
        ≡ (guarded env (run_branch env rounds vars t) >> run_all env rounds vars ts) w
  unfolding run_all
  run_all-cons rounds vars t ts w = refl

  run_all-nil :
      (rounds : ℕ) (vars : Variables) (w : World) → run_all env rounds vars nil w ≡ (ok tt, w)
  unfolding run_all
  run_all-nil rounds vars w = refl

  -- Two lists of tasks put together run one after the other: the second starts in the state that
  -- the first one left, and only if the first one had no error; otherwise that error is the result.
  pub run_all-append :
      (rounds : ℕ) (vars : Variables) (ts us : DynamicTasks F64) (w : World)
      → run_all env rounds vars (append ts us) w
        ≡ (run_all env rounds vars ts >> run_all env rounds vars us) w
  unfolding append
  run_all-append rounds vars nil us w = rw (run_all-nil rounds vars w) refl
  run_all-append rounds vars (cons t ts) us w =
      let (r, v) = guarded env (run_branch env rounds vars t) w in
      rw (run_all-cons rounds vars t (append ts us) w, run_all-cons rounds vars t ts w)
        (continue-sequence r (run_all env rounds vars ts) (run_all env rounds vars us)
          (run_all env rounds vars (append ts us)) v (run_all-append rounds vars ts us))

  guarded-eq-ok :
      (body : Exec World Failure (Unit {0})) (w : World)
      → (guarded env body w).0 ≡ ok tt
      → (body (should_stop w).1).0 ≡ ok tt
  unfolding guarded
  guarded-eq-ok body w h = go (should_stop w).0 h
    where
      go :
          (b : Bool)
          → (elim b as (λ _. Result Failure (Unit {0}) × World) [
            | true ↦ (err (cause (codes "exited without finishing task")), (should_stop w).1)
            | false ↦ body (should_stop w).1
          ]).0
            ≡ ok tt
          → (body (should_stop w).1).0 ≡ ok tt
      go true e = absurd (cc)
      go false e = e

  failed_kill :
      (rounds : ℕ) (vars : Variables) (signal : ℤ) (task : Text) (tasks : List Text) (w : World)
      → ¬ ((run_branch env rounds vars (DynamicTask.kill signal (task ∷ tasks)) w).0 ≡ ok tt)
  unfolding run_branch kill_tasks lookup
  failed_kill rounds vars signal task tasks w h = absurd (cc)

  -- A list of tasks with a `Kill` of at least one process in it never succeeds, whatever tasks
  -- stand before it: also if one of them has spawned a process of that name.
  pub run_all-kill :
      (rounds : ℕ) (vars : Variables) (ts us : DynamicTasks F64) (signal : ℤ) (task : Text)
      (tasks : List Text) (w : World)
      → ¬ (
          (run_all env rounds vars
            (append ts (cons (DynamicTask.kill signal (task ∷ tasks)) us))
            w).0
          ≡ ok tt)
  run_all-kill rounds vars ts us signal task tasks w h =
      let killing = DynamicTask.kill signal (task ∷ tasks) in
      let split = run_all-append rounds vars ts (cons killing us) w in
      let (r, v) = run_all env rounds vars ts w in
      let (v', h') =
        continue-eq-ok_rest r (run_all env rounds vars (cons killing us)) v (rw split at h) in
      let (r', v'') = guarded env (run_branch env rounds vars killing) v' in
      let first =
        continue-eq-ok r' (λ _. run_all env rounds vars us) v''
          (rw (run_all-cons rounds vars killing us v') at h') in
      let body = guarded-eq-ok (run_branch env rounds vars killing) v' first in
      failed_kill rounds vars signal task tasks (should_stop v').1 body
