-- ===== src/Pool/Progress.antt =====
-- worker.rs: a pool always goes on until it is joined, and can not go on forever.
use multi_fuzz_benchmarks.Prelude.{
  ℕ, zero, suc, ◌+◌, ◌*◌, ◌≤◌, ◌<◌, Bool, true, false, List, [], ◌∷◌, ◌++◌, ◌≡◌, refl, arith, ◌⊎◌,
  inl, inr, length,
}
use multi_fuzz_benchmarks.Pool.Phases.{Reach-IsOrdered}
use multi_fuzz_benchmarks.Pool.{
  Worker, idle, exited, crashed, running, Phase, adding, closed, joined, Pool, new, add_worker,
  start_workers, Switch, here, there, HasEnded, Step, interrupt, send, refuse, close, finish, panic,
  leave, join, Reach, start, later,
}

unfoldable left_phase : Phase → ℕ
left_phase adding = 2
left_phase closed = 1
left_phase joined = 0

unfoldable left_signal : Bool → ℕ
left_signal true = 0
left_signal false = 1

module _ {Task : Type 0} where
  -- A worker that can go on, if there is one.
  data Find (ws : List (Worker Task)) : Type 0 where
    all_ended : HasEnded ws → Find ws
    an_idle : ((b : Worker Task) → (vs : List (Worker Task)) × Switch idle b ws vs) → Find ws
    a_running :
        (t : Task)
        → ((b : Worker Task) → (vs : List (Worker Task)) × Switch (running t) b ws vs)
        → Find ws

  pass :
      (w : Worker Task) (ws : List (Worker Task))
      → (HasEnded ws → HasEnded (w ∷ ws))
      → Find ws
      → Find (w ∷ ws)
  pass w ws keep (all_ended h) = all_ended (keep h)
  pass w ws keep (an_idle f) = an_idle (λ b. (w ∷ (f b).0, there w (f b).1))
  pass w ws keep (a_running t f) = a_running t (λ b. (w ∷ (f b).0, there w (f b).1))

  find_worker : (ws : List (Worker Task)) → Find ws
  unfolding pass
  find_worker [] = all_ended tt
  find_worker (idle ∷ ws) = an_idle (λ b. (b ∷ ws, here))
  find_worker (running t ∷ ws) = a_running t (λ b. (b ∷ ws, here))
  find_worker (exited ∷ ws) = pass exited ws (λ h. h) (find_worker ws)
  find_worker (crashed ∷ ws) = pass crashed ws (λ h. h) (find_worker ws)

  -- A step of the program itself, which is no signal.
  abbrev pub GoesOn : Pool Task → Type 0
  GoesOn s = (t : Pool Task) × Step s t × (t.cancelled ≡ s.cancelled)

  GoesOn-closed : (s : Pool Task) → s.phase ≡ closed → Find s.workers → GoesOn s
  GoesOn-closed s p (all_ended h) = (_, join p h, refl)
  GoesOn-closed s p (an_idle f) = (_, leave p (f exited).1, refl)
  GoesOn-closed s p (a_running t f) = (_, finish (f idle).1, refl)

  GoesOn-sending :
      (s : Pool Task) (t : Task) (ts : List Task)
      → s.phase ≡ adding
      → s.pending ≡ t ∷ ts
      → ¬ HasEnded s.workers
      → Find s.workers
      → GoesOn s
  GoesOn-sending s t ts p e n (all_ended h) = absurd (n h)
  GoesOn-sending s t ts p e n (an_idle f) = (_, send p e (f (running t)).1, refl)
  GoesOn-sending s t ts p e n (a_running u f) = (_, finish (f idle).1, refl)

  GoesOn-adding :
      (s : Pool Task) (pending : List Task)
      → s.phase ≡ adding
      → s.pending ≡ pending
      → ¬ HasEnded s.workers
      → GoesOn s
  GoesOn-adding s [] p e n = (_, close p e, refl)
  GoesOn-adding s (t ∷ ts) p e n = GoesOn-sending s t ts p e n (find_worker s.workers)

  GoesOn-cases :
      (s : Pool Task) (phase : Phase)
      → s.phase ≡ phase
      → (s.phase ≡ adding → ¬ HasEnded s.workers)
      → (s.phase ≡ joined) ⊎ GoesOn s
  GoesOn-cases s adding p n = inr (GoesOn-adding s s.pending p refl (n p))
  GoesOn-cases s closed p n = inr (GoesOn-closed s p (find_worker s.workers))
  GoesOn-cases s joined p n = inl p

  -- A pool with at least one worker, none of which has panicked, never blocks: it has been joined,
  -- or the main thread or a worker can take a step, without waiting for a signal.
  pub Reach-progress :
      (n : ℕ) (tasks : List Task) {s : Pool Task}
      → Reach (start_workers (suc n) (new tasks)) s
      → s.lost ≡ []
      → (s.phase ≡ joined) ⊎ GoesOn s
  Reach-progress n tasks {s} r e =
      GoesOn-cases s s.phase refl (λ p. (Reach-IsOrdered n tasks r).staffed p e)

  -- What a pool has left to do: a task is sent and then run, a worker ends, the main thread goes
  -- through its phases, and a signal comes at most once.
  unfoldable left_worker : Worker Task → ℕ
  left_worker (running t) = 2
  left_worker idle = 1
  left_worker _ = 0

  unfoldable left_workers : List (Worker Task) → ℕ
  unfolding left_worker
  left_workers [] = 0
  left_workers (w ∷ ws) = left_worker w + left_workers ws

  unfoldable left : Pool Task → ℕ
  unfolding left_workers left_phase left_signal
  left s =
      2 * length s.pending + left_workers s.workers + left_phase s.phase + left_signal s.cancelled

  Switch-left :
      {a b : Worker Task} {ws vs : List (Worker Task)}
      → Switch a b ws vs
      → left_workers ws + left_worker b ≡ left_workers vs + left_worker a
  unfolding left_workers
  Switch-left here = omega arith
  Switch-left (there w s) = let later = Switch-left s in omega arith

  Step-left : {s t : Pool Task} → Step s t → left t < left s
  unfolding left
  Step-left (interrupt c) = rw c (omega arith)
  Step-left (send p e w) = let moved = Switch-left w in rw (e, p) (omega arith)
  Step-left (refuse p c e) = rw (e, p) (omega arith)
  Step-left (close p e) = rw p (omega arith)
  Step-left (finish w) = let moved = Switch-left w in omega arith
  Step-left (panic w) = let moved = Switch-left w in omega arith
  Step-left (leave p w) = let moved = Switch-left w in omega arith
  Step-left (join p e) = rw p (omega arith)

  unfoldable pub steps : {s t : Pool Task} → Reach s t → ℕ
  steps start = 0
  steps (later r st) = suc (steps r)

  steps-left : {s t : Pool Task} (r : Reach s t) → steps r + left t ≤ left s
  unfolding steps
  steps-left start = omega arith
  steps-left (later r st) = let before = steps-left r in let once = Step-left st in omega arith

  left_workers-idle :
      (ws : List (Worker Task)) → left_workers (ws ++ idle ∷ []) ≡ suc (left_workers ws)
  unfolding left_workers
  left_workers-idle [] = omega arith
  left_workers-idle (w ∷ ws) = let later = left_workers-idle ws in omega arith

  add_worker-left : (s : Pool Task) → left (add_worker s) ≡ suc (left s)
  unfolding left add_worker
  add_worker-left s = rw (left_workers-idle s.workers) (omega arith)

  start_workers-left : (n : ℕ) (s : Pool Task) → left (start_workers n s) ≡ n + left s
  unfolding start_workers
  start_workers-left zero s = omega arith
  start_workers-left (suc n) s =
      let later = start_workers-left n (add_worker s) in let once = add_worker-left s in omega arith

  -- Whatever the workers do and whenever a signal comes, a pool takes at most two steps for each
  -- task, one for each worker, and three more.
  pub steps-le :
      (n : ℕ) (tasks : List Task) {s : Pool Task} (r : Reach (start_workers n (new tasks)) s)
      → steps r ≤ 2 * length tasks + n + 3
  unfolding left
  steps-le n tasks r =
      let all = steps-left r in let first = start_workers-left n (new tasks) in omega arith
