-- ===== src/Pool.antt =====
-- bench-harness/bench-harness/src/worker.rs, WorkerPool: the main thread hands the tasks of a
-- benchmark to the threads of the pool, in any interleaving.
pub mod Phases
pub mod Conserved
pub mod Progress
use multi_fuzz_benchmarks.Prelude.{ℕ, zero, suc, Bool, true, false, List, [], ◌∷◌, ◌++◌, ◌≡◌}

-- A thread of the pool: it waits for a task, runs one, has left its loop, or has panicked.
pub data Worker (Task : Type 0) : Type 0 where
  idle exited crashed : Worker Task
  running : Task → Worker Task

-- The main thread: `task_sender` is there, has been dropped, and all workers have been joined.
pub data Phase : Type 0 where
  adding closed joined : Phase

-- `WorkerPool`, with the tasks that the main thread has still to add. `done`, `lost` and `refused`
-- are the tasks that were run to their end, whose worker panicked, and that were never sent.
pub record Pool (Task : Type 0) : Type 0 where
  pub phase : Phase
  pub cancelled : Bool
  pub workers : List (Worker Task)
  pub pending : List Task
  pub done : List Task
  pub lost : List Task
  pub refused : List Task

-- `WorkerPool::new`.
abbrev pub new : {Task : Type 0} → List Task → Pool Task
new tasks = record {
  phase = adding;
  cancelled = false;
  workers = [];
  pending = tasks;
  done = [];
  lost = [];
  refused = [];
}

module _ {Task : Type 0} where
  unfoldable pub add_worker : Pool Task → Pool Task
  add_worker self = record self { workers = self.workers ++ idle ∷ [] }

  -- One worker of the list changes.
  pub data Switch (a b : Worker Task) : List (Worker Task) → List (Worker Task) → Type 0 where
    here : {ws : List (Worker Task)} → Switch a b (a ∷ ws) (b ∷ ws)
    there :
        (w : Worker Task) {ws vs : List (Worker Task)}
        → Switch a b ws vs
        → Switch a b (w ∷ ws) (w ∷ vs)

  abbrev pub HasEnded : List (Worker Task) → Type 0
  HasEnded [] = Unit
  HasEnded (exited ∷ ws) = HasEnded ws
  HasEnded (crashed ∷ ws) = HasEnded ws
  HasEnded (idle ∷ ws) = ⊥
  HasEnded (running t ∷ ws) = ⊥

  pub data Step (s : Pool Task) : Pool Task → Type 0 where
    -- The handler of the signal.
    interrupt : s.cancelled ≡ false → Step s (record s { cancelled = true })
    -- `add_task`: the send meets a worker that receives.
    send :
        {t : Task} {ts : List Task} {vs : List (Worker Task)}
        → s.phase ≡ adding
        → s.pending ≡ t ∷ ts
        → Switch idle (running t) s.workers vs
        → Step s (record s { pending = ts; workers = vs })
    -- `add_task` finds the cancellation: its error ends the benchmark, and dropping the pool waits
    -- for the workers.
    refuse :
        {t : Task} {ts : List Task}
        → s.phase ≡ adding
        → s.cancelled ≡ true
        → s.pending ≡ t ∷ ts
        → Step s (record s { phase = closed; pending = []; refused = s.pending ++ s.refused })
    -- `wait_for_workers` drops the sender.
    close : s.phase ≡ adding → s.pending ≡ [] → Step s (record s { phase = closed })
    -- `worker(task)` returns; its error is logged.
    finish :
        {t : Task} {vs : List (Worker Task)}
        → Switch (running t) idle s.workers vs
        → Step s (record s { workers = vs; done = t ∷ s.done })
    -- `worker(task)` panics.
    panic :
        {t : Task} {vs : List (Worker Task)}
        → Switch (running t) crashed s.workers vs
        → Step s (record s { workers = vs; lost = t ∷ s.lost })
    -- The `for` loop of a worker ends when the channel is closed.
    leave :
        {vs : List (Worker Task)}
        → s.phase ≡ closed
        → Switch idle exited s.workers vs
        → Step s (record s { workers = vs })
    -- `wait_for_workers` has joined all workers.
    join : s.phase ≡ closed → HasEnded s.workers → Step s (record s { phase = joined })

  -- The states that a pool can come to.
  pub data Reach (s : Pool Task) : Pool Task → Type 0 where
    start : Reach s s
    later : {t u : Pool Task} → Reach s t → Step t u → Reach s u

-- `start_workers`: a pool with `n` workers.
unfoldable pub start_workers : {Task : Type 0} → ℕ → Pool Task → Pool Task
unfolding add_worker
start_workers zero self = self
start_workers (suc n) self = start_workers n (add_worker self)
