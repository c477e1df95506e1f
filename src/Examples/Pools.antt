-- ===== src/Examples/Pools.antt =====
-- A pool of one worker that runs one task.
use multi_fuzz_benchmarks.Prelude.{ℕ, ◌+◌, ◌*◌, ◌≤◌, false, List, [], ◌∷◌, ◌≡◌, refl, ◌⊎◌, length}
use multi_fuzz_benchmarks.Pool.{
  exited, running, adding, joined, Pool, new, add_worker, start_workers, here, send, close, finish,
  leave, join, Reach, start, later,
}
use multi_fuzz_benchmarks.Pool.Conserved.{total, joined-total}
use multi_fuzz_benchmarks.Pool.Progress.{GoesOn, Reach-progress, steps, steps-le}

abbrev one_task : List ℕ
one_task = 7 ∷ []

abbrev busy : Pool ℕ
busy = record {
  phase = adding;
  cancelled = false;
  workers = running 7 ∷ [];
  pending = [];
  done = [];
  lost = [];
  refused = [];
}

abbrev finished : Pool ℕ
finished = record {
  phase = joined;
  cancelled = false;
  workers = exited ∷ [];
  pending = [];
  done = 7 ∷ [];
  lost = [];
  refused = [];
}

to_busy : Reach (start_workers 1 (new one_task)) busy
unfolding start_workers add_worker
to_busy = later start (send refl refl here)

to_finished : Reach (start_workers 1 (new one_task)) finished
to_finished =
    later (later (later (later to_busy (finish here)) (close refl refl)) (leave refl here))
      (join refl tt)

joined-total_example :
    (total (λ x. x) finished.done + total (λ x. x) finished.lost + total (λ x. x) finished.refused
      ≡ total (λ x. x) one_task)
    × (finished.cancelled ≡ false → finished.refused ≡ [])
joined-total_example = joined-total (λ x. x) 0 one_task to_finished refl

Reach-progress_example : (busy.phase ≡ joined) ⊎ GoesOn busy
Reach-progress_example = Reach-progress 0 one_task to_busy refl

steps-le_example : steps to_finished ≤ 2 * length one_task + 1 + 3
steps-le_example = steps-le 1 one_task to_finished
