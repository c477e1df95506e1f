-- ===== src/Pool/Conserved.antt =====
-- worker.rs: no task of a pool is lost track of, run twice, or made up.
use multi_fuzz_benchmarks.Prelude.{
  ℕ, zero, suc, ◌+◌, false, List, [], ◌∷◌, ◌++◌, ◌≡◌, refl, ap, ◌∙◌, arith,
}
use multi_fuzz_benchmarks.Pool.Phases.{Reach-IsOrdered}
use multi_fuzz_benchmarks.Pool.{
  Worker, idle, exited, crashed, running, joined, Pool, new, add_worker, start_workers, Switch,
  here, there, HasEnded, Step, interrupt, send, refuse, close, finish, panic, leave, join, Reach,
  start, later,
}

module _ {Task : Type 0} (weight : Task → ℕ) where
  unfoldable pub total : List Task → ℕ
  total [] = 0
  total (t ∷ ts) = weight t + total ts

  unfoldable pub held : Worker Task → ℕ
  held (running t) = weight t
  held _ = 0

  unfoldable pub total_held : List (Worker Task) → ℕ
  unfolding held
  total_held [] = 0
  total_held (w ∷ ws) = held w + total_held ws

  -- All tasks of a pool, wherever they are.
  unfoldable pub everything : Pool Task → ℕ
  unfolding total total_held
  everything s =
      total s.pending + total_held s.workers + total s.done + total s.lost + total s.refused

  total-append : (ts us : List Task) → total (ts ++ us) ≡ total ts + total us
  unfolding total
  total-append [] us = omega arith
  total-append (t ∷ ts) us = omega (arith, total-append ts us)

  Switch-held :
      {a b : Worker Task} {ws vs : List (Worker Task)}
      → Switch a b ws vs
      → total_held ws + held b ≡ total_held vs + held a
  unfolding total_held
  Switch-held here = omega arith
  Switch-held (there w s) = let later = Switch-held s in omega arith

  Step-everything : {s t : Pool Task} → Step s t → everything t ≡ everything s
  unfolding everything held total
  Step-everything (interrupt c) = refl
  Step-everything {s} (send {t} {ts} {vs} p e w) = let moved = Switch-held w in rw e (omega arith)
  Step-everything {s} (refuse p c e) = rw (total-append s.pending s.refused) (omega arith)
  Step-everything (close p e) = refl
  Step-everything (finish w) = let moved = Switch-held w in omega arith
  Step-everything (panic w) = let moved = Switch-held w in omega arith
  Step-everything (leave p w) = let moved = Switch-held w in omega arith
  Step-everything (join p e) = refl

  Reach-everything : {s t : Pool Task} → Reach s t → everything t ≡ everything s
  Reach-everything start = refl
  Reach-everything (later r st) = Step-everything st ∙ Reach-everything r

  HasEnded-held : (ws : List (Worker Task)) → HasEnded ws → total_held ws ≡ 0
  unfolding total_held
  HasEnded-held [] h = refl
  HasEnded-held (exited ∷ ws) h = omega (arith, HasEnded-held ws h)
  HasEnded-held (crashed ∷ ws) h = omega (arith, HasEnded-held ws h)
  HasEnded-held (idle ∷ ws) h = absurd h
  HasEnded-held (running t ∷ ws) h = absurd h

  total_held-idle : (ws : List (Worker Task)) → total_held (ws ++ idle ∷ []) ≡ total_held ws
  unfolding total_held
  total_held-idle [] = omega arith
  total_held-idle (w ∷ ws) = omega (arith, total_held-idle ws)

  add_worker-everything : (s : Pool Task) → everything (add_worker s) ≡ everything s
  unfolding everything add_worker
  add_worker-everything s = rw (total_held-idle s.workers) refl

  start_workers-everything : (n : ℕ) (s : Pool Task) → everything (start_workers n s) ≡ everything s
  unfolding start_workers
  start_workers-everything zero s = refl
  start_workers-everything (suc n) s =
      start_workers-everything n (add_worker s) ∙ add_worker-everything s

  -- However the workers interleave: when the pool has been joined, the tasks that were run to their
  -- end, those whose worker panicked and those that a cancellation refused are the tasks of the
  -- benchmark, each of them as often as it was there; without a cancellation none is refused.
  pub joined-total :
      (n : ℕ) (tasks : List Task) {s : Pool Task}
      → Reach (start_workers (suc n) (new tasks)) s
      → s.phase ≡ joined
      → (total s.done + total s.lost + total s.refused ≡ total tasks)
        × (s.cancelled ≡ false → s.refused ≡ [])
  unfolding everything total
  joined-total n tasks {s} r j =
      let ordered = Reach-IsOrdered n tasks r in
      let all = Reach-everything r ∙ start_workers-everything (suc n) (new tasks) in
      let none_held = HasEnded-held s.workers (ordered.ended j) in
      let none_pending : total s.pending ≡ 0 = ap total (ordered.unsent (λ e. absurd (cc))) in
      (omega arith, ordered.accepted)
