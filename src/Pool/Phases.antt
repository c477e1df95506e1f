-- ===== src/Pool/Phases.antt =====
-- worker.rs: what holds of a pool in each phase of the main thread.
use multi_fuzz_benchmarks.Prelude.{ℕ, zero, suc, false, List, [], ◌∷◌, ◌++◌, ◌≡◌, refl}
use multi_fuzz_benchmarks.Pool.{
  Worker, idle, exited, crashed, running, adding, joined, Pool, new, add_worker, start_workers,
  Switch, here, there, HasEnded, Step, interrupt, send, refuse, close, finish, panic, leave, join,
  Reach, start, later,
}

module _ {Task : Type 0} where
  -- A pool with a worker sends all of its tasks, unless it is cancelled, before it closes, and is
  -- joined after its workers have ended; while it adds tasks, a worker is there until one panics.
  pub record IsOrdered (s : Pool Task) : Type 0 where
    pub unsent : ¬ (s.phase ≡ adding) → s.pending ≡ []
    pub ended : s.phase ≡ joined → HasEnded s.workers
    pub accepted : s.cancelled ≡ false → s.refused ≡ []
    pub staffed : s.phase ≡ adding → s.lost ≡ [] → ¬ HasEnded s.workers

  HasEnded-cons :
      (w : Worker Task) (ws : List (Worker Task))
      → HasEnded (w ∷ ws)
      → HasEnded (w ∷ []) × HasEnded ws
  HasEnded-cons exited ws h = (tt, h)
  HasEnded-cons crashed ws h = (tt, h)
  HasEnded-cons idle ws h = absurd h
  HasEnded-cons (running t) ws h = absurd h

  -- A worker that runs or waits keeps the pool going.
  Switch-busy :
      {a b : Worker Task} {ws vs : List (Worker Task)}
      → Switch a b ws vs
      → ¬ HasEnded (b ∷ [])
      → ¬ HasEnded vs
  Switch-busy {b} (here {ws}) n h = n (HasEnded-cons b ws h).0
  Switch-busy (there w {ws} {vs} s) n h = Switch-busy s n (HasEnded-cons w vs h).1

  -- A worker that ran or waited was no worker of a joined pool.
  Switch-not_ended :
      {a b : Worker Task} {ws vs : List (Worker Task)}
      → Switch a b ws vs
      → ¬ HasEnded (a ∷ [])
      → ¬ HasEnded ws
  Switch-not_ended {a} (here {ws}) n h = n (HasEnded-cons a ws h).0
  Switch-not_ended (there w {ws} {vs} s) n h = Switch-not_ended s n (HasEnded-cons w ws h).1

  Step-IsOrdered : {s t : Pool Task} → Step s t → IsOrdered s → IsOrdered t
  Step-IsOrdered (interrupt c) o = record {
    unsent = o.unsent;
    ended = o.ended;
    accepted = λ e. absurd (cc);
    staffed = o.staffed;
  }
  Step-IsOrdered (send p e w) o = record {
    unsent = λ n. absurd (n p);
    ended = λ j. absurd (cc);
    accepted = o.accepted;
    staffed = λ _ _. Switch-busy w (λ h. h);
  }
  Step-IsOrdered (refuse p c e) o = record {
    unsent = λ _. refl;
    ended = λ j. absurd (cc);
    accepted = λ f. absurd (cc);
    staffed = λ q. absurd (cc);
  }
  Step-IsOrdered (close p e) o = record {
    unsent = λ _. e;
    ended = λ j. absurd (cc);
    accepted = o.accepted;
    staffed = λ q. absurd (cc);
  }
  Step-IsOrdered (finish w) o = record {
    unsent = o.unsent;
    ended = λ j. absurd (Switch-not_ended w (λ h. h) (o.ended j));
    accepted = o.accepted;
    staffed = λ _ _. Switch-busy w (λ h. h);
  }
  Step-IsOrdered (panic w) o = record {
    unsent = o.unsent;
    ended = λ j. absurd (Switch-not_ended w (λ h. h) (o.ended j));
    accepted = o.accepted;
    staffed = λ _ q. absurd (cc);
  }
  Step-IsOrdered (leave p w) o = record {
    unsent = o.unsent;
    ended = λ j. absurd (cc);
    accepted = o.accepted;
    staffed = λ q. absurd (cc);
  }
  Step-IsOrdered (join p e) o = record {
    unsent = λ _. o.unsent (λ q. absurd (cc));
    ended = λ _. e;
    accepted = o.accepted;
    staffed = λ q. absurd (cc);
  }

  idle_last : (ws : List (Worker Task)) → ¬ HasEnded (ws ++ idle ∷ [])
  idle_last [] h = h
  idle_last (exited ∷ ws) h = idle_last ws h
  idle_last (crashed ∷ ws) h = idle_last ws h
  idle_last (idle ∷ ws) h = h
  idle_last (running t ∷ ws) h = h

  add_worker-IsOrdered :
      (s : Pool Task) → s.phase ≡ adding → s.refused ≡ [] → IsOrdered (add_worker s)
  unfolding add_worker
  add_worker-IsOrdered s p e = record {
    unsent = λ n. absurd (n p);
    ended = λ j. absurd (cc);
    accepted = λ _. e;
    staffed = λ _ _. idle_last s.workers;
  }

  start_workers-IsOrdered :
      (n : ℕ) (s : Pool Task)
      → s.phase ≡ adding
      → s.refused ≡ []
      → IsOrdered (start_workers (suc n) s)
  unfolding start_workers add_worker
  start_workers-IsOrdered zero s p e = add_worker-IsOrdered s p e
  start_workers-IsOrdered (suc n) s p e = start_workers-IsOrdered n (add_worker s) p e

  pub Reach-IsOrdered :
      (n : ℕ) (tasks : List Task) {s : Pool Task}
      → Reach (start_workers (suc n) (new tasks)) s
      → IsOrdered s
  Reach-IsOrdered n tasks start = start_workers-IsOrdered n (new tasks) refl refl
  Reach-IsOrdered n tasks (later r st) = Step-IsOrdered st (Reach-IsOrdered n tasks r)
