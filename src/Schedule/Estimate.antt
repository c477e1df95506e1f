-- ===== src/Schedule/Estimate.antt =====
-- main.rs: bounds on the estimated duration of a benchmark.
use multi_fuzz_benchmarks.Prelude.{
  true, ℕ, zero, suc, ◌+◌, ◌-◌, ◌*◌, ◌≤◌, ◌<◌, min, max, some, List, [], ◌∷◌, ◌≡◌, refl, sym, ap,
  ◌∙◌, arith, length, leb, le→leb, leb→le, Bool-cases, inl, inr,
}
use mathlib.Core.Path.{subst}
use native.Mathlib.Nat.{suc-mul}
use multi_fuzz_benchmarks.Rpc.{Duration}
use multi_fuzz_benchmarks.Prelude.Maybe.{◌>>=◌}
use multi_fuzz_benchmarks.Schedule.{
  duration_max, add_durations, push_time, free_times, assign, last_time, estimate_total_duration,
}

unfoldable pub total : List Duration → Duration
total [] = 0
total (t ∷ ts) = t + total ts

-- All times are up to a bound.
abbrev IsUpTo : Duration → List Duration → Type 0
IsUpTo top [] = Unit
IsUpTo top (t ∷ ts) = (t ≤ top) × IsUpTo top ts

-- The times rise, from a first one on.
abbrev IsRising : Duration → List Duration → Type 0
IsRising low [] = Unit
IsRising low (t ∷ ts) = (low ≤ t) × IsRising t ts

push_time-total : (t : Duration) (heap : List Duration) → total (push_time t heap) ≡ t + total heap
unfolding push_time total
push_time-total t [] = refl
push_time-total t (u ∷ heap) = ground (arith, push_time-total t heap)

push_time-length :
    (t : Duration) (heap : List Duration) → length (push_time t heap) ≡ suc (length heap)
unfolding push_time
push_time-length t [] = refl
push_time-length t (u ∷ heap) = ground (arith, push_time-length t heap)

push_time-IsUpTo :
    (top t : Duration) (heap : List Duration)
    → t ≤ top
    → IsUpTo top heap
    → IsUpTo top (push_time t heap)
unfolding push_time
push_time-IsUpTo top t [] h b = (h, tt)
push_time-IsUpTo top t (u ∷ heap) h b = ground (arith, push_time-IsUpTo top t heap h b.1)

IsUpTo-weaken :
    (low top : Duration) (heap : List Duration) → low ≤ top → IsUpTo low heap → IsUpTo top heap
IsUpTo-weaken low top [] h b = tt
IsUpTo-weaken low top (t ∷ heap) h b = (omega arith, IsUpTo-weaken low top heap h b.1)

free_times-length : (n : ℕ) → length (free_times n) ≡ n
unfolding free_times
free_times-length zero = refl
free_times-length (suc n) =
    push_time-length (n * 100000000) (free_times n) ∙ ap suc (free_times-length n)

-- No worker starts behind the last one.
free_times-IsUpTo : (n : ℕ) → IsUpTo (n * 100000000) (free_times (suc n))
unfolding free_times push_time
free_times-IsUpTo zero = (omega arith, tt)
free_times-IsUpTo (suc n) =
    push_time-IsUpTo (suc n * 100000000) (suc n * 100000000) (free_times (suc n)) (omega arith) (
      IsUpTo-weaken (n * 100000000) (suc n * 100000000) (free_times (suc n)) (omega arith)
        (free_times-IsUpTo n))

push_time-IsRising :
    (low t : Duration) (heap : List Duration)
    → low ≤ t
    → IsRising low heap
    → IsRising low (push_time t heap)
unfolding push_time
push_time-IsRising low t [] h r = (h, tt)
push_time-IsRising low t (u ∷ heap) h r = elim (Bool-cases (leb t u)) [
  | inl l ↦ rw l (h, (leb→le t u l, r.1))
  | inr l ↦ rw l (r.0, push_time-IsRising u t heap (ground arith) r.1)
]

IsRising-from :
    (low t : Duration) (heap : List Duration) → low ≤ t → IsRising t heap → IsRising low heap
IsRising-from low t [] h r = tt
IsRising-from low t (u ∷ heap) h r = (omega arith, r.1)

free_times-IsRising : (n : ℕ) → IsRising 0 (free_times n)
unfolding free_times
free_times-IsRising zero = tt
free_times-IsRising (suc n) =
    push_time-IsRising 0 (n * 100000000) (free_times n) (omega arith) (free_times-IsRising n)

-- The last of rising times is no earlier than any of them.
total-last_time :
    (low : Duration) (heap : List Duration)
    → IsRising low heap
    → (low ≤ last_time low heap) × (total heap ≤ length heap * last_time low heap)
unfolding last_time total
total-last_time low [] r = (omega arith, omega arith)
total-last_time low (t ∷ heap) r =
    let (later, rest) = total-last_time t heap r.1 in (omega arith, rw suc-mul (omega arith))

last_time-le :
    (current top : Duration) (heap : List Duration)
    → current ≤ top
    → IsUpTo top heap
    → last_time current heap ≤ top
unfolding last_time
last_time-le current top [] h b = h
last_time-le current top (t ∷ heap) h b = last_time-le t top heap b.0 b.1

-- A time that is pushed makes the last one no earlier, and is no later itself.
last_time-push_time :
    (low current t : Duration) (heap : List Duration)
    → current ≤ t
    → IsRising current heap
    → (t ≤ last_time low (push_time t heap))
      × (last_time current heap ≤ last_time low (push_time t heap))
unfolding last_time push_time
last_time-push_time low current t [] h r = (omega arith, h)
last_time-push_time low current t (u ∷ heap) h r = elim (Bool-cases (leb t u)) [
  | inl l ↦
      let (le, _) = total-last_time u heap r.1 in
      let before = leb→le t u l in rw (l, push_time) (omega arith, omega arith)
  | inr l ↦ rw (l, push_time) (last_time-push_time u u t heap (ground arith) r.1)
]

free_times-last : (n : ℕ) → n * 100000000 ≤ last_time 0 (free_times (suc n))
unfolding free_times last_time push_time
free_times-last n =
    (last_time-push_time 0 0 (n * 100000000) (free_times n) (omega arith) (free_times-IsRising n)).0

-- With room for all tasks, every one is given to a worker: no worker is lost, all work is in the
-- heap, and no time passes the bound by more than the work.
assign-total :
    (top start : Duration) (heap tasks : List Duration)
    → 0 < length heap
    → IsUpTo top heap
    → IsRising 0 heap
    → start ≤ last_time 0 heap
    → top + total tasks ≤ duration_max
    → (done : List Duration) × (assign heap tasks ≡ some done)
      × (length done ≡ length heap)
      × (total done ≡ total heap + total tasks)
      × IsUpTo (top + total tasks) done
      × IsRising 0 done
      × (start ≤ last_time 0 done)
unfolding assign total add_durations last_time
assign-total top start heap [] n b r s m =
    (heap, refl, refl, omega arith, IsUpTo-weaken top (top + 0) heap (omega arith) b, r, s)
assign-total top start [] (task ∷ tasks) n b r s m = absurd (omega arith)
assign-total top start (current_time ∷ heap) (task ∷ tasks) n b r s m =
    let t = current_time + task in
    let fits : leb t duration_max ≡ true = le→leb t duration_max (omega arith) in
    let up : IsUpTo (top + task) (push_time t heap) =
      push_time-IsUpTo (top + task) t heap (omega arith)
        (IsUpTo-weaken top (top + task) heap (omega arith) b.1) in
    let long = push_time-length t heap in
    let worked = push_time-total t heap in
    let later = last_time-push_time 0 current_time t heap (omega arith) r.1 in
    let (done, run, length', total', up', rising', late') =
      assign-total (top + task) start (push_time t heap) tasks (omega arith) up
        (push_time-IsRising 0 t heap (omega arith)
          (IsRising-from 0 current_time heap (omega arith) r.1))
        (omega arith) (omega arith) in
    rw fits (
      done,
      run,
      length' ∙ long,
      omega arith,
      IsUpTo-weaken ((top + task) + total tasks) (top + (task + total tasks)) done (omega arith)
          up',
      rising',
      late',
    )

-- When no sum of durations is out of range, the estimate exists. It is no shorter than the work
-- shared out evenly among the workers, no shorter than the start of the last worker, and no longer
-- than all of the work behind that start, where each worker starts 100 milliseconds behind the one
-- before.
pub estimate_total_duration-bounds :
    (tasks : List Duration) (workers : ℕ)
    → (max 1 (min workers 10000) - 1) * 100000000 + total tasks ≤ duration_max
    → (time : Duration) × (estimate_total_duration tasks workers ≡ some time)
      × (total tasks ≤ max 1 (min workers 10000) * time)
      × ((max 1 (min workers 10000) - 1) * 100000000 ≤ time)
      × (time ≤ (max 1 (min workers 10000) - 1) * 100000000 + total tasks)
unfolding estimate_total_duration
estimate_total_duration-bounds tasks workers m =
    let k = max 1 (min workers 10000) - 1 in
    let count : max 1 (min workers 10000) ≡ suc k = omega arith in
    let long = free_times-length (suc k) in
    let (done, run, length', total', up, rising, late) =
      assign-total (k * 100000000) (k * 100000000) (free_times (suc k)) tasks (omega arith)
        (free_times-IsUpTo k) (free_times-IsRising (suc k)) (free_times-last k) m in
    let (_, shared) = total-last_time 0 done rising in
    let n = max 1 (min workers 10000) in
    let work : total done ≤ n * last_time 0 done =
      subst (λ n. total done ≤ n * last_time 0 done) (length' ∙ long ∙ sym count) shared in
    let given : assign (free_times n) tasks ≡ some done =
      subst (λ n. assign (free_times n) tasks ≡ some done) (sym count) run in
    rw (given, ◌>>=◌)
      (
        last_time 0 done,
        refl,
        omega arith,
        late,
        last_time-le 0 (k * 100000000 + total tasks) done (omega arith) up,
      )
