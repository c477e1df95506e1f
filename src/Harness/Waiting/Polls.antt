-- ===== src/Harness/Waiting/Polls.antt =====
-- utils.rs, wait_for_process_timeout: how often a process is polled.
use multi_fuzz_benchmarks.Prelude.{
  ℕ, zero, suc, ◌+◌, ◌-◌, ◌*◌, ◌/◌, ◌≤◌, ◌<◌, ◌≡◌, refl, arith, false, lt→ltb, Option, none, some,
  ltb,
}
use multi_fuzz_benchmarks.Prelude.Outcome.{Result, ok, err}
use multi_fuzz_benchmarks.Rpc.{Duration}
use multi_fuzz_benchmarks.Harness.Waiting.{sleep_time, wait_loop, wait_for_process_timeout}

module _ {Error Exit : Type 0} (try_wait : ℕ → Result Error (Option Exit)) where
  same :
      (r : Result Error (Option Exit)) {loop : Option (Result Error (Option Exit))}
      {later : Result Error (Option Exit)}
      → loop ≡ some later
      → elim r as (λ _. Option (Result Error (Option Exit))) [
        | err e ↦ some (err e)
        | ok found ↦ elim found [ some exit ↦ some (ok (some exit)) | none ↦ loop ]
      ]
        ≡ some (elim r as (λ _. Result Error (Option Exit)) [
          | err e ↦ err e
          | ok found ↦ elim found [ some exit ↦ ok (some exit) | none ↦ later ]
        ])
  same (err e) h = refl
  same (ok (some exit)) h = refl
  same (ok none) h = h

  -- What the first of so many polls gives that finds an error or the end of the process.
  unfoldable pub first_found : ℕ → ℕ → Result Error (Option Exit)
  first_found zero poll = ok none
  first_found (suc polls) poll = elim (try_wait poll) [
    | err e ↦ err e
    | ok found ↦ elim found [ some exit ↦ ok (some exit) | none ↦ first_found polls (suc poll) ]
  ]

  wait_loop-first_found :
      (n poll : ℕ) (remaining : Duration)
      → n * sleep_time ≤ remaining
      → remaining < (n + 1) * sleep_time
      → wait_loop try_wait (suc n) poll remaining ≡ some (first_found (suc n) poll)
  unfolding wait_loop first_found
  wait_loop-first_found zero poll remaining lo hi =
      let last = lt→ltb remaining sleep_time (omega arith) in same (try_wait poll) (rw last refl)
  wait_loop-first_found (suc n) poll remaining lo hi =
      let more : ltb remaining sleep_time ≡ false = ground arith in
      let next =
        wait_loop-first_found n (suc poll) (remaining - sleep_time) (omega arith) (omega arith) in
      same (try_wait poll) (rw more next)

  -- The wait ends by itself after one poll and one more for each ten milliseconds of the timeout, at
  -- most, and gives what the first poll found that was an error or the end of the process, or `None`.
  pub wait_for_process_timeout-first_found :
      (timeout : Duration)
      → wait_for_process_timeout try_wait timeout
        ≡ some (first_found (suc (timeout / sleep_time)) 0)
  unfolding wait_for_process_timeout
  wait_for_process_timeout-first_found timeout =
      wait_loop-first_found (timeout / sleep_time) 0 timeout (omega arith) (omega arith)
