-- ===== src/Harness/Waiting.antt =====
-- utils.rs, wait_for_process_timeout: polling a process until it ends or the time is over.
pub mod Polls
use multi_fuzz_benchmarks.Prelude.{
  ℕ, zero, suc, ◌-◌, ◌/◌, Bool, true, false, Option, none, some, ltb,
}
use multi_fuzz_benchmarks.Prelude.Outcome.{Result, ok, err}
use multi_fuzz_benchmarks.Rpc.{Duration}

-- `SLEEP_TIME`: ten milliseconds.
abbrev pub sleep_time : Duration
sleep_time = 10000000

-- Over what the calls of `try_wait` will give, by their number.
module _ {Error Exit : Type 0} (try_wait : ℕ → Result Error (Option Exit)) where
  -- The `loop` from the given poll on; `None` says that the rounds were used up.
  unfoldable pub wait_loop : ℕ → ℕ → Duration → Option (Result Error (Option Exit))
  wait_loop zero poll remaining_time = none
  wait_loop (suc rounds) poll remaining_time = elim (try_wait poll) [
    | err e ↦ some (err e)
    | ok found ↦ elim found [
      | some exit ↦ some (ok (some exit))
      | none ↦ elim (ltb remaining_time sleep_time) [
        | true ↦ some (ok none)
        | false ↦ wait_loop rounds (suc poll) (remaining_time - sleep_time)
      ]
    ]
  ]

  unfoldable pub wait_for_process_timeout : Duration → Option (Result Error (Option Exit))
  unfolding wait_loop
  wait_for_process_timeout timeout = wait_loop (suc (timeout / sleep_time)) 0 timeout
