-- ===== src/Harness/Durations/Fields.antt =====
-- utils.rs, HumanReadableDuration: the fields of a duration.
use multi_fuzz_benchmarks.Prelude.{ℕ, ◌+◌, ◌*◌, ◌<◌, ◌≡◌, arith}
use multi_fuzz_benchmarks.Harness.Durations.{fields_of}

-- The fields of a duration add up to it, and none but the days is more than its unit holds.
pub fields_of-sum :
    (seconds : ℕ)
    → ((((fields_of seconds).0 * 24 + (fields_of seconds).1) * 60 + (fields_of seconds).2) * 60
          + (fields_of seconds).3
        ≡ seconds)
      × ((fields_of seconds).1 < 24)
      × ((fields_of seconds).2 < 60)
      × ((fields_of seconds).3 < 60)
unfolding fields_of
fields_of-sum seconds = (omega arith, omega arith, omega arith, omega arith)
