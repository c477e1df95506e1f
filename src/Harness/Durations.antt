-- ===== src/Harness/Durations.antt =====
-- utils.rs, parse_duration_str and HumanReadableDuration, and the same parser in
-- analysis/plot-data/src/config.rs. The units are tried in the order of the code, so that no unit
-- hides behind the last letter of another.
pub mod Fields
use multi_fuzz_benchmarks.Prelude.{
  ℕ, zero, ◌-◌, ◌*◌, ◌/◌, Bool, true, false, Option, none, some, List, [], ◌∷◌, ◌++◌, Text, codes,
  nat_beq, if◌then◌else◌, strip_suffix,
}
use multi_fuzz_benchmarks.Prelude.Maybe.{◌>>=◌}
use multi_fuzz_benchmarks.Prelude.Outcome.{Result, ok, err, ok_or}
use multi_fuzz_benchmarks.Prelude.Radix.{to_decimal}
use multi_fuzz_benchmarks.Rpc.{Duration, from_secs}

-- The `strip_suffix` calls that `or_else` joins.
unfoldable pub strip_any : List Text → Text → Option Text
strip_any [] name = none
strip_any (unit ∷ units) name =
    let rest = strip_any units name in
    elim (strip_suffix unit name) [ some number ↦ some number | none ↦ rest ]

abbrev pub hour_units : List Text
hour_units = codes "hours" ∷ codes "hour" ∷ codes "hrs" ∷ codes "hr" ∷ codes "h" ∷ []

abbrev pub minute_units : List Text
minute_units = codes "minutes" ∷ codes "minute" ∷ codes "mins" ∷ codes "min" ∷ codes "m" ∷ []

abbrev pub second_units : List Text
second_units = codes "seconds" ∷ codes "second" ∷ codes "secs" ∷ codes "sec" ∷ codes "s" ∷ []

-- What the harness uses of `f64`: `str::parse`, the product with 60 and `Duration::from_secs_f64`.
module _ {F64 : Type 0} (parse_f64 : Text → Option F64) (sixty_times : F64 → F64)
    (from_secs_f64 : F64 → Duration) where
  unfoldable pub parse_duration_str : Text → Option Duration
  unfolding strip_any
  parse_duration_str name = elim (strip_any hour_units name) [
    | some hours ↦ do n ← parse_f64 hours; some (from_secs_f64 (sixty_times (sixty_times n)))
    | none ↦ elim (strip_any minute_units name) [
      | some mins ↦ do n ← parse_f64 mins; some (from_secs_f64 (sixty_times n))
      | none ↦ do
        seconds ← strip_any second_units name
        n ← parse_f64 seconds
        some (from_secs_f64 n)
    ]
  ]

  -- What `parse_duration` visits.
  pub data Value : Type 0 where
    float : F64 → Value
    whole : ℕ → Value
    text : Text → Value

  unfoldable pub parse_duration : Value → Result Text Duration
  unfolding parse_duration_str
  parse_duration (float v) = ok (from_secs_f64 v)
  parse_duration (whole v) = ok (from_secs v)
  parse_duration (text v) = ok_or (parse_duration_str v) (codes "invalid time format: " ++ v)

-- The days, hours, minutes and seconds of `Display` for a `HumanReadableDuration`.
unfoldable pub fields_of : ℕ → ℕ × ℕ × ℕ × ℕ
fields_of seconds =
    let minutes = seconds / 60 in
    let hours = minutes / 60 in
    let days = hours / 24 in (days, hours - 24 * days, minutes - 60 * hours, seconds - 60 * minutes)

-- A field of the text, which is left out if it is zero.
unfoldable pub field : ℕ → Text → Text
field n unit = if nat_beq n 0 then [] else to_decimal n ++ unit

unfoldable pub display : ℕ → Text
unfolding fields_of field
display seconds =
    let (days, hours, minutes, rest) = fields_of seconds in
    field days (codes " days ")
    ++ (field hours (codes " hours ")
        ++ (field minutes (codes " mins ") ++ field rest (codes " seconds")))
