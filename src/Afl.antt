-- ===== src/Afl.antt =====
-- bench-harness/bench-harness/src/afl.rs: inputs and plot data of AFL++.
pub mod Errors
use multi_fuzz_benchmarks.Prelude.{
  ℕ, zero, suc, ◌+◌, ◌-◌, ◌/◌, ◌%◌, Bool, true, false, not, ◌||◌, Option, none, some, List, [], ◌∷◌,
  ◌++◌, if◌then◌else◌, ltb, Text, codes, split_once, strip_char,
}
use multi_fuzz_benchmarks.Prelude.Maybe.{◌>>=◌}
use multi_fuzz_benchmarks.Prelude.Radix.{from_str_radix, u64_mod}
use multi_fuzz_benchmarks.Prelude.Outcome.{Result, ok, err, to_option}
use multi_fuzz_benchmarks.Rpc.{DirEntry}

-- The fold over the deserialised rows of `parse_plot_data`: a bad row is left out, and the
-- eleventh one ends the parse with its error.
unfoldable pub parse_rows {ℓ κ} :
    {E : Type κ} {T : Type ℓ} → ℕ → List T → List (Result E T) → Result E (List T)
parse_rows total_errors out [] = ok out
parse_rows total_errors out (ok data' ∷ rows) = parse_rows total_errors (out ++ data' ∷ []) rows
parse_rows total_errors out (err e ∷ rows) =
    let rest = parse_rows (total_errors + 1) out rows in
    if ltb 10 (total_errors + 1) then err e else rest

unfoldable pub parse_plot_data {ℓ κ} :
    {E : Type κ} {T : Type ℓ} → List (Result E T) → Result E (List T)
unfolding parse_rows
parse_plot_data rows = parse_rows 0 [] rows

-- The number that follows a tag in a file name: `<tag>` and one character that is no digit, then
-- the digits up to a comma.
unfoldable pub tagged_number : (ℕ → Bool) → Text → Text → Option ℕ
unfolding split_once
tagged_number is_numeric tag name = do
  parts ← split_once tag name
  rest ← strip_char (λ c. not (is_numeric c)) parts.1
  digits ← split_once (codes ",") rest
  to_option (from_str_radix 10 digits.0)

-- `get_relative_time`, over the name of the file.
unfoldable pub get_relative_time : (ℕ → Bool) → Option Text → DirEntry → ℕ → ℕ
unfolding tagged_number
get_relative_time is_numeric file_name file start_time =
    elim (file_name >>= tagged_number is_numeric (codes "time")) [
      | some time ↦ time
      | none ↦
          if ltb file.modified start_time
          then 0
          else ((file.modified - start_time) / 1000000) % u64_mod
    ]

unfoldable pub get_input_id : (ℕ → Bool) → Option Text → Option ℕ
unfolding tagged_number
get_input_id is_numeric file_name = file_name >>= tagged_number is_numeric (codes "id")
