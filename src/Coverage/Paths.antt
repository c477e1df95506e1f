-- ===== src/Coverage/Paths.antt =====
-- lib.rs, parse_u64_with_prefix, and what ember.rs, fuzzware.rs and multifuzz.rs read from the
-- paths of the result files: the binary and the trial.
pub mod Ember
use multi_fuzz_benchmarks.Prelude.{
  ℕ, zero, suc, ◌+◌, ◌-◌, ◌%◌, ◌^◌, Bool, true, false, Option, none, some, List, [], ◌∷◌, ◌++◌,
  Text, codes, ◌==◌, text_eq, drop, ltb, nat_beq, if◌then◌else◌, split_once, split_once_on,
  rsplit_once_on, strip_suffix,
}
use multi_fuzz_benchmarks.Prelude.Maybe.{◌>>=◌}
use multi_fuzz_benchmarks.Prelude.Outcome.{Result, to_option}
use multi_fuzz_benchmarks.Prelude.Radix.{ParseIntError, from_str_radix}
use multi_fuzz_benchmarks.Coverage.Names.{normalize_ember_name, normalize_multifuzz_name}

-- `char::len_utf8` and `str::len`.
unfoldable pub len_utf8 : ℕ → ℕ
len_utf8 c = if ltb c 0x80 then 1 else if ltb c 0x800 then 2 else if ltb c 0x10000 then 3 else 4

unfoldable pub byte_len : Text → ℕ
unfolding len_utf8
byte_len [] = 0
byte_len (c ∷ cs) = len_utf8 c + byte_len cs

-- `&value[0..n]` and `&value[n..]`; `None` stands for the panic outside of a char boundary.
unfoldable pub split_bytes : ℕ → Text → Option (Text × Text)
unfolding len_utf8
split_bytes zero t = some ([], t)
split_bytes (suc n) [] = none
split_bytes (suc n) (c ∷ cs) =
    let rest = split_bytes (suc n - len_utf8 c) cs in
    if ltb (suc n) (len_utf8 c)
    then none
    else elim rest [ none ↦ none | some (before, after) ↦ some (c ∷ before, after) ]

-- The number is in the `Result`; `None` again stands for a panic.
unfoldable pub parse_u64_with_prefix : Text → Option (Result ParseIntError ℕ)
unfolding byte_len split_bytes
parse_u64_with_prefix value = if ltb (byte_len value) 2 then some (from_str_radix 10 value) else do
  parts ← split_bytes 2 value
  some (
      if parts.0 == codes "0x"
      then from_str_radix 16 parts.1
      else if parts.0 == codes "0b"
      then from_str_radix 2 parts.1
      else from_str_radix 10 value)

-- `parse_u64_with_prefix(trial).ok()?.checked_sub(1)? as u32`; a panic is also `None` from here on.
unfoldable pub zero_based : Text → Option ℕ
unfolding parse_u64_with_prefix
zero_based trial = do
  parsed ← parse_u64_with_prefix trial
  n ← to_option parsed
  if nat_beq n 0 then none else some ((n - 1) % 2 ^ 32)

unfoldable pub without_suffix : Text → Text → Text
without_suffix suffix t = elim (strip_suffix suffix t) [ none ↦ t | some rest ↦ rest ]

-- Over what std reads from a path: its stem, its last component and its parent, as texts.
module _ {FilePath : Type 0} (file_stem file_name : FilePath → Option Text)
    (parent : FilePath → Option FilePath) where
  -- ember.rs: `P2IM-PLC-run-05`.
  unfoldable pub extract_group_binary_trial_from_path : FilePath → Option (Text × Text × ℕ)
  unfolding without_suffix zero_based
  extract_group_binary_trial_from_path path = do
    name ← file_stem path
    let stem = without_suffix (codes ".resampled") name
    group ← split_once_on b'-' stem
    run ← rsplit_once_on b'-' group.1
    binary ← rsplit_once_on b'-' run.0
    trial ← zero_based run.1
    some (group.0, normalize_ember_name binary.0, trial)

  -- fuzzware.rs: the binary and the trial of a file in a directory of that name.
  unfoldable pub binary_and_trial_text : Text → FilePath → Option (Text × Text)
  binary_and_trial_text parent_name path =
      if parent_name == codes "stats"
      then (do
        dir ← parent path
        project ← parent dir
        root ← parent project
        binary ← file_name root
        name ← file_name project
        parts ← rsplit_once_on b'-' name
        some (binary, parts.1))
      else (do stem ← file_stem path; parts ← split_once_on b'_' stem; some (parent_name, parts.0))

  unfoldable pub extract_binary_and_trial_path : FilePath → Option (Text × ℕ)
  unfolding binary_and_trial_text zero_based
  extract_binary_and_trial_path path = do
    dir ← parent path
    parent_name ← file_name dir
    texts ← binary_and_trial_text parent_name path
    trial ← zero_based texts.1
    some (texts.0, trial)

  -- fuzzware.rs: `P2IM_CNC_fuzzware-project-run-01.resampled`.
  unfoldable pub extract_binary_and_trial_from_dat_path : FilePath → Option (Text × ℕ)
  unfolding without_suffix zero_based
  extract_binary_and_trial_from_dat_path path = do
    stem ← file_stem path
    parts ← split_once (codes "_fuzzware-project-run-") stem
    trial ← zero_based (without_suffix (codes ".resampled") parts.1)
    some (parts.0, trial)

-- multifuzz.rs, by the components from the end of the path: `[bench]/[target]-[binary]/[trial]/file`.
-- The trial is counted from what the path says; the binary is normalized by the caller.
unfoldable pub extract_metadata_from_path : List Text → Option (Text × Text × ℕ)
unfolding parse_u64_with_prefix
extract_metadata_from_path (file ∷ trial ∷ target_and_binary ∷ bench ∷ rest) = do
  parsed ← parse_u64_with_prefix trial
  n ← to_option parsed
  parts ← rsplit_once_on b'-' target_and_binary
  some (bench, normalize_multifuzz_name parts.1, n % 2 ^ 32)
extract_metadata_from_path _ = none
