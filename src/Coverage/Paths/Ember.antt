-- ===== src/Coverage/Paths/Ember.antt =====
-- ember.rs: the name of a result file is read back.
use multi_fuzz_benchmarks.Prelude.{
  ℕ, suc, ◌-◌, ◌%◌, ◌^◌, ◌≡◌, refl, sym, ap, ◌∙◌, ◌⊎◌, inl, inr, arith, false, Option, none, some,
  ◌∷◌, ◌++◌, Text, codes, contains, rsplit_once_on, split_once_on-append, rsplit_once_on-append,
  append_assoc, strip_suffix, strip_suffix-append,
}
use multi_fuzz_benchmarks.Prelude.Outcome.{ok}
use multi_fuzz_benchmarks.Coverage.Names.{normalize_ember_name}
use multi_fuzz_benchmarks.Coverage.Paths.{
  parse_u64_with_prefix, zero_based, without_suffix, extract_group_binary_trial_from_path,
}

-- `<group>-<binary>-<run>-<trial>`.
abbrev pub run_name : Text → Text → Text → Text → Text
run_name group binary run trial = group ++ b'-' ∷ (binary ++ b'-' ∷ (run ++ b'-' ∷ trial))

zero_based_of_ok :
    (trial : Text) (n : ℕ)
    → parse_u64_with_prefix trial ≡ some (ok (suc n))
    → zero_based trial ≡ some (n % 2 ^ 32)
unfolding zero_based
zero_based_of_ok trial n h =
    let pred : suc n - 1 ≡ n = omega arith in rw (h, zero_based) (ground arith)

without_suffix-append : (t suffix : Text) → without_suffix suffix (t ++ suffix) ≡ t
unfolding without_suffix
without_suffix-append t suffix = rw (strip_suffix-append t suffix, without_suffix) refl

without_suffix-none : (t suffix : Text) → strip_suffix suffix t ≡ none → without_suffix suffix t ≡ t
unfolding without_suffix
without_suffix-none t suffix h = rw (h, without_suffix) refl

-- The stem of a file with the given name, which may be that of a resampled file.
abbrev pub IsStem : Text → Text → Type 0
IsStem name stem =
    ((stem ≡ name) × (strip_suffix (codes ".resampled") name ≡ none))
    ⊎ (stem ≡ name ++ codes ".resampled")

without_suffix-IsStem :
    (name stem : Text) → IsStem name stem → without_suffix (codes ".resampled") stem ≡ name
without_suffix-IsStem name stem h = elim h [
  | inl (e, s) ↦ rw e (without_suffix-none name (codes ".resampled") s)
  | inr e ↦ rw e (without_suffix-append name (codes ".resampled"))
]

split_runs :
    (binary run trial : Text)
    → contains b'-' trial ≡ false
    → rsplit_once_on b'-' (binary ++ b'-' ∷ (run ++ b'-' ∷ trial))
      ≡ some (binary ++ b'-' ∷ run, trial)
split_runs binary run trial h =
    ap (rsplit_once_on b'-') (sym (append_assoc binary (b'-' ∷ run) (b'-' ∷ trial)))
    ∙ rsplit_once_on-append b'-' (binary ++ b'-' ∷ run) trial h

module _ {FilePath : Type 0} (file_stem file_name : FilePath → Option Text)
    (parent : FilePath → Option FilePath) where
  -- From a file `<group>-<binary>-<run>-<trial>`, resampled or not, come the group, the binary in the
  -- spelling of the other fuzzers, and the trial counted from zero and cut to 32 bits. The binary may
  -- contain hyphens; the group, the run and the trial may not, and the trial parses to at least 1.
  pub extract_group_binary_trial_from_path-run_name :
      (path : FilePath) (stem group binary run trial : Text) (n : ℕ)
      → file_stem path ≡ some stem
      → IsStem (run_name group binary run trial) stem
      → contains b'-' group ≡ false
      → contains b'-' run ≡ false
      → contains b'-' trial ≡ false
      → parse_u64_with_prefix trial ≡ some (ok (suc n))
      → extract_group_binary_trial_from_path file_stem file_name parent path
        ≡ some (group, normalize_ember_name binary, n % 2 ^ 32)
  unfolding extract_group_binary_trial_from_path
  extract_group_binary_trial_from_path-run_name path stem group binary run trial n f s hg hr ht hn =
      rw
        (
          f,
          without_suffix-IsStem (run_name group binary run trial) stem s,
          split_once_on-append b'-' group (binary ++ b'-' ∷ (run ++ b'-' ∷ trial)) hg,
          split_runs binary run trial ht,
          rsplit_once_on-append b'-' binary run hr,
          zero_based_of_ok trial n hn,
          extract_group_binary_trial_from_path,
        )
        refl
