-- ===== src/Afl/Errors.antt =====
-- afl.rs: how many bad rows a file of plot data may have.
use multi_fuzz_benchmarks.Prelude.{
  ℕ, suc, ◌+◌, ◌-◌, ◌≤◌, Option, none, some, List, [], ◌∷◌, ◌++◌, ◌≡◌, refl, arith, Bool-cases, inl,
  inr, get_elem?, ltb, append-nil, append_assoc,
}
use multi_fuzz_benchmarks.Prelude.Outcome.{Result, ok, err}
use multi_fuzz_benchmarks.Afl.{parse_rows, parse_plot_data}

module _ {ℓ κ} {E : Type κ} {T : Type ℓ} where
  -- The rows that were read, and the errors of the others.
  unfoldable pub good : List (Result E T) → List T
  good [] = []
  good (ok row ∷ rows) = row ∷ good rows
  good (err e ∷ rows) = good rows

  unfoldable pub bad : List (Result E T) → List E
  bad [] = []
  bad (ok row ∷ rows) = bad rows
  bad (err e ∷ rows) = e ∷ bad rows

  -- The error that has `n` others before it ends the parse.
  unfoldable pub verdict : Option E → List T → Result E (List T)
  verdict none rows = ok rows
  verdict (some e) rows = err e

  parse_rows-verdict :
      (n : ℕ) (out : List T) (rows : List (Result E T))
      → n ≤ 10
      → parse_rows n out rows ≡ verdict (get_elem? (bad rows) (10 - n)) (out ++ good rows)
  unfolding parse_rows good bad verdict
  parse_rows-verdict n out [] h = rw (append-nil out) refl
  parse_rows-verdict n out (ok row ∷ rows) h =
      rw (parse_rows-verdict n (out ++ row ∷ []) rows h, append_assoc out (row ∷ []) (good rows))
        refl
  parse_rows-verdict n out (err e ∷ rows) h = elim (Bool-cases (ltb 10 (n + 1))) [
    | inl l ↦ let full : 10 - n ≡ 0 = ground arith in rw (l, full) refl
    | inr l ↦
        let below : n + 1 ≤ 10 = ground arith in
        let room : 10 - n ≡ suc (10 - (n + 1)) = omega arith in
        rw (l, room) (parse_rows-verdict (n + 1) out rows below)
  ]

  -- Plot data with at most ten bad rows is parsed to its good rows, all of them and in their order;
  -- with more, the result is the error of the eleventh bad row.
  pub parse_plot_data-verdict :
      (rows : List (Result E T))
      → parse_plot_data rows ≡ verdict (get_elem? (bad rows) 10) (good rows)
  unfolding parse_plot_data
  parse_plot_data-verdict rows = parse_rows-verdict 0 [] rows (omega arith)
