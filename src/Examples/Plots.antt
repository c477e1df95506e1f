-- ===== src/Examples/Plots.antt =====
-- Figures, legends and layouts of a few cells.
use multi_fuzz_benchmarks.Prelude.{
  ℕ, some, List, [], ◌∷◌, foldl, ◌≡◌, ◌*◌, ◌/◌, ap, sym, ◌∙◌, arith, inl, inr, Bool-cases, text_beq,
  text_beq_iff, text_eq, length, Text, codes, replicate, length-replicate,
}
use multi_fuzz_benchmarks.Plot.Legend.{new_with_mapping, get_or_insert}
use multi_fuzz_benchmarks.Plot.Legend.Fresh.{IsApart, get_or_insert-IsApart, IsInjective}
use multi_fuzz_benchmarks.Plot.Cells.{div_ceil, Floats, split_with_columns}
use multi_fuzz_benchmarks.Plot.Cells.Count.{IsExact, length-split_with_columns}
use multi_fuzz_benchmarks.Prelude.Dict.{Dict, lookup}

abbrev fixed : Dict Text ℕ
fixed = (codes "MultiFuzz", 1) ∷ []

abbrev names : List Text
names = codes "Fuzzware" ∷ codes "MultiFuzz" ∷ codes "Ember-IO" ∷ codes "Fuzzware" ∷ []

fixed_name : (name : Text) (id : ℕ) → lookup name fixed ≡ some id → codes "MultiFuzz" ≡ name
unfolding lookup
fixed_name name id h = elim (Bool-cases (text_beq (codes "MultiFuzz") name)) [
  | inl e ↦ (text_beq_iff (codes "MultiFuzz") name).0 e
  | inr n ↦ absurd (ground arith)
]

fixed-IsInjective : IsInjective fixed
fixed-IsInjective a b id h k = sym (fixed_name a id h) ∙ fixed_name b id k

get_or_insert-IsApart_example :
    IsApart (foldl (λ s n. (get_or_insert (λ id. id) n s).0) (new_with_mapping fixed) names).entries
get_or_insert-IsApart_example = get_or_insert-IsApart fixed names fixed-IsInjective

-- An area by its size; the cells of a row share its width.
abbrev cells_of : ℕ × ℕ → ℕ × ℕ → List (ℕ × ℕ)
cells_of area (rows, cols) = replicate cols area

-- Quotients that are not rounded.
abbrev fractions : Floats
fractions = record {
  F32 = ℕ × ℕ;
  from_usize = λ n. (n, 1);
  to_usize = λ q. q.0 / q.1;
  div = λ p q. (p.0 * q.1, p.1 * q.0);
  ceil = λ q. (div_ceil q.0 q.1, 1);
}

fractions-IsExact : IsExact fractions
fractions-IsExact a b small pos large =
    let first : a * 1 ≡ a = omega arith in
    let second : 1 * b ≡ b = omega arith in
    let whole : div_ceil (a * 1) (1 * b) / 1 ≡ div_ceil (a * 1) (1 * b) = omega arith in
    whole ∙ ap (λ n. div_ceil n (1 * b)) first ∙ ap (div_ceil a) second

length-split_with_columns_example :
    (cells : List (ℕ × ℕ)) × (split_with_columns
        (λ a. a)
        (λ a h. ((a.0, h), (a.0, a.1)))
        (λ a w. ((w, a.1), (a.0, a.1)))
        cells_of
        fractions
        (800, 500)
        7
        5
      ≡ some cells)
    × (length cells ≡ 7)
length-split_with_columns_example =
    length-split_with_columns (λ a. a) (λ a h. ((a.0, h), (a.0, a.1)))
      (λ a w. ((w, a.1), (a.0, a.1))) cells_of fractions fractions-IsExact
      (λ area cols. length-replicate cols area) (800, 500) 7 5 (omega arith) (omega arith)
      (omega arith)
