-- ===== src/Coverage/Columns.antt =====
-- analysis/plot-data/src/analysis.rs, sort_columns_by_element: the order of a pivoted table's columns.
pub mod Pairs
use multi_fuzz_benchmarks.Prelude.{
  Bool, true, false, Option, none, some, List, [], ◌∷◌, Text, codes, strip_prefix, strip_suffix,
  starts_with,
}

-- `str::ends_with`.
abbrev pub ends_with : Text → Text → Bool
ends_with t suffix = elim (strip_suffix suffix t) [ none ↦ false | some rest ↦ true ]

unfoldable pub find_ending : Text → List Text → Option Text
find_ending suffix [] = none
find_ending suffix (x ∷ xs) = elim (ends_with x suffix) [
  | true ↦ some x
  | false ↦ find_ending suffix xs
]

abbrev push_found : Option Text → List Text → List Text
push_found none cols = cols
push_found (some percent) cols = percent ∷ cols

unfoldable pub sort_columns_by_element : List Text → List Text
unfolding find_ending
sort_columns_by_element [] = []
sort_columns_by_element (col ∷ cols) =
    let rest = sort_columns_by_element cols in
    elim (strip_prefix (codes "bb_avg") col) [
      | some fuzzer ↦ col ∷ push_found (find_ending fuzzer cols) rest
      | none ↦ elim (starts_with (codes "% ref") col) [ true ↦ rest | false ↦ col ∷ rest ]
    ]
