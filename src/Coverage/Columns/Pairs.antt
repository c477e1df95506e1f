-- ===== src/Coverage/Columns/Pairs.antt =====
-- analysis.rs, sort_columns_by_element: the two columns of each fuzzer stand side by side.
use multi_fuzz_benchmarks.Prelude.{
  ◌≡◌, refl, ap, ◌∙◌, false, some, List, [], ◌∷◌, ◌++◌, map, Text, codes, strip_suffix-append,
  append_assoc, map-append,
}
use multi_fuzz_benchmarks.Coverage.Columns.{ends_with, find_ending, sort_columns_by_element}

abbrev pub average : Text → Text
average fuzzer = codes "bb_avg" ++ fuzzer

abbrev pub percent : Text → Text
percent fuzzer = codes "% ref" ++ fuzzer

-- No column that is made from the names ends like another fuzzer's.
abbrev pub NoneEnd : (Text → Text) → Text → List Text → Type 0
NoneEnd column fuzzer [] = Unit
NoneEnd column fuzzer (other ∷ others) =
    (ends_with (column other) fuzzer ≡ false) × NoneEnd column fuzzer others

-- Of the fuzzers behind those of the first list.
abbrev pub AreApart : List Text → List Text → Type 0
AreApart done [] = Unit
AreApart done (fuzzer ∷ fuzzers) =
    NoneEnd average fuzzer fuzzers
    × NoneEnd percent fuzzer done
    × AreApart (done ++ fuzzer ∷ []) fuzzers

abbrev pub pairs : List Text → List Text
pairs [] = []
pairs (fuzzer ∷ fuzzers) = average fuzzer ∷ percent fuzzer ∷ pairs fuzzers

find_ending-append :
    (column : Text → Text) (fuzzer : Text) (names rest : List Text)
    → NoneEnd column fuzzer names
    → find_ending fuzzer (map column names ++ rest) ≡ find_ending fuzzer rest
unfolding find_ending
find_ending-append column fuzzer [] rest h = refl
find_ending-append column fuzzer (name ∷ names) rest h =
    rw (h.0, find_ending) (find_ending-append column fuzzer names rest h.1)

find_ending-percent :
    (fuzzer : Text) (rest : List Text)
    → find_ending fuzzer (percent fuzzer ∷ rest) ≡ some (percent fuzzer)
unfolding find_ending
find_ending-percent fuzzer rest = rw (strip_suffix-append (codes "% ref") fuzzer, find_ending) refl

-- The percentage of a fuzzer is found behind the averages of the later fuzzers.
find_ending-lem :
    (done : List Text) (fuzzer : Text) (fuzzers : List Text)
    → NoneEnd average fuzzer fuzzers
    → NoneEnd percent fuzzer done
    → find_ending fuzzer (map average fuzzers ++ map percent (done ++ fuzzer ∷ fuzzers))
      ≡ some (percent fuzzer)
find_ending-lem done fuzzer fuzzers later earlier =
    find_ending-append average fuzzer fuzzers (map percent (done ++ fuzzer ∷ fuzzers)) later
    ∙ ap (find_ending fuzzer) (map-append percent done (fuzzer ∷ fuzzers))
    ∙ find_ending-append percent fuzzer done (map percent (fuzzer ∷ fuzzers)) earlier
    ∙ find_ending-percent fuzzer (map percent fuzzers)

sort-percents : (fuzzers : List Text) → sort_columns_by_element (map percent fuzzers) ≡ []
unfolding sort_columns_by_element
sort-percents [] = refl
sort-percents (fuzzer ∷ fuzzers) = sort-percents fuzzers

sort-averages :
    (done fuzzers : List Text)
    → AreApart done fuzzers
    → sort_columns_by_element (map average fuzzers ++ map percent (done ++ fuzzers)) ≡ pairs fuzzers
unfolding sort_columns_by_element
sort-averages done [] h = sort-percents (done ++ [])
sort-averages done (fuzzer ∷ fuzzers) h =
    let rest = sort-averages (done ++ fuzzer ∷ []) fuzzers h.2 in
    rw (find_ending-lem done fuzzer fuzzers h.0 h.1, sort_columns_by_element)
      (ap (λ l. average fuzzer ∷ percent fuzzer ∷ l)
        (rw (append_assoc done (fuzzer ∷ []) fuzzers) at rest))

-- The columns of a pivoted table are the name of the binary, the averages of the fuzzers and their
-- percentages. If no column ends like that of another fuzzer, then the columns of each fuzzer are put
-- side by side, in the order of the fuzzers, and no column is lost or doubled.
pub sort_columns_by_element-pairs :
    (fuzzers : List Text)
    → AreApart [] fuzzers
    → sort_columns_by_element (codes "binary" ∷ (map average fuzzers ++ map percent fuzzers))
      ≡ codes "binary" ∷ pairs fuzzers
unfolding sort_columns_by_element
sort_columns_by_element-pairs fuzzers h = ap (λ l. codes "binary" ∷ l) (sort-averages [] fuzzers h)
