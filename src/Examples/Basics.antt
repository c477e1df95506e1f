-- ===== src/Examples/Basics.antt =====
-- Block maps and plot data on concrete data.
use multi_fuzz_benchmarks.Prelude.{
  ℕ, ◌+◌, none, some, List, [], ◌∷◌, ◌≡◌, ◌↔◌, refl, arith, get_elem?, Text, codes,
}
use multi_fuzz_benchmarks.Prelude.Outcome.{Result, ok, err}
use multi_fuzz_benchmarks.Blocks.{Block, BlockMap, get_containing_block, offset_block, relocate}
use multi_fuzz_benchmarks.Blocks.Relocate.{get_containing_block-relocate}
use mathlib.Core.Option
use multi_fuzz_benchmarks.Blocks.Containing.{Spans, get_containing_block_iff}
use multi_fuzz_benchmarks.Afl.{parse_plot_data}
use multi_fuzz_benchmarks.Afl.Errors.{good, bad, verdict, parse_plot_data-verdict}

abbrev entry_block : Block
entry_block = record { start = 16; end = 23; fallthrough = some 24; function = none }

abbrev next_block : Block
next_block = record { start = 24; end = 31; fallthrough = none; function = none }

abbrev firmware : BlockMap
firmware = record {
  interval_tree = (16, entry_block) ∷ (24, next_block) ∷ [];
  functions = [];
  edges = [];
}

get_containing_block_iff_example :
    (get_containing_block firmware 23 ≡ some entry_block)
    ↔ Spans 23 entry_block firmware.interval_tree
get_containing_block_iff_example =
    get_containing_block_iff firmware 23 entry_block
      (refl, omega arith, (omega arith, tt), (refl, omega arith, tt, tt))

get_containing_block-relocate_example :
    get_containing_block (relocate firmware 4096) (30 + 4096)
    ≡ Option.map (λ b. offset_block b 4096) (get_containing_block firmware 30)
get_containing_block-relocate_example =
    get_containing_block-relocate firmware 4096 30
      (record {
        blocks_sorted = ((omega arith, tt), (tt, tt));
        blocks_fit = (omega arith, omega arith, (omega arith, omega arith, tt));
        functions_sorted = tt;
        functions_fit = tt;
      })
      (omega arith)

abbrev plot : List (Result Text ℕ)
plot = ok 1 ∷ err (codes "bad") ∷ ok 3 ∷ []

parse_plot_data-verdict_example :
    parse_plot_data plot ≡ verdict (get_elem? (bad plot) 10) (good plot)
parse_plot_data-verdict_example = parse_plot_data-verdict plot
