-- ===== src/Examples/Planning.antt =====
-- The trials of a benchmark and the loading of block maps, on concrete data.
use multi_fuzz_benchmarks.Prelude.{
  ℕ, ◌+◌, ◌-◌, ◌*◌, ◌≤◌, min, max, Option, none, some, List, [], ◌∷◌, ◌≡◌, arith, Text, codes,
}
use multi_fuzz_benchmarks.Config.{KeyValue}
use multi_fuzz_benchmarks.Rpc.{Duration, from_secs}
use multi_fuzz_benchmarks.Tasks
use multi_fuzz_benchmarks.Schedule.{TaskConfig, estimate_total_duration}
use multi_fuzz_benchmarks.Schedule.Estimate.{total, estimate_total_duration-bounds}
use multi_fuzz_benchmarks.Blocks.{Block, BlockMap, Edge, EdgeKind}

abbrev hours : List Duration
hours = from_secs 3600 ∷ from_secs 7200 ∷ from_secs 3600 ∷ []

estimate_total_duration-bounds_example :
    (time : Duration) × (estimate_total_duration hours 2 ≡ some time)
    × (total hours ≤ max 1 (min 2 10000) * time)
    × ((max 1 (min 2 10000) - 1) * 100000000 ≤ time)
    × (time ≤ (max 1 (min 2 10000) - 1) * 100000000 + total hours)
unfolding total
estimate_total_duration-bounds_example = estimate_total_duration-bounds hours 2 (omega arith)

abbrev fuzz : TaskConfig ℕ
fuzz = record {
  instance' = codes "small";
  vars = record { key = codes "OUT"; value = codes "/out/{TRIAL}" } ∷ [];
  tasks = Tasks.nil;
}

abbrev globals : List KeyValue
globals = record { key = codes "TRIAL"; value = codes "none" } ∷ []

abbrev listing : List (Option Text)
listing = some (codes "18 1f") ∷ some (codes "# a comment") ∷ some (codes "10 17 18") ∷ []

abbrev listed : BlockMap
listed = record {
  interval_tree =
      (16, record { start = 16; end = 23; fallthrough = some 24; function = none })
      ∷ (24, record { start = 24; end = 31; fallthrough = none; function = none })
      ∷ [];
  functions = [];
  edges = [];
}

abbrev main_block : Block
main_block = record { start = 16; end = 23; fallthrough = none; function = some 16 }

abbrev jump : Edge
jump = record { from = 16; to = 24; kind = EdgeKind.unconditional_jump }

abbrev decoded : BlockMap
decoded = record {
  interval_tree = (16, record main_block { fallthrough = some 24 }) ∷ [];
  functions = (16, record { name = codes "main"; addr = 16; blocks = 16 ∷ [] }) ∷ [];
  edges = ((16, 24), EdgeKind.unconditional_jump) ∷ [];
}
