-- ===== src/Examples/Coverage.antt =====
-- Results of trials as their files name and hold them.
use multi_fuzz_benchmarks.Prelude.{
  ℕ, ◌%◌, ◌^◌, inr, true, false, none, some, List, [], ◌∷◌, ◌++◌, ◌≡◌, refl, Text, codes, text_eq,
  map, flatten, trim,
}
use multi_fuzz_benchmarks.Prelude.Dict.{lookup}
use multi_fuzz_benchmarks.Prelude.Outcome.{ok}
use multi_fuzz_benchmarks.Coverage.Tags.{
  trial_tags, bench_tags_from_hail_fuzz_path, parse_bench_tags,
}
use multi_fuzz_benchmarks.Coverage.Tags.RoundTrip.{parse_bench_tags-bench_tags}
use multi_fuzz_benchmarks.Coverage.Chunks.{read_raw_v1_csv, not_empty}
use multi_fuzz_benchmarks.Coverage.Chunks.Last.{Part, lines_of, but_last, read_raw_v1_csv-but_last}
use multi_fuzz_benchmarks.Coverage.Metadata.{
  Source, Metadata, get_block_map_for, parse_block_map, from_source, block_map_id,
}
use multi_fuzz_benchmarks.Coverage.Metadata.Shared.{get_block_map_for-from_source}
use multi_fuzz_benchmarks.Coverage.Names.{normalize_ember_name}
use multi_fuzz_benchmarks.Prelude.Radix.{from_str_radix}
use multi_fuzz_benchmarks.Coverage.Paths.{
  extract_group_binary_trial_from_path, parse_u64_with_prefix,
}
use multi_fuzz_benchmarks.Coverage.Paths.Ember.{extract_group_binary_trial_from_path-run_name}

abbrev trial_path : List Text
trial_path = codes "03" ∷ codes "CNC" ∷ codes "P2IM" ∷ codes "multifuzz" ∷ codes "all" ∷ []

parse_bench_tags-bench_tags_example :
    parse_bench_tags
      (bench_tags_from_hail_fuzz_path (λ p. false) (λ p. none) (λ p. p) (some trial_path) false)
    ≡ ok (trial_tags (codes "all") (codes "multifuzz") (codes "CNC") (codes "03"))
parse_bench_tags-bench_tags_example =
    parse_bench_tags-bench_tags (λ p. false) (λ p. none) (λ p. p) trial_path (codes "all")
      (codes "multifuzz") (codes "P2IM") (codes "CNC") (codes "03") [] refl refl refl refl refl refl

abbrev only_part : Part
only_part = record { tag = codes "v1;bench=all"; body = codes "0x8000,1,2" ∷ [] }

-- A file with one part is refused.
read_raw_v1_csv-but_last_example :
    read_raw_v1_csv {Frame = List ℕ × List ℕ}
      (λ buf tag. ok (buf, tag))
      (λ b. some b)
      (codes "block,time,inputs" ∷ ([] ++ lines_of (only_part ∷ [])))
    ≡ not_empty (map (λ p. (flatten p.body, trim p.tag)) (but_last only_part []))
read_raw_v1_csv-but_last_example =
    read_raw_v1_csv-but_last (λ buf tag. (buf, tag)) (codes "block,time,inputs") [] only_part [] tt
      ((refl, tt), tt)

abbrev shared_maps : Source
shared_maps =
    (codes "CNC", codes "a.txt")
    ∷ (codes "PLC", codes "b.txt")
    ∷ (codes "Gateway", codes "a.txt")
    ∷ []

abbrev shared_metadata : Metadata Text
shared_metadata = record {
  block_maps = codes "a.txt" ∷ codes "b.txt" ∷ [];
  binary_mapping = (codes "CNC", 0) ∷ (codes "PLC", 1) ∷ (codes "Gateway", 0) ∷ [];
}

shared_metadata_lem :
    from_source (λ f. true) (λ a b. b) (λ f. ok f) (codes ".") shared_maps ≡ ok shared_metadata
unfolding from_source block_map_id lookup parse_block_map
shared_metadata_lem = refl

get_block_map_for-from_source_example :
    (block_map : Text) × (get_block_map_for (codes "Gateway") shared_metadata ≡ some block_map)
    × (parse_block_map (λ f. true) (λ a b. b) (λ f. ok f) (codes ".") (codes "a.txt")
        ≡ ok block_map)
unfolding lookup
get_block_map_for-from_source_example =
    get_block_map_for-from_source (λ f. true) (λ a b. b) (λ f. ok f) (codes ".") shared_maps
      shared_metadata (codes "Gateway") (codes "a.txt") shared_metadata_lem refl

extract_group_binary_trial_from_path-run_name_example :
    extract_group_binary_trial_from_path
      (λ p. some p)
      (λ p. none)
      (λ p. none)
      (codes "P2IM-6LoWPAN-Sender-run-05.resampled")
    ≡ some (codes "P2IM", normalize_ember_name (codes "6LoWPAN-Sender"), 4 % 2 ^ 32)
unfolding parse_u64_with_prefix from_str_radix
extract_group_binary_trial_from_path-run_name_example =
    extract_group_binary_trial_from_path-run_name (λ p. some p) (λ p. none) (λ p. none)
      (codes "P2IM-6LoWPAN-Sender-run-05.resampled") (codes "P2IM-6LoWPAN-Sender-run-05.resampled")
      (codes "P2IM") (codes "6LoWPAN-Sender") (codes "run") (codes "05") 4 refl (inr refl) refl refl
      refl refl
