-- ===== src/Coverage/Tags.antt =====
-- analysis/plot-data/src/data_loading/mod.rs: the tags of a trial, `v1;<key>=<value>;...`, and the
-- paths that they are read from.
pub mod RoundTrip
use multi_fuzz_benchmarks.Prelude.{
  ℕ, Bool, true, false, Option, none, some, List, [], ◌∷◌, ◌++◌, if◌then◌else◌, Text, codes, ◌==◌,
  text_eq, split_on, split_once_on, rsplit_once_on,
}
use multi_fuzz_benchmarks.Prelude.Maybe.{◌>>=◌}
use multi_fuzz_benchmarks.Prelude.Outcome.{Result, ok, err}

-- `;<key>=<value>` for each tag.
abbrev pub tag_text : List (Text × Text) → Text
tag_text [] = []
tag_text ((key, value) ∷ tags) = b';' ∷ (key ++ b'=' ∷ (value ++ tag_text tags))

abbrev pub trial_tags : Text → Text → Text → Text → List (Text × Text)
trial_tags bench fuzzer binary trial =
    (codes "bench", bench)
    ∷ (codes "fuzzer", fuzzer)
    ∷ (codes "binary", binary)
    ∷ (codes "trial", trial)
    ∷ []

abbrev pub unknown_tag : Text
unknown_tag = codes "v1;bench=unknown;fuzzer=unknown;binary=unknown;trial=0"

-- The components come from the end of the path: `[bench]/[fuzzer]-[binary]/[trial]`.
unfoldable pub tags_from_legacy_path : List Text → Option (List (Text × Text))
tags_from_legacy_path (trial ∷ target ∷ bench ∷ _) = do
  parts ← rsplit_once_on b'-' target
  some (trial_tags bench parts.0 parts.1 trial)
tags_from_legacy_path _ = none

-- `[bench]/[fuzzer]/[group]/[binary]/[trial]`.
unfoldable pub tags_from_path : List Text → Option (List (Text × Text))
tags_from_path (trial ∷ binary ∷ group ∷ fuzzer ∷ bench ∷ _) =
    some (trial_tags bench fuzzer binary trial)
tags_from_path _ = none

module _ {FilePath : Type 0} (is_file : FilePath → Bool) (parent : FilePath → Option FilePath)
    (components : FilePath → List Text) where
  -- The directory of the trial.
  unfoldable pub trial_dir : FilePath → Option FilePath
  trial_dir path = if is_file path then parent path else some path

  abbrev pub with_version : Option (List (Text × Text)) → Text
  with_version none = unknown_tag
  with_version (some tags) = codes "v1" ++ tag_text tags

  unfoldable pub bench_tags_from_hail_fuzz_path : Option FilePath → Bool → Text
  unfolding trial_dir tags_from_legacy_path tags_from_path
  bench_tags_from_hail_fuzz_path source_path legacy = with_version (do
    path ← source_path
    dir ← trial_dir path
    if legacy then tags_from_legacy_path (components dir) else tags_from_path (components dir))

-- `filter(..).filter_map(|x| x.split_once("="))`.
unfoldable pub key_values : List Text → List (Text × Text)
key_values [] = []
key_values (part ∷ parts) =
    let rest = key_values parts in
    elim (split_once_on b'=' part) [ none ↦ rest | some tag ↦ tag ∷ rest ]

unfoldable pub parse_bench_tags : Text → Result Text (List (Text × Text))
unfolding key_values
parse_bench_tags tag = go (split_on b';' tag)
  where
    go : List Text → Result Text (List (Text × Text))
    go [] = err (codes "Unknown tag version (None)")
    go (version ∷ parts) =
        if version == codes "v1"
        then ok (key_values parts)
        else err (codes "Unknown tag version (" ++ (version ++ codes ")"))
