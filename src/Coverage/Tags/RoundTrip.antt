-- ===== src/Coverage/Tags/RoundTrip.antt =====
-- data_loading/mod.rs: the tags that are made from a path are read back.
use multi_fuzz_benchmarks.Prelude.{
  ℕ, Bool, false, Option, some, List, [], ◌∷◌, ◌++◌, ◌≡◌, refl, sym, ap, ◌∙◌, arith, Text, codes,
  contains, split_on, split_on-append, split_on_of_contains, split_once_on-append, append_assoc,
  append-nil,
}
use multi_fuzz_benchmarks.Prelude.Maybe.{◌>>=◌}
use multi_fuzz_benchmarks.Prelude.Outcome.{ok}
use multi_fuzz_benchmarks.Coverage.Tags.{
  tag_text, trial_tags, trial_dir, tags_from_path, bench_tags_from_hail_fuzz_path, key_values,
  parse_bench_tags,
}

-- No key holds a separator, and no value one between tags.
abbrev IsPlain : List (Text × Text) → Type 0
IsPlain [] = Unit
IsPlain ((key, value) ∷ tags) =
    (contains b';' key ≡ false)
    × (contains b'=' key ≡ false)
    × (contains b';' value ≡ false)
    × IsPlain tags

contains-append :
    (c : ℕ) (s t : Text) → contains c s ≡ false → contains c t ≡ false → contains c (s ++ t) ≡ false
contains-append c [] t h k = k
contains-append c (x ∷ s) t h k = ground (arith, contains-append c s t)

abbrev tag_part : Text × Text → Text
tag_part (key, value) = key ++ b'=' ∷ value

parts : List (Text × Text) → List Text
parts [] = []
parts (tag ∷ tags) = tag_part tag ∷ parts tags

split_on-tag_text :
    (before : Text) (tags : List (Text × Text))
    → contains b';' before ≡ false
    → IsPlain tags
    → split_on b';' (before ++ tag_text tags) ≡ before ∷ parts tags
unfolding parts
split_on-tag_text before [] h p =
    ap (split_on b';') (append-nil before) ∙ split_on_of_contains b';' before h
split_on-tag_text before ((key, value) ∷ tags) h p =
    split_on-append b';' before _ h
    ∙ ap (λ l. before ∷ l)
        (ap (split_on b';') (sym (append_assoc key (b'=' ∷ value) (tag_text tags)))
          ∙ split_on-tag_text (tag_part (key, value)) tags
              (contains-append b';' key (b'=' ∷ value) p.0 p.2) p.3)

key_values-parts : (tags : List (Text × Text)) → IsPlain tags → key_values (parts tags) ≡ tags
unfolding key_values parts
key_values-parts [] p = refl
key_values-parts ((key, value) ∷ tags) p =
    rw (split_once_on-append b'=' key value p.1, key_values)
      (ap (λ l. (key, value) ∷ l) (key_values-parts tags p.3))

parse_bench_tags-tag_text :
    (tags : List (Text × Text))
    → IsPlain tags
    → parse_bench_tags (codes "v1" ++ tag_text tags) ≡ ok tags
unfolding parse_bench_tags
parse_bench_tags-tag_text tags p =
    rw (split_on-tag_text (codes "v1") tags refl p) (ap (λ l. ok l) (key_values-parts tags p))

module _ {FilePath : Type 0} (is_file : FilePath → Bool) (parent : FilePath → Option FilePath)
    (components : FilePath → List Text) where
  -- For a directory `[bench]/[fuzzer]/[group]/[binary]/[trial]`, with no `;` in these names, the tags
  -- that are made from its path are read back as the bench, the fuzzer, the binary and the trial.
  pub parse_bench_tags-bench_tags :
      (path : FilePath) (bench fuzzer group binary trial : Text) (root : List Text)
      → is_file path ≡ false
      → components path ≡ trial ∷ binary ∷ group ∷ fuzzer ∷ bench ∷ root
      → contains b';' bench ≡ false
      → contains b';' fuzzer ≡ false
      → contains b';' binary ≡ false
      → contains b';' trial ≡ false
      → parse_bench_tags
          (bench_tags_from_hail_fuzz_path is_file parent components (some path) false)
        ≡ ok (trial_tags bench fuzzer binary trial)
  unfolding bench_tags_from_hail_fuzz_path trial_dir tags_from_path
  parse_bench_tags-bench_tags path bench fuzzer group binary trial root f c hb hf hy ht =
      rw (f, c, ◌>>=◌)
        (parse_bench_tags-tag_text (trial_tags bench fuzzer binary trial)
          (refl, refl, hb, (refl, refl, hf, (refl, refl, hy, (refl, refl, ht, tt)))))
