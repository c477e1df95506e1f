-- ===== src/Coverage/Chunks.antt =====
-- analysis/plot-data/src/multifuzz.rs, read_raw_v1_csv: the tagged parts of a merged CSV file. The
-- file is the list of what `read_until` gives, its lines with the line ends on them.
pub mod Last
use multi_fuzz_benchmarks.Prelude.{
  ℕ, Bool, true, false, Option, none, some, List, [], ◌∷◌, ◌++◌, Text, codes, drop, starts_with,
  trim,
}
use multi_fuzz_benchmarks.Prelude.Outcome.{Result, ok, err, ok_or, ◌>>=◌}

abbrev pub Bytes : Type 0
Bytes = List ℕ

abbrev pub not_empty : {Frame : Type 0} → List Frame → Result Text (List Frame)
not_empty [] = err (codes "No tagged chunks were found in file")
not_empty (chunk ∷ chunks) = ok (chunk ∷ chunks)

-- Over the reading of a part as a table with the tags of its heading, and of bytes as a text.
module _ {Frame : Type 0} (read_csv_chunk : Bytes → Text → Result Text Frame)
    (from_utf8 : Bytes → Option Text) where
  -- The part that ends before a heading, if it had a heading itself.
  unfoldable pub push_chunk : Option Text → Bytes → List Frame → Result Text (List Frame)
  push_chunk none buf chunks = ok chunks
  push_chunk (some tag) buf chunks = do frame ← read_csv_chunk buf tag; ok (chunks ++ frame ∷ [])

  -- The `loop`; `buf` is what stands before `offset`.
  unfoldable pub collect_chunks :
      List Bytes → Option Text → Bytes → List Frame → Result Text (List Frame)
  unfolding push_chunk
  collect_chunks [] current_tag buf chunks = ok chunks
  collect_chunks (line ∷ lines) current_tag buf chunks = elim (starts_with (codes "###") line) [
    | true ↦ do
      pushed ← push_chunk current_tag buf chunks
      tag ← ok_or (from_utf8 (drop 3 line)) (codes "invalid utf-8")
      collect_chunks lines (some (trim tag)) [] pushed
    | false ↦ collect_chunks lines current_tag (buf ++ line) chunks
  ]

  -- The header is the first line.
  unfoldable pub read_raw_v1_csv : List Bytes → Result Text (List Frame)
  unfolding collect_chunks
  read_raw_v1_csv lines = do chunks ← collect_chunks (drop 1 lines) none [] []; not_empty chunks
