-- ===== src/Coverage/Chunks/Last.antt =====
-- multifuzz.rs: the last tagged part of a merged file.
use multi_fuzz_benchmarks.Prelude.{
  false, Option, none, some, List, [], ◌∷◌, ◌++◌, ◌≡◌, refl, ap, ◌∙◌, Text, codes, starts_with,
  trim, map, append_assoc, append-nil, flatten,
}
use multi_fuzz_benchmarks.Prelude.Outcome.{Result, ok, ◌>>=◌}
use multi_fuzz_benchmarks.Coverage.Chunks.{Bytes, collect_chunks, not_empty, read_raw_v1_csv}

-- Lines with no heading among them.
abbrev pub IsBody : List Bytes → Type 0
IsBody [] = Unit
IsBody (line ∷ lines) = (starts_with (codes "###") line ≡ false) × IsBody lines

-- A part of the file: its heading, and the lines up to the next one.
pub record Part : Type 0 where
  pub tag : Text
  pub body : List Bytes

abbrev pub IsParts : List Part → Type 0
IsParts [] = Unit
IsParts (part ∷ parts) = IsBody part.body × IsParts parts

unfoldable pub lines_of : List Part → List Bytes
lines_of [] = []
lines_of (part ∷ parts) = (codes "###" ++ part.tag) ∷ (part.body ++ lines_of parts)

-- All parts but the last.
unfoldable pub but_last : Part → List Part → List Part
but_last part [] = []
but_last part (next ∷ parts) = part ∷ but_last next parts

module _ {Frame : Type 0} (frame : Bytes → Text → Frame) where
  abbrev read : Bytes → Text → Result Text Frame
  read buf tag = ok (frame buf tag)

  abbrev text_of : Bytes → Option Text
  text_of b = some b

  collect_chunks-body :
      (body rest : List Bytes) (tag : Option Text) (buf : Bytes) (chunks : List Frame)
      → IsBody body
      → collect_chunks read text_of (body ++ rest) tag buf chunks
        ≡ collect_chunks read text_of rest tag (buf ++ flatten body) chunks
  unfolding collect_chunks flatten
  collect_chunks-body [] rest tag buf chunks h = rw (append-nil buf) refl
  collect_chunks-body (line ∷ body) rest tag buf chunks h = rw (h.0) (
      collect_chunks-body body rest tag (buf ++ line) chunks h.1
      ∙ ap (λ b. collect_chunks read text_of rest tag b chunks)
          (append_assoc buf line (flatten body)))

  abbrev table : Part → Frame
  table part = frame (flatten part.body) (trim part.tag)

  collect_chunks-parts :
      (part : Part) (parts : List Part) (chunks : List Frame)
      → IsParts (part ∷ parts)
      → collect_chunks read text_of (part.body ++ lines_of parts) (some (trim part.tag)) [] chunks
        ≡ ok (chunks ++ map table (but_last part parts))
  unfolding lines_of but_last collect_chunks
  collect_chunks-parts part [] chunks h =
      collect_chunks-body part.body [] (some (trim part.tag)) [] chunks h.0
      ∙ rw (append-nil chunks) refl
  collect_chunks-parts part (next ∷ parts) chunks h =
      collect_chunks-body part.body (lines_of (next ∷ parts)) (some (trim part.tag)) [] chunks h.0
      ∙ collect_chunks-parts next parts (chunks ++ table part ∷ []) h.1
      ∙ ap (λ c. ok c) (append_assoc chunks (table part ∷ []) (map table (but_last next parts)))

  -- A file with a header, lines that stand before the first heading, and parts with a heading each:
  -- even if every part can be read, the result has all of them but the last, and a file with one
  -- part is refused as one without any.
  pub read_raw_v1_csv-but_last :
      (header : Bytes) (before : List Bytes) (part : Part) (parts : List Part)
      → IsBody before
      → IsParts (part ∷ parts)
      → read_raw_v1_csv
          (λ buf tag. ok (frame buf tag))
          (λ b. some b)
          (header ∷ (before ++ lines_of (part ∷ parts)))
        ≡ not_empty (map (λ p. frame (flatten p.body) (trim p.tag)) (but_last part parts))
  unfolding read_raw_v1_csv lines_of collect_chunks
  read_raw_v1_csv-but_last header before part parts b h =
      ap (λ r. r >>= not_empty)
        (collect_chunks-body before (lines_of (part ∷ parts)) none [] [] b
          ∙ collect_chunks-parts part parts [] h)
