-- ===== src/Blocks/Load.antt =====
-- metadata.rs: block maps read from a text of lines or from JSON. The warnings on standard error
-- about blocks with one start address are left out; the later of them is kept.
use multi_fuzz_benchmarks.Prelude.{
  ℕ, Bool, true, false, ◌||◌, Option, none, some, List, [], ◌∷◌, ◌++◌, map, if◌then◌else◌, nat_beq,
  Text, trim, ◌==◌, nat_eq, text_eq,
}
use multi_fuzz_benchmarks.Prelude.Outcome.{Result, ok, err, ◌>>=◌}
use multi_fuzz_benchmarks.Prelude.Radix.{ParseIntError, from_str_radix}
use multi_fuzz_benchmarks.Prelude.Tree
use multi_fuzz_benchmarks.Prelude.Tree.{Tree, nat_ord, pair_ord}
use multi_fuzz_benchmarks.Blocks.{
  EdgeKind, fall_through, unconditional_jump, Edge, Block, Function, BlockMap, with_name,
}

pub data LoadError : Type 0 where
  unreadable expected_start expected_end : LoadError
  bad_start bad_end bad_fallthrough : ParseIntError → LoadError

abbrev is_ascii_whitespace : ℕ → Bool
is_ascii_whitespace c =
    nat_beq c b' ' || nat_beq c b'\t' || nat_beq c b'\n' || nat_beq c 0x0c || nat_beq c b'\r'

abbrev end_word : Text × List Text → List Text
end_word ([], words) = words
end_word (c ∷ cs, words) = (c ∷ cs) ∷ words

-- The word that a text starts with, and the words behind it.
unfoldable words_from : Text → Text × List Text
words_from [] = ([], [])
words_from (c ∷ cs) =
    let rest = words_from cs in
    if is_ascii_whitespace c then ([], end_word rest) else (c ∷ rest.0, rest.1)

unfoldable pub split_ascii_whitespace : Text → List Text
unfolding words_from
split_ascii_whitespace t = end_word (words_from t)

abbrev number : (ParseIntError → LoadError) → Text → Result LoadError ℕ
number context t = elim (from_str_radix 16 t) [ ok n ↦ ok n | err e ↦ err (context e) ]

abbrev fallthrough_of : List Text → Result LoadError (Option ℕ)
fallthrough_of [] = ok none
fallthrough_of (x ∷ _) = do n ← number bad_fallthrough x; ok (some n)

-- `start end [fallthrough]`; further words are not looked at.
unfoldable pub parse_words : List Text → Result LoadError Block
parse_words [] = err expected_start
parse_words (x ∷ []) = do start ← number bad_start x; err expected_end
parse_words (x ∷ y ∷ rest) = do
  start ← number bad_start x
  end ← number bad_end y
  fallthrough ← fallthrough_of rest
  ok (record { start = start; end = end; fallthrough = fallthrough; function = none })

unfoldable pub parse_from_line : Text → Result LoadError Block
unfolding split_ascii_whitespace parse_words
parse_from_line line = parse_words (split_ascii_whitespace line)

abbrev is_skipped : Text → Bool
is_skipped [] = true
is_skipped (c ∷ cs) = nat_beq c b'#'

-- A line of the text: `none` is a line that is skipped.
unfoldable pub parse_entry : Text → Result LoadError (Option Block)
unfolding parse_from_line
parse_entry line = elim (is_skipped (trim line)) [
  | true ↦ ok none
  | false ↦ do entry ← parse_from_line (trim line); ok (some entry)
]

-- The loop over the lines; `none` is a line that can not be read.
unfoldable pub read_lines : List (Option Text) → Tree ℕ Block → Result LoadError (Tree ℕ Block)
unfolding parse_entry
read_lines [] map' = ok map'
read_lines (none ∷ lines) map' = err unreadable
read_lines (some line ∷ lines) map' = elim (parse_entry line) [
  | err e ↦ err e
  | ok none ↦ read_lines lines map'
  | ok (some entry) ↦ read_lines lines (Tree.insert entry.start entry map')
]

unfoldable pub from_txt : List (Option Text) → Result LoadError BlockMap
unfolding read_lines
from_txt lines = do
  map' ← read_lines lines []
  ok (record { interval_tree = map'; functions = []; edges = [] })

-- The index of the outgoing edges at a source: its edges, in the order of the file.
unfoldable pub outgoing_edges : ℕ → List Edge → List (ℕ × EdgeKind)
outgoing_edges from [] = []
outgoing_edges from (edge ∷ edges) =
    let rest = outgoing_edges from edges in
    if edge.from == from then (edge.to, edge.kind) ∷ rest else rest

-- A block with one outgoing edge, which is a fallthrough or a jump, falls through to its target.
unfoldable pub with_fallthrough : List (ℕ × EdgeKind) → Block → Block
with_fallthrough ((to, fall_through) ∷ []) entry = record entry { fallthrough = some to }
with_fallthrough ((to, unconditional_jump) ∷ []) entry = record entry { fallthrough = some to }
with_fallthrough _ entry = entry

-- `functions.get_mut(&function).unwrap().blocks.push(..)`; `none` is the panic of the `unwrap`.
unfoldable pub push_block : Option ℕ → ℕ → Tree ℕ Function → Option (Tree ℕ Function)
push_block none start functions = some functions
push_block (some f) start functions = elim (Tree.get f functions) [
  | none ↦ none
  | some function ↦
      some (Tree.insert f (record function { blocks = function.blocks ++ start ∷ [] }) functions)
]

-- The loop over the blocks.
unfoldable pub add_blocks :
    List Edge
    → List Block
    → Tree ℕ Block
    → Tree ℕ Function
    → Option (Tree ℕ Block × Tree ℕ Function)
unfolding outgoing_edges with_fallthrough push_block
add_blocks edges [] tree functions = some (tree, functions)
add_blocks edges (entry ∷ blocks) tree functions =
    elim (push_block entry.function entry.start functions) [
      | none ↦ none
      | some functions' ↦
          add_blocks edges blocks
            (Tree.insert entry.start (with_fallthrough (outgoing_edges entry.start edges) entry)
              tree)
            functions'
    ]

abbrev pub named : ℕ × Text → ℕ × Function
named (addr, name) = (addr, with_name addr name)

abbrev pub keyed : Edge → (ℕ × ℕ) × EdgeKind
keyed edge = ((edge.from, edge.to), edge.kind)

-- `from_json`, over the parts of the file: functions by address, blocks, and edges.
unfoldable pub from_json : Tree ℕ Text → List Block → List Edge → Option BlockMap
unfolding add_blocks
from_json functions blocks edges =
    elim (add_blocks edges blocks [] (Tree.collect (map named functions))) [
      | none ↦ none
      | some (interval_tree, functions') ↦ some (record {
        interval_tree = interval_tree;
        functions = functions';
        edges = Tree.collect (map keyed edges);
      })
    ]

unfoldable find_name : Text → Tree ℕ Function → Option Function
find_name name [] = none
find_name name ((addr, f) ∷ functions) = if f.name == name then some f else find_name name functions

unfoldable pub find_function_by_name : BlockMap → Text → Option Function
unfolding find_name
find_function_by_name self name = find_name name self.functions
