-- ===== src/Blocks/Indexed.antt =====
-- metadata.rs: block maps that were loaded are indexed by the start addresses of their blocks.
use multi_fuzz_benchmarks.Prelude.{
  ℕ, Option, none, some, List, [], ◌∷◌, ◌≡◌, refl, sym, ap, ◌∙◌, nat_beq_iff, arith, Bool-cases,
  inl, inr, ltb, ◌==◌, nat_eq, Text, map,
}
use mathlib.Core.Path.{subst}
use multi_fuzz_benchmarks.Prelude.Outcome.{Result, ok, err, ◌>>=◌}
use multi_fuzz_benchmarks.Prelude.Tree
use multi_fuzz_benchmarks.Prelude.Tree.{Tree, nat_ord, pair_ord, IsSorted, insert-IsSorted}
use multi_fuzz_benchmarks.Blocks.{Block, Function, BlockMap, Edge, EdgeKind}
use multi_fuzz_benchmarks.Blocks.Load.{
  LoadError, read_lines, from_txt, add_blocks, from_json, with_fallthrough, outgoing_edges,
  push_block, parse_entry, named, keyed,
}

of_ok : {E A : Type 0} {a b : A} → ◌≡◌ {A = Result E A} (ok a) (ok b) → a ≡ b
of_ok e = cc

of_some : {A : Type 0} {a b : A} → ◌≡◌ {A = Option A} (some a) (some b) → a ≡ b
of_some e = cc

-- Each key is the start of its block.
abbrev pub HasStarts : Tree ℕ Block → Type 0
HasStarts [] = Unit
HasStarts ((k, b) ∷ m) = (k ≡ b.start) × HasStarts m

insert-HasStarts :
    (k : ℕ) (b : Block) (m : Tree ℕ Block)
    → k ≡ b.start
    → HasStarts m
    → HasStarts (Tree.insert k b m)
unfolding Tree.insert
insert-HasStarts k b [] e h = (e, tt)
insert-HasStarts k b ((j, c) ∷ m) e h = elim (Bool-cases (ltb k j)) [
  | inl l ↦ rw l (e, h)
  | inr l ↦ rw l (elim (Bool-cases (k == j)) [
    | inl s ↦ rw s (sym ((nat_beq_iff k j).0 s) ∙ e, h.1)
    | inr s ↦ rw s (h.0, insert-HasStarts k b m e h.1)
  ])
]

-- The keys rise, and each is the start of its block.
pub record IsIndexed (m : Tree ℕ Block) : Type 0 where
  pub sorted : IsSorted m
  pub starts : HasStarts m

insert-IsIndexed :
    (k : ℕ) (b : Block) (m : Tree ℕ Block)
    → k ≡ b.start
    → IsIndexed m
    → IsIndexed (Tree.insert k b m)
insert-IsIndexed k b m e i = record {
  sorted = insert-IsSorted k b m i.sorted;
  starts = insert-HasStarts k b m e i.starts;
}

read_lines-IsIndexed :
    (lines : List (Option Text)) (m m' : Tree ℕ Block)
    → IsIndexed m
    → read_lines lines m ≡ ok m'
    → IsIndexed m'
unfolding read_lines
read_lines-IsIndexed [] m m' i h = subst IsIndexed (of_ok h) i
read_lines-IsIndexed (none ∷ lines) m m' i h = absurd (cc)
read_lines-IsIndexed (some line ∷ lines) m m' i h =
    go (λ n i' q. read_lines-IsIndexed lines n m' i' q) (parse_entry line) h
  where
    go :
        ((n : Tree ℕ Block) → IsIndexed n → read_lines lines n ≡ ok m' → IsIndexed m')
        → (r : Result LoadError (Option Block))
        → (elim r as (λ _. Result LoadError (Tree ℕ Block)) [
          | err e ↦ err e
          | ok none ↦ read_lines lines m
          | ok (some entry) ↦ read_lines lines (Tree.insert entry.start entry m)
        ])
          ≡ ok m'
        → IsIndexed m'
    go later (err e) q = absurd (cc)
    go later (ok none) q = later m i q
    go later (ok (some entry)) q =
        later (Tree.insert entry.start entry m) (insert-IsIndexed entry.start entry m refl i) q

with_fallthrough-start :
    (out : List (ℕ × EdgeKind)) (entry : Block) → (with_fallthrough out entry).start ≡ entry.start
unfolding with_fallthrough
with_fallthrough-start [] entry = refl
with_fallthrough-start ((to, kind) ∷ []) entry = ground arith
with_fallthrough-start ((to, kind) ∷ e ∷ out) entry = ground arith

add_blocks-IsIndexed :
    (edges : List Edge) (blocks : List Block) (m m' : Tree ℕ Block)
    (functions functions' : Tree ℕ Function)
    → IsIndexed m
    → add_blocks edges blocks m functions ≡ some (m', functions')
    → IsIndexed m'
unfolding add_blocks
add_blocks-IsIndexed edges [] m m' functions functions' i h =
    subst IsIndexed (ap (λ (p : Tree ℕ Block × Tree ℕ Function). p.0) (of_some h)) i
add_blocks-IsIndexed edges (entry ∷ blocks) m m' functions functions' i h =
    go (λ i' pushed q. add_blocks-IsIndexed edges blocks next m' pushed functions' i' q)
      (push_block entry.function entry.start functions) h
  where
    next : Tree ℕ Block
    next = Tree.insert entry.start (with_fallthrough (outgoing_edges entry.start edges) entry) m

    go :
        (IsIndexed next
          → (pushed : Tree ℕ Function) → add_blocks edges blocks next pushed ≡ some (m', functions')
          → IsIndexed m')
        → (o : Option (Tree ℕ Function))
        → (elim o as (λ _. Option (Tree ℕ Block × Tree ℕ Function)) [
          | none ↦ none
          | some pushed ↦ add_blocks edges blocks next pushed
        ])
          ≡ some (m', functions')
        → IsIndexed m'
    go later none q = absurd (cc)
    go later (some pushed) q =
        later
          (insert-IsIndexed entry.start (with_fallthrough (outgoing_edges entry.start edges) entry)
            m (sym (with_fallthrough-start (outgoing_edges entry.start edges) entry)) i)
          pushed q

-- Whatever blocks, functions and edges a file holds: a map that is loaded from it has rising keys,
-- each of them the start address of its block, which is what lookups by address rely on.
pub from_json-IsIndexed :
    (functions : Tree ℕ Text) (blocks : List Block) (edges : List Edge) (self : BlockMap)
    → from_json functions blocks edges ≡ some self
    → IsIndexed self.interval_tree
unfolding from_json
from_json-IsIndexed functions blocks edges self h =
    go (add_blocks edges blocks [] (Tree.collect (map named functions))) refl h
  where
    go :
        (o : Option (Tree ℕ Block × Tree ℕ Function))
        → add_blocks edges blocks [] (Tree.collect (map named functions)) ≡ o
        → (elim o as (λ _. Option BlockMap) [
          | none ↦ none
          | some (interval_tree, functions') ↦ some (record {
            interval_tree = interval_tree;
            functions = functions';
            edges = Tree.collect (map keyed edges);
          })
        ])
          ≡ some self
        → IsIndexed self.interval_tree
    go none q h' = absurd (cc)
    go (some (m, functions')) q h' =
        subst IsIndexed (ap (λ (x : BlockMap). x.interval_tree) (of_some h')) (
          add_blocks-IsIndexed edges blocks [] m (Tree.collect (map named functions)) functions'
            (record { sorted = tt; starts = tt }) q)

-- The same holds for a map that is loaded from a text, however its lines are ordered.
pub from_txt-IsIndexed :
    (lines : List (Option Text)) (self : BlockMap)
    → from_txt lines ≡ ok self
    → IsIndexed self.interval_tree
unfolding from_txt
from_txt-IsIndexed lines self h = go (read_lines lines []) refl h
  where
    go :
        (r : Result LoadError (Tree ℕ Block))
        → read_lines lines [] ≡ r
        → (r >>= λ map'. ok (record { interval_tree = map'; functions = []; edges = [] })) ≡ ok self
        → IsIndexed self.interval_tree
    go (err e) q h' = absurd (cc)
    go (ok m) q h' =
        subst IsIndexed (ap (λ (x : BlockMap). x.interval_tree) (of_ok h'))
          (read_lines-IsIndexed lines [] m (record { sorted = tt; starts = tt }) q)
