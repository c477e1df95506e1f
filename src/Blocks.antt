-- ===== src/Blocks.antt =====
-- analysis/plot-data/src/metadata.rs: the basic blocks, functions and edges of a binary. Addresses
-- are `u64`: sums wrap around.
pub mod Containing
pub mod Relocate
pub mod Load
pub mod Indexed
use multi_fuzz_benchmarks.Prelude.{
  ℕ, zero, suc, ◌+◌, ◌-◌, ◌%◌, Bool, true, false, Option, none, some, List, [], ◌∷◌, ◌++◌, map,
  if◌then◌else◌, ltb, ◌==◌, nat_eq, Text, length,
}
use multi_fuzz_benchmarks.Prelude.Maybe.{◌>>=◌}
use multi_fuzz_benchmarks.Prelude.Radix.{u64_mod}
use multi_fuzz_benchmarks.Prelude.Tree
use multi_fuzz_benchmarks.Prelude.Tree.{Tree, Ord, nat_ord, pair_ord}
use mathlib.Core.Option

pub data EdgeKind : Type 0 where
  computed_call computed_call_terminator computed_jump conditional_jump fall_through : EdgeKind
  indirection unconditional_call unconditional_jump conditional_call : EdgeKind

abbrev pub is_call : EdgeKind → Bool
is_call computed_call = true
is_call computed_call_terminator = true
is_call unconditional_call = true
is_call _ = false

abbrev pub is_conditional : EdgeKind → Bool
is_conditional conditional_jump = true
is_conditional conditional_call = true
is_conditional computed_jump = true
is_conditional _ = false

pub record Edge : Type 0 where
  pub from : ℕ
  pub to : ℕ
  pub kind : EdgeKind

pub record Block : Type 0 where
  pub start : ℕ
  pub end : ℕ
  pub fallthrough : Option ℕ
  pub function : Option ℕ

pub record Function : Type 0 where
  pub name : Text
  pub addr : ℕ
  pub blocks : List ℕ

pub record BlockMap : Type 0 where
  pub interval_tree : Tree ℕ Block
  pub functions : Tree ℕ Function
  pub edges : Tree (ℕ × ℕ) EdgeKind

-- `x + offset` on `u64`.
abbrev pub shift : ℕ → ℕ → ℕ
shift offset x = (x + offset) % u64_mod

-- `Block::offset`.
unfoldable pub offset_block : Block → ℕ → Block
offset_block self offset = record {
  start = shift offset self.start;
  end = shift offset self.end;
  fallthrough = Option.map (shift offset) self.fallthrough;
  function = Option.map (shift offset) self.function;
}

unfoldable pub with_name : ℕ → Text → Function
with_name addr name = record { name = name; addr = addr; blocks = [] }

-- `Function::offset`.
unfoldable pub offset_function : Function → ℕ → Function
offset_function self offset = record {
  name = self.name;
  addr = shift offset self.addr;
  blocks = map (shift offset) self.blocks;
}

-- Get the block that contains `addr`: the last one to start at or before it, unless that ended.
unfoldable pub get_containing_block : BlockMap → ℕ → Option Block
get_containing_block self addr = do
  entry ← Tree.last_le addr self.interval_tree
  if ltb entry.1.end addr then none else some entry.1

unfoldable pub is_valid_block : BlockMap → ℕ → Bool
unfolding get_containing_block
is_valid_block self addr = elim (get_containing_block self addr) [
  | none ↦ false
  | some containing_block ↦ containing_block.start == addr
]

unfoldable pub block_count : BlockMap → ℕ
block_count self = length self.interval_tree

-- `values()` of the tree.
unfoldable pub blocks : BlockMap → List Block
blocks self = map (λ entry. entry.1) self.interval_tree

unfoldable pub edge_list : BlockMap → List Edge
edge_list self = map (λ e. record { from = e.0.0; to = e.0.1; kind = e.1 }) self.edges

unfoldable pub get_function : BlockMap → ℕ → Option Function
get_function self addr = Tree.get addr self.functions

unfoldable pub get_containing_function : BlockMap → ℕ → Option Function
unfolding get_containing_block get_function
get_containing_function self addr = do
  entry ← get_containing_block self addr
  f ← entry.function
  get_function self f

-- The first `n` items of the iterator, which follows the fallthrough addresses and need not end.
unfoldable pub get_reachable_blocks : ℕ → BlockMap → Option ℕ → List Block
unfolding get_containing_block
get_reachable_blocks zero self next = []
get_reachable_blocks (suc n) self none = []
get_reachable_blocks (suc n) self (some addr) = elim (get_containing_block self addr) [
  | none ↦ []
  | some entry ↦ entry ∷ get_reachable_blocks n self entry.fallthrough
]

-- Relocate all addresses by a fixed offset.
unfoldable pub relocate : BlockMap → ℕ → BlockMap
unfolding offset_block offset_function
relocate self offset = record {
  interval_tree =
      Tree.collect (map (λ e. (shift offset e.0, offset_block e.1 offset)) self.interval_tree);
  functions =
      Tree.collect (map (λ e. (shift offset e.0, offset_function e.1 offset)) self.functions);
  edges = Tree.collect (map (λ e. ((shift offset e.0.0, shift offset e.0.1), e.1)) self.edges);
}
