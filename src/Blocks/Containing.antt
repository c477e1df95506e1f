-- ===== src/Blocks/Containing.antt =====
-- Looking up the block of an address.
use multi_fuzz_benchmarks.Prelude.{
  ℕ, ◌≤◌, ◌<◌, ◌≡◌, refl, ap, ◌∙◌, ◌⊎◌, ◌↔◌, inl, inr, true, false, ◌&&◌, Option, none, some, List,
  [], ◌∷◌, map, if◌then◌else◌, ltb, leb, leb→le, ◌==◌, nat_eq, Bool-cases, Option-cases, arith,
}
use multi_fuzz_benchmarks.Prelude.Maybe.{◌>>=◌}
use multi_fuzz_benchmarks.Prelude.Tree
use multi_fuzz_benchmarks.Prelude.Tree.{Tree, AllAbove, AllAbove-trans, IsSorted, nat_ord}
use multi_fuzz_benchmarks.Blocks.{Block, BlockMap, get_containing_block, is_valid_block, blocks}

-- Each block stands under its start address, ends no earlier than it starts, and ends before the
-- next one starts.
abbrev pub IsDisjoint : Tree ℕ Block → Type 0
IsDisjoint [] = Unit
IsDisjoint ((k, b) ∷ m) = (k ≡ b.start) × (b.start ≤ b.end) × AllAbove b.end m × IsDisjoint m

-- A block of the tree that spans the address.
abbrev pub Spans : ℕ → Block → Tree ℕ Block → Type 0
Spans addr b [] = ⊥
Spans addr b ((k, c) ∷ m) = ((c ≡ b) × (b.start ≤ addr) × (addr ≤ b.end)) ⊎ Spans addr b m

last_le_above : (k : ℕ) (m : Tree ℕ Block) → AllAbove k m → Tree.last_le k m ≡ none
unfolding Tree.last_le
last_le_above k [] h = refl
last_le_above k ((j, b) ∷ m) h = ground arith

Spans-above :
    (k addr : ℕ) (b : Block) (m : Tree ℕ Block)
    → AllAbove k m
    → IsDisjoint m
    → Spans addr b m
    → k < addr
Spans-above k addr b [] a d s = absurd s
Spans-above k addr b ((j, c) ∷ m) a d (inl (p, lo, hi)) =
    let q : c.start ≡ b.start = ap (λ (x : Block). x.start) p in omega arith
Spans-above k addr b ((j, c) ∷ m) a d (inr s) = Spans-above k addr b m a.1 d.3 s

-- The lookup in a list of blocks, without the tree's search.
block_at : ℕ → Tree ℕ Block → Option Block
block_at addr m = Tree.last_le addr m >>= λ e. if ltb e.1.end addr then none else some e.1

block_at-cons :
    (addr k : ℕ) (b : Block) (m : Tree ℕ Block)
    → AllAbove b.end m
    → b.start ≤ b.end
    → k ≡ b.start
    → block_at addr ((k, b) ∷ m)
      ≡ (if leb k addr && leb addr b.end then some b else block_at addr m)
unfolding block_at Tree.last_le
block_at-cons addr k b m a h e = elim (Bool-cases (leb k addr)) [
  | inr l ↦
      let above : addr ≤ b.end = ground arith in
      rw (l, last_le_above addr m (AllAbove-trans addr b.end m above a), ◌>>=◌)
  | inl l ↦ elim (Bool-cases (leb addr b.end)) [
    | inl u ↦
        let inside : ltb b.end addr ≡ false = ground arith in
        rw (l, u, last_le_above addr m (AllAbove-trans addr b.end m (leb→le addr b.end u) a))
          (rw (inside, ◌>>=◌))
    | inr u ↦
        let outside : ltb b.end addr ≡ true = ground arith in
        elim (Option-cases (Tree.last_le addr m)) [
          | inl n ↦ rw (l, u, n, ◌>>=◌) (rw outside)
          | inr (p, q) ↦ rw (l, u, q, ◌>>=◌)
        ]
  ]
]

hit_or_miss :
    (k addr : ℕ) (c : Block)
    → ((leb k addr && leb addr c.end) ≡ true) × (k ≤ addr) × (addr ≤ c.end)
      ⊎ ((leb k addr && leb addr c.end) ≡ false) × ((addr < k) ⊎ (c.end < addr))
hit_or_miss k addr c = ground arith

span_unique :
    {A : Type 0} (addr k : ℕ) (b c : Block) (m : Tree ℕ Block)
    → IsDisjoint ((k, c) ∷ m)
    → addr ≤ c.end
    → Spans addr b m
    → A
span_unique addr k b c m d h s =
    absurd (let far : c.end < addr = Spans-above c.end addr b m d.2 d.3 s in omega arith)

block_at_sound :
    (addr : ℕ) (b : Block) (m : Tree ℕ Block)
    → IsDisjoint m
    → block_at addr m ≡ some b
    → Spans addr b m
block_at_sound addr b [] d h = absurd (unfold block_at Tree.last_le in cc h)
block_at_sound addr b ((k, c) ∷ m) d h = elim (hit_or_miss k addr c) [
  | inl (t, lo, hi) ↦
      let same : some c ≡ some b = rw (block_at-cons addr k c m d.2 d.1 d.0, t) at h in
      let start : c.start ≡ b.start = cc same in
      let end : c.end ≡ b.end = cc same in inl (cc same, omega (arith, d.0), omega arith)
  | inr (t, out) ↦
      inr (block_at_sound addr b m d.3 (rw (block_at-cons addr k c m d.2 d.1 d.0, t) at h))
]

block_at_complete :
    (addr : ℕ) (b : Block) (m : Tree ℕ Block)
    → IsDisjoint m
    → Spans addr b m
    → block_at addr m ≡ some b
block_at_complete addr b [] d s = absurd s
block_at_complete addr b ((k, c) ∷ m) d s = elim (hit_or_miss k addr c) [
  | inl (t, lo, hi) ↦
      rw (block_at-cons addr k c m d.2 d.1 d.0, t)
        (elim s [ inl (p, _, _) ↦ ap some p | inr r ↦ span_unique addr k b c m d hi r ])
  | inr (t, out) ↦
      rw (block_at-cons addr k c m d.2 d.1 d.0, t)
        (elim s [
          | inl (p, lo, hi) ↦
              let start : c.start ≡ b.start = ap (λ (x : Block). x.start) p in
              let end : c.end ≡ b.end = ap (λ (x : Block). x.end) p in absurd (omega (arith, d.0))
          | inr r ↦ block_at_complete addr b m d.3 r
        ])
]

-- Over blocks that do not overlap, the block found for an address is the one that spans it, from
-- its start to its end inclusive, and one is found whenever there is such a block.
pub get_containing_block_iff :
    (self : BlockMap) (addr : ℕ) (b : Block)
    → IsDisjoint self.interval_tree
    → (get_containing_block self addr ≡ some b) ↔ Spans addr b self.interval_tree
unfolding get_containing_block block_at
get_containing_block_iff self addr b d =
    (block_at_sound addr b self.interval_tree d, block_at_complete addr b self.interval_tree d)

-- A block that starts at the address.
abbrev pub Starts : ℕ → List Block → Type 0
Starts addr [] = ⊥
Starts addr (b ∷ bs) = (b.start ≡ addr) ⊎ Starts addr bs

Spans-Starts :
    (addr : ℕ) (b : Block) (m : Tree ℕ Block)
    → b.start ≡ addr
    → Spans addr b m
    → Starts addr (map (λ e. e.1) m)
Spans-Starts addr b [] e s = absurd s
Spans-Starts addr b ((k, c) ∷ m) e (inl (p, _, _)) = inl (ap (λ (x : Block). x.start) p ∙ e)
Spans-Starts addr b ((k, c) ∷ m) e (inr s) = inr (Spans-Starts addr b m e s)

Starts-Spans :
    (addr : ℕ) (m : Tree ℕ Block)
    → IsDisjoint m
    → Starts addr (map (λ e. e.1) m)
    → (b : Block) × (b.start ≡ addr) × Spans addr b m
Starts-Spans addr [] d s = absurd s
Starts-Spans addr ((k, c) ∷ m) d (inl e) = (c, e, inl (refl, omega arith, omega (arith, d.1)))
Starts-Spans addr ((k, c) ∷ m) d (inr s) =
    let (b, e, spans) = Starts-Spans addr m d.3 s in (b, e, inr spans)

-- Over blocks that do not overlap, an address is valid exactly if one of the blocks starts there.
pub is_valid_block_iff :
    (self : BlockMap) (addr : ℕ)
    → IsDisjoint self.interval_tree
    → (is_valid_block self addr ≡ true) ↔ Starts addr (blocks self)
unfolding is_valid_block blocks
is_valid_block_iff self addr d = (there, back)
  where
    there : is_valid_block self addr ≡ true → Starts addr (blocks self)
    there h = elim (Option-cases (get_containing_block self addr)) [
      | inl n ↦ absurd (let bad : false ≡ true = rw (n, is_valid_block) at h in cc bad)
      | inr (b, e) ↦
          let here : (b.start == addr) ≡ true = rw (e, is_valid_block) at h in
          Spans-Starts addr b self.interval_tree (ground arith)
            ((get_containing_block_iff self addr b d).0 e)
    ]

    back : Starts addr (blocks self) → is_valid_block self addr ≡ true
    back s =
        let (b, e, spans) = Starts-Spans addr self.interval_tree d s in
        rw ((get_containing_block_iff self addr b d).1 spans, is_valid_block) (ground arith)
