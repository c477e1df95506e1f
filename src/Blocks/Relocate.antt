-- ===== src/Blocks/Relocate.antt =====
-- Moving a binary: lookups move with it.
use multi_fuzz_benchmarks.Prelude.{
  ℕ, ◌+◌, ◌<◌, ◌≡◌, refl, ap, ◌∙◌, none, some, [], ◌∷◌, map, ltb, leb, nat_eq, Bool-cases,
  Option-cases, inl, inr, arith,
}
use multi_fuzz_benchmarks.Prelude.Radix.{u64_mod}
use multi_fuzz_benchmarks.Prelude.Tree
use multi_fuzz_benchmarks.Prelude.Tree.{Tree, AllAbove, IsSorted, nat_ord, collect_sorted}
use multi_fuzz_benchmarks.Blocks.{
  Block, Function, BlockMap, shift, offset_block, get_containing_block, relocate,
}
use mathlib.Core.Option
use native.Mathlib.Nat.{mod-eq_of_lt}

leb-add : (a b c : ℕ) → leb (a + c) (b + c) ≡ leb a b
leb-add a b c = ground arith

ltb-add : (a b c : ℕ) → ltb (a + c) (b + c) ≡ ltb a b
ltb-add a b c = ground arith

-- No address of the map wraps around when it is moved.
abbrev pub Fits {ℓ} : {V : Type ℓ} → ℕ → (V → ℕ) → Tree ℕ V → Type 0
Fits offset top [] = Unit
Fits offset top ((k, v) ∷ m) =
    (k + offset < u64_mod) × (top v + offset < u64_mod) × Fits offset top m

abbrev moved : ℕ → ℕ × Block → ℕ × Block
moved offset e = (shift offset e.0, offset_block e.1 offset)

module _ {ℓ κ} {V : Type ℓ} {W : Type κ} (offset : ℕ) (top : V → ℕ) (f : V → W) where
  abbrev shifted : ℕ × V → ℕ × W
  shifted e = (shift offset e.0, f e.1)

  AllAbove-shifted :
      (k : ℕ) (m : Tree ℕ V)
      → k + offset < u64_mod
      → Fits offset top m
      → AllAbove k m
      → AllAbove (shift offset k) (map shifted m)
  AllAbove-shifted k [] h g a = tt
  AllAbove-shifted k ((j, v) ∷ m) h g a =
      (rw (mod-eq_of_lt h, mod-eq_of_lt g.0) (omega (arith, a.0)), AllAbove-shifted k m h g.2 a.1)

  IsSorted-shifted : (m : Tree ℕ V) → Fits offset top m → IsSorted m → IsSorted (map shifted m)
  IsSorted-shifted [] g s = tt
  IsSorted-shifted ((k, v) ∷ m) g s = (AllAbove-shifted k m g.0 g.2 s.0, IsSorted-shifted m g.2 s.1)

  last_le-shifted :
      (addr : ℕ) (m : Tree ℕ V)
      → addr + offset < u64_mod
      → Fits offset top m
      → Tree.last_le (addr + offset) (map shifted m) ≡ Option.map shifted (Tree.last_le addr m)
  unfolding Tree.last_le
  last_le-shifted addr [] h g = refl
  last_le-shifted addr ((k, v) ∷ m) h g =
      rw (mod-eq_of_lt g.0, last_le-shifted addr m h g.2, leb-add k addr offset)
        (elim (Bool-cases (leb k addr)) [
          | inl l ↦ elim (Option-cases (Tree.last_le addr m)) [
            | inl n ↦ rw (l, n)
            | inr (p, q) ↦ rw (l, q)
          ]
          | inr l ↦ rw l
        ])

-- A block map whose blocks and functions can be moved by the offset.
pub record IsMovable (self : BlockMap) (offset : ℕ) : Type 0 where
  pub blocks_sorted : IsSorted self.interval_tree
  pub blocks_fit : Fits offset (λ (b : Block). b.end) self.interval_tree
  pub functions_sorted : IsSorted self.functions
  pub functions_fit : Fits offset (λ (f : Function). f.addr) self.functions

last_le_end :
    (addr offset : ℕ) (m : Tree ℕ Block) (e : ℕ × Block)
    → Fits offset (λ (b : Block). b.end) m
    → Tree.last_le addr m ≡ some e
    → e.1.end + offset < u64_mod
unfolding Tree.last_le
last_le_end addr offset [] e g h = absurd (cc)
last_le_end addr offset ((k, b) ∷ m) e g h = elim (Bool-cases (leb k addr)) [
  | inr l ↦ absurd (let bad : none ≡ some e = rw l at h in cc bad)
  | inl l ↦ elim (Option-cases (Tree.last_le addr m)) [
    | inl n ↦
        let here : some (k, b) ≡ some e = rw (l, n) at h in
        let same : b.end ≡ e.1.end = cc here in rw (← same) g.1
    | inr (p, q) ↦
        let there : some p ≡ some e = rw (l, q) at h in last_le_end addr offset m e g.2 (q ∙ there)
  ]
]

-- When the keys of the map rise and no address in it, nor the one looked up, wraps around, a lookup in the moved map is the lookup in the map as it was, moved.
pub get_containing_block-relocate :
    (self : BlockMap) (offset addr : ℕ)
    → IsMovable self offset
    → addr + offset < u64_mod
    → get_containing_block (relocate self offset) (addr + offset)
      ≡ Option.map (λ b. offset_block b offset) (get_containing_block self addr)
unfolding get_containing_block relocate
get_containing_block-relocate self offset addr v h =
    let same = collect_sorted (map (moved offset) self.interval_tree) (
      IsSorted-shifted offset (λ (b : Block). b.end) (λ b. offset_block b offset) self.interval_tree
        v.blocks_fit v.blocks_sorted) in
    rw
      (
        same,
        last_le-shifted offset (λ (b : Block). b.end) (λ b. offset_block b offset) addr
            self.interval_tree h v.blocks_fit,
      )
      (elim (Option-cases (Tree.last_le addr self.interval_tree)) [
        | inl n ↦ rw n
        | inr (e, q) ↦ rw q (
            let inside : e.1.end + offset < u64_mod =
              last_le_end addr offset self.interval_tree e v.blocks_fit q in
            let ends : ltb (shift offset e.1.end) (addr + offset) ≡ ltb e.1.end addr =
              ap (λ t. ltb t (addr + offset)) (mod-eq_of_lt inside) ∙ ltb-add e.1.end addr offset in
            rw ends (elim (Bool-cases (ltb e.1.end addr)) [ inl l ↦ rw l | inr l ↦ rw l ]))
      ])
