-- ===== src/Images/Sizes.antt =====
-- image_builder/mod.rs, ImageSource::get_size, and utils.rs, align_to_block_size: an image is at
-- least as large as what it is to hold, in whole blocks.
use mathlib.Core.Path.{subst}
use multi_fuzz_benchmarks.Prelude.{
  ℕ, ◌+◌, ◌-◌, ◌*◌, ◌/◌, ◌%◌, ◌^◌, ◌≤◌, ◌<◌, ◌≡◌, arith, inl, inr, Bool-cases, Option, none, some,
  codes, ltb, if◌then◌else◌,
}
use multi_fuzz_benchmarks.Prelude.Outcome.{Result, ok, err}
use multi_fuzz_benchmarks.Prelude.Returns.{ok_injective}
use multi_fuzz_benchmarks.Env.{Failure, cause}

abbrev pub block_size : ℕ
block_size = 512

-- `(size + BLOCK_SIZE - 1) & !(BLOCK_SIZE - 1)`, on numbers of 64 bits: the mask clears the bits
-- below the block size.
unfoldable pub align_to_block_size : ℕ → ℕ
align_to_block_size size =
    ((size + block_size) % 2 ^ 64 + (2 ^ 64 - 1)) % 2 ^ 64 / block_size * block_size

unfoldable pub get_size : Option ℕ → ℕ → Result Failure ℕ
unfolding align_to_block_size
get_size none measured_size = ok (align_to_block_size ((measured_size + 1000) % 2 ^ 64))
get_size (some size) measured_size =
    if ltb size measured_size
    then err (cause (codes "target size too small"))
    else ok (align_to_block_size size)

-- The least whole number of blocks that is large enough.
abbrev pub IsAligned : ℕ → ℕ → Type 0
IsAligned size aligned =
    (aligned % block_size ≡ 0) × (size ≤ aligned) × (aligned < size + block_size)

align_to_block_size-IsAligned :
    (size : ℕ) → size + 512 < 2 ^ 64 → IsAligned size (align_to_block_size size)
unfolding align_to_block_size
align_to_block_size-IsAligned size h = (omega arith, omega arith, omega arith)

-- The size that is asked for, or the measured size with a thousand bytes more.
abbrev pub base_size : Option ℕ → ℕ → ℕ
base_size none measured_size = measured_size + 1000
base_size (some size) measured_size = size

-- An image gets the least whole number of blocks for the size that is asked for, or for the measured
-- size and a thousand bytes, and holds the measured size, if 64 bits have room for a block more.
pub get_size-IsAligned :
    (size : Option ℕ) (measured_size aligned : ℕ)
    → base_size size measured_size + 512 < 2 ^ 64
    → get_size size measured_size ≡ ok aligned
    → IsAligned (base_size size measured_size) aligned × (measured_size ≤ aligned)
unfolding get_size
get_size-IsAligned none m aligned h e =
    let same : (m + 1000) % 2 ^ 64 ≡ m + 1000 = omega arith in
    let (whole, room, least) = align_to_block_size-IsAligned (m + 1000) h in
    subst (λ n. IsAligned (m + 1000) n × (m ≤ n)) (ok_injective (rw same at e))
      ((whole, room, least), omega arith)
get_size-IsAligned (some size) m aligned h e = elim (Bool-cases (ltb size m)) [
  | inl b ↦
      let bad : err (cause (codes "target size too small")) ≡ ok aligned = rw b at e in
      absurd (cc bad)
  | inr b ↦
      let (whole, room, least) = align_to_block_size-IsAligned size h in
      subst (λ n. IsAligned size n × (m ≤ n)) (ok_injective (rw b at e))
        ((whole, room, least), ground arith)
]
