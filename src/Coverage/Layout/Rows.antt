-- ===== src/Coverage/Layout/Rows.antt =====
-- config.rs, PlotLayout: the rows that a layout leaves room for.
use native.Mathlib.Nat.{suc-mul, div-add-mod', mod-lt, lt_of_mul-lt-mul_right}
use multi_fuzz_benchmarks.Prelude.{
  ℕ, zero, suc, ◌+◌, ◌-◌, ◌*◌, ◌/◌, ◌^◌, ◌≤◌, ◌<◌, ◌≡◌, refl, min, max, some, lt→ltb, arith,
}
use multi_fuzz_benchmarks.Plot.Cells.{div_ceil}
use multi_fuzz_benchmarks.Plot.Cells.Count.{div_ceil-mul, checked_sub_of_le, checked_div_of_pos}
use multi_fuzz_benchmarks.Coverage.Layout.{PlotLayout, get_layout, columns, extent, u32_checked}

-- The two ways to count the rows agree.
suc-div_ceil : (n c : ℕ) → 0 < n → 0 < c → 1 + (n - 1) / c ≡ div_ceil n c
suc-div_ceil n c h k =
    let sum = div-add-mod' (n - 1) c in
    let lt = mod-lt (n - 1) k in
    let holds = div_ceil-mul n c k in
    let q = (n - 1) / c in
    let m = div_ceil n c in
    let more = suc-mul q c in
    let more2 = suc-mul (suc q) c in
    let low : q * c < m * c = omega arith in
    let high : m * c < suc (suc q) * c = omega arith in
    let a : q < m = lt_of_mul-lt-mul_right c low in
    let b : m < suc (suc q) = lt_of_mul-lt-mul_right c high in omega arith

u32_checked-lt : (n : ℕ) → n < 2 ^ 32 → u32_checked n ≡ some n
unfolding u32_checked
u32_checked-lt n h = rw (lt→ltb n (2 ^ 32) h, u32_checked) refl

extent-lt :
    (cell n least : ℕ)
    → 55 + cell * n < 2 ^ 32
    → extent cell n least ≡ some (max (55 + cell * n) least)
unfolding extent
extent-lt cell n least h =
    rw (u32_checked-lt (cell * n) (omega arith), u32_checked-lt (55 + cell * n) h, extent) refl

columns-bounds :
    (max_columns n : ℕ) → 0 < n → (0 < columns max_columns n) × (columns max_columns n ≤ n)
unfolding columns
columns-bounds zero n h = (h, omega arith)
columns-bounds (suc m) n h = (omega arith, omega arith)

-- A figure of at least one cell, whose dimensions fit in 32 bits, gets between one column and a
-- column for each cell, and room for exactly the rows that `split_with_columns` makes of these
-- cells with so many columns; with a least size.
pub get_layout-rows :
    (self : PlotLayout) (n : ℕ)
    → 0 < n
    → 55 + self.cell_size.width * columns self.max_columns n < 2 ^ 32
    → 55 + self.cell_size.height * div_ceil n (columns self.max_columns n) < 2 ^ 32
    → (n_col : ℕ) × (get_layout self n
        ≡ some (
          n_col,
          record {
            width = max (55 + self.cell_size.width * n_col) self.min_size.width;
            height =
                max (55 + self.cell_size.height * div_ceil n (min n n_col)) self.min_size.height;
          },
        ))
      × (0 < n_col)
      × (n_col ≤ n)
unfolding get_layout
get_layout-rows self n h wide tall =
    let n_col = columns self.max_columns n in
    let inside = columns-bounds self.max_columns n h in
    let narrow : min n n_col ≡ n_col = omega arith in
    (
      n_col,
      rw
          (
            narrow,
            checked_sub_of_le n 1 h,
            checked_div_of_pos (n - 1) n_col inside.0,
            suc-div_ceil n n_col h inside.0,
            extent-lt self.cell_size.width n_col self.min_size.width wide,
            extent-lt self.cell_size.height (div_ceil n n_col) self.min_size.height tall,
            get_layout,
          )
          refl,
      inside.0,
      inside.1,
    )
