-- ===== src/Plot/Cells/Count.antt =====
-- utils.rs, split_with_columns: the number of cells.
use multi_fuzz_benchmarks.Prelude.{
  ℕ, zero, suc, ◌+◌, ◌-◌, ◌*◌, ◌/◌, ◌%◌, ◌≤◌, ◌<◌, ◌≡◌, refl, ap, ◌∙◌, ◌⊎◌, inl, inr, min, some,
  Bool-cases, List, ◌++◌, nat_beq, nat_beq_iff, length, length-append, arith,
}
use mathlib.Core.Path.{subst}
use native.Mathlib.Nat.{suc-mul, div-add-mod', mod-lt, mul-le-mul_right, mul-div-le}
use multi_fuzz_benchmarks.Plot.Cells.{
  checked_sub, checked_div, div_ceil, Floats, rows_of, split_grid, split_rows, last_row,
  split_with_columns,
}

pub checked_sub_of_le : (a b : ℕ) → b ≤ a → checked_sub a b ≡ some (a - b)
unfolding checked_sub
checked_sub_of_le a b h = ground arith

pub checked_div_of_pos : (a b : ℕ) → 0 < b → checked_div a b ≡ some (a / b)
unfolding checked_div
checked_div_of_pos a b h = ground arith

div_ceil-exact : (a b : ℕ) → a % b ≡ 0 → div_ceil a b ≡ a / b
unfolding div_ceil
div_ceil-exact a b h = ground (arith, nat_beq_iff (a % b) 0)

div_ceil-inexact : (a b : ℕ) → 0 < a % b → div_ceil a b ≡ suc (a / b)
unfolding div_ceil
div_ceil-inexact a b h = ground (arith, nat_beq_iff (a % b) 0)

zero-or_pos : (n : ℕ) → (n ≡ 0) ⊎ (0 < n)
zero-or_pos zero = inl refl
zero-or_pos (suc n) = inr (omega arith)

pred-mul : (a b : ℕ) → 0 < a → a * b ≡ (a - 1) * b + b
pred-mul zero b h = absurd (omega arith)
pred-mul (suc a) b h = suc-mul a b ∙ ap (λ n. n * b + b) (omega arith)

-- So many rows hold `a` cells, and one less do not.
pub div_ceil-mul : (a b : ℕ) → 0 < b → (a ≤ div_ceil a b * b) × (div_ceil a b * b < a + b)
div_ceil-mul a b h =
    let sum = div-add-mod' a b in
    let lt = mod-lt a h in
    let more = suc-mul (a / b) b in
    elim (zero-or_pos (a % b)) [
      | inl p ↦ rw (div_ceil-exact a b p) (omega arith, omega arith)
      | inr p ↦ rw (div_ceil-inexact a b p) (omega arith, omega arith)
    ]

pub div_ceil-pos : (a b : ℕ) → 0 < a → 0 < b → 0 < div_ceil a b
div_ceil-pos a b h k = elim (zero-or_pos (div_ceil a b)) [
  | inl p ↦ let le : a ≤ 0 * b = subst (λ q. a ≤ q * b) p (div_ceil-mul a b k).0 in omega arith
  | inr p ↦ p
]

-- A number below 2^24 is exact in 24 bits, and the quotient of two such numbers is too far from the
-- next integer to be rounded to it.
abbrev pub IsExact : Floats → Type 0
IsExact floats =
    (a b : ℕ)
    → a < 16777216
    → 0 < b
    → b < 16777216
    → floats.to_usize (floats.ceil (floats.div (floats.from_usize a) (floats.from_usize b)))
      ≡ div_ceil a b

module _ {Area : Type 0} (dim_in_pixel : Area → ℕ × ℕ)
    (split_vertically split_horizontally : Area → ℕ → Area × Area)
    (split_evenly : Area → ℕ × ℕ → List Area) where
  length-split_rows :
      ((area : Area) (cols : ℕ) → length (split_evenly area (1, cols)) ≡ cols)
      → (rows row_height cols : ℕ) (rest : Area)
      → length
          (split_rows dim_in_pixel split_vertically split_horizontally split_evenly rows row_height
            cols rest).0
        ≡ rows * cols
  unfolding split_rows
  length-split_rows even zero row_height cols rest = omega arith
  length-split_rows even (suc rows) row_height cols rest =
      let parts = split_vertically rest row_height in
      let later =
        split_rows dim_in_pixel split_vertically split_horizontally split_evenly rows row_height
          cols parts.1 in
      let ih = length-split_rows even rows row_height cols parts.1 in
      let row = even parts.0 cols in
      let sum = length-append (split_evenly parts.0 (1, cols)) later.0 in
      let more = suc-mul rows cols in omega arith

  last_row-some :
      (width cols used col_width : ℕ) (rest : Area)
      → used * col_width ≤ width
      → (area : Area) × (last_row dim_in_pixel split_vertically split_horizontally split_evenly
            width cols used col_width rest
          ≡ some area)
  unfolding last_row
  last_row-some width cols used col_width rest h = elim (Bool-cases (nat_beq cols used)) [
    | inl p ↦ (rest, rw (p, last_row) refl)
    | inr p ↦ (
      (split_horizontally (split_horizontally rest ((width - used * col_width) / 2)).1
          (width - (width - used * col_width))).0,
      rw
          (
            p,
            checked_sub_of_le width (used * col_width) h,
            checked_sub_of_le width (width - used * col_width) (omega arith),
            last_row,
          )
          refl,
    )
  ]

  length-split_grid :
      ((area : Area) (cols : ℕ) → length (split_evenly area (1, cols)) ≡ cols)
      → (plot_area : Area) (count cols : ℕ) → 0 < count
      → 0 < cols
      → cols ≤ count
      → (cells : List Area) × (split_grid dim_in_pixel split_vertically split_horizontally
            split_evenly plot_area count cols
            (div_ceil count cols)
          ≡ some cells)
        × (length cells ≡ count)
  unfolding split_grid
  length-split_grid even plot_area count cols pos cols_gt le =
      let rows = div_ceil count cols in
      let size = dim_in_pixel plot_area in
      let holds = div_ceil-mul count cols cols_gt in
      let rows_gt = div_ceil-pos count cols pos cols_gt in
      let unused = rows * cols - count in
      let used = cols - unused in
      let full =
        split_rows dim_in_pixel split_vertically split_horizontally split_evenly (rows - 1)
          (size.1 / rows) cols plot_area in
      let narrow : used * (size.0 / cols) ≤ size.0 =
        let le : used * (size.0 / cols) ≤ cols * (size.0 / cols) =
          mul-le-mul_right (size.0 / cols) (omega arith) in
        let total = mul-div-le size.0 cols in omega arith in
      let last = last_row-some size.0 cols used (size.0 / cols) full.1 narrow in
      let full_cells = length-split_rows even (rows - 1) (size.1 / rows) cols plot_area in
      let last_cells = even last.0 used in
      let sum = length-append full.0 (split_evenly last.0 (1, used)) in
      let more = pred-mul rows cols rows_gt in
      (
        full.0 ++ split_evenly last.0 (1, used),
        rw
            (
              checked_sub_of_le (rows * cols) count holds.0,
              checked_sub_of_le cols unused (omega arith),
              checked_div_of_pos size.0 cols cols_gt,
              checked_div_of_pos size.1 rows rows_gt,
              checked_sub_of_le rows 1 rows_gt,
              last.1,
              split_grid,
            )
            refl,
        omega arith,
      )

  -- For at least one cell, fewer than 2^24 of them, and at least one column, a figure is cut into
  -- exactly as many cells as asked for, without a panic, if plotters cuts a row evenly into the
  -- number of columns it is given, and if the ceiling of a quotient of two f32 below 2^24 is
  -- exact.
  pub length-split_with_columns :
      (floats : Floats)
      → IsExact floats
      → ((area : Area) (cols : ℕ) → length (split_evenly area (1, cols)) ≡ cols)
      → (plot_area : Area) (count max_cols : ℕ) → 0 < count
      → count < 16777216
      → 0 < max_cols
      → (cells : List Area) × (split_with_columns dim_in_pixel split_vertically split_horizontally
            split_evenly floats plot_area count max_cols
          ≡ some cells)
        × (length cells ≡ count)
  unfolding split_with_columns rows_of
  length-split_with_columns floats exact even plot_area count max_cols pos small cols_pos =
      let cols = min count max_cols in
      let same : rows_of floats count cols ≡ div_ceil count cols =
        exact count cols small (omega arith) (omega arith) in
      rw (split_with_columns, same)
        (length-split_grid even plot_area count cols pos (omega arith) (omega arith))
