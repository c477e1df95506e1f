-- ===== src/Plot/Cells.antt =====
-- utils.rs, split_with_columns: a figure is cut into rows of cells, the last row centered.
pub mod Count
use multi_fuzz_benchmarks.Prelude.{
  ℕ, zero, suc, ◌+◌, ◌-◌, ◌*◌, ◌/◌, ◌%◌, min, Option, none, some, Bool, true, false, List, [], ◌++◌,
  ltb, nat_beq, if◌then◌else◌,
}
use multi_fuzz_benchmarks.Prelude.Maybe.{◌>>=◌}

-- `None` stands for the panic on an underflow or on a division by zero.
unfoldable pub checked_sub : ℕ → ℕ → Option ℕ
checked_sub a b = if ltb a b then none else some (a - b)

unfoldable pub checked_div : ℕ → ℕ → Option ℕ
checked_div a b = if nat_beq b 0 then none else some (a / b)

-- The quotient of two numbers, rounded up. For `b = 0` it is 1 here and more in the code; both make
-- `split_with_columns` panic.
unfoldable pub div_ceil : ℕ → ℕ → ℕ
div_ceil a b = if nat_beq (a % b) 0 then a / b else suc (a / b)

-- What is used of f32: the casts from and to usize, the division and `ceil`.
pub record Floats : Type 1 where
  pub F32 : Type 0
  pub from_usize : ℕ → F32
  pub to_usize : F32 → ℕ
  pub div : F32 → F32 → F32
  pub ceil : F32 → F32

-- `(count as f32 / cols as f32).ceil() as usize`.
unfoldable pub rows_of : Floats → ℕ → ℕ → ℕ
rows_of floats count cols =
    floats.to_usize (floats.ceil (floats.div (floats.from_usize count) (floats.from_usize cols)))

-- Over the drawing areas of plotters.
module _ {Area : Type 0} (dim_in_pixel : Area → ℕ × ℕ)
    (split_vertically split_horizontally : Area → ℕ → Area × Area)
    (split_evenly : Area → ℕ × ℕ → List Area) where
  -- The loop over the full rows: their cells, and the area that is left.
  unfoldable pub split_rows : ℕ → ℕ → ℕ → Area → List Area × Area
  split_rows zero row_height cols rest = ([], rest)
  split_rows (suc rows) row_height cols rest =
      let parts = split_vertically rest row_height in
      let later = split_rows rows row_height cols parts.1 in
      (split_evenly parts.0 (1, cols) ++ later.0, later.1)

  unfoldable pub last_row : ℕ → ℕ → ℕ → ℕ → Area → Option Area
  unfolding checked_sub
  last_row width cols cols_in_last_row col_width rest = elim (nat_beq cols cols_in_last_row) [
    | true ↦ some rest
    | false ↦ do
      padding ← checked_sub width (cols_in_last_row * col_width)
      row_width ← checked_sub width padding
      some (split_horizontally (split_horizontally rest (padding / 2)).1 row_width).0
  ]

  -- The rest of `split_with_columns`, behind the numbers of columns and of rows.
  unfoldable pub split_grid : Area → ℕ → ℕ → ℕ → Option (List Area)
  unfolding checked_sub checked_div split_rows last_row
  split_grid plot_area count cols rows = do
    unused ← checked_sub (rows * cols) count
    cols_in_last_row ← checked_sub cols unused
    col_width ← checked_div (dim_in_pixel plot_area).0 cols
    row_height ← checked_div (dim_in_pixel plot_area).1 rows
    full_rows ← checked_sub rows 1
    let full = split_rows full_rows row_height cols plot_area
    last ← last_row (dim_in_pixel plot_area).0 cols cols_in_last_row col_width full.1
    some (full.0 ++ split_evenly last (1, cols_in_last_row))

  unfoldable pub split_with_columns : Floats → Area → ℕ → ℕ → Option (List Area)
  unfolding rows_of split_grid
  split_with_columns floats plot_area count max_cols =
      let cols = min count max_cols in split_grid plot_area count cols (rows_of floats count cols)
