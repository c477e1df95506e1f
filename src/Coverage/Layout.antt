-- ===== src/Coverage/Layout.antt =====
-- config.rs: the data sets of a figure and the layout of its cells.
pub mod Rows
use multi_fuzz_benchmarks.Prelude.{
  ℕ, zero, suc, ◌+◌, ◌-◌, ◌*◌, ◌/◌, ◌^◌, min, max, Option, none, some, Bool, true, false, List, [],
  ◌∷◌, ◌++◌, Text, ◌==◌, text_eq, map, ltb, nat_beq, if◌then◌else◌,
}
use multi_fuzz_benchmarks.Prelude.Dict.{Dict}
use multi_fuzz_benchmarks.Prelude.Maybe.{◌>>=◌}
use multi_fuzz_benchmarks.Coverage.Filter.{FilterExpr}
use multi_fuzz_benchmarks.Plot.Cells.{checked_sub, checked_div}

-- Durations in milliseconds.
pub data DataSource : Type 0 where
  ember_csv : Text → ℕ → Bool → DataSource
  fuzzware_blocks_csv multi_fuzz_bench : Text → ℕ → DataSource

pub data VecOrOne (T : Type 0) : Type 0 where
  vec : List T → VecOrOne T
  one : T → VecOrOne T

unfoldable pub from : {T : Type 0} → VecOrOne T → List T
from (vec v) = v
from (one o) = o ∷ []

pub record Dataset : Type 0 where
  pub source : DataSource
  pub filter : FilterExpr

pub record Size : Type 0 where
  pub width : ℕ
  pub height : ℕ

pub record PlotLayout : Type 0 where
  pub cell_size : Size
  pub max_columns : ℕ
  pub min_size : Size

-- A sum or a product of two u32; `None` stands for the overflow.
unfoldable pub u32_checked : ℕ → Option ℕ
u32_checked n = if ltb n (2 ^ 32) then some n else none

unfoldable pub columns : ℕ → ℕ → ℕ
columns max_columns n_binaries = elim max_columns [
  | zero ↦ n_binaries
  | suc rest ↦ min n_binaries (suc rest)
]

-- One dimension of a figure: `u32::max(55 + cell * n, least)`.
unfoldable pub extent : ℕ → ℕ → ℕ → Option ℕ
unfolding u32_checked
extent cell n least = do
  cells ← u32_checked (cell * n)
  sum ← u32_checked (55 + cells)
  some (max sum least)

unfoldable pub get_layout : PlotLayout → ℕ → Option (ℕ × Size)
unfolding columns extent checked_sub checked_div
get_layout self n_binaries = do
  let n_col = columns self.max_columns n_binaries
  before ← checked_sub n_binaries 1
  rows_before ← checked_div before n_col
  width ← extent self.cell_size.width n_col self.min_size.width
  height ← extent self.cell_size.height (1 + rows_before) self.min_size.height
  some (n_col, record { width = width; height = height })

abbrev pub default_layout : PlotLayout
default_layout = record {
  cell_size = record { width = 160; height = 180 };
  max_columns = 5;
  min_size = record { width = 800; height = 500 };
}

-- `Config::datasets`: the sources of an entry share its id.
unfoldable pub datasets : ℕ → Dict Text (List Dataset) → List (ℕ × Text × Dataset)
datasets id [] = []
datasets id ((name, sources) ∷ rest) = map (λ x. (id, name, x)) sources ++ datasets (suc id) rest

-- `Config::has_bug_exploit`.
unfoldable pub has_bug_exploit : List Text → Text → Bool
has_bug_exploit [] name = false
has_bug_exploit (x ∷ rest) name = if x == name then true else has_bug_exploit rest name
