-- ===== src/Cells/Write.antt =====
-- test-utils/cells/src/write/mod.rs: the inputs of dense and sparse writes, and the domains that they
-- cover. A schema is given by the names of its dimensions and the numbers of values in their cells.
pub mod Bounding
pub mod Extent
pub mod Sorted
use Prim.Native.String.{String}
use tiledb_rs.Base.{Ordering, Option, none, some, List, [], ◌∷◌, map, Outcome, done, ◌>>=◌}
use tiledb_rs.Base.Map.{get, unwrap}
use tiledb_rs.Array.{CellOrder, CellValNum, fixed, var as var_sized}
use tiledb_rs.Physical.{FloatOrder}
use tiledb_rs.Cells.{Fields, Cells}
use tiledb_rs.Cells.Field.{CellType, single, many, Cell, FieldData, typed_field_data_go, cell_cmp}
use tiledb_rs.Cells.Ordered.{sort}
use tiledb_rs.Range.{Range, single as single_range, multi, var}
use tiledb_rs.Range.Domain.{NonEmptyDomain}
use tiledb_rs.Range.Interval.Hull.{min_by, max_by}
use tiledb_rs.Range.Multi as Multi
use tiledb_rs.Range.Single.{SingleValueRange, of_pair}
use tiledb_rs.Range.Var as Var

pub record DenseWriteInput : Type 0 where
  pub layout : CellOrder
  pub cells : Cells
  pub subarray : List SingleValueRange

pub record SparseWriteInput : Type 0 where
  pub dimensions : List (String × CellValNum)
  pub cells : Cells

-- `Iterator::reduce`, by which `min_by` and `max_by` are defined.
unfoldable pub reduce : {A : Type 0} → (A → A → A) → A → List A → A
reduce pick x [] = x
reduce pick x (y ∷ ys) = reduce pick (pick x y) ys

abbrev pub reduce_by : {A : Type 0} → (A → A → A) → List A → Option A
reduce_by pick [] = none
reduce_by pick (x ∷ xs) = some (reduce pick x xs)

-- The range from the least to the greatest cell.
unfoldable pub range_from : CellValNum → (c : CellType) → Cell c → Cell c → Outcome Range
range_from cvn (single t) min max = done (single_range (of_pair t min max))
range_from (fixed n) (many t) min max =
    Multi.unwrap (Multi.try_from t (fixed n) min max) >>= λ r. done (multi r)
range_from var_sized (many t) min max = done (var (Var.of_slices t min max))

-- The closure of `domain`, after the look-up.
unfoldable pub dimension_range : FloatOrder → CellValNum → FieldData → Outcome (Option Range)
dimension_range fl cvn d = typed_field_data_go d (λ c dim_cells.
    elim (reduce_by (min_by (cell_cmp fl c)) dim_cells) [
      | none ↦ done none
      | some min ↦ elim (reduce_by (max_by (cell_cmp fl c)) dim_cells) [
        | none ↦ done none
        | some max ↦ range_from cvn c min max >>= (λ r. done (some r))
      ]
    ])

-- `map` and `collect`, which stops at the first `None`.
abbrev pub push_range :
    Option Range → Outcome (Option NonEmptyDomain) → Outcome (Option NonEmptyDomain)
push_range none rest = done none
push_range (some range) rest =
    rest >>= λ ranges. done (elim ranges [ none ↦ none | some rs ↦ some (range ∷ rs) ])

unfoldable pub collect_ranges :
    FloatOrder → Fields → List (String × CellValNum) → Outcome (Option NonEmptyDomain)
collect_ranges fl fields [] = done (some [])
collect_ranges fl fields ((dim, cvn) ∷ dims) = do
  dim_cells ← unwrap (get fields dim)
  r ← dimension_range fl cvn dim_cells
  push_range r (collect_ranges fl fields dims)

-- `SparseWriteInput::domain`.
unfoldable pub sparse_domain : FloatOrder → SparseWriteInput → Outcome (Option NonEmptyDomain)
sparse_domain fl self = collect_ranges fl self.cells.fields self.dimensions

unfoldable pub sort_cells : FloatOrder → SparseWriteInput → Outcome SparseWriteInput
sort_cells fl self = do
  cells ← sort fl self.cells (map (λ (k, cvn). k) self.dimensions)
  done (record { dimensions = self.dimensions; cells = cells })

pub data WriteInput : Type 0 where
  dense : DenseWriteInput → WriteInput
  sparse : SparseWriteInput → WriteInput

-- The methods `cells` and `unwrap_cells`.
abbrev pub input_cells : WriteInput → Cells
input_cells (dense w) = w.cells
input_cells (sparse w) = w.cells

unfoldable pub domain : FloatOrder → WriteInput → Outcome (Option NonEmptyDomain)
domain fl (dense w) = done (some (map single_range w.subarray))
domain fl (sparse w) = sparse_domain fl w

unfoldable pub subarray : FloatOrder → WriteInput → Outcome (Option NonEmptyDomain)
subarray fl (dense w) = domain fl (dense w)
subarray fl (sparse w) = done none
