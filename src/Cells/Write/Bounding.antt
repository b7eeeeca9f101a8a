-- ===== src/Cells/Write/Bounding.antt =====
-- test-utils/cells/src/write/mod.rs: the domain of a sparse write as the bounding box of its cells.
use Prim.Native.String.{String}
use tiledb_rs.Base.{◌≡◌, refl, ◌∙◌, some, List, [], ◌∷◌, length, done, All}
use tiledb_rs.Base.Map.{get}
use tiledb_rs.Array.{CellValNum, fixed, var as var_sized}
use tiledb_rs.Physical.{FloatOrder}
use tiledb_rs.Cells.{Fields}
use tiledb_rs.Cells.Field.{CellType, single, many, Cell, of_cells, cell_cmp}
use tiledb_rs.Cells.Field.View.{go-of_cells, cell_cmp-IsTotal}
use tiledb_rs.Cells.Write.{
  SparseWriteInput, reduce, range_from, dimension_range, collect_ranges, sparse_domain,
}
use tiledb_rs.Cells.Write.Extent.{Occurs, IsExtent, reduce-IsExtent, Occurs-All}
use tiledb_rs.Range.{Range, single as single_range, multi, var}
use tiledb_rs.Range.Domain.{NonEmptyDomain}
use tiledb_rs.Range.Interval.Hull.{min_by, max_by}
use tiledb_rs.Range.Multi as Multi
use tiledb_rs.Range.Multi.Hull.{IsLength, remade}
use tiledb_rs.Range.Single.{of_pair}
use tiledb_rs.Range.Var as Var

-- The range from one cell to another of their type, and for the number of values in a cell.
abbrev pub range_of : CellValNum → (c : CellType) → Cell c → Cell c → Range
range_of cvn (single t) low high = single_range (of_pair t low high)
range_of (fixed n) (many t) low high = multi (Multi.of_slices t low high)
range_of var_sized (many t) low high = var (Var.of_slices t low high)

-- The cells have the number of values: cells of one value any, and the others each `n` of them,
-- where `n` is the number of a fixed cell.
abbrev pub HasCellValNum : CellValNum → (c : CellType) → List (Cell c) → Type 0
HasCellValNum cvn (single t) xs = Unit
HasCellValNum (fixed n) (many t) xs = IsLength n × All (λ v. length v ≡ n) xs
HasCellValNum var_sized (many t) xs = Unit

range_from-range_of :
    (cvn : CellValNum) (c : CellType) (xs : List (Cell c)) (low high : Cell c)
    → HasCellValNum cvn c xs
    → Occurs low xs
    → Occurs high xs
    → range_from cvn c low high ≡ done (range_of cvn c low high)
unfolding range_from
range_from-range_of cvn (single t) xs low high h p q = refl
range_from-range_of var_sized (many t) xs low high h p q = refl
range_from-range_of (fixed n) (many t) xs low high (l, h) p q =
    rw
      (remade t n low high l (Occurs-All (λ v. length v ≡ n) low xs h p)
        (Occurs-All (λ v. length v ≡ n) high xs h q))
      refl

-- The dimension is a field with at least one cell, and its cells have the number of values.
abbrev pub HasDimension : Fields → String × CellValNum → Type 0
HasDimension fields (dim, cvn) =
    (c : CellType) × (x : Cell c) × (xs : List (Cell c)) × (get fields dim
      ≡ some (of_cells c (x ∷ xs)))
    × HasCellValNum cvn c (x ∷ xs)

module _ (fl : FloatOrder) where
  pub dimension_range-IsExtent :
      (cvn : CellValNum) (c : CellType) (x : Cell c) (xs : List (Cell c))
      → HasCellValNum cvn c (x ∷ xs)
      → (low high : Cell c) × (dimension_range fl cvn (of_cells c (x ∷ xs))
          ≡ done (some (range_of cvn c low high)))
        × IsExtent (cell_cmp fl c) low high (x ∷ xs)
  unfolding dimension_range
  dimension_range-IsExtent cvn c x xs h =
      let extent = reduce-IsExtent (cell_cmp fl c) (cell_cmp-IsTotal fl c) x xs in
      let low = reduce (min_by (cell_cmp fl c)) x xs in
      let high = reduce (max_by (cell_cmp fl c)) x xs in
      (
        low,
        high,
        go-of_cells c (x ∷ xs) _
            ∙ rw (range_from-range_of cvn c (x ∷ xs) low high h (extent.0) (extent.1)) refl,
        extent,
      )

  -- The range goes from the least cell of the dimension to the greatest one.
  abbrev pub IsBoundary : Fields → String × CellValNum → Range → Type 0
  IsBoundary fields (dim, cvn) r =
      (c : CellType) × (xs : List (Cell c)) × (low high : Cell c) × (get fields dim
        ≡ some (of_cells c xs))
      × (r ≡ range_of cvn c low high)
      × IsExtent (cell_cmp fl c) low high xs

  -- Each range of the domain is that of its dimension.
  abbrev pub IsBoundingBox : Fields → List (String × CellValNum) → NonEmptyDomain → Type 0
  IsBoundingBox fields [] [] = Unit
  IsBoundingBox fields [] (r ∷ rs) = ⊥
  IsBoundingBox fields (dim ∷ dims) [] = ⊥
  IsBoundingBox fields (dim ∷ dims) (r ∷ rs) =
      IsBoundary fields dim r × IsBoundingBox fields dims rs

  collect_ranges-IsBoundingBox :
      (fields : Fields) (dims : List (String × CellValNum))
      → All (HasDimension fields) dims
      → (ranges : NonEmptyDomain) × (collect_ranges fl fields dims ≡ done (some ranges))
        × IsBoundingBox fields dims ranges
  unfolding collect_ranges
  collect_ranges-IsBoundingBox fields [] h = ([], refl, tt)
  collect_ranges-IsBoundingBox fields ((dim, cvn) ∷ dims) ((c, x, xs, g, k), hs) =
      let (low, high, e, extent) = dimension_range-IsExtent cvn c x xs k in
      let (ranges, e', box) = collect_ranges-IsBoundingBox fields dims hs in
      (
        range_of cvn c low high ∷ ranges,
        rw (g, e, e') refl,
        ((c, x ∷ xs, low, high, g, refl, extent), box),
      )

  -- Where every dimension of a sparse write is a field with at least one cell, whose cells have the
  -- number of values of the dimension, `domain` returns a bounding box: the range of each dimension
  -- goes from one of its cells to another, and all its cells are at least the one and at most the
  -- other.
  pub sparse_domain-IsBoundingBox :
      (self : SparseWriteInput)
      → All (HasDimension self.cells.fields) self.dimensions
      → (ranges : NonEmptyDomain) × (sparse_domain fl self ≡ done (some ranges))
        × IsBoundingBox self.cells.fields self.dimensions ranges
  unfolding sparse_domain
  sparse_domain-IsBoundingBox self = collect_ranges-IsBoundingBox self.cells.fields self.dimensions
