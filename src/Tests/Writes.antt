-- ===== src/Tests/Writes.antt =====
-- A small sparse write, and its domain.
use tiledb_rs.Base.{◌≡◌, refl, [], ◌∷◌, All, some, done, arith}
use tiledb_rs.Base.Map.{get}
use tiledb_rs.Array.{fixed}
use tiledb_rs.Physical.{u8}
use tiledb_rs.Cells.Field.{single, many, uint8, vec_uint8}
use tiledb_rs.Cells.Write.{SparseWriteInput, sparse_domain, sort_cells}
use tiledb_rs.Cells.Write.Sorted.{sort_cells-sparse_domain}
use tiledb_rs.Cells.Shape.{IsUniform}
use tiledb_rs.Cells.Write.Bounding.{HasDimension, IsBoundingBox, sparse_domain-IsBoundingBox}
use tiledb_rs.Range.Domain.{NonEmptyDomain}
use tiledb_rs.Tests.Floats.{floats}

abbrev points : SparseWriteInput
points = record {
  dimensions = ("a", fixed 1) ∷ ("b", fixed 2) ∷ [];
  cells = record {
    fields =
        ("a", uint8 (3 ∷ 1 ∷ 2 ∷ []))
        ∷ ("b", vec_uint8 ((7 ∷ 0 ∷ []) ∷ (5 ∷ 6 ∷ []) ∷ (7 ∷ 1 ∷ []) ∷ []))
        ∷ [];
  };
}

points-HasDimension : All (HasDimension points.cells.fields) points.dimensions
unfolding get
points-HasDimension = (
  (single u8, 3, 1 ∷ 2 ∷ [], refl, tt),
  (
    (
      many u8,
      7 ∷ 0 ∷ [],
      (5 ∷ 6 ∷ []) ∷ (7 ∷ 1 ∷ []) ∷ [],
      refl,
      ((omega arith, omega arith), (refl, (refl, (refl, tt)))),
    ),
    tt,
  ),
)

sparse_domain-IsBoundingBox_example :
    (ranges : NonEmptyDomain) × (sparse_domain floats points ≡ done (some ranges))
    × IsBoundingBox floats points.cells.fields points.dimensions ranges
sparse_domain-IsBoundingBox_example = sparse_domain-IsBoundingBox floats points points-HasDimension

points-IsUniform : IsUniform points.cells 3
points-IsUniform = ((refl, (refl, tt)), omega arith)

sort_cells-sparse_domain_example :
    (sorted : SparseWriteInput) × (sort_cells floats points ≡ done sorted)
    × (sparse_domain floats sorted ≡ sparse_domain floats points)
sort_cells-sparse_domain_example =
    sort_cells-sparse_domain floats points 3 points-IsUniform points-HasDimension
