-- ===== src/Tests/Array.antt =====
-- The array model's enumerations, the number of values in a cell, and a dimension's constraints.
use tiledb_rs.Base.{ℕ, ◌≡◌, ◌≢◌, ◌↔◌, refl, true, some, arith, ok}
use tiledb_rs.Base.Int.{pos}
use tiledb_rs.Physical.{i64}
use tiledb_rs.Datatype.{date_time_day}
use tiledb_rs.Array.{
  Mode, TileOrder, CellOrder, ArrayType, VfsMode, fixed, var, u32_max, try_from_u32, to_u32, eq_u32,
}
use tiledb_rs.Array.Codes.{
  mode_from_ffi, mode_to_ffi, tile_order_from_ffi, tile_order_to_ffi, cell_order_from_ffi,
  cell_order_to_ffi, array_type_from_ffi, array_type_to_ffi, vfs_mode_from_ffi, vfs_mode_to_ffi,
  from_ffi_iff, try_from_u32-to_u32,
}
use tiledb_rs.Array.Constraints.{
  DimensionConstraints, int64_bounds, verify_type_compatible, constraints_cell_val_num, domain,
}
use tiledb_rs.Array.Constraints.Checks.{domain-compatible}
use tiledb_rs.Range.{check_dimension_compatibility, single}
use tiledb_rs.Range.Single.{of_pair}

abbrev days : DimensionConstraints
days = int64_bounds (pos 0) (pos 364) (some (pos 7))

from_ffi_iff_example :
    ((x : Mode) → (mode_from_ffi 4 ≡ ok x) ↔ (mode_to_ffi x ≡ 4))
    × ((x : TileOrder) → (tile_order_from_ffi 4 ≡ ok x) ↔ (tile_order_to_ffi x ≡ 4))
    × ((x : CellOrder) → (cell_order_from_ffi 4 ≡ ok x) ↔ (cell_order_to_ffi x ≡ 4))
    × ((x : ArrayType) → (array_type_from_ffi 4 ≡ ok x) ↔ (array_type_to_ffi x ≡ 4))
    × ((x : VfsMode) → (vfs_mode_from_ffi 4 ≡ ok x) ↔ (vfs_mode_to_ffi x ≡ 4))
from_ffi_iff_example = from_ffi_iff 4

abbrev three : ℕ
three = 3

try_from_u32-to_u32_example :
    ((try_from_u32 (to_u32 (fixed 3)) ≡ ok (fixed 3)) ↔ (fixed 3 ≢ fixed u32_max))
    × (try_from_u32 (to_u32 (fixed u32_max)) ≡ ok var)
    × ((n : ℕ) → (eq_u32 (fixed 3) n ≡ true) ↔ (to_u32 (fixed 3) ≡ n))
try_from_u32-to_u32_example = try_from_u32-to_u32 (fixed 3) (omega arith)

domain-compatible_example :
    check_dimension_compatibility
      (single (of_pair i64 (pos 0) (pos 364)))
      date_time_day
      (constraints_cell_val_num days)
    ≡ ok tt
unfolding tiledb_rs.Datatype.Classes.is_compatible_type
domain-compatible_example =
    domain-compatible days date_time_day (of_pair i64 (pos 0) (pos 364))
      (unfold verify_type_compatible in refl) (unfold domain in refl) (ground arith)
