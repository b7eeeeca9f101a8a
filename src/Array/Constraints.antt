-- ===== src/Array/Constraints.antt =====
-- tiledb/common/src/array/dimension.rs: `DimensionConstraints`, the domain and the extent of a
-- dimension.
pub mod Checks
use tiledb_rs.Base.{
  ℕ, ◌^◌, ltb, not, ◌≤◌, ◌<◌, ◌≡◌, ◌≢◌, ◌↔◌, refl, sym, ap, ◌∙◌, true, arith, Option, none, some,
  if◌then◌else◌, Outcome, done, panic, ◌>>=◌, Result, ok, err,
}
use tiledb_rs.Base.Int.{ℤ, pos, negsuc, ◌≤ℤ◌, ◌<ℤ◌, ◌+ℤ◌}
use tiledb_rs.Physical.{PhysicalType, i8, i16, i32, i64, u8, u16, u32, u64, f32, f64, Elem, InRange}
use tiledb_rs.Array.{CellValNum, fixed, var, single}
use tiledb_rs.Datatype.{
  Datatype, uint8, uint16, uint32, uint64, float32, float64, int8, int16, int32, int64,
  string_ascii, eq_datatype, physical_type, DatatypeError, physical_type_incompatible,
}
use tiledb_rs.Datatype.Classes.{is_compatible_type}
use tiledb_rs.Datatype.Codes.{eq_datatype_iff}
use tiledb_rs.Datatype.Compatible.{same_type_iff, is_compatible_type-physical_type}
use tiledb_rs.Range.{check_dimension_compatibility, single as single_range}
use tiledb_rs.Range.Integral.{Integral, physical, i128_from, span_cells}
use tiledb_rs.Range.Single.{SingleValueRange, of_pair, num_cells, go-of_pair}
use tiledb_rs.Range.Dimension.{Fits, single_type, check_dimension_compatibility_iff}

-- A pair of bounds, low and high, and the extent of a tile.
pub data DimensionConstraints : Type 0 where
  int8_bounds : ℤ → ℤ → Option ℤ → DimensionConstraints
  int16_bounds : ℤ → ℤ → Option ℤ → DimensionConstraints
  int32_bounds : ℤ → ℤ → Option ℤ → DimensionConstraints
  int64_bounds : ℤ → ℤ → Option ℤ → DimensionConstraints
  uint8_bounds : ℕ → ℕ → Option ℕ → DimensionConstraints
  uint16_bounds : ℕ → ℕ → Option ℕ → DimensionConstraints
  uint32_bounds : ℕ → ℕ → Option ℕ → DimensionConstraints
  uint64_bounds : ℕ → ℕ → Option ℕ → DimensionConstraints
  float32_bounds : ℕ → ℕ → Option ℕ → DimensionConstraints
  float64_bounds : ℕ → ℕ → Option ℕ → DimensionConstraints
  string_ascii_unbounded : DimensionConstraints

-- `enum Error`.
pub data ConstraintsError : Type 0 where
  datatype : DatatypeError → ConstraintsError
  expected_string_ascii : Datatype → ConstraintsError

-- The conversions of `dimension_constraints_impl`, for each type `T`: from bounds with an optional
-- extent, which is `None` for bounds alone.
abbrev pub of_bounds : (t : PhysicalType) → Elem t → Elem t → Option (Elem t) → DimensionConstraints
of_bounds i8 low high extent = int8_bounds low high extent
of_bounds i16 low high extent = int16_bounds low high extent
of_bounds i32 low high extent = int32_bounds low high extent
of_bounds i64 low high extent = int64_bounds low high extent
of_bounds u8 low high extent = uint8_bounds low high extent
of_bounds u16 low high extent = uint16_bounds low high extent
of_bounds u32 low high extent = uint32_bounds low high extent
of_bounds u64 low high extent = uint64_bounds low high extent
of_bounds f32 low high extent = float32_bounds low high extent
of_bounds f64 low high extent = float64_bounds low high extent

-- The macro `dimension_constraints_go` with one branch for all bounds.
abbrev pub dimension_constraints_go {ℓ} :
    {R : Type ℓ}
    → DimensionConstraints
    → ((t : PhysicalType) → Elem t → Elem t → Option (Elem t) → R)
    → R
    → R
dimension_constraints_go (int8_bounds low high extent) go string = go i8 low high extent
dimension_constraints_go (int16_bounds low high extent) go string = go i16 low high extent
dimension_constraints_go (int32_bounds low high extent) go string = go i32 low high extent
dimension_constraints_go (int64_bounds low high extent) go string = go i64 low high extent
dimension_constraints_go (uint8_bounds low high extent) go string = go u8 low high extent
dimension_constraints_go (uint16_bounds low high extent) go string = go u16 low high extent
dimension_constraints_go (uint32_bounds low high extent) go string = go u32 low high extent
dimension_constraints_go (uint64_bounds low high extent) go string = go u64 low high extent
dimension_constraints_go (float32_bounds low high extent) go string = go f32 low high extent
dimension_constraints_go (float64_bounds low high extent) go string = go f64 low high extent
dimension_constraints_go string_ascii_unbounded go string = string

-- The macro with its three branches.
abbrev pub dimension_constraints_go_integral {ℓ} :
    {R : Type ℓ}
    → DimensionConstraints
    → ((t : Integral) → Elem (physical t) → Elem (physical t) → Option (Elem (physical t)) → R)
    → R
    → R
    → R
dimension_constraints_go_integral (int8_bounds low high extent) integral float string =
    integral Integral.i8 low high extent
dimension_constraints_go_integral (int16_bounds low high extent) integral float string =
    integral Integral.i16 low high extent
dimension_constraints_go_integral (int32_bounds low high extent) integral float string =
    integral Integral.i32 low high extent
dimension_constraints_go_integral (int64_bounds low high extent) integral float string =
    integral Integral.i64 low high extent
dimension_constraints_go_integral (uint8_bounds low high extent) integral float string =
    integral Integral.u8 low high extent
dimension_constraints_go_integral (uint16_bounds low high extent) integral float string =
    integral Integral.u16 low high extent
dimension_constraints_go_integral (uint32_bounds low high extent) integral float string =
    integral Integral.u32 low high extent
dimension_constraints_go_integral (uint64_bounds low high extent) integral float string =
    integral Integral.u64 low high extent
dimension_constraints_go_integral (float32_bounds low high extent) integral float string = float
dimension_constraints_go_integral (float64_bounds low high extent) integral float string = float
dimension_constraints_go_integral string_ascii_unbounded integral float string = string

unfoldable pub physical_datatype : DimensionConstraints → Datatype
physical_datatype (int8_bounds low high extent) = int8
physical_datatype (int16_bounds low high extent) = int16
physical_datatype (int32_bounds low high extent) = int32
physical_datatype (int64_bounds low high extent) = int64
physical_datatype (uint8_bounds low high extent) = uint8
physical_datatype (uint16_bounds low high extent) = uint16
physical_datatype (uint32_bounds low high extent) = uint32
physical_datatype (uint64_bounds low high extent) = uint64
physical_datatype (float32_bounds low high extent) = float32
physical_datatype (float64_bounds low high extent) = float64
physical_datatype string_ascii_unbounded = string_ascii

unfoldable pub constraints_cell_val_num : DimensionConstraints → CellValNum
constraints_cell_val_num string_ascii_unbounded = var
constraints_cell_val_num _ = single

unfoldable pub verify_type_compatible :
    DimensionConstraints → Datatype → Result ConstraintsError (Unit {0})
verify_type_compatible self d =
    dimension_constraints_go self
      (λ t low high extent.
        if not (is_compatible_type t d)
        then err (datatype (physical_type_incompatible t d))
        else ok tt)
      (if not (eq_datatype d string_ascii) then err (expected_string_ascii d) else ok tt)

-- The method `num_cells`.
unfoldable pub constraints_num_cells : DimensionConstraints → Outcome (Option ℕ)
unfolding span_cells
constraints_num_cells self =
    dimension_constraints_go_integral self
      (λ t low high extent. span_cells (i128_from t low) (i128_from t high)) (done none) (done none)

-- `usize::try_from(extent).unwrap()`, of a 64-bit `usize`.
abbrev pub unwrap_usize : ℤ → Outcome ℕ
unwrap_usize (pos n) = if ltb n (2 ^ 64) then done n else panic
unwrap_usize (negsuc n) = panic

-- `extent.map(...)`.
abbrev pub tile_cells : (t : Integral) → Option (Elem (physical t)) → Outcome (Option ℕ)
tile_cells t none = done none
tile_cells t (some extent) = do cells ← unwrap_usize (i128_from t extent); done (some cells)

unfoldable pub num_cells_per_tile : DimensionConstraints → Outcome (Option ℕ)
num_cells_per_tile self =
    dimension_constraints_go_integral self (λ t low high extent. tile_cells t extent) (done none)
      (done none)

unfoldable pub domain : DimensionConstraints → Option SingleValueRange
domain self = dimension_constraints_go self (λ t low high extent. some (of_pair t low high)) none
