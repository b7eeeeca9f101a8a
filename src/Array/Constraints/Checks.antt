-- ===== src/Array/Constraints/Checks.antt =====
-- The constraints of a dimension against its logical type, and as a range.
use tiledb_rs.Base.{
  ◌≡◌, ◌≢◌, ◌↔◌, refl, sym, ap, ◌∙◌, true, arith, Option, none, some, done, panic, ok,
}
use tiledb_rs.Base.Int.{pos, ◌<ℤ◌}
use tiledb_rs.Physical.{PhysicalType, i8, i16, i32, i64, u8, u16, u32, u64, f32, f64, Elem, InRange}
use tiledb_rs.Array.{single}
use tiledb_rs.Datatype.{Datatype, string_ascii, physical_type}
use tiledb_rs.Datatype.Classes.{is_compatible_type}
use tiledb_rs.Datatype.Codes.{eq_datatype_iff}
use tiledb_rs.Datatype.Compatible.{same_type_iff, is_compatible_type-physical_type}
use tiledb_rs.Range.{check_dimension_compatibility, single as single_range}
use tiledb_rs.Range.Integral.{Integral, physical, i128_from}
use tiledb_rs.Range.Single.{SingleValueRange, of_pair, num_cells, go-of_pair}
use tiledb_rs.Range.Dimension.{single_type, check_dimension_compatibility_iff}
use tiledb_rs.Array.Constraints.{
  DimensionConstraints, string_ascii_unbounded, of_bounds, dimension_constraints_go,
  physical_datatype, constraints_cell_val_num, verify_type_compatible, constraints_num_cells,
  num_cells_per_tile, domain, int8_bounds, int16_bounds, int32_bounds, int64_bounds, uint8_bounds,
  uint16_bounds, uint32_bounds, uint64_bounds, float32_bounds, float64_bounds,
}

-- The constraint's own type: that of its bounds, or none for strings.
abbrev pub bounds_type : DimensionConstraints → Option PhysicalType
bounds_type self = dimension_constraints_go self (λ t low high extent. some t) none

-- The constraint applies to a dimension of the logical type.
abbrev pub Applies : Option PhysicalType → Datatype → Type 0
Applies (some t) d = physical_type d ≡ t
Applies none d = d ≡ string_ascii

bounds_compatible :
    (t : PhysicalType) (d : Datatype) → (is_compatible_type t d ≡ true) ↔ (physical_type d ≡ t)
bounds_compatible t d =
    ground (arith, is_compatible_type-physical_type t d, same_type_iff (physical_type d) t)

-- `verify_type_compatible` accepts exactly the logical types that are represented by the type of the
-- bounds, and for strings `StringAscii` alone.
pub verify_type_compatible_iff :
    (self : DimensionConstraints) (d : Datatype)
    → (verify_type_compatible self d ≡ ok tt) ↔ Applies (bounds_type self) d
unfolding verify_type_compatible
verify_type_compatible_iff (int8_bounds low high extent) d = ground (arith, bounds_compatible i8 d)
verify_type_compatible_iff (int16_bounds low high extent) d =
    ground (arith, bounds_compatible i16 d)
verify_type_compatible_iff (int32_bounds low high extent) d =
    ground (arith, bounds_compatible i32 d)
verify_type_compatible_iff (int64_bounds low high extent) d =
    ground (arith, bounds_compatible i64 d)
verify_type_compatible_iff (uint8_bounds low high extent) d = ground (arith, bounds_compatible u8 d)
verify_type_compatible_iff (uint16_bounds low high extent) d =
    ground (arith, bounds_compatible u16 d)
verify_type_compatible_iff (uint32_bounds low high extent) d =
    ground (arith, bounds_compatible u32 d)
verify_type_compatible_iff (uint64_bounds low high extent) d =
    ground (arith, bounds_compatible u64 d)
verify_type_compatible_iff (float32_bounds low high extent) d =
    ground (arith, bounds_compatible f32 d)
verify_type_compatible_iff (float64_bounds low high extent) d =
    ground (arith, bounds_compatible f64 d)
verify_type_compatible_iff string_ascii_unbounded d = ground (arith, eq_datatype_iff d string_ascii)

-- A constraint applies to a dimension of its own `physical_datatype`.
pub physical_datatype-compatible :
    (self : DimensionConstraints) → verify_type_compatible self (physical_datatype self) ≡ ok tt
unfolding verify_type_compatible physical_datatype is_compatible_type
physical_datatype-compatible (int8_bounds low high extent) = refl
physical_datatype-compatible (int16_bounds low high extent) = refl
physical_datatype-compatible (int32_bounds low high extent) = refl
physical_datatype-compatible (int64_bounds low high extent) = refl
physical_datatype-compatible (uint8_bounds low high extent) = refl
physical_datatype-compatible (uint16_bounds low high extent) = refl
physical_datatype-compatible (uint32_bounds low high extent) = refl
physical_datatype-compatible (uint64_bounds low high extent) = refl
physical_datatype-compatible (float32_bounds low high extent) = refl
physical_datatype-compatible (float64_bounds low high extent) = refl
physical_datatype-compatible string_ascii_unbounded = refl

-- The number of cells of a constraint is that of the range which is its domain, and `None` where it
-- has no domain.
pub constraints_num_cells-domain :
    (self : DimensionConstraints)
    → constraints_num_cells self ≡ elim (domain self) [ none ↦ done none | some r ↦ num_cells r ]
unfolding constraints_num_cells domain num_cells
constraints_num_cells-domain (int8_bounds low high extent) = refl
constraints_num_cells-domain (int16_bounds low high extent) = refl
constraints_num_cells-domain (int32_bounds low high extent) = refl
constraints_num_cells-domain (int64_bounds low high extent) = refl
constraints_num_cells-domain (uint8_bounds low high extent) = refl
constraints_num_cells-domain (uint16_bounds low high extent) = refl
constraints_num_cells-domain (uint32_bounds low high extent) = refl
constraints_num_cells-domain (uint64_bounds low high extent) = refl
constraints_num_cells-domain (float32_bounds low high extent) = refl
constraints_num_cells-domain (float64_bounds low high extent) = refl
constraints_num_cells-domain string_ascii_unbounded = refl

bounds_fit :
    (t : PhysicalType) (low high : Elem t) (d : Datatype) (r : SingleValueRange)
    → physical_type d ≡ t
    → some (of_pair t low high) ≡ some r
    → d ≢ string_ascii
    → check_dimension_compatibility (single_range r) d single ≡ ok tt
bounds_fit t low high d r h e n =
    (check_dimension_compatibility_iff (single_range r) d single).1 (
      h ∙ sym (go-of_pair t low high (λ t low high. t)) ∙ ap single_type (of_some e),
      n,
      omega arith,
    )
  where
    of_some : {a b : SingleValueRange} → some a ≡ some b → a ≡ b
    of_some p = ground arith

-- The domain of a constraint that applies to a dimension is a range that the dimension accepts, for
-- a type other than `StringAscii`.
pub domain-compatible :
    (self : DimensionConstraints) (d : Datatype) (r : SingleValueRange)
    → verify_type_compatible self d ≡ ok tt
    → domain self ≡ some r
    → d ≢ string_ascii
    → check_dimension_compatibility (single_range r) d (constraints_cell_val_num self) ≡ ok tt
unfolding domain constraints_cell_val_num
domain-compatible (int8_bounds low high extent) d r h e n =
    bounds_fit i8 low high d r ((verify_type_compatible_iff (int8_bounds low high extent) d).0 h) e
      n
domain-compatible (int16_bounds low high extent) d r h e n =
    bounds_fit i16 low high d r ((verify_type_compatible_iff (int16_bounds low high extent) d).0 h)
      e n
domain-compatible (int32_bounds low high extent) d r h e n =
    bounds_fit i32 low high d r ((verify_type_compatible_iff (int32_bounds low high extent) d).0 h)
      e n
domain-compatible (int64_bounds low high extent) d r h e n =
    bounds_fit i64 low high d r ((verify_type_compatible_iff (int64_bounds low high extent) d).0 h)
      e n
domain-compatible (uint8_bounds low high extent) d r h e n =
    bounds_fit u8 low high d r ((verify_type_compatible_iff (uint8_bounds low high extent) d).0 h) e
      n
domain-compatible (uint16_bounds low high extent) d r h e n =
    bounds_fit u16 low high d r ((verify_type_compatible_iff (uint16_bounds low high extent) d).0 h)
      e n
domain-compatible (uint32_bounds low high extent) d r h e n =
    bounds_fit u32 low high d r ((verify_type_compatible_iff (uint32_bounds low high extent) d).0 h)
      e n
domain-compatible (uint64_bounds low high extent) d r h e n =
    bounds_fit u64 low high d r ((verify_type_compatible_iff (uint64_bounds low high extent) d).0 h)
      e n
domain-compatible (float32_bounds low high extent) d r h e n =
    bounds_fit f32 low high d r
      ((verify_type_compatible_iff (float32_bounds low high extent) d).0 h) e n
domain-compatible (float64_bounds low high extent) d r h e n =
    bounds_fit f64 low high d r
      ((verify_type_compatible_iff (float64_bounds low high extent) d).0 h) e n
domain-compatible string_ascii_unbounded d r h e n = absurd (ground arith)

-- `num_cells_per_tile` panics exactly if the extent is a negative integer, for extents of their type.
pub num_cells_per_tile-panic :
    (t : Integral) (low high extent : Elem (physical t))
    → InRange (physical t) extent
    → (num_cells_per_tile (of_bounds (physical t) low high (some extent)) ≡ panic)
      ↔ (i128_from t extent <ℤ pos 0)
unfolding num_cells_per_tile
num_cells_per_tile-panic Integral.i8 low high extent h = ground arith
num_cells_per_tile-panic Integral.i16 low high extent h = ground arith
num_cells_per_tile-panic Integral.i32 low high extent h = ground arith
num_cells_per_tile-panic Integral.i64 low high extent h = ground arith
num_cells_per_tile-panic Integral.u8 low high extent h = ground arith
num_cells_per_tile-panic Integral.u16 low high extent h = ground arith
num_cells_per_tile-panic Integral.u32 low high extent h = ground arith
num_cells_per_tile-panic Integral.u64 low high extent h = ground arith
