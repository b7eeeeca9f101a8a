-- ===== src/Range/Dimension.antt =====
-- tiledb/common/src/range.rs: which ranges `check_dimension_compatibility` accepts.
use tiledb_rs.Base.{◌≤◌, ◌≡◌, ◌≢◌, ◌↔◌, refl, arith, ok, err, if◌then◌else◌}
use tiledb_rs.Physical.{PhysicalType, u8}
use tiledb_rs.Array.{CellValNum, fixed, var as var_sized}
use tiledb_rs.Datatype.{Datatype, string_ascii, physical_type, physical_type_incompatible}
use tiledb_rs.Datatype.Classes.{same_type}
use tiledb_rs.Datatype.Codes.{eq_datatype_iff}
use tiledb_rs.Datatype.Compatible.{same_type_iff, is_compatible_type-physical_type}
use tiledb_rs.Range.Single.{SingleValueRange, single_value_range_go, uint8 as single_uint8}
use tiledb_rs.Range.Var.{VarValueRange, var_value_range_go, uint8 as var_uint8}
use tiledb_rs.Range.{
  Range, single, multi, var, check_type, check_single, check_var, check_range, check_cells,
  check_string_range, check_dimension_compatibility, datatype_error,
}

-- The type of the ends.
abbrev pub single_type : SingleValueRange → PhysicalType
single_type r = single_value_range_go r (λ t start end. t)

abbrev pub var_type : VarValueRange → PhysicalType
var_type r = var_value_range_go r (λ t start end. t)

-- A range that describes cells of the dimension: one value of the type that represents the logical
-- type, or a string of bytes for the type `StringAscii`.
abbrev pub Fits : Range → Datatype → CellValNum → Type 0
Fits (single r) d (fixed n) = (physical_type d ≡ single_type r) × (d ≢ string_ascii) × (n ≤ 1)
Fits (var r) d var_sized = (d ≡ string_ascii) × (var_type r ≡ u8)
Fits _ d n = ⊥

check_type_iff :
    (t : PhysicalType) (d : Datatype) → (check_type t d ≡ ok tt) ↔ (physical_type d ≡ t)
unfolding check_type
check_type_iff t d =
    ground (arith, is_compatible_type-physical_type t d, same_type_iff (physical_type d) t)

check_single-type :
    (r : SingleValueRange) (d : Datatype) → check_single r d ≡ check_type (single_type r) d
unfolding check_single
check_single-type (single_uint8 a b) d = refl
check_single-type _ d = refl

check_var-type : (r : VarValueRange) (d : Datatype) → check_var r d ≡ check_type (var_type r) d
unfolding check_var
check_var-type (var_uint8 a b) d = refl
check_var-type _ d = refl

single_string : (r : SingleValueRange) (d : Datatype) → check_string_range (single r) d ≢ ok tt
unfolding check_string_range
single_string (single_uint8 a b) d = ground arith
single_string _ d = ground arith

var_string :
    (r : VarValueRange) (d : Datatype)
    → check_string_range (var r) d ≡ (
        if same_type (var_type r) u8
        then ok tt
        else err (datatype_error (physical_type_incompatible (var_type r) d)))
unfolding check_string_range
var_string (var_uint8 a b) d = refl
var_string _ d = refl

bytes_type : physical_type string_ascii ≡ u8
unfolding physical_type
bytes_type = refl

-- `check_dimension_compatibility` accepts exactly the ranges that fit the dimension: a
-- single-value range of the physical type, for a type that is not `StringAscii` and at most one
-- value in a cell, and a variable-length range of bytes for `StringAscii` and `Var`.
pub check_dimension_compatibility_iff :
    (r : Range) (d : Datatype) (n : CellValNum)
    → (check_dimension_compatibility r d n ≡ ok tt) ↔ Fits r d n
unfolding check_dimension_compatibility check_range check_cells
check_dimension_compatibility_iff (single r) d (fixed n) =
    ground (
      arith,
      check_single-type r d,
      check_type_iff (single_type r) d,
      eq_datatype_iff d string_ascii,
    )
check_dimension_compatibility_iff (single r) d var_sized =
    ground (arith, check_single-type r d, check_type_iff (single_type r) d, single_string r d)
check_dimension_compatibility_iff (multi r) d (fixed n) = ground arith
check_dimension_compatibility_iff (multi r) d var_sized = ground arith
check_dimension_compatibility_iff (var r) d (fixed n) =
    ground (arith, check_var-type r d, check_type_iff (var_type r) d)
check_dimension_compatibility_iff (var r) d var_sized = ground (
  arith,
  check_var-type r d,
  check_type_iff (var_type r) d,
  eq_datatype_iff d string_ascii,
  var_string r d,
  same_type_iff (var_type r) u8,
  bytes_type,
)
