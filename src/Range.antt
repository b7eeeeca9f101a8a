-- ===== src/Range.antt =====
-- tiledb/common/src/range.rs: `Range`, which is a single-value, a multiple-value or a
-- variable-length range, and the check of a range against a dimension.
pub mod Dimension
pub mod Domain
pub mod Integral
pub mod Interval
pub mod Multi
pub mod Single
pub mod Slices
pub mod Var
use tiledb_rs.Base.{
  ℕ, ◌==◌, ltb, Bool, true, false, not, Option, none, some, if◌then◌else◌, Outcome, done, panic,
  ◌>>=◌, Result, ok, err, and_then, map_err,
}
use tiledb_rs.Physical.{PhysicalType, u8, FloatOrder}
use tiledb_rs.Array.{CellValNum, fixed, var as var_sized}
use tiledb_rs.Datatype.{
  Datatype, string_ascii, eq_datatype, DatatypeError, physical_type_incompatible,
}
use tiledb_rs.Datatype.Classes.{is_compatible_type, same_type}
use Single.{SingleValueRange, single_value_range_go}
use Multi.{MultiValueRange, multi_value_range_go}
use Var.{VarValueRange, var_value_range_go}

pub data Range : Type 0 where
  single : SingleValueRange → Range
  multi : MultiValueRange → Range
  var : VarValueRange → Range

-- `DimensionCompatibilityError`.
pub data DimensionError : Type 0 where
  multi_value_range cell_val_num_fixed fixed_string_ascii_dimension : ℕ → DimensionError
  var_range_for_non_string_dimension cell_val_num_var : Datatype → DimensionError
  fixed_range_for_string_dimension : DimensionError
  datatype_error : DatatypeError → DimensionError

-- The macros `check_datatype` and `check_datatype_inner`.
unfoldable pub check_type : PhysicalType → Datatype → Result DatatypeError (Unit {0})
check_type t d =
    if not (is_compatible_type t d) then err (physical_type_incompatible t d) else ok tt

unfoldable pub check_single : SingleValueRange → Datatype → Result DatatypeError (Unit {0})
check_single self d = single_value_range_go self (λ t start end. check_type t d)

unfoldable pub check_multi : MultiValueRange → Datatype → Result DatatypeError (Unit {0})
check_multi self d = multi_value_range_go self (λ t start end. check_type t d)

unfoldable pub check_var : VarValueRange → Datatype → Result DatatypeError (Unit {0})
check_var self d = var_value_range_go self (λ t start end. check_type t d)

unfoldable pub cell_val_num : Range → Outcome CellValNum
cell_val_num (single r) = done (Single.cell_val_num r)
cell_val_num (multi r) = Multi.cell_val_num r
cell_val_num (var r) = done (Var.cell_val_num r)

unfoldable pub num_cells : Range → Outcome (Option ℕ)
num_cells (single r) = Single.num_cells r
num_cells (multi r) = Multi.num_cells r
num_cells (var r) = done none

-- The first `match` of `check_dimension_compatibility`.
unfoldable pub check_range : Range → Datatype → Result DimensionError (Unit {0})
check_range (single r) d = map_err datatype_error (check_single r d)
check_range (multi r) d = err (multi_value_range (Multi.num_values r))
check_range (var r) d = map_err datatype_error (check_var r d)

-- `matches!(self, Self::Single(_))`.
abbrev pub is_single : Range → Bool
is_single (single r) = true
is_single _ = false

-- The error of a range of fixed length against a variable number of values.
abbrev fixed_length_error : PhysicalType → Datatype → Result DimensionError (Unit {0})
fixed_length_error t d =
    if same_type t u8
    then err fixed_range_for_string_dimension
    else err (datatype_error (physical_type_incompatible t d))

-- The last `match`, for `CellValNum::Var` and the type `StringAscii`.
unfoldable pub check_string_range : Range → Datatype → Result DimensionError (Unit {0})
check_string_range (single r) d = single_value_range_go r (λ t start end. fixed_length_error t d)
check_string_range (multi r) d = multi_value_range_go r (λ t start end. fixed_length_error t d)
check_string_range (var r) d = var_value_range_go r λ t start end.
    if same_type t u8 then ok tt else err (datatype_error (physical_type_incompatible t d))

-- The second `match`.
unfoldable pub check_cells : Range → Datatype → CellValNum → Result DimensionError (Unit {0})
unfolding check_string_range
check_cells self d (fixed cvn) =
    if ltb 1 cvn
    then err (cell_val_num_fixed cvn)
    else if eq_datatype d string_ascii
    then err (fixed_string_ascii_dimension cvn)
    else if not (is_single self)
    then err (var_range_for_non_string_dimension d)
    else ok tt
check_cells self d var_sized =
    if not (eq_datatype d string_ascii) then err (cell_val_num_var d) else check_string_range self d

unfoldable pub check_dimension_compatibility :
    Range → Datatype → CellValNum → Result DimensionError (Unit {0})
check_dimension_compatibility self d cvn =
    and_then (check_range self d) (λ checked. check_cells self d cvn)

module _ (fl : FloatOrder) where
  unfoldable pub union : Range → Range → Outcome Range
  union (single l) (single r) = do range ← Single.union fl l r; done (single range)
  union (multi l) (multi r) = do range ← Multi.union fl l r; done (multi range)
  union (var l) (var r) = do range ← Var.union fl l r; done (var range)
  union _ _ = panic

  -- `Some(Self::Single(l.intersection(r)?))`, and so for the other two.
  abbrev pub wrap : {A : Type 0} → (A → Range) → Option A → Option Range
  wrap f none = none
  wrap f (some r) = some (f r)

  -- The method `intersection`.
  unfoldable pub intersect : Range → Range → Outcome (Option Range)
  intersect (single l) (single r) = do common ← Single.intersect fl l r; done (wrap single common)
  intersect (multi l) (multi r) = do common ← Multi.intersect fl l r; done (wrap multi common)
  intersect (var l) (var r) = do common ← Var.intersect fl l r; done (wrap var common)
  intersect _ _ = panic
