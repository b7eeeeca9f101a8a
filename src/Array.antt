-- ===== src/Array.antt =====
-- tiledb/common/src/array/mod.rs: the enumerations of the array model and the number of values in
-- a cell. Also `VFSMode` of tiledb/common/src/vfs.rs.
pub mod Codes
pub mod Constraints
use tiledb_rs.Base.{
  ℕ, ◌-◌, ◌^◌, ◌≤◌, ◌<◌, Bool, true, false, Option, none, some, ◌==◌, if◌then◌else◌, Result, ok,
  err,
}

pub data Mode : Type 0 where
  read write delete update modify_exclusive : Mode

pub data TileOrder : Type 0 where
  row_major column_major : TileOrder

pub data CellOrder : Type 0 where
  unordered row_major column_major global hilbert : CellOrder

pub data ArrayType : Type 0 where
  dense sparse : ArrayType

pub data VfsMode : Type 0 where
  read write append : VfsMode

-- `enum CellValNum`. The number of a fixed cell is a `NonZeroU32`, as `IsValid` says.
pub data CellValNum : Type 0 where
  fixed : ℕ → CellValNum
  var : CellValNum

abbrev pub IsValid : CellValNum → Type 0
IsValid (fixed nz) = (1 ≤ nz) × (nz < 2 ^ 32)
IsValid var = Unit

abbrev pub single : CellValNum
single = fixed 1

abbrev pub is_var_sized : CellValNum → Bool
is_var_sized (fixed nz) = false
is_var_sized var = true

abbrev pub is_single_valued : CellValNum → Bool
is_single_valued (fixed nz) = nz == 1
is_single_valued var = false

-- The method `fixed`.
abbrev pub fixed_values : CellValNum → Option ℕ
fixed_values (fixed nz) = some nz
fixed_values var = none

pub data CellValNumError : Type 0 where
  cannot_be_zero : CellValNumError

abbrev pub u32_max : ℕ
u32_max = 2 ^ 32 - 1

-- `impl TryFrom<u32> for CellValNum`.
unfoldable pub try_from_u32 : ℕ → Result CellValNumError CellValNum
try_from_u32 value =
    if value == 0 then err cannot_be_zero else if value == u32_max then ok var else ok (fixed value)

-- `impl From<CellValNum> for u32`.
unfoldable pub to_u32 : CellValNum → ℕ
to_u32 (fixed nz) = nz
to_u32 var = u32_max

-- `impl PartialEq<u32> for CellValNum`.
unfoldable pub eq_u32 : CellValNum → ℕ → Bool
eq_u32 (fixed val) other = val == other
eq_u32 var other = other == u32_max
