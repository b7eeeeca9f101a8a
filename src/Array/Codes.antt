-- ===== src/Array/Codes.antt =====
-- tiledb/common/src/array/mod.rs and vfs.rs: the conversions of the enumerations to and from the
-- constants of tiledb/sys-defs/src/lib.rs, and those of `CellValNum` to and from `u32`.
use tiledb_rs.Base.{
  ◌^◌, Bool-cases, ℕ, ◌<◌, ◌≡◌, ◌≢◌, ◌↔◌, ◌⊎◌, inl, inr, refl, true, none, some, List, [], ◌∷◌,
  Result, ok, err, arith, ◌==◌,
}
use tiledb_rs.Base.Table.{match_const}
use tiledb_rs.Array.{
  Mode, TileOrder, CellOrder, ArrayType, VfsMode, CellValNum, fixed, var, IsValid, cannot_be_zero,
  u32_max, try_from_u32, to_u32, eq_u32,
}

-- `InvalidDiscriminant` of `ModeError`, `TileOrderError`, `CellOrderError`, `ArrayTypeError` and
-- `VFSModeError`.
pub data InvalidDiscriminant : Type 0 where
  invalid_discriminant : ℕ → InvalidDiscriminant

unfoldable pub mode_to_ffi : Mode → ℕ
mode_to_ffi Mode.read = 0
mode_to_ffi Mode.write = 1
mode_to_ffi Mode.delete = 2
mode_to_ffi Mode.update = 3
mode_to_ffi Mode.modify_exclusive = 4

abbrev mode_arms : List (ℕ × Mode)
mode_arms =
    (0, Mode.read)
    ∷ (1, Mode.write)
    ∷ (2, Mode.delete)
    ∷ (3, Mode.update)
    ∷ (4, Mode.modify_exclusive)
    ∷ []

pub mode_from_ffi : ℕ → Result InvalidDiscriminant Mode
unfolding match_const
mode_from_ffi value = elim (match_const value mode_arms) [
  | some x ↦ ok x
  | none ↦ err (invalid_discriminant value)
]

mode_from_ffi_iff : (value : ℕ) (x : Mode) → (mode_from_ffi value ≡ ok x) ↔ (mode_to_ffi x ≡ value)
unfolding mode_from_ffi mode_to_ffi
mode_from_ffi_iff value Mode.read = ground arith
mode_from_ffi_iff value Mode.write = ground arith
mode_from_ffi_iff value Mode.delete = ground arith
mode_from_ffi_iff value Mode.update = ground arith
mode_from_ffi_iff value Mode.modify_exclusive = ground arith

unfoldable pub tile_order_to_ffi : TileOrder → ℕ
tile_order_to_ffi TileOrder.row_major = 0
tile_order_to_ffi TileOrder.column_major = 1

abbrev tile_order_arms : List (ℕ × TileOrder)
tile_order_arms = (0, TileOrder.row_major) ∷ (1, TileOrder.column_major) ∷ []

pub tile_order_from_ffi : ℕ → Result InvalidDiscriminant TileOrder
unfolding match_const
tile_order_from_ffi value = elim (match_const value tile_order_arms) [
  | some x ↦ ok x
  | none ↦ err (invalid_discriminant value)
]

tile_order_from_ffi_iff :
    (value : ℕ) (x : TileOrder) → (tile_order_from_ffi value ≡ ok x) ↔ (tile_order_to_ffi x ≡ value)
unfolding tile_order_from_ffi tile_order_to_ffi
tile_order_from_ffi_iff value TileOrder.row_major = ground arith
tile_order_from_ffi_iff value TileOrder.column_major = ground arith

unfoldable pub cell_order_to_ffi : CellOrder → ℕ
cell_order_to_ffi CellOrder.unordered = 3
cell_order_to_ffi CellOrder.row_major = 0
cell_order_to_ffi CellOrder.column_major = 1
cell_order_to_ffi CellOrder.global = 2
cell_order_to_ffi CellOrder.hilbert = 4

abbrev cell_order_arms : List (ℕ × CellOrder)
cell_order_arms =
    (3, CellOrder.unordered)
    ∷ (0, CellOrder.row_major)
    ∷ (1, CellOrder.column_major)
    ∷ (2, CellOrder.global)
    ∷ (4, CellOrder.hilbert)
    ∷ []

pub cell_order_from_ffi : ℕ → Result InvalidDiscriminant CellOrder
unfolding match_const
cell_order_from_ffi value = elim (match_const value cell_order_arms) [
  | some x ↦ ok x
  | none ↦ err (invalid_discriminant value)
]

cell_order_from_ffi_iff :
    (value : ℕ) (x : CellOrder) → (cell_order_from_ffi value ≡ ok x) ↔ (cell_order_to_ffi x ≡ value)
unfolding cell_order_from_ffi cell_order_to_ffi
cell_order_from_ffi_iff value CellOrder.unordered = ground arith
cell_order_from_ffi_iff value CellOrder.row_major = ground arith
cell_order_from_ffi_iff value CellOrder.column_major = ground arith
cell_order_from_ffi_iff value CellOrder.global = ground arith
cell_order_from_ffi_iff value CellOrder.hilbert = ground arith

unfoldable pub array_type_to_ffi : ArrayType → ℕ
array_type_to_ffi ArrayType.dense = 0
array_type_to_ffi ArrayType.sparse = 1

abbrev array_type_arms : List (ℕ × ArrayType)
array_type_arms = (0, ArrayType.dense) ∷ (1, ArrayType.sparse) ∷ []

pub array_type_from_ffi : ℕ → Result InvalidDiscriminant ArrayType
unfolding match_const
array_type_from_ffi value = elim (match_const value array_type_arms) [
  | some x ↦ ok x
  | none ↦ err (invalid_discriminant value)
]

array_type_from_ffi_iff :
    (value : ℕ) (x : ArrayType) → (array_type_from_ffi value ≡ ok x) ↔ (array_type_to_ffi x ≡ value)
unfolding array_type_from_ffi array_type_to_ffi
array_type_from_ffi_iff value ArrayType.dense = ground arith
array_type_from_ffi_iff value ArrayType.sparse = ground arith

unfoldable pub vfs_mode_to_ffi : VfsMode → ℕ
vfs_mode_to_ffi VfsMode.read = 0
vfs_mode_to_ffi VfsMode.write = 1
vfs_mode_to_ffi VfsMode.append = 2

abbrev vfs_mode_arms : List (ℕ × VfsMode)
vfs_mode_arms = (0, VfsMode.read) ∷ (1, VfsMode.write) ∷ (2, VfsMode.append) ∷ []

pub vfs_mode_from_ffi : ℕ → Result InvalidDiscriminant VfsMode
unfolding match_const
vfs_mode_from_ffi value = elim (match_const value vfs_mode_arms) [
  | some x ↦ ok x
  | none ↦ err (invalid_discriminant value)
]

vfs_mode_from_ffi_iff :
    (value : ℕ) (x : VfsMode) → (vfs_mode_from_ffi value ≡ ok x) ↔ (vfs_mode_to_ffi x ≡ value)
unfolding vfs_mode_from_ffi vfs_mode_to_ffi
vfs_mode_from_ffi_iff value VfsMode.read = ground arith
vfs_mode_from_ffi_iff value VfsMode.write = ground arith
vfs_mode_from_ffi_iff value VfsMode.append = ground arith

-- For each of the five enumerations, a code converts to a variant exactly if it is the code of that
-- variant.
pub from_ffi_iff :
    (value : ℕ)
    → ((x : Mode) → (mode_from_ffi value ≡ ok x) ↔ (mode_to_ffi x ≡ value))
      × ((x : TileOrder) → (tile_order_from_ffi value ≡ ok x) ↔ (tile_order_to_ffi x ≡ value))
      × ((x : CellOrder) → (cell_order_from_ffi value ≡ ok x) ↔ (cell_order_to_ffi x ≡ value))
      × ((x : ArrayType) → (array_type_from_ffi value ≡ ok x) ↔ (array_type_to_ffi x ≡ value))
      × ((x : VfsMode) → (vfs_mode_from_ffi value ≡ ok x) ↔ (vfs_mode_to_ffi x ≡ value))
from_ffi_iff value = (
  mode_from_ffi_iff value,
  tile_order_from_ffi_iff value,
  cell_order_from_ffi_iff value,
  array_type_from_ffi_iff value,
  vfs_mode_from_ffi_iff value,
)

-- A `u32` converts to a `CellValNum` that converts back to it, and that is valid, unless it is 0,
-- which is refused.
pub to_u32-try_from_u32 :
    (value : ℕ)
    → value < 2 ^ 32
    → (value ≡ 0) × (try_from_u32 value ≡ err cannot_be_zero)
      ⊎ ((c : CellValNum) × (try_from_u32 value ≡ ok c) × IsValid c × (to_u32 c ≡ value))
unfolding try_from_u32 to_u32
to_u32-try_from_u32 value h = elim (Bool-cases (value == 0)) [
  | inl zero ↦ inl (ground arith, rw (zero, try_from_u32))
  | inr nonzero ↦ inr (elim (Bool-cases (value == u32_max)) [
    | inl last ↦ (var, ground arith, tt, ground arith)
    | inr less ↦ (fixed value, ground arith, (ground arith, h), refl)
  ])
]

-- A valid `CellValNum` comes back from its `u32` unless it is the fixed number `u32::MAX`, which
-- comes back as `Var`; it equals, by `==`, exactly its own `u32`.
pub try_from_u32-to_u32 :
    (c : CellValNum)
    → IsValid c
    → ((try_from_u32 (to_u32 c) ≡ ok c) ↔ (c ≢ fixed u32_max))
      × (try_from_u32 (to_u32 (fixed u32_max)) ≡ ok var)
      × ((n : ℕ) → (eq_u32 c n ≡ true) ↔ (to_u32 c ≡ n))
unfolding try_from_u32 to_u32 eq_u32
try_from_u32-to_u32 (fixed nz) h = (ground arith, ground arith, λ n. ground arith)
try_from_u32-to_u32 var h = (ground arith, ground arith, λ n. ground arith)
