-- ===== src/Query/BufferMut.antt =====
-- tiledb/api/src/query/buffer/mod.rs: `BufferMut`, `CellStructureMut` and `QueryBuffersMut`, into
-- which values are written. A mutable reference to a buffer's values is those values.
use tiledb_rs.Base.{ℕ, ◌*◌, Bool, true, false, ◌==◌, Option, none, some, List, [], length}
use mathlib.Core.Option
use tiledb_rs.Array.{CellValNum, fixed as fixed_num, var as var_num}
use tiledb_rs.Query.Buffer.{
  Buffer, CellStructure, fixed as fixed_shared, var as var_shared, QueryBuffers,
}

pub data BufferMut (C : Type 0) : Type 0 where
  empty : BufferMut C
  borrowed owned : List C → BufferMut C

module _ {C : Type 0} where
  -- `as_ref` and `as_mut`.
  abbrev pub as_ref : BufferMut C → List C
  as_ref BufferMut.empty = []
  as_ref (BufferMut.borrowed values) = values
  as_ref (BufferMut.owned values) = values

  -- The method `size`, where a value has `size_of` bytes.
  abbrev pub buffer_size : (size_of : ℕ) → BufferMut C → ℕ
  buffer_size size_of self = length (as_ref self) * size_of

  abbrev pub borrow_buffer : BufferMut C → Buffer C
  borrow_buffer self = Buffer.borrowed (as_ref self)

  abbrev pub borrow_mut : BufferMut C → BufferMut C
  borrow_mut self = BufferMut.borrowed (as_ref self)

  -- `From<Vec<T>>`.
  abbrev pub of_values : List C → BufferMut C
  of_values values = BufferMut.owned values

pub data CellStructureMut : Type 0 where
  fixed : ℕ → CellStructureMut
  var : BufferMut ℕ → CellStructureMut

abbrev pub single : CellStructureMut
single = fixed 1

abbrev pub is_single : CellStructureMut → Bool
is_single (fixed nz) = nz == 1
is_single (var offsets) = false

abbrev pub is_fixed : CellStructureMut → Bool
is_fixed (fixed nz) = true
is_fixed (var offsets) = false

abbrev pub is_var : CellStructureMut → Bool
is_var (fixed nz) = false
is_var (var offsets) = true

abbrev pub as_cell_val_num : CellStructureMut → CellValNum
as_cell_val_num (fixed nz) = fixed_num nz
as_cell_val_num (var offsets) = var_num

-- The methods `unwrap` and `offsets_mut`.
abbrev pub into_offsets : CellStructureMut → Option (BufferMut ℕ)
into_offsets (fixed nz) = none
into_offsets (var offsets) = some offsets

-- The method `fixed`.
abbrev pub fixed_values : CellStructureMut → Option ℕ
fixed_values (fixed nz) = some nz
fixed_values (var offsets) = none

abbrev pub offsets_ref : CellStructureMut → Option (List ℕ)
offsets_ref (fixed nz) = none
offsets_ref (var offsets) = some (as_ref offsets)

abbrev pub map_offsets {ℓ} : {U : Type ℓ} → CellStructureMut → (BufferMut ℕ → U) → Option U
map_offsets (fixed nz) func = none
map_offsets (var offsets) func = some (func offsets)

-- The methods `borrow` and `borrow_mut` of a cell structure.
abbrev pub borrow_structure : CellStructureMut → CellStructure
borrow_structure (fixed nz) = fixed_shared nz
borrow_structure (var offsets) = var_shared (borrow_buffer offsets)

abbrev pub borrow_structure_mut : CellStructureMut → CellStructureMut
borrow_structure_mut (fixed nz) = fixed nz
borrow_structure_mut (var offsets) = var (borrow_mut offsets)

pub record QueryBuffersMut (C : Type 0) : Type 0 where
  pub values : BufferMut C
  pub cell_structure : CellStructureMut
  pub validity : Option (BufferMut ℕ)

abbrev pub as_shared : {C : Type 0} → QueryBuffersMut C → QueryBuffers C
as_shared self = record {
  values = borrow_buffer self.values;
  cell_structure = borrow_structure self.cell_structure;
  validity = Option.map borrow_buffer self.validity;
}
