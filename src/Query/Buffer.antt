-- ===== src/Query/Buffer.antt =====
-- tiledb/api/src/query/buffer/mod.rs: `Buffer`, `CellStructure` and `QueryBuffers`, which are read
-- only, and the types that wrap buffers whose cells have a shape.
-- A value of any type can stand in a buffer. The field `data` is called `values`.
use tiledb_rs.Base.{
  ℕ, ◌*◌, Bool, true, false, not, ◌&&◌, ◌==◌, Option, none, some, List, [], length, if◌then◌else◌,
  Result, ok, err,
}
use mathlib.Core.Option
use tiledb_rs.Array.{CellValNum, fixed as fixed_num, var as var_num}

-- Whether the values are the buffer's own.
pub data Buffer (C : Type 0) : Type 0 where
  empty : Buffer C
  borrowed owned : List C → Buffer C

module _ {C : Type 0} where
  abbrev pub as_ref : Buffer C → List C
  as_ref Buffer.empty = []
  as_ref (Buffer.borrowed values) = values
  as_ref (Buffer.owned values) = values

  -- The method `size`, where a value has `size_of` bytes.
  abbrev pub buffer_size : (size_of : ℕ) → Buffer C → ℕ
  buffer_size size_of self = length (as_ref self) * size_of

  -- The method `borrow` of a buffer.
  abbrev pub borrow_buffer : Buffer C → Buffer C
  borrow_buffer self = Buffer.borrowed (as_ref self)

  -- `From<Vec<T>>`, `From<Box<[T]>>`.
  abbrev pub of_values : List C → Buffer C
  of_values values = Buffer.owned values

  abbrev pub is_owned : Buffer C → Bool
  is_owned (Buffer.owned values) = true
  is_owned _ = false

pub data CellStructure : Type 0 where
  fixed : ℕ → CellStructure
  var : Buffer ℕ → CellStructure

abbrev pub single : CellStructure
single = fixed 1

abbrev pub is_single : CellStructure → Bool
is_single (fixed nz) = nz == 1
is_single (var offsets) = false

abbrev pub is_fixed : CellStructure → Bool
is_fixed (fixed nz) = true
is_fixed (var offsets) = false

abbrev pub is_var : CellStructure → Bool
is_var (fixed nz) = false
is_var (var offsets) = true

abbrev pub as_cell_val_num : CellStructure → CellValNum
as_cell_val_num (fixed nz) = fixed_num nz
as_cell_val_num (var offsets) = var_num

-- The method `unwrap`.
abbrev pub into_offsets : CellStructure → Option (Buffer ℕ)
into_offsets (fixed nz) = none
into_offsets (var offsets) = some offsets

-- The method `fixed`.
abbrev pub fixed_values : CellStructure → Option ℕ
fixed_values (fixed nz) = some nz
fixed_values (var offsets) = none

abbrev pub offsets_ref : CellStructure → Option (List ℕ)
offsets_ref (fixed nz) = none
offsets_ref (var offsets) = some (as_ref offsets)

abbrev pub map_offsets {ℓ} : {U : Type ℓ} → CellStructure → (List ℕ → U) → Option U
map_offsets (fixed nz) func = none
map_offsets (var offsets) func = some (func (as_ref offsets))

-- The method `borrow` of a cell structure.
abbrev pub borrow_structure : CellStructure → CellStructure
borrow_structure (fixed nz) = fixed nz
borrow_structure (var offsets) = var (borrow_buffer offsets)

-- The pattern of `QueryBuffersCellStructureFixed::accept`.
abbrev not_one : CellStructure → Bool
not_one (fixed nz) = not (nz == 1)
not_one (var offsets) = false

pub record QueryBuffers (C : Type 0) : Type 0 where
  pub values : Buffer C
  pub cell_structure : CellStructure
  pub validity : Option (Buffer ℕ)

module _ {C : Type 0} where
  -- The method `borrow` of query buffers.
  abbrev pub borrow : QueryBuffers C → QueryBuffers C
  borrow self = record {
    values = borrow_buffer self.values;
    cell_structure = borrow_structure self.cell_structure;
    validity = Option.map borrow_buffer self.validity;
  }

  -- `QueryBuffersCellStructureSingle::accept`, and those of `Fixed` and `Var`.
  abbrev pub accept_single : QueryBuffers C → Bool
  accept_single value = is_single value.cell_structure

  abbrev pub accept_fixed : QueryBuffers C → Bool
  accept_fixed value = not_one value.cell_structure

  abbrev pub accept_var : QueryBuffers C → Bool
  accept_var value = is_var value.cell_structure

  -- `QueryBuffersFixedDataIterable::accept` and `QueryBuffersVarDataIterable::accept` of
  -- read/output/mod.rs.
  abbrev pub accept_fixed_iterable : QueryBuffers C → Bool
  accept_fixed_iterable value = accept_fixed value && not (is_owned value.values)

  abbrev pub accept_var_iterable : QueryBuffers C → Bool
  accept_var_iterable value = accept_var value && not (is_owned value.values)

  -- `try_from` of `query_buffers_proof_impls`; what it wraps is the buffers.
  abbrev pub try_from :
      (QueryBuffers C → Bool) → QueryBuffers C → Result (QueryBuffers C) (QueryBuffers C)
  try_from accept value = if accept value then ok value else err value
