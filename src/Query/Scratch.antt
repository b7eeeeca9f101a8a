-- ===== src/Query/Scratch.antt =====
-- tiledb/api/src/query/read/output/mod.rs: the space that a read writes into. `ScratchSpace` and its
-- conversions from and to query buffers; Query/Scratch/Allocators has its allocators.
pub mod Allocators
pub mod Growth
pub mod Owned
use tiledb_rs.Base.{
  ℕ, Bool, true, false, ◌==◌, Option, none, some, List, [], Result, ok, err, and_then,
}
use mathlib.Core.Option
use tiledb_rs.Query.Buffer
use tiledb_rs.Query.Buffer.{Buffer, CellStructure, QueryBuffers}
use tiledb_rs.Query.BufferMut
use tiledb_rs.Query.BufferMut.{BufferMut, CellStructureMut, QueryBuffersMut}
use tiledb_rs.Query.Input.{
  Error, invalid_argument, borrowed_offsets, borrowed_data, borrowed_validity,
}

pub data ScratchCellStructure : Type 0 where
  fixed : ℕ → ScratchCellStructure
  var : List ℕ → ScratchCellStructure

abbrev pub single : ScratchCellStructure
single = fixed 1

abbrev pub is_single : ScratchCellStructure → Bool
is_single (fixed nz) = nz == 1
is_single (var offsets) = false

abbrev pub is_fixed : ScratchCellStructure → Bool
is_fixed (fixed nz) = true
is_fixed (var offsets) = false

abbrev pub is_var : ScratchCellStructure → Bool
is_var (fixed nz) = false
is_var (var offsets) = true

-- The method `fixed`.
abbrev pub fixed_values : ScratchCellStructure → Option ℕ
fixed_values (fixed nz) = some nz
fixed_values (var offsets) = none

-- The methods `offsets_ref` and `offsets_mut`.
abbrev pub offsets_ref : ScratchCellStructure → Option (List ℕ)
offsets_ref (fixed nz) = none
offsets_ref (var offsets) = some offsets

-- `TryFrom<CellStructure>`.
unfoldable pub try_from_structure : CellStructure → Result Error ScratchCellStructure
try_from_structure (CellStructure.fixed nz) = ok (fixed nz)
try_from_structure (CellStructure.var (Buffer.owned offsets)) = ok (var offsets)
try_from_structure (CellStructure.var _) = err (invalid_argument borrowed_offsets)

-- `TryFrom<CellStructureMut>`.
unfoldable pub try_from_structure_mut : CellStructureMut → Result Error ScratchCellStructure
try_from_structure_mut (CellStructureMut.fixed nz) = ok (fixed nz)
try_from_structure_mut (CellStructureMut.var (BufferMut.owned offsets)) = ok (var offsets)
try_from_structure_mut (CellStructureMut.var _) = err (invalid_argument borrowed_offsets)

-- `From<ScratchCellStructure>` for `CellStructure` and `CellStructureMut`.
abbrev pub to_structure : ScratchCellStructure → CellStructure
to_structure (fixed nz) = CellStructure.fixed nz
to_structure (var offsets) = CellStructure.var (Buffer.owned offsets)

abbrev pub to_structure_mut : ScratchCellStructure → CellStructureMut
to_structure_mut (fixed nz) = CellStructureMut.fixed nz
to_structure_mut (var offsets) = CellStructureMut.var (BufferMut.owned offsets)

-- `struct ScratchSpace`, whose fields have no names.
pub record ScratchSpace (C : Type 0) : Type 0 where
  pub values : List C
  pub cell_structure : ScratchCellStructure
  pub validity : Option (List ℕ)

module _ {C : Type 0} where
  -- The two matches on a buffer in `try_from`, with the error for a borrowed one.
  unfoldable pub into_owned : Error → BufferMut C → Result Error (List C)
  into_owned refused BufferMut.empty = ok []
  into_owned refused (BufferMut.borrowed values) = err refused
  into_owned refused (BufferMut.owned values) = ok values

unfoldable pub into_validity : Option (BufferMut ℕ) → Result Error (Option (List ℕ))
unfolding into_owned
into_validity none = ok none
into_validity (some validity) =
    and_then (into_owned (invalid_argument borrowed_validity) validity) (λ v. ok (some v))

module _ {C : Type 0} where
  -- `TryFrom<QueryBuffersMut>`.
  unfoldable pub try_from : QueryBuffersMut C → Result Error (ScratchSpace C)
  unfolding into_owned into_validity try_from_structure_mut
  try_from value = and_then (into_owned (invalid_argument borrowed_data) value.values) (λ values.
      and_then (try_from_structure_mut value.cell_structure) (λ structure.
        and_then (into_validity value.validity) (λ validity.
          ok (record { values = values; cell_structure = structure; validity = validity }))))

  -- `From<ScratchSpace>` for `QueryBuffers` and `QueryBuffersMut`.
  abbrev pub to_buffers : ScratchSpace C → QueryBuffers C
  to_buffers value = record {
    values = Buffer.owned value.values;
    cell_structure = to_structure value.cell_structure;
    validity = Option.map Buffer.owned value.validity;
  }

  abbrev pub to_buffers_mut : ScratchSpace C → QueryBuffersMut C
  to_buffers_mut value = record {
    values = BufferMut.owned value.values;
    cell_structure = to_structure_mut value.cell_structure;
    validity = Option.map BufferMut.owned value.validity;
  }
