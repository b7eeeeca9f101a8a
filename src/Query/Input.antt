-- ===== src/Query/Input.antt =====
-- tiledb/api/src/query/write/input/mod.rs: the query buffers of vectors of values and of vectors of
-- slices (`AsSlice`), where a slice is the list of its values.
-- A value of type `C` has `size_of` bytes.
pub mod Fixed
pub mod Var
use tiledb_rs.Base.{
  ℕ, ◌==◌, Bool, not, Option, none, some, List, [], ◌∷◌, ◌++◌, length, if◌then◌else◌, Outcome, done,
  ◌>>=◌, ◌>>◌, Result, ok, err, and_then,
}
use tiledb_rs.Base.Map.{unwrap}
use tiledb_rs.Array.{CellValNum, fixed, var}
use tiledb_rs.Query.Buffer.{
  Buffer, of_values, as_ref, CellStructure, single, QueryBuffers, fixed as fixed_cells,
  var as var_cells,
}
use tiledb_rs.Base.Vectors.{checked_add, checked_mul, with_capacity, replicate}

-- What an `InvalidArgument` says.
pub data Invalid : Type 0 where
  borrowed_offsets borrowed_data borrowed_validity fixed_owned_data var_owned_data : Invalid

-- The errors of tiledb/api/src/error.rs that the code below makes.
pub data Error : Type 0 where
  unexpected_cell_structure : (expected found : CellValNum) → Error
  invalid_argument : Invalid → Error

-- `Iterator::last`.
abbrev pub last : List ℕ → Option ℕ
last [] = none
last (x ∷ []) = some x
last (x ∷ y ∷ xs) = last (y ∷ xs)

-- A validity of one for each cell, or none.
abbrev pub all_valid : Bool → ℕ → Option (Buffer ℕ)
all_valid is_nullable n = if is_nullable then some (Buffer.owned (replicate n 1)) else none

module _ {C : Type 0} where
  -- The loop over the cells that expects `nz` values in each.
  unfoldable pub check_cells : (nz : ℕ) → List (List C) → Result Error (Unit {0})
  check_cells nz [] = ok tt
  check_cells nz (cell ∷ items) =
      let rest = check_cells nz items in
      if not (length cell == nz) then err (unexpected_cell_structure (fixed nz) var) else rest

  -- The offsets after the first, from `offset_accumulator`.
  unfoldable pub offsets_from : (offset_accumulator : ℕ) → List (List C) → Outcome (List ℕ)
  offsets_from offset_accumulator [] = done []
  offsets_from offset_accumulator (s ∷ items) = do
    offset ← checked_add offset_accumulator (length s)
    rest ← offsets_from offset items
    done (offset ∷ rest)

  unfoldable pub cell_structure : CellValNum → List (List C) → Outcome (Result Error CellStructure)
  cell_structure (fixed nz) items =
      done (and_then (check_cells nz items) (λ _. ok (fixed_cells nz)))
  cell_structure var items = do
    offsets ← offsets_from 0 items
    done (ok (var_cells (of_values (0 ∷ offsets))))

  unfoldable pub data_capacity : List (List C) → CellStructure → Outcome ℕ
  data_capacity value (fixed_cells nz) = checked_mul (length value) nz
  data_capacity value (var_cells offsets) = unwrap (last (as_ref offsets))

  -- `data.extend(s.values())` for each slice.
  abbrev pub extend_all : List (List C) → List C
  extend_all [] = []
  extend_all (s ∷ value) = s ++ extend_all value

  -- What follows the cell structure.
  unfoldable pub with_structure :
      (size_of : ℕ)
      → List (List C)
      → (is_nullable : Bool) → CellStructure
      → Outcome (QueryBuffers C)
  unfolding data_capacity
  with_structure size_of value is_nullable structure = do
    capacity ← data_capacity value structure
    with_capacity size_of capacity
    done (record {
      values = Buffer.owned (extend_all value);
      cell_structure = structure;
      validity = all_valid is_nullable (length value);
    })

  unfoldable pub query_buffers_impl :
      (size_of : ℕ)
      → List (List C)
      → CellValNum
      → (is_nullable : Bool) → Outcome (Result Error (QueryBuffers C))
  query_buffers_impl size_of value cell_val_num is_nullable = do
    structure ← cell_structure cell_val_num value
    elim structure [
      | ok s ↦ with_structure size_of value is_nullable s >>= (λ buffers. done (ok buffers))
      | err e ↦ done (err e)
    ]

  -- `query_buffers` of a slice of values, and of a vector.
  unfoldable pub query_buffers_slice : List C → CellValNum → Bool → Result Error (QueryBuffers C)
  query_buffers_slice self cell_val_num is_nullable = ok (record {
    values = Buffer.borrowed self;
    cell_structure = single;
    validity = all_valid is_nullable (length self);
  })
