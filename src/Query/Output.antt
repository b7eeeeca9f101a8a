-- ===== src/Query/Output.antt =====
-- tiledb/api/src/query/read/output/mod.rs: what a read has put into query buffers, and the
-- iterators that yield its cells.
-- An iterator is a function from its state to an item, or `None`, and the next state.
pub mod Slices
pub mod Read
use tiledb_rs.Base.{
  ℕ, zero, suc, ◌+◌, ltb, Bool, true, false, not, Option, none, some, List, [], ◌∷◌, length,
  if◌then◌else◌, Outcome, done, panic, ◌>>=◌, ◌>>◌, assert, Result, ok, err,
}
use mathlib.Core.Option
use Prim.Native.String.{String}
use tiledb_rs.Base.Map.{unwrap, index}
use tiledb_rs.Physical.{size_of}
use tiledb_rs.Datatype.{Datatype}
use tiledb_rs.Array.{CellValNum, single as single_num, var as var_num}
use tiledb_rs.Base.Vectors.{checked_add, checked_mul, checked_sub, slice}
use tiledb_rs.Query.Buffer.{
  as_ref, is_owned, CellStructure, fixed, var, as_cell_val_num, offsets_ref, QueryBuffers, borrow,
  accept_single, accept_fixed, accept_var, accept_fixed_iterable, accept_var_iterable, try_from,
}
use tiledb_rs.Query.Typed.{TypedQueryBuffers, typed_query_buffers_go, of_buffers}
use tiledb_rs.Query.Typed
use tiledb_rs.Query.Input.{
  Error, unexpected_cell_structure, invalid_argument, fixed_owned_data, var_owned_data,
}

pub record RawReadOutput (C : Type 0) : Type 0 where
  pub ncells : ℕ
  pub input : QueryBuffers C

-- The branch of `nvalues` for offsets.
abbrev last_offset : ℕ → List ℕ → Outcome ℕ
last_offset ncells [] = done 0
last_offset ncells (offset ∷ offsets) = do
  assert (ltb ncells (length (offset ∷ offsets)))
  index (offset ∷ offsets) ncells

abbrev values_in : ℕ → CellStructure → Outcome ℕ
values_in ncells (fixed nz) = checked_mul ncells nz
values_in ncells (var offsets) = last_offset ncells (as_ref offsets)

module _ {C : Type 0} where
  unfoldable pub nvalues : RawReadOutput C → Outcome ℕ
  nvalues self = values_in self.ncells self.input.cell_structure

  unfoldable pub nbytes : (size_of : ℕ) → RawReadOutput C → Outcome ℕ
  unfolding nvalues
  nbytes size_of self = do n ← nvalues self; checked_mul n size_of

pub record TypedRawReadOutput : Type 0 where
  pub datatype : Datatype
  pub ncells : ℕ
  pub buffers : TypedQueryBuffers

unfoldable pub typed_nvalues : TypedRawReadOutput → Outcome ℕ
unfolding nvalues typed_query_buffers_go
typed_nvalues self =
    typed_query_buffers_go self.buffers
      (λ t qb. nvalues (record { ncells = self.ncells; input = borrow qb }))

unfoldable pub is_nullable : TypedRawReadOutput → Bool
unfolding Typed.validity
is_nullable self = elim (Typed.validity self.buffers) [ none ↦ false | some v ↦ true ]

abbrev pub typed_cell_structure : TypedRawReadOutput → CellStructure
typed_cell_structure self = Typed.cell_structure self.buffers

-- `CellStructureSingleIterator` and `FixedDataIterator`, which have the same fields.
pub record CellIterator (C : Type 0) : Type 0 where
  pub ncells : ℕ
  pub position : ℕ
  pub location : QueryBuffers C

pub record VarDataIterator (C : Type 0) : Type 0 where
  pub ncells : ℕ
  pub offset_cursor : ℕ
  pub location : QueryBuffers C

module _ {C : Type 0} where
  unfoldable pub single_try_new : ℕ → QueryBuffers C → Result Error (CellIterator C)
  single_try_new ncells input = elim (try_from accept_single input) [
    | ok qb ↦ ok (record { ncells = ncells; position = 0; location = qb })
    | err qb ↦ err (unexpected_cell_structure single_num (as_cell_val_num qb.cell_structure))
  ]

  abbrev pub single_next : CellIterator C → Outcome (Option C × CellIterator C)
  single_next self =
      if ltb self.position self.ncells
      then (index (as_ref self.location.values) self.position >>= λ value.
          done (some value, record self { position = self.position + 1 }))
      else done (none, self)

  -- The branch of `try_new` for buffers that are not iterable.
  unfoldable pub refuse :
      Error → (QueryBuffers C → Bool) → CellValNum → QueryBuffers C → Outcome Error
  refuse owned accept expected input =
      if is_owned input.values
      then done owned
      else (assert (not (accept input))
          >> done (unexpected_cell_structure expected (as_cell_val_num input.cell_structure)))

  unfoldable pub fixed_try_new : ℕ → QueryBuffers C → Outcome (Result Error (CellIterator C))
  unfolding refuse
  fixed_try_new ncells input = elim (try_from accept_fixed_iterable input) [
    | ok qb ↦ done (ok (record { ncells = ncells; position = 0; location = qb }))
    | err qb ↦
        refuse (invalid_argument fixed_owned_data) accept_fixed single_num qb >>= λ e. done (err e)
  ]

  unfoldable pub var_try_new : ℕ → QueryBuffers C → Outcome (Result Error (VarDataIterator C))
  unfolding refuse
  var_try_new ncells input = elim (try_from accept_var_iterable input) [
    | ok qb ↦ done (ok (record { ncells = ncells; offset_cursor = 0; location = qb }))
    | err qb ↦ refuse (invalid_argument var_owned_data) accept_var var_num qb >>= λ e. done (err e)
  ]

  -- The `match` of `next` on the cell structure.
  abbrev fixed_cell : CellStructure → List C → ℕ → Outcome (List C)
  fixed_cell (fixed nz) values i = do
    first ← checked_mul i nz
    past ← checked_mul (i + 1) nz
    slice values first past
  fixed_cell (var offsets) values i = panic

  unfoldable pub fixed_next : CellIterator C → Outcome (Option (List C) × CellIterator C)
  fixed_next self =
      if ltb self.position self.ncells
      then (fixed_cell self.location.cell_structure (as_ref self.location.values) self.position
          >>= λ cell. done (some cell, record self { position = self.position + 1 }))
      else done (none, self)

  -- The values between two offsets.
  abbrev var_cell : List ℕ → List C → ℕ → Outcome (List C)
  var_cell offset_buffer values s = do
    first ← index offset_buffer s
    past ← index offset_buffer (s + 1)
    slice values first past

  unfoldable pub var_next : VarDataIterator C → Outcome (Option (List C) × VarDataIterator C)
  var_next self = do
    offset_buffer ← unwrap (offsets_ref self.location.cell_structure)
    cursor ← checked_add self.offset_cursor 1
    if ltb self.offset_cursor self.ncells
        then (var_cell offset_buffer (as_ref self.location.values) self.offset_cursor >>= λ cell.
            done (some cell, record self { offset_cursor = cursor }))
        else done (none, record self { offset_cursor = cursor })

  -- `size_hint`: the least number of items, and the greatest.
  unfoldable pub size_hint : CellIterator C → Outcome (ℕ × Option ℕ)
  size_hint self = do exact ← checked_sub self.ncells self.position; done (exact, some exact)

  unfoldable pub var_size_hint : VarDataIterator C → Outcome (ℕ × Option ℕ)
  var_size_hint self = do
    exact ← checked_sub self.ncells self.offset_cursor
    done (exact, some exact)

-- `Utf8LossyIterator` is a `VarDataIterator` of bytes; `lossy` is `String::from_utf8_lossy`.
unfoldable pub utf8_next :
    (lossy : List ℕ → String) → VarDataIterator ℕ → Outcome (Option String × VarDataIterator ℕ)
utf8_next lossy self = do (cell, rest) ← var_next self; done (Option.map lossy cell, rest)

-- `Iterator::collect`; without fuel left it answers `none`.
unfoldable pub collect {ℓ κ} :
    {S : Type ℓ} {I : Type κ}
    → (S → Outcome (Option I × S))
    → (fuel : ℕ) → S
    → Outcome (Option (List I))
collect next zero s = done none
collect next (suc fuel) s = do
  (item, s') ← next s
  let rest = collect next fuel s'
  elim item [
    | none ↦ done (some [])
    | some x ↦ rest >>= λ items. done (Option.map (λ xs. x ∷ xs) items)
  ]
