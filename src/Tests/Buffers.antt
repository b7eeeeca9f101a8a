-- ===== src/Tests/Buffers.antt =====
-- Query buffers, and scratch space.
use tiledb_rs.Base.{
  ℕ, ◌≡◌, ◌↔◌, refl, true, false, none, List, [], ◌∷◌, length, All, arith, done, panic, ok, err,
}
use tiledb_rs.Array.{fixed, var}
use tiledb_rs.Query.Buffer.{Buffer, CellStructure, QueryBuffers}
use tiledb_rs.Query.BufferMut.{BufferMut, CellStructureMut, QueryBuffersMut}
use tiledb_rs.Query.Input.{query_buffers_impl, unexpected_cell_structure}
use tiledb_rs.Query.Input.Var.{ReadsBackVar, query_buffers_impl-collect_var}
use tiledb_rs.Query.Input.Fixed.{
  ReadsBackFixed, query_buffers_impl-collect_fixed, query_buffers_impl-mismatch,
}
use tiledb_rs.Query.Output.{VarDataIterator, var_next, var_size_hint}
use tiledb_rs.Query.Scratch.{ScratchSpace, try_from}
use tiledb_rs.Query.Scratch
use tiledb_rs.Query.Scratch.Owned.{IsOwnerOf, try_from-IsOwnerOf}
use tiledb_rs.Query.Scratch.Allocators.{FieldScratchAllocator}
use tiledb_rs.Query.Scratch.Growth.{Reaches, field_realloc-Reaches}

abbrev cells : List (List ℕ)
cells = (1 ∷ 2 ∷ []) ∷ [] ∷ (7 ∷ []) ∷ []

abbrev pairs : List (List ℕ)
pairs = (1 ∷ 2 ∷ []) ∷ (3 ∷ 4 ∷ []) ∷ []

query_buffers_impl-collect_var_example :
    (qb : QueryBuffers ℕ) × (query_buffers_impl 8 cells var true ≡ done (ok qb))
    × ReadsBackVar qb 4 cells
query_buffers_impl-collect_var_example =
    query_buffers_impl-collect_var 8 cells true 4 (omega arith) (omega arith) (omega arith)
      (omega arith)

query_buffers_impl-collect_fixed_example :
    (qb : QueryBuffers ℕ) × (query_buffers_impl 8 pairs (fixed 2) false ≡ done (ok qb))
    × ReadsBackFixed qb 3 pairs
query_buffers_impl-collect_fixed_example =
    query_buffers_impl-collect_fixed 8 pairs false 2 3 (refl, (refl, tt))
      (λ e. absurd (omega arith)) (omega arith) (omega arith) (omega arith)

cells_differ : ¬ All (λ (c : List ℕ). length c ≡ 2) cells
cells_differ a = absurd (omega arith)

query_buffers_impl-mismatch_example :
    query_buffers_impl 8 cells (fixed 2) false
    ≡ done (err (unexpected_cell_structure (fixed 2) var))
query_buffers_impl-mismatch_example = query_buffers_impl-mismatch 8 cells false 2 cells_differ

-- Once the iterator has answered `None`, its cursor is beyond the cells, and `size_hint` underflows.
abbrev no_cells : VarDataIterator ℕ
no_cells = record {
  ncells = 0;
  offset_cursor = 0;
  location = record {
    values = Buffer.borrowed [];
    cell_structure = CellStructure.var (Buffer.borrowed (0 ∷ []));
    validity = none;
  };
}

size_hint_after_end :
    (var_next no_cells ≡ done (none, record no_cells { offset_cursor = 1 }))
    × (var_size_hint (record no_cells { offset_cursor = 1 }) ≡ panic)
unfolding var_next var_size_hint
size_hint_after_end = (refl, refl)

abbrev one_value : ScratchSpace ℕ
one_value = record { values = 5 ∷ []; cell_structure = Scratch.var (0 ∷ []); validity = none }

abbrev text_allocator : FieldScratchAllocator
text_allocator = record { cell_val_num = var; record_capacity = 1; is_nullable = false }

field_realloc-Reaches_example : Reaches 8 0 text_allocator 5 one_value
field_realloc-Reaches_example =
    field_realloc-Reaches 8 0 text_allocator 5 one_value (omega arith, omega arith, tt)
      (omega arith) (omega arith)

abbrev no_offsets : QueryBuffersMut ℕ
no_offsets = record {
  values = BufferMut.empty;
  cell_structure = CellStructureMut.var BufferMut.empty;
  validity = none;
}

try_from-IsOwnerOf_example : (try_from no_offsets ≡ ok one_value) ↔ IsOwnerOf no_offsets one_value
try_from-IsOwnerOf_example = try_from-IsOwnerOf no_offsets one_value
