-- ===== src/Query/Input/Var.antt =====
-- Cells that are written with offsets, and read back.
use tiledb_rs.Base.{
  ℕ, suc, ◌+◌, ◌*◌, ◌^◌, ◌≤◌, ◌<◌, ◌≡◌, refl, ap, ◌∙◌, ltb, true, Bool, some, List, [], ◌∷◌, ◌++◌,
  length, length-append, get_elem?, arith, done, ok,
}
use tiledb_rs.Array.{var}
use tiledb_rs.Query.Buffer.{Buffer, QueryBuffers, borrow, of_values, var as var_cells}
use tiledb_rs.Query.Input.{
  extend_all, offsets_from, cell_structure, with_structure, all_valid, query_buffers_impl, last,
}
use tiledb_rs.Query.Output.{VarDataIterator, nvalues, var_try_new, var_next, collect}
use tiledb_rs.Query.Output.Slices.{Marks, Marks-cons}
use tiledb_rs.Query.Output.Read.{collect-var_next}

pub fits : (size_of n : ℕ) → 1 ≤ size_of → n * size_of < 2 ^ 63 → 0 + n < 2 ^ 64
fits size_of n p h = grind arith

module _ {C : Type 0} where
  -- The offsets mark the cells, from the offset that is given on.
  pub offsets_from-Marks :
      (first : ℕ) (cells : List (List C))
      → first + length (extend_all cells) < 2 ^ 64
      → (offsets : List ℕ) × (offsets_from first cells ≡ done offsets)
        × Marks (first ∷ offsets) 0 first cells
        × (last (first ∷ offsets) ≡ some (first + length (extend_all cells)))
        × (get_elem? (first ∷ offsets) (length cells) ≡ some (first + length (extend_all cells)))
        × (length offsets ≡ length cells)
  unfolding offsets_from
  offsets_from-Marks first [] h =
      let e : first ≡ first + 0 = omega arith in ([], refl, refl, ap some e, ap some e, refl)
  offsets_from-Marks first (c ∷ cells) h =
      let l : length (c ++ extend_all cells) ≡ length c + length (extend_all cells) =
        length-append c (extend_all cells) in
      let (offsets, o, m, e, at, n) = offsets_from-Marks (first + length c) cells (omega arith) in
      let b : ltb (first + length c) (2 ^ 64) ≡ true = ground arith in
      let s : first + length c + length (extend_all cells)
          ≡ first + length (c ++ extend_all cells) =
        omega arith in
      (
        (first + length c) ∷ offsets,
        rw (b, o),
        (refl, Marks-cons ((first + length c) ∷ offsets) first 0 (first + length c) cells m),
        e ∙ ap some s,
        at ∙ ap some s,
        omega arith,
      )

  -- The buffers of cells at their offsets.
  abbrev var_buffers : List (List C) → Bool → List ℕ → QueryBuffers C
  var_buffers cells is_nullable offsets = record {
    values = Buffer.owned (extend_all cells);
    cell_structure = var_cells (of_values (0 ∷ offsets));
    validity = all_valid is_nullable (length cells);
  }

  query_buffers_impl-var :
      (size_of : ℕ) (cells : List (List C)) (is_nullable : Bool) (offsets : List ℕ)
      → offsets_from 0 cells ≡ done offsets
      → last (0 ∷ offsets) ≡ some (length (extend_all cells))
      → length (extend_all cells) * size_of < 2 ^ 63
      → query_buffers_impl size_of cells var is_nullable
        ≡ done (ok (var_buffers cells is_nullable offsets))
  unfolding query_buffers_impl cell_structure with_structure
  query_buffers_impl-var size_of cells is_nullable offsets o e h =
      let b : ltb (length (extend_all cells) * size_of) (2 ^ 63) ≡ true = ground arith in
      rw (o, e, b)

  -- What is read back from the buffers that hold all the cells.
  abbrev pub ReadsBackVar : QueryBuffers C → (fuel : ℕ) → List (List C) → Type 0
  ReadsBackVar qb fuel cells =
      (nvalues (record { ncells = length cells; input = qb }) ≡ done (length (extend_all cells)))
      × ((it : VarDataIterator C) × (var_try_new (length cells) (borrow qb) ≡ done (ok it))
          × (collect var_next fuel it ≡ done (some cells)))

  var_buffers-nvalues :
      (cells : List (List C)) (is_nullable : Bool) (offsets : List ℕ)
      → get_elem? (0 ∷ offsets) (length cells) ≡ some (length (extend_all cells))
      → length offsets ≡ length cells
      → nvalues (record { ncells = length cells; input = var_buffers cells is_nullable offsets })
        ≡ done (length (extend_all cells))
  unfolding nvalues
  var_buffers-nvalues cells is_nullable offsets at n =
      let b : ltb (length cells) (suc (length offsets)) ≡ true = ground arith in rw (b, at)

  var_buffers-try_new :
      (cells : List (List C)) (is_nullable : Bool) (offsets : List ℕ)
      → var_try_new (length cells) (borrow (var_buffers cells is_nullable offsets))
        ≡ done (
            ok (record {
              ncells = length cells;
              offset_cursor = 0;
              location = borrow (var_buffers cells is_nullable offsets);
            }))
  unfolding var_try_new
  var_buffers-try_new cells is_nullable offsets = refl

  -- Cells that are written with offsets, in buffers of fewer than 2 ^ 63 bytes, are written without
  -- panic or error. The buffers hold as many values as the cells, and once they are borrowed, an
  -- iterator over them ends, having yielded the cells.
  pub query_buffers_impl-collect_var :
      (size_of : ℕ) (cells : List (List C)) (is_nullable : Bool) (fuel : ℕ)
      → 1 ≤ size_of
      → length (extend_all cells) * size_of < 2 ^ 63
      → length cells + 1 < 2 ^ 64
      → length cells < fuel
      → (qb : QueryBuffers C) × (query_buffers_impl size_of cells var is_nullable ≡ done (ok qb))
        × ReadsBackVar qb fuel cells
  query_buffers_impl-collect_var size_of cells is_nullable fuel p h n f =
      let values = extend_all cells in
      let less : 0 + length values < 2 ^ 64 = fits size_of (length values) p h in
      let (offsets, o, m, e, at, k) = offsets_from-Marks 0 cells less in
      let whole : 0 + length values ≡ length values = omega arith in
      let qb = var_buffers cells is_nullable offsets in
      let it : VarDataIterator C = record {
        ncells = length cells;
        offset_cursor = 0;
        location = borrow qb;
      } in
      (
        qb,
        query_buffers_impl-var size_of cells is_nullable offsets o (e ∙ ap some whole) h,
        (
          var_buffers-nvalues cells is_nullable offsets (at ∙ ap some whole) k,
          (
            it,
            var_buffers-try_new cells is_nullable offsets,
            collect-var_next (length cells) (borrow qb) (0 ∷ offsets) refl fuel 0 [] cells refl m
                (omega arith) n f,
          ),
        ),
      )
