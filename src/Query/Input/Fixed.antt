-- ===== src/Query/Input/Fixed.antt =====
-- Cells of a fixed number of values that are written, and read back.
use tiledb_rs.Base.{
  ℕ, ◌+◌, ◌*◌, ◌^◌, ◌≤◌, ◌<◌, ◌≡◌, refl, sym, ap, ◌∙◌, ltb, true, false, Bool, ◌==◌, some, List, [],
  ◌∷◌, length, length-append, arith, done, All, ok, ◌≢◌, err, Bool-cases, inl, inr,
}
use tiledb_rs.Array.{fixed, var}
use tiledb_rs.Query.Buffer.{Buffer, QueryBuffers, borrow, fixed as fixed_cells}
use tiledb_rs.Query.Input.{
  extend_all, check_cells, cell_structure, with_structure, all_valid, query_buffers_impl,
  unexpected_cell_structure,
}
use tiledb_rs.Query.Output.{CellIterator, nvalues, fixed_try_new, fixed_next, collect}
use tiledb_rs.Query.Output.Read.{collect-fixed_next}
use tiledb_rs.Query.Input.Var.{fits}

module _ {C : Type 0} where
  check_cells-All :
      (nz : ℕ) (cells : List (List C))
      → All (λ c. length c ≡ nz) cells
      → check_cells nz cells ≡ ok tt
  unfolding check_cells
  check_cells-All nz [] a = refl
  check_cells-All nz (c ∷ cells) (h, a) =
      let b : (length c == nz) ≡ true = ground arith in rw (b, check_cells-All nz cells a)

  pub length-extend_all :
      (nz : ℕ) (cells : List (List C))
      → All (λ c. length c ≡ nz) cells
      → length (extend_all cells) ≡ length cells * nz
  length-extend_all nz [] a = omega arith
  length-extend_all nz (c ∷ cells) (h, a) =
      grind (arith, length-append c (extend_all cells), length-extend_all nz cells a)

  abbrev fixed_buffers : List (List C) → Bool → ℕ → QueryBuffers C
  fixed_buffers cells is_nullable nz = record {
    values = Buffer.owned (extend_all cells);
    cell_structure = fixed_cells nz;
    validity = all_valid is_nullable (length cells);
  }

  query_buffers_impl-fixed :
      (size_of : ℕ) (cells : List (List C)) (is_nullable : Bool) (nz : ℕ)
      → All (λ c. length c ≡ nz) cells
      → 1 ≤ size_of
      → length cells * nz * size_of < 2 ^ 63
      → query_buffers_impl size_of cells (fixed nz) is_nullable
        ≡ done (ok (fixed_buffers cells is_nullable nz))
  unfolding query_buffers_impl cell_structure with_structure
  query_buffers_impl-fixed size_of cells is_nullable nz a p h =
      let less : 0 + length cells * nz < 2 ^ 64 = fits size_of (length cells * nz) p h in
      let m : ltb (length cells * nz) (2 ^ 64) ≡ true = ground arith in
      let b : ltb (length cells * nz * size_of) (2 ^ 63) ≡ true = ground arith in
      rw (check_cells-All nz cells a, m, b)

  fixed_buffers-nvalues :
      (cells : List (List C)) (is_nullable : Bool) (nz : ℕ)
      → length cells * nz < 2 ^ 64
      → nvalues (record { ncells = length cells; input = fixed_buffers cells is_nullable nz })
        ≡ done (length cells * nz)
  unfolding nvalues
  fixed_buffers-nvalues cells is_nullable nz h =
      let m : ltb (length cells * nz) (2 ^ 64) ≡ true = ground arith in rw m

  fixed_buffers-try_new :
      (cells : List (List C)) (is_nullable : Bool) (nz : ℕ)
      → nz ≢ 1
      → fixed_try_new (length cells) (borrow (fixed_buffers cells is_nullable nz))
        ≡ done (
            ok (record {
              ncells = length cells;
              position = 0;
              location = borrow (fixed_buffers cells is_nullable nz);
            }))
  unfolding fixed_try_new
  fixed_buffers-try_new cells is_nullable nz h =
      let b : (nz == 1) ≡ false = ground arith in rw (b, fixed_try_new)

  -- What is read back from the buffers that hold all the cells.
  abbrev pub ReadsBackFixed : QueryBuffers C → (fuel : ℕ) → List (List C) → Type 0
  ReadsBackFixed qb fuel cells =
      (nvalues (record { ncells = length cells; input = qb }) ≡ done (length (extend_all cells)))
      × ((it : CellIterator C) × (fixed_try_new (length cells) (borrow qb) ≡ done (ok it))
          × (collect fixed_next fuel it ≡ done (some cells)))

  -- Cells that all have a fixed number of values other than one, in buffers of fewer than 2 ^ 63
  -- bytes, are written without panic or error. The buffers hold as many values as the cells, and
  -- once they are borrowed, an iterator over them ends, having yielded the cells.
  pub query_buffers_impl-collect_fixed :
      (size_of : ℕ) (cells : List (List C)) (is_nullable : Bool) (nz fuel : ℕ)
      → All (λ c. length c ≡ nz) cells
      → nz ≢ 1
      → 1 ≤ size_of
      → length cells * nz * size_of < 2 ^ 63
      → length cells < fuel
      → (qb : QueryBuffers C) × (query_buffers_impl size_of cells (fixed nz) is_nullable
          ≡ done (ok qb))
        × ReadsBackFixed qb fuel cells
  query_buffers_impl-collect_fixed size_of cells is_nullable nz fuel a one p h f =
      let less : 0 + length cells * nz < 2 ^ 64 = fits size_of (length cells * nz) p h in
      let qb = fixed_buffers cells is_nullable nz in
      let it : CellIterator C = record {
        ncells = length cells;
        position = 0;
        location = borrow qb;
      } in
      (
        qb,
        query_buffers_impl-fixed size_of cells is_nullable nz a p h,
        (
          fixed_buffers-nvalues cells is_nullable nz (omega arith)
              ∙ ap done (sym (length-extend_all nz cells a)),
          (
            it,
            fixed_buffers-try_new cells is_nullable nz one,
            collect-fixed_next (length cells) (borrow qb) nz refl fuel 0 [] cells refl (grind arith)
                a (omega arith) (omega arith) f,
          ),
        ),
      )

  check_cells-mismatch :
      (nz : ℕ) (cells : List (List C))
      → ¬ All (λ c. length c ≡ nz) cells
      → check_cells nz cells ≡ err (unexpected_cell_structure (fixed nz) var)
  unfolding check_cells
  check_cells-mismatch nz [] a = absurd (a tt)
  check_cells-mismatch nz (c ∷ cells) a = elim (Bool-cases (length c == nz)) [
    | inl b ↦ rw (b, check_cells-mismatch nz cells (λ m. a (ground arith, m)))
    | inr b ↦ rw b
  ]

  -- Where a cell does not have the fixed number of values, no buffers are made: the error has the
  -- cell structure that was expected.
  pub query_buffers_impl-mismatch :
      (size_of : ℕ) (cells : List (List C)) (is_nullable : Bool) (nz : ℕ)
      → ¬ All (λ c. length c ≡ nz) cells
      → query_buffers_impl size_of cells (fixed nz) is_nullable
        ≡ done (err (unexpected_cell_structure (fixed nz) var))
  unfolding query_buffers_impl cell_structure
  query_buffers_impl-mismatch size_of cells is_nullable nz a = rw (check_cells-mismatch nz cells a)
