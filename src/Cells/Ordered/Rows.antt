-- ===== src/Cells/Ordered/Rows.antt =====
-- test-utils/cells/src/lib.rs: the comparison of two records at the keys, without its panics.
use Prim.Native.String.{String}
use mathlib.Core.Path.{subst, fun_ext}
use tiledb_rs.Base.Weak.{
  IsWeakOrder, option_cmp, option_cmp-IsTotal, then_cmp, then_cmp-IsWeakOrder, equal-IsWeakOrder,
  pullback-IsWeakOrder,
}
use tiledb_rs.Base.{
  sym, ℕ, ◌<◌, Ordering, eq, ◌≡◌, refl, ◌∙◌, Option, none, some, List, [], ◌∷◌, get_elem?, done,
  arith,
}
use tiledb_rs.Base.Map.{get}
use tiledb_rs.Physical.{FloatOrder}
use tiledb_rs.Cells.{Fields}
use tiledb_rs.Cells.Field.{CellType, Cell, FieldData, of_cells, typed_field_data_go, cell_cmp}
use tiledb_rs.Cells.Field.View.{by_view, go-of_cells, cell_cmp-IsTotal}
use tiledb_rs.Cells.Field.Methods as Data
use tiledb_rs.Cells.Ordered.{compare_cells, index_comparator}
use tiledb_rs.Cells.Ordered.Move.{get_elem?_in_range}
use tiledb_rs.Cells.Shape.{HasLen, HasKeys, get-HasLen, len-of_cells}

module _ (fl : FloatOrder) where
  abbrev pub data_cmp : FieldData → ℕ → ℕ → Ordering
  data_cmp d l r =
      typed_field_data_go d (λ c xs. option_cmp (cell_cmp fl c) (get_elem? xs l) (get_elem? xs r))

  pub data_cmp-of_cells :
      (c : CellType) (xs : List (Cell c)) (l r : ℕ)
      → data_cmp (of_cells c xs) l r ≡ option_cmp (cell_cmp fl c) (get_elem? xs l) (get_elem? xs r)
  data_cmp-of_cells c xs l r = go-of_cells c xs _

  pub data_cmp-IsWeakOrder : (d : FieldData) → IsWeakOrder (data_cmp d)
  data_cmp-IsWeakOrder =
      by_view (λ d. IsWeakOrder (data_cmp d))
        (λ c xs.
          subst IsWeakOrder (fun_ext (λ l. fun_ext (λ r. sym (data_cmp-of_cells c xs l r)))) (
            pullback-IsWeakOrder (option_cmp (cell_cmp fl c)) (get_elem? xs)
              (option_cmp-IsTotal (cell_cmp fl c) (cell_cmp-IsTotal fl c))))

  -- Within the bounds of the field the comparison returns.
  compare_cells-data_cmp :
      (d : FieldData) (l r : ℕ)
      → l < Data.len d
      → r < Data.len d
      → compare_cells fl d l r ≡ done (data_cmp d l r)
  unfolding compare_cells
  compare_cells-data_cmp =
      by_view
        (λ d.
          (l r : ℕ)
          → l < Data.len d
          → r < Data.len d
          → compare_cells fl d l r ≡ done (data_cmp d l r))
        (λ c xs l r h k.
          let (x, ex) = get_elem?_in_range xs l (subst (λ m. l < m) (len-of_cells c xs) h) in
          let (y, ey) = get_elem?_in_range xs r (subst (λ m. r < m) (len-of_cells c xs) k) in
          rw (data_cmp-of_cells c xs l r, ex, ey) (go-of_cells c xs _ ∙ rw (ex, ey) refl))

  -- The comparison at the keys one after the other; a missing field makes no difference.
  abbrev pub key_cmp : Option FieldData → ℕ → ℕ → Ordering
  key_cmp none l r = eq
  key_cmp (some d) l r = data_cmp d l r

  abbrev pub row_cmp : Fields → List String → ℕ → ℕ → Ordering
  row_cmp fields [] l r = eq
  row_cmp fields (key ∷ keys) l r = then_cmp (key_cmp (get fields key)) (row_cmp fields keys) l r

  key_cmp-IsWeakOrder : (d : Option FieldData) → IsWeakOrder (key_cmp d)
  key_cmp-IsWeakOrder none = equal-IsWeakOrder
  key_cmp-IsWeakOrder (some d) = data_cmp-IsWeakOrder d

  pub row_cmp-IsWeakOrder :
      (fields : Fields) (keys : List String) → IsWeakOrder (row_cmp fields keys)
  row_cmp-IsWeakOrder fields [] = equal-IsWeakOrder
  row_cmp-IsWeakOrder fields (key ∷ keys) =
      then_cmp-IsWeakOrder (key_cmp (get fields key)) (row_cmp fields keys)
        (key_cmp-IsWeakOrder (get fields key)) (row_cmp-IsWeakOrder fields keys)

  pub index_comparator-row_cmp :
      (n : ℕ) (fields : Fields) (keys : List String) (l r : ℕ)
      → HasLen n fields
      → HasKeys fields keys
      → l < n
      → r < n
      → index_comparator fl fields keys l r ≡ done (row_cmp fields keys l r)
  unfolding index_comparator
  index_comparator-row_cmp n fields [] l r h k p q = refl
  index_comparator-row_cmp n fields (key ∷ keys) l r h (k, ks) p q =
      let (d, g, m) = get-HasLen n fields key h k in
      let both = compare_cells-data_cmp d l r (omega (arith, m)) (omega (arith, m)) in
      rw (g, both) (ground (arith, index_comparator-row_cmp n fields keys l r h ks p q))
