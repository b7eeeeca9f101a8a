-- ===== src/Cells/Write/Sorted.antt =====
-- test-utils/cells/src/write/mod.rs: the domain of a sparse write before and after `sort_cells`.
use Prim.Native.String.{String}
use mathlib.Core.Path.{subst, ap₂}
use tiledb_rs.Base.{
  ◌>>=◌, ℕ, zero, suc, ◌<◌, Ordering, ◌≡◌, refl, sym, ap, ◌∙◌, inl, inr, true, none, some, List, [],
  ◌∷◌, map, length, get_elem?, done, All, arith, Option-cases, Bool-cases, ◌==◌,
}
use tiledb_rs.Base.Order.{IsTotal, le_antisymm}
use tiledb_rs.Array.{CellValNum, fixed, var as var_sized}
use tiledb_rs.Physical.{FloatOrder}
use tiledb_rs.Cells.{Fields}
use tiledb_rs.Cells.Field.{CellType, single, many, Cell, of_cells, cell_cmp}
use tiledb_rs.Cells.Field.View.{cell_cmp-IsTotal}
use tiledb_rs.Cells.Groups.Stable.{member}
use tiledb_rs.Cells.Ordered.Gather.{gather_data, gather_data-of_cells}
use tiledb_rs.Cells.Ordered.Move.{gather, gather_cons}
use tiledb_rs.Cells.Ordered.Sort.{
  sorted_indices, sorted_indices-member, sorted_cells, sort-sorted_cells,
}
use tiledb_rs.Cells.Shape.{
  IsUniform, HasKeys, HasLen, map_data, get-map_data, len-of_cells, get-len-HasLen,
  get-contains_key,
}
use tiledb_rs.Cells.Write.{
  SparseWriteInput, dimension_range, push_range, collect_ranges, sparse_domain, sort_cells,
}
use tiledb_rs.Cells.Write.Bounding.{HasCellValNum, HasDimension, range_of, dimension_range-IsExtent}
use tiledb_rs.Cells.Write.Extent.{Occurs, IsExtent, Occurs-All}

module _ {A : Type 0} where
  Occurs-at : (xs : List A) (i : ℕ) (x : A) → get_elem? xs i ≡ some x → Occurs x xs
  Occurs-at [] i x e = ground arith
  Occurs-at (y ∷ ys) zero x e = inl (ground (arith, e))
  Occurs-at (y ∷ ys) (suc i) x e = inr (Occurs-at ys i x e)

  Occurs-index :
      (xs : List A) (x : A) → Occurs x xs → (i : ℕ) × (i < length xs) × (get_elem? xs i ≡ some x)
  Occurs-index [] x h = ground arith
  Occurs-index (y ∷ ys) x (inl e) = (0, omega arith, ap some (sym e))
  Occurs-index (y ∷ ys) x (inr h) = let (i, p, e) = Occurs-index ys x h in (suc i, omega arith, e)

  All-of_Occurs : (P : A → Type 0) (xs : List A) → ((x : A) → Occurs x xs → P x) → All P xs
  All-of_Occurs P [] h = tt
  All-of_Occurs P (x ∷ xs) h = (h x (inl refl), All-of_Occurs P xs (λ y m. h y (inr m)))

  gather-none :
      (xs : List A) (i : ℕ) (is : List ℕ)
      → get_elem? xs i ≡ none
      → gather xs (i ∷ is) ≡ gather xs is
  gather-none xs i is e = rw (e, gather) refl

  -- What is gathered from a list occurs in it.
  Occurs-gather : (xs : List A) (idx : List ℕ) (x : A) → Occurs x (gather xs idx) → Occurs x xs
  Occurs-gather xs [] x h = ground arith
  Occurs-gather xs (i ∷ is) x h = elim (Option-cases (get_elem? xs i)) [
    | inl e ↦ Occurs-gather xs is x (subst (Occurs x) (gather-none xs i is e) h)
    | inr (y, e) ↦ elim (subst (Occurs x) (gather_cons xs i is y e) h) [
      | inl q ↦ Occurs-at xs i x (e ∙ ap some (sym q))
      | inr m ↦ Occurs-gather xs is x m
    ]
  ]

  -- What stands at one of the indices is gathered.
  gather-Occurs :
      (xs : List A) (idx : List ℕ) (i : ℕ) (x : A)
      → member idx i ≡ true
      → get_elem? xs i ≡ some x
      → Occurs x (gather xs idx)
  unfolding member
  gather-Occurs xs [] i x m e = ground arith
  gather-Occurs xs (j ∷ js) i x m e = elim (Bool-cases (j == i)) [
    | inl q ↦
        let at_j : get_elem? xs j ≡ some x =
          subst (λ k. get_elem? xs k ≡ some x) (ground (arith, q)) e in
        subst (Occurs x) (sym (gather_cons xs j js x at_j)) (inl refl)
    | inr q ↦
        let rest = gather-Occurs xs js i x (ground (arith, q, m)) e in
        elim (Option-cases (get_elem? xs j)) [
          | inl n ↦ subst (Occurs x) (sym (gather-none xs j js n)) rest
          | inr (y, n) ↦ subst (Occurs x) (sym (gather_cons xs j js y n)) (inr rest)
        ]
  ]

module _ {A : Type 0} (cmp : A → A → Ordering) (o : IsTotal cmp) where
  -- Lists with the same values have the same extent.
  IsExtent-unique :
      (xs ys : List A) (low high low' high' : A)
      → ((x : A) → Occurs x xs → Occurs x ys)
      → ((x : A) → Occurs x ys → Occurs x xs)
      → IsExtent cmp low high xs
      → IsExtent cmp low' high' ys
      → (low ≡ low') × (high ≡ high')
  IsExtent-unique xs ys low high low' high' sub sup (l, h, b) (l', h', b') = (
    le_antisymm cmp o low low' (Occurs-All _ low' xs b (sup low' l')).0
        (Occurs-All _ low ys b' (sub low l)).0,
    le_antisymm cmp o high high' (Occurs-All _ high ys b' (sub high h)).1
        (Occurs-All _ high' xs b (sup high' h')).1,
  )

HasCellValNum-subset :
    (cvn : CellValNum) (c : CellType) (xs ys : List (Cell c))
    → ((x : Cell c) → Occurs x ys → Occurs x xs)
    → HasCellValNum cvn c xs
    → HasCellValNum cvn c ys
HasCellValNum-subset cvn (single t) xs ys sub h = tt
HasCellValNum-subset var_sized (many t) xs ys sub h = tt
HasCellValNum-subset (fixed n) (many t) xs ys sub (l, h) = (
  l,
  All-of_Occurs (λ v. length v ≡ n) ys (λ x m. Occurs-All (λ v. length v ≡ n) x xs h (sub x m)),
)

module _ (fl : FloatOrder) (idx : List ℕ) (n : ℕ)
    (every : (j : ℕ) → j < n → member idx j ≡ true) where
  -- The range of a dimension does not change when its cells are gathered by all their indices.
  dimension_range-gather :
      (cvn : CellValNum) (c : CellType) (x : Cell c) (xs : List (Cell c))
      → HasCellValNum cvn c (x ∷ xs)
      → length (x ∷ xs) ≡ n
      → dimension_range fl cvn (gather_data idx (of_cells c (x ∷ xs)))
        ≡ dimension_range fl cvn (of_cells c (x ∷ xs))
  dimension_range-gather cvn c x xs h l =
      let sub : (y : Cell c) → Occurs y (gather (x ∷ xs) idx) → Occurs y (x ∷ xs) =
        Occurs-gather (x ∷ xs) idx in
      let sup : (y : Cell c) → Occurs y (x ∷ xs) → Occurs y (gather (x ∷ xs) idx) = λ y m.
        let (i, p, e) = Occurs-index (x ∷ xs) y m in
        gather-Occurs (x ∷ xs) idx i y (every i (omega (arith, p, l))) e in
      rw (gather_data-of_cells idx c (x ∷ xs))
        (same_values cvn c x xs (gather (x ∷ xs) idx) h sub sup)
    where
      same_values :
          (cvn : CellValNum) (c : CellType) (x : Cell c) (xs ys : List (Cell c))
          → HasCellValNum cvn c (x ∷ xs)
          → ((y : Cell c) → Occurs y ys → Occurs y (x ∷ xs))
          → ((y : Cell c) → Occurs y (x ∷ xs) → Occurs y ys)
          → dimension_range fl cvn (of_cells c ys) ≡ dimension_range fl cvn (of_cells c (x ∷ xs))
      same_values cvn c x xs [] h sub sup = elim (sup x (inl refl)) [ ]
      same_values cvn c x xs (y ∷ ys) h sub sup =
          let (low, high, e, extent) = dimension_range-IsExtent fl cvn c x xs h in
          let (low', high', e', extent') =
            dimension_range-IsExtent fl cvn c y ys
              (HasCellValNum-subset cvn c (x ∷ xs) (y ∷ ys) sub h) in
          let (p, q) =
            IsExtent-unique (cell_cmp fl c) (cell_cmp-IsTotal fl c) (y ∷ ys) (x ∷ xs) low' high' low
              high sub sup extent' extent in
          e' ∙ ap₂ (λ a b. done (some (range_of cvn c a b))) p q ∙ sym e

  collect_ranges-gather :
      (fields : Fields) (dims : List (String × CellValNum))
      → HasLen n fields
      → All (HasDimension fields) dims
      → collect_ranges fl (map_data (gather_data idx) fields) dims ≡ collect_ranges fl fields dims
  unfolding collect_ranges
  collect_ranges-gather fields [] l h = refl
  collect_ranges-gather fields ((dim, cvn) ∷ dims) l ((c, x, xs, g, k), hs) =
      let len =
        sym (len-of_cells c (x ∷ xs)) ∙ get-len-HasLen n fields dim (of_cells c (x ∷ xs)) l g in
      rw
        (
          g,
          get-map_data (gather_data idx) fields dim (of_cells c (x ∷ xs)) g,
          dimension_range-gather cvn c x xs k len,
        )
        (ap (λ rest. dimension_range fl cvn (of_cells c (x ∷ xs)) >>= λ r. push_range r rest)
          (collect_ranges-gather fields dims l hs))

dimension_keys :
    (fields : Fields) (dims : List (String × CellValNum))
    → All (HasDimension fields) dims
    → HasKeys fields (map (λ (k, cvn). k) dims)
dimension_keys fields [] h = tt
dimension_keys fields ((dim, cvn) ∷ dims) ((c, x, xs, g, k), hs) =
    (get-contains_key fields dim (of_cells c (x ∷ xs)) g, dimension_keys fields dims hs)

-- Where every field of a sparse write has `n` cells, and every dimension is a field with at least one
-- cell, whose cells have the number of values of the dimension, `sort_cells` returns, and the
-- sorted write has the same domain.
pub sort_cells-sparse_domain :
    (fl : FloatOrder) (self : SparseWriteInput) (n : ℕ)
    → IsUniform self.cells n
    → All (HasDimension self.cells.fields) self.dimensions
    → (sorted : SparseWriteInput) × (sort_cells fl self ≡ done sorted)
      × (sparse_domain fl sorted ≡ sparse_domain fl self)
unfolding sort_cells sparse_domain
sort_cells-sparse_domain fl self n uniform has =
    let keys = map (λ (k, cvn). k) self.dimensions in
    let present = dimension_keys self.cells.fields self.dimensions has in
    (
      record {
        dimensions = self.dimensions;
        cells = sorted_cells fl self.cells keys n uniform present;
      },
      rw (sort-sorted_cells fl self.cells keys n uniform present) refl,
      collect_ranges-gather fl (sorted_indices fl self.cells keys n) n
          (sorted_indices-member fl self.cells keys n) self.cells.fields self.dimensions (uniform.0)
          has,
    )
