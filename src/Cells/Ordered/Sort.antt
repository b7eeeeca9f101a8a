-- ===== src/Cells/Ordered/Sort.antt =====
-- test-utils/cells/src/lib.rs: what `Cells::sort` leaves, and `Cells::is_sorted` of it.
use Prim.Native.String.{String}
use tiledb_rs.Base.{
  ℕ, zero, suc, ◌<◌, ◌≤◌, ◌+◌, ◌-◌, Ordering, ◌≡◌, refl, ◌∙◌, true, false, some, List, [], ◌∷◌,
  get_elem?, Outcome, done, arith,
}
use tiledb_rs.Base.Order.{is_gt, is_le}
use tiledb_rs.Physical.{FloatOrder}
use tiledb_rs.Cells.{Cells}
use tiledb_rs.Cells.Groups.Stable.{member, member-insertion_sort, member-count_from}
use tiledb_rs.Cells.Ordered.{index_comparator, sorted_loop, is_sorted, sort, count_from}
use tiledb_rs.Cells.Ordered.Gather.{
  Arranges, gather_data, HasLen-gather_data, move_fields-gather_data, row_cmp-gather_data,
  count_from-Arranges,
}
use tiledb_rs.Cells.Ordered.Move.{get_elem?_in_range}
use tiledb_rs.Cells.Ordered.Rows.{row_cmp, row_cmp-IsWeakOrder, index_comparator-row_cmp}
use tiledb_rs.Cells.Shape.{
  HasLen, HasKeys, IsUniform, map_data, len-IsUniform, HasKeys-map_data, length-map_data,
}
use tiledb_rs.Cells.Sorting.{sort_by, insertion_sort}
use tiledb_rs.Cells.Sorting.Laws.{
  Ascending, All-insertion_sort, length-insertion_sort, insertion_sort-NoDup,
  insertion_sort-Ascending, sort_by-insertion_sort,
}

sorted_loop-true :
    (cmp : ℕ → ℕ → Outcome Ordering) (rounds i : ℕ)
    → ((k : ℕ)
        → i ≤ k
        → k < i + rounds
        → (o : Ordering) × (cmp (k - 1) k ≡ done o) × (is_gt o ≡ false))
    → sorted_loop cmp rounds i ≡ done true
unfolding sorted_loop
sorted_loop-true cmp zero i h = refl
sorted_loop-true cmp (suc rounds) i h =
    let (o, e, le) = h i (omega arith) (omega arith) in
    let rest = sorted_loop-true cmp rounds (suc i) (λ k q r. h k (omega arith) (omega arith)) in
    rw (e, le) rest

Ascending-at :
    (cmp : ℕ → ℕ → Ordering) (xs : List ℕ) (i a b : ℕ)
    → Ascending cmp xs
    → get_elem? xs i ≡ some a
    → get_elem? xs (suc i) ≡ some b
    → is_le (cmp a b) ≡ true
Ascending-at cmp [] i a b h p q = ground arith
Ascending-at cmp (x ∷ []) zero a b h p q = ground arith
Ascending-at cmp (x ∷ y ∷ ys) zero a b (h, k) p q = ground (arith, h, p, q)
Ascending-at cmp (x ∷ xs) (suc i) a b (h, k) p q = Ascending-at cmp xs i a b k p q

module _ (fl : FloatOrder) (self : Cells) (keys : List String) (n : ℕ) where
  abbrev pub sorted_indices : List ℕ
  sorted_indices = insertion_sort (row_cmp fl self.fields keys) (count_from 0 n)

  pub sorted_indices-Arranges : Arranges n sorted_indices
  sorted_indices-Arranges =
      let (l, b, u) = count_from-Arranges n in
      (
        length-insertion_sort (row_cmp fl self.fields keys) (count_from 0 n) ∙ l,
        All-insertion_sort (row_cmp fl self.fields keys) (λ j. j < n) (count_from 0 n) b,
        insertion_sort-NoDup (row_cmp fl self.fields keys) (count_from 0 n) u,
      )

  -- Every index is among them.
  pub sorted_indices-member : (j : ℕ) → j < n → member sorted_indices j ≡ true
  sorted_indices-member j h =
      member-insertion_sort (row_cmp fl self.fields keys) (count_from 0 n) j
      ∙ member-count_from 0 n j (omega arith) (omega arith)

  module _ (uniform : IsUniform self n) (has : HasKeys self.fields keys) where
    pub sort_by-sorted_indices :
        sort_by (index_comparator fl self.fields keys) (count_from 0 n) ≡ done sorted_indices
    sort_by-sorted_indices =
        sort_by-insertion_sort (λ j. j < n) (index_comparator fl self.fields keys)
          (row_cmp fl self.fields keys)
          (λ a b p q. index_comparator-row_cmp fl n self.fields keys a b (uniform.0) has p q)
          (count_from 0 n) (count_from-Arranges n).1

    abbrev pub sorted_cells : Cells
    sorted_cells = record { fields = map_data (gather_data sorted_indices) self.fields }

    pub sort-sorted_cells : sort fl self keys ≡ done sorted_cells
    unfolding sort
    sort-sorted_cells =
        rw
          (
            len-IsUniform self n uniform,
            sort_by-sorted_indices,
            move_fields-gather_data n sorted_indices self.fields sorted_indices-Arranges
                (uniform.0),
          )
          refl

    sorted_cells-HasLen : HasLen n sorted_cells.fields
    sorted_cells-HasLen =
        HasLen-gather_data n sorted_indices self.fields sorted_indices-Arranges (uniform.0)

    sorted_cells-IsUniform : IsUniform sorted_cells n
    sorted_cells-IsUniform = (
      sorted_cells-HasLen,
      omega (arith, uniform.1, length-map_data (gather_data sorted_indices) self.fields),
    )

    -- Two neighbours in the sorted cells compare as the two records that were moved there.
    sorted_cells-step :
        (k : ℕ)
        → 1 ≤ k
        → k < n
        → (o : Ordering) × (index_comparator fl sorted_cells.fields keys (k - 1) k ≡ done o)
          × (is_gt o ≡ false)
    sorted_cells-step zero p h = ground arith
    sorted_cells-step (suc k) p h =
        let (l, b, u) = sorted_indices-Arranges in
        let before : suc k - 1 ≡ k = omega arith in
        let (i, ei) = get_elem?_in_range sorted_indices k (omega (arith, l)) in
        let (j, ej) = get_elem?_in_range sorted_indices (suc k) (omega (arith, l)) in
        let moved =
          row_cmp-gather_data fl n sorted_indices k (suc k) i j self.fields keys (uniform.0) has b
            ei ej in
        let le =
          Ascending-at (row_cmp fl self.fields keys) sorted_indices k i j
            (insertion_sort-Ascending (row_cmp fl self.fields keys)
              (row_cmp-IsWeakOrder fl self.fields keys).cmp_swap (count_from 0 n))
            ei ej in
        (
          row_cmp fl sorted_cells.fields keys k (suc k),
          rw (before) (
              index_comparator-row_cmp fl n sorted_cells.fields keys k (suc k) sorted_cells-HasLen
                (HasKeys-map_data (gather_data sorted_indices) self.fields keys has) (omega arith)
                h),
          rw (moved) (ground (arith, le)),
        )

    sorted_cells-is_sorted : is_sorted fl sorted_cells keys ≡ done true
    unfolding is_sorted
    sorted_cells-is_sorted = rw (len-IsUniform sorted_cells n sorted_cells-IsUniform) (
        sorted_loop-true (index_comparator fl sorted_cells.fields keys) (n - 1) 1
          (λ k p q. sorted_cells-step k p (omega (arith, p, q))))

    -- On cells that have fields of `n` records each, and keys that are all fields, `sort` returns:
    -- there is one arrangement of the indices below `n` such that every field is left with its
    -- cells in that arrangement, and `is_sorted` then answers true.
    pub sort-Arranges :
        (idx : List ℕ) × (result : Cells) × (sort fl self keys ≡ done result)
        × Arranges n idx
        × (result.fields ≡ map_data (gather_data idx) self.fields)
        × (is_sorted fl result keys ≡ done true)
    sort-Arranges = (
      sorted_indices, sorted_cells, sort-sorted_cells, sorted_indices-Arranges, refl,
      sorted_cells-is_sorted,
    )
