-- ===== src/Cells/Ordered/Gather.antt =====
-- test-utils/cells/src/lib.rs: records taken in the order of a list of indices, as `Cells::sort`
-- moves them, and their comparison.
use mathlib.Core.Path.{subst}
use Prim.Native.String.{String}
use tiledb_rs.Base.{
  ℕ, zero, suc, ◌<◌, ◌≤◌, ◌+◌, ◌≡◌, refl, sym, ap, ◌∙◌, ◌≢◌, some, List, [], ◌∷◌, length, get_elem?,
  done, arith, All,
}
use tiledb_rs.Physical.{FloatOrder}
use tiledb_rs.Cells.{Fields}
use tiledb_rs.Cells.Field.{CellType, Cell, FieldData, of_cells, typed_field_data_go}
use tiledb_rs.Cells.Field.View.{by_view, go-of_cells}
use tiledb_rs.Cells.Field.Methods as Data
use tiledb_rs.Cells.Ordered.{move_field, move_fields, cell_default, count_from}
use tiledb_rs.Cells.Ordered.Move.{gather, gather_cons, get_elem?_in_range, move_cells-gather}
use tiledb_rs.Cells.Ordered.Rows.{data_cmp, data_cmp-of_cells, row_cmp}
use tiledb_rs.Cells.Shape.{HasLen, HasKeys, get-HasLen, map_data, get-map_data, len-of_cells}
use tiledb_rs.Cells.Sorting.Laws.{NoDup}

-- The indices below `n`, each of them once.
abbrev pub Arranges : ℕ → List ℕ → Type 0
Arranges n idx = (length idx ≡ n) × All (λ j. j < n) idx × NoDup idx

abbrev pub gather_data : List ℕ → FieldData → FieldData
gather_data idx d = typed_field_data_go d (λ c xs. of_cells c (gather xs idx))

pub gather_data-of_cells :
    (idx : List ℕ) (c : CellType) (xs : List (Cell c))
    → gather_data idx (of_cells c xs) ≡ of_cells c (gather xs idx)
gather_data-of_cells idx c xs = go-of_cells c xs _

length-gather {ℓ} :
    {A : Type ℓ} (xs : List A) (idx : List ℕ)
    → All (λ j. j < length xs) idx
    → length (gather xs idx) ≡ length idx
length-gather xs [] h = refl
length-gather xs (j ∷ js) (h, hs) =
    let (x, e) = get_elem?_in_range xs j h in
    rw (gather_cons xs j js x e) (ap suc (length-gather xs js hs))

get_elem?-gather {ℓ} :
    {A : Type ℓ} (xs : List A) (idx : List ℕ) (i j : ℕ)
    → All (λ j. j < length xs) idx
    → get_elem? idx i ≡ some j
    → get_elem? (gather xs idx) i ≡ get_elem? xs j
get_elem?-gather xs [] i j h e = ground arith
get_elem?-gather xs (k ∷ ks) zero j (h, hs) e =
    let (x, ex) = get_elem?_in_range xs k h in ground (arith, e, ex)
get_elem?-gather xs (k ∷ ks) (suc i) j (h, hs) e =
    let (x, ex) = get_elem?_in_range xs k h in
    rw (gather_cons xs k ks x ex) (get_elem?-gather xs ks i j hs e)

pub len-gather_data :
    (idx : List ℕ) (d : FieldData)
    → All (λ j. j < Data.len d) idx
    → Data.len (gather_data idx d) ≡ length idx
len-gather_data idx =
    by_view (λ d. All (λ j. j < Data.len d) idx → Data.len (gather_data idx d) ≡ length idx)
      (λ c xs h.
        rw (gather_data-of_cells idx c xs, len-of_cells c (gather xs idx))
          (length-gather xs idx (subst (λ n. All (λ j. j < n) idx) (len-of_cells c xs) h)))

pub HasLen-gather_data :
    (n : ℕ) (idx : List ℕ) (fields : Fields)
    → Arranges n idx
    → HasLen n fields
    → HasLen n (map_data (gather_data idx) fields)
HasLen-gather_data n idx [] a h = tt
HasLen-gather_data n idx ((k, d) ∷ fields) (l, r, u) (e, h) = (
  len-gather_data idx d (subst (λ m. All (λ j. j < m) idx) (sym e) r) ∙ l,
  HasLen-gather_data n idx fields (l, r, u) h,
)

move_field-gather_data :
    (n : ℕ) (idx : List ℕ) (d : FieldData)
    → Arranges n idx
    → Data.len d ≡ n
    → move_field idx d ≡ done (gather_data idx d)
unfolding move_field
move_field-gather_data n idx d (l, r, u) =
    by_view (λ d. Data.len d ≡ n → move_field idx d ≡ done (gather_data idx d))
      (λ c xs e.
        let m : length xs ≡ n = sym (len-of_cells c xs) ∙ e in
        rw (gather_data-of_cells idx c xs) (
          go-of_cells c xs _
          ∙ rw
              (move_cells-gather (cell_default c) idx xs (l ∙ sym m)
                (subst (λ m. All (λ j. j < m) idx) (sym m) r) u)
              refl))
      d

pub move_fields-gather_data :
    (n : ℕ) (idx : List ℕ) (fields : Fields)
    → Arranges n idx
    → HasLen n fields
    → move_fields idx fields ≡ done (map_data (gather_data idx) fields)
unfolding move_fields
move_fields-gather_data n idx [] a h = refl
move_fields-gather_data n idx ((k, d) ∷ fields) a (e, h) =
    rw (move_field-gather_data n idx d a e, move_fields-gather_data n idx fields a h) refl

module _ (fl : FloatOrder) (n : ℕ) (idx : List ℕ) (l r i j : ℕ) where
  data_cmp-gather_data :
      (d : FieldData)
      → All (λ j. j < Data.len d) idx
      → get_elem? idx l ≡ some i
      → get_elem? idx r ≡ some j
      → data_cmp fl (gather_data idx d) l r ≡ data_cmp fl d i j
  data_cmp-gather_data =
      by_view
        (λ d.
          All (λ j. j < Data.len d) idx
          → get_elem? idx l ≡ some i
          → get_elem? idx r ≡ some j
          → data_cmp fl (gather_data idx d) l r ≡ data_cmp fl d i j)
        (λ c xs h p q.
          let h' = subst (λ n. All (λ j. j < n) idx) (len-of_cells c xs) h in
          rw
            (
              gather_data-of_cells idx c xs,
              data_cmp-of_cells fl c xs i j,
              data_cmp-of_cells fl c (gather xs idx) l r,
              get_elem?-gather xs idx l i h' p,
              get_elem?-gather xs idx r j h' q,
            )
            refl)

  -- The records at two positions compare as the records that were moved there.
  pub row_cmp-gather_data :
      (fields : Fields) (keys : List String)
      → HasLen n fields
      → HasKeys fields keys
      → All (λ j. j < n) idx
      → get_elem? idx l ≡ some i
      → get_elem? idx r ≡ some j
      → row_cmp fl (map_data (gather_data idx) fields) keys l r ≡ row_cmp fl fields keys i j
  row_cmp-gather_data fields [] h k b p q = refl
  row_cmp-gather_data fields (key ∷ keys) h (k, ks) b p q =
      let (d, g, m) = get-HasLen n fields key h k in
      let b' = subst (λ m. All (λ j. j < m) idx) (sym m) b in
      ground (
        arith,
        g,
        get-map_data (gather_data idx) fields key d g,
        data_cmp-gather_data d b' p q,
        row_cmp-gather_data fields keys h ks b p q,
      )

All-count_from : (m i n : ℕ) → i + n ≤ m → All (λ j. j < m) (count_from i n)
unfolding count_from
All-count_from m i zero h = tt
All-count_from m i (suc n) h = (omega arith, All-count_from m (suc i) n (omega arith))

All-other_count_from : (m i n : ℕ) → m < i → All (λ j. m ≢ j) (count_from i n)
unfolding count_from
All-other_count_from m i zero h = tt
All-other_count_from m i (suc n) h = (ground arith, All-other_count_from m (suc i) n (omega arith))

NoDup-count_from : (i n : ℕ) → NoDup (count_from i n)
unfolding count_from
NoDup-count_from i zero = tt
NoDup-count_from i (suc n) =
    (All-other_count_from i (suc i) n (omega arith), NoDup-count_from (suc i) n)

length-count_from : (i n : ℕ) → length (count_from i n) ≡ n
unfolding count_from
length-count_from i zero = refl
length-count_from i (suc n) = ap suc (length-count_from (suc i) n)

pub count_from-Arranges : (n : ℕ) → Arranges n (count_from 0 n)
count_from-Arranges n =
    (length-count_from 0 n, All-count_from n 0 n (omega arith), NoDup-count_from 0 n)
