-- ===== src/Cells/Ordered.antt =====
-- test-utils/cells/src/lib.rs: `Cells::index_comparator`, `is_sorted`, `sort` and `sorted`.
pub mod Move
pub mod Gather
pub mod Sort
pub mod Rows
use Prim.Native.String.{String}
use tiledb_rs.Base.{
  ℕ, zero, suc, ◌-◌, Ordering, lt, eq, gt, Bool, true, false, List, [], ◌∷◌, length, if◌then◌else◌,
  Outcome, done, panic, ◌>>=◌, ltb,
}
use tiledb_rs.Base.Int.{pos}
use tiledb_rs.Base.Map.{get, unwrap, index, set_elem}
use tiledb_rs.Base.Order.{is_gt}
use tiledb_rs.Physical.{
  PhysicalType, i8, i16, i32, i64, u8, u16, u32, u64, f32, f64, Elem, FloatOrder,
}
use tiledb_rs.Cells.{Fields, Cells, len}
use tiledb_rs.Cells.Field.{
  CellType, single, many, Cell, FieldData, of_cells, typed_field_data_go, cell_cmp,
}
use tiledb_rs.Cells.Sorting.{sort_by}

-- The comparison at one key.
unfoldable pub compare_cells : FloatOrder → FieldData → ℕ → ℕ → Outcome Ordering
compare_cells fl d l r =
    typed_field_data_go d
      (λ c cells. do x ← index cells l; y ← index cells r; done (cell_cmp fl c x y))

unfoldable pub index_comparator : FloatOrder → Fields → List String → ℕ → ℕ → Outcome Ordering
index_comparator fl fields [] l r = done eq
index_comparator fl fields (key ∷ keys) l r = do
  d ← unwrap (get fields key)
  o ← compare_cells fl d l r
  elim o [ lt ↦ done lt | gt ↦ done gt | eq ↦ index_comparator fl fields keys l r ]

-- The loop of `is_sorted`, `rounds` rounds from `i`.
unfoldable pub sorted_loop : (ℕ → ℕ → Outcome Ordering) → (rounds i : ℕ) → Outcome Bool
sorted_loop cmp zero i = done true
sorted_loop cmp (suc rounds) i = do
  o ← cmp (i - 1) i
  let rest = sorted_loop cmp rounds (suc i)
  if is_gt o then done false else rest

unfoldable pub is_sorted : FloatOrder → Cells → List String → Outcome Bool
is_sorted fl self keys = do
  n ← len self
  sorted_loop (index_comparator fl self.fields keys) (n - 1) 1

-- The indices `i..i + n`.
unfoldable pub count_from : ℕ → ℕ → List ℕ
count_from i zero = []
count_from i (suc n) = i ∷ count_from (suc i) n

-- `Default::default()`.
abbrev elem_default : (t : PhysicalType) → Elem t
elem_default u8 = 0
elem_default u16 = 0
elem_default u32 = 0
elem_default u64 = 0
elem_default i8 = pos 0
elem_default i16 = pos 0
elem_default i32 = pos 0
elem_default i64 = pos 0
elem_default f32 = 0
elem_default f64 = 0

abbrev pub cell_default : (c : CellType) → Cell c
cell_default (single t) = elem_default t
cell_default (many t) = []

-- `vec![x; n]`.
unfoldable pub replicate {ℓ} : {A : Type ℓ} → ℕ → A → List A
replicate zero x = []
replicate (suc n) x = x ∷ replicate n x

module _ {ℓ} {A : Type ℓ} (default : A) (idx : List ℕ) where
  -- The loop that moves the cells into their places, `rounds` rounds from `i`.
  unfoldable pub move_loop : (rounds i : ℕ) (unsorted cells : List A) → Outcome (List A)
  move_loop zero i unsorted cells = done cells
  move_loop (suc rounds) i unsorted cells = do
    j ← index idx i
    x ← index unsorted j
    let rest = move_loop rounds (suc i) (set_elem unsorted j default) (set_elem cells i x)
    if ltb i (length cells) then rest else panic

  unfoldable pub move_cells : List A → Outcome (List A)
  move_cells cells = move_loop (length cells) 0 cells (replicate (length cells) default)

unfoldable pub move_field : List ℕ → FieldData → Outcome FieldData
move_field idx d =
    typed_field_data_go d
      (λ c cells. do moved ← move_cells (cell_default c) idx cells; done (of_cells c moved))

unfoldable pub move_fields : List ℕ → Fields → Outcome Fields
move_fields idx [] = done []
move_fields idx ((k, d) ∷ fields) = do
  d ← move_field idx d
  fields ← move_fields idx fields
  done ((k, d) ∷ fields)

unfoldable pub sort : FloatOrder → Cells → List String → Outcome Cells
sort fl self keys = do
  n ← len self
  idx ← sort_by (index_comparator fl self.fields keys) (count_from 0 n)
  fields ← move_fields idx self.fields
  done (record { fields = fields })

unfoldable pub sorted : FloatOrder → Cells → List String → Outcome Cells
sorted fl self keys = sort fl self keys
