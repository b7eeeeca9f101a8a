-- ===== src/Cells/Field/Methods.antt =====
-- test-utils/cells/src/field.rs: the methods of `FieldData`. One that changes its receiver returns
-- the data that it leaves there.
use tiledb_rs.Base.{
  ℕ, suc, ◌+◌, leb, ◌==◌, Bool, true, false, List, [], ◌∷◌, ◌++◌, length, take, drop, if◌then◌else◌,
  Outcome, done, panic, ◌>>=◌, Result, ok, err,
}
use tiledb_rs.Physical.{
  PhysicalType, u8, u16, u32, u64, i8, i16, i32, i64, f32, f64, Elem, FloatOrder, slice_eq,
}
use tiledb_rs.Cells.Field.{
  CellType, single, many, FieldData, of_cells, typed_field_data_go, typed_field_data_cmp, cell_eq,
  cell_cmp, uint8, uint16, uint32, uint64, int8, int16, int32, int64, float32, float64,
}
use tiledb_rs.Cells.Sorting.{sort_by}

abbrev pub is_empty : FieldData → Bool
is_empty self = typed_field_data_go self (λ _ v. length v == 0)

abbrev pub len : FieldData → ℕ
len self = typed_field_data_go self (λ _ v. length v)

abbrev pub null_count : FieldData → ℕ
null_count self = 0

abbrev pub is_cell_single : FieldData → Bool
is_cell_single self = typed_field_data_go self (λ c _. elim c [ single t ↦ true | many t ↦ false ])

-- `values[start..start + len].to_vec()`.
abbrev slice_vec {ℓ} : {A : Type ℓ} → ℕ → ℕ → List A → Outcome (List A)
slice_vec start n values =
    if leb (start + n) (length values) then done (take n (drop start values)) else panic

abbrev pub slice : FieldData → ℕ → ℕ → Outcome FieldData
slice self start n =
    typed_field_data_go self
      (λ c values. do kept ← slice_vec start n values; done (of_cells c kept))

-- The cells at the indices, counted from `i`, that pass the test.
unfoldable pub filter_from {ℓ} : {A : Type ℓ} → (ℕ → Bool) → ℕ → List A → List A
filter_from test i [] = []
filter_from test i (e ∷ values) =
    let rest = filter_from test (suc i) values in if test i then e ∷ rest else rest

-- The argument is `|i| set.test(i)`.
abbrev pub filter : FieldData → (ℕ → Bool) → FieldData
filter self test = typed_field_data_go self (λ c values. of_cells c (filter_from test 0 values))

abbrev pub truncate : FieldData → ℕ → FieldData
truncate self n = typed_field_data_go self (λ c cells. of_cells c (take n cells))

abbrev pub sort : FloatOrder → FieldData → Outcome FieldData
sort fl self = typed_field_data_go self (λ c cells. do
  sorted ← sort_by (λ k1 k2. done (cell_cmp fl c k1 k2)) cells
  done (of_cells c sorted))

abbrev pub extend : FieldData → FieldData → Outcome FieldData
extend self other =
    typed_field_data_cmp self other (λ c mine theirs. done (of_cells c (mine ++ theirs))) panic

abbrev pub bits_eq : FieldData → FieldData → Bool
bits_eq self other =
    typed_field_data_cmp self other (λ c mine theirs. slice_eq (cell_eq c) mine theirs) false

-- `Error::PhysicalTypeMismatch`; the cell types stand for their names.
pub data Mismatch : Type 0 where
  physical_type_mismatch : CellType → CellType → Mismatch

-- `TryFrom<FieldData> for Vec<T>`, for each type `T`.
pub try_from : (t : PhysicalType) → FieldData → Result Mismatch (List (Elem t))
try_from u8 (uint8 values) = ok values
try_from u16 (uint16 values) = ok values
try_from u32 (uint32 values) = ok values
try_from u64 (uint64 values) = ok values
try_from i8 (int8 values) = ok values
try_from i16 (int16 values) = ok values
try_from i32 (int32 values) = ok values
try_from i64 (int64 values) = ok values
try_from f32 (float32 values) = ok values
try_from f64 (float64 values) = ok values
try_from t value = typed_field_data_go value (λ c _. err (physical_type_mismatch (single t) c))
