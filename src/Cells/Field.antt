-- ===== src/Cells/Field.antt =====
-- test-utils/cells/src/field.rs: the cells of one field, in a vector of one of twenty types, and the
-- macros that apply an expression to the vector of one or of two fields.
pub mod Methods
pub mod View
use tiledb_rs.Base.{ℕ, Ordering, Bool, List}
use tiledb_rs.Base.Int.{ℤ}
use tiledb_rs.Physical.{
  PhysicalType, u8, u16, u32, u64, i8, i16, i32, i64, f32, f64, Elem, FloatOrder, bits_eq, bits_cmp,
  slice_eq, slice_cmp,
}

-- The type of a cell: `DT`, or `Vec<DT>`.
pub data CellType : Type 0 where
  single many : PhysicalType → CellType

abbrev pub Cell : CellType → Type 0
Cell (single t) = Elem t
Cell (many t) = List (Elem t)

-- `BitsEq` and `BitsOrd` of a cell; those of `Vec<T>` are those of `[T]`.
unfoldable pub cell_eq : (c : CellType) → Cell c → Cell c → Bool
cell_eq (single t) = bits_eq t
cell_eq (many t) = slice_eq (bits_eq t)

unfoldable pub cell_cmp : FloatOrder → (c : CellType) → Cell c → Cell c → Ordering
cell_cmp fl (single t) = bits_cmp fl t
cell_cmp fl (many t) = slice_cmp (bits_cmp fl t)

pub data FieldData : Type 0 where
  uint8 uint16 uint32 uint64 : List ℕ → FieldData
  int8 int16 int32 int64 : List ℤ → FieldData
  float32 float64 : List ℕ → FieldData
  vec_uint8 vec_uint16 vec_uint32 vec_uint64 : List (List ℕ) → FieldData
  vec_int8 vec_int16 vec_int32 vec_int64 : List (List ℤ) → FieldData
  vec_float32 vec_float64 : List (List ℕ) → FieldData

-- `From<Vec<T>>` and `From<Vec<Vec<T>>>`.
abbrev pub of_cells : (c : CellType) → List (Cell c) → FieldData
of_cells (single u8) values = uint8 values
of_cells (single u16) values = uint16 values
of_cells (single u32) values = uint32 values
of_cells (single u64) values = uint64 values
of_cells (single i8) values = int8 values
of_cells (single i16) values = int16 values
of_cells (single i32) values = int32 values
of_cells (single i64) values = int64 values
of_cells (single f32) values = float32 values
of_cells (single f64) values = float64 values
of_cells (many u8) values = vec_uint8 values
of_cells (many u16) values = vec_uint16 values
of_cells (many u32) values = vec_uint32 values
of_cells (many u64) values = vec_uint64 values
of_cells (many i8) values = vec_int8 values
of_cells (many i16) values = vec_int16 values
of_cells (many i32) values = vec_int32 values
of_cells (many i64) values = vec_int64 values
of_cells (many f32) values = vec_float32 values
of_cells (many f64) values = vec_float64 values

-- `typed_field_data_go!`: the expression also gets the type of the cells, by which its forms differ.
abbrev pub typed_field_data_go {ℓ} :
    {B : Type ℓ} → FieldData → ((c : CellType) → List (Cell c) → B) → B
typed_field_data_go (uint8 cells) go = go (single u8) cells
typed_field_data_go (uint16 cells) go = go (single u16) cells
typed_field_data_go (uint32 cells) go = go (single u32) cells
typed_field_data_go (uint64 cells) go = go (single u64) cells
typed_field_data_go (int8 cells) go = go (single i8) cells
typed_field_data_go (int16 cells) go = go (single i16) cells
typed_field_data_go (int32 cells) go = go (single i32) cells
typed_field_data_go (int64 cells) go = go (single i64) cells
typed_field_data_go (float32 cells) go = go (single f32) cells
typed_field_data_go (float64 cells) go = go (single f64) cells
typed_field_data_go (vec_uint8 cells) go = go (many u8) cells
typed_field_data_go (vec_uint16 cells) go = go (many u16) cells
typed_field_data_go (vec_uint32 cells) go = go (many u32) cells
typed_field_data_go (vec_uint64 cells) go = go (many u64) cells
typed_field_data_go (vec_int8 cells) go = go (many i8) cells
typed_field_data_go (vec_int16 cells) go = go (many i16) cells
typed_field_data_go (vec_int32 cells) go = go (many i32) cells
typed_field_data_go (vec_int64 cells) go = go (many i64) cells
typed_field_data_go (vec_float32 cells) go = go (many f32) cells
typed_field_data_go (vec_float64 cells) go = go (many f64) cells

-- `typed_field_data_cmp!`.
abbrev pub typed_field_data_cmp {ℓ} :
    {B : Type ℓ}
    → FieldData
    → FieldData
    → ((c : CellType) → List (Cell c) → List (Cell c) → B)
    → B
    → B
typed_field_data_cmp (uint8 l) (uint8 r) same other = same (single u8) l r
typed_field_data_cmp (uint16 l) (uint16 r) same other = same (single u16) l r
typed_field_data_cmp (uint32 l) (uint32 r) same other = same (single u32) l r
typed_field_data_cmp (uint64 l) (uint64 r) same other = same (single u64) l r
typed_field_data_cmp (int8 l) (int8 r) same other = same (single i8) l r
typed_field_data_cmp (int16 l) (int16 r) same other = same (single i16) l r
typed_field_data_cmp (int32 l) (int32 r) same other = same (single i32) l r
typed_field_data_cmp (int64 l) (int64 r) same other = same (single i64) l r
typed_field_data_cmp (float32 l) (float32 r) same other = same (single f32) l r
typed_field_data_cmp (float64 l) (float64 r) same other = same (single f64) l r
typed_field_data_cmp (vec_uint8 l) (vec_uint8 r) same other = same (many u8) l r
typed_field_data_cmp (vec_uint16 l) (vec_uint16 r) same other = same (many u16) l r
typed_field_data_cmp (vec_uint32 l) (vec_uint32 r) same other = same (many u32) l r
typed_field_data_cmp (vec_uint64 l) (vec_uint64 r) same other = same (many u64) l r
typed_field_data_cmp (vec_int8 l) (vec_int8 r) same other = same (many i8) l r
typed_field_data_cmp (vec_int16 l) (vec_int16 r) same other = same (many i16) l r
typed_field_data_cmp (vec_int32 l) (vec_int32 r) same other = same (many i32) l r
typed_field_data_cmp (vec_int64 l) (vec_int64 r) same other = same (many i64) l r
typed_field_data_cmp (vec_float32 l) (vec_float32 r) same other = same (many f32) l r
typed_field_data_cmp (vec_float64 l) (vec_float64 r) same other = same (many f64) l r
typed_field_data_cmp _ _ same other = other
