-- ===== src/Cells/Field/View.antt =====
-- test-utils/cells/src/field.rs: a field's data as the type of its cells and the list of them, and
-- the macros on data that is given that way.
use mathlib.Core.Path.{subst}
use tiledb_rs.Base.{◌≡◌, refl, sym, ◌↔◌, true, List}
use tiledb_rs.Base.Order.{IsTotal}
use tiledb_rs.Physical.{
  u8, u16, u32, u64, i8, i16, i32, i64, f32, f64, FloatOrder, bits_eq, bits_cmp,
}
use tiledb_rs.Physical.Order.{bits_cmp-IsTotal, bits_eq_iff, slice_cmp-IsTotal, slice_eq_iff}
use tiledb_rs.Cells.Field.{
  CellType, single, many, Cell, FieldData, of_cells, typed_field_data_go, typed_field_data_cmp,
  cell_eq, cell_cmp, uint8, uint16, uint32, uint64, int8, int16, int32, int64, float32, float64,
  vec_uint8, vec_uint16, vec_uint32, vec_uint64, vec_int8, vec_int16, vec_int32, vec_int64,
  vec_float32, vec_float64,
}

pub view : (d : FieldData) → (c : CellType) × (xs : List (Cell c)) × (d ≡ of_cells c xs)
view (uint8 xs) = ((single u8), xs, refl)
view (uint16 xs) = ((single u16), xs, refl)
view (uint32 xs) = ((single u32), xs, refl)
view (uint64 xs) = ((single u64), xs, refl)
view (int8 xs) = ((single i8), xs, refl)
view (int16 xs) = ((single i16), xs, refl)
view (int32 xs) = ((single i32), xs, refl)
view (int64 xs) = ((single i64), xs, refl)
view (float32 xs) = ((single f32), xs, refl)
view (float64 xs) = ((single f64), xs, refl)
view (vec_uint8 xs) = ((many u8), xs, refl)
view (vec_uint16 xs) = ((many u16), xs, refl)
view (vec_uint32 xs) = ((many u32), xs, refl)
view (vec_uint64 xs) = ((many u64), xs, refl)
view (vec_int8 xs) = ((many i8), xs, refl)
view (vec_int16 xs) = ((many i16), xs, refl)
view (vec_int32 xs) = ((many i32), xs, refl)
view (vec_int64 xs) = ((many i64), xs, refl)
view (vec_float32 xs) = ((many f32), xs, refl)
view (vec_float64 xs) = ((many f64), xs, refl)

-- To prove a property of all data, prove it of the data made from each list of cells.
pub by_view {ℓ} :
    (P : FieldData → Type ℓ)
    → ((c : CellType) (xs : List (Cell c)) → P (of_cells c xs))
    → (d : FieldData) → P d
by_view P h d = let (c, xs, e) = view d in subst P (sym e) (h c xs)

pub go-of_cells {ℓ} :
    {B : Type ℓ} (c : CellType) (xs : List (Cell c)) (f : (c : CellType) → List (Cell c) → B)
    → typed_field_data_go (of_cells c xs) f ≡ f c xs
go-of_cells (single u8) xs f = refl
go-of_cells (single u16) xs f = refl
go-of_cells (single u32) xs f = refl
go-of_cells (single u64) xs f = refl
go-of_cells (single i8) xs f = refl
go-of_cells (single i16) xs f = refl
go-of_cells (single i32) xs f = refl
go-of_cells (single i64) xs f = refl
go-of_cells (single f32) xs f = refl
go-of_cells (single f64) xs f = refl
go-of_cells (many u8) xs f = refl
go-of_cells (many u16) xs f = refl
go-of_cells (many u32) xs f = refl
go-of_cells (many u64) xs f = refl
go-of_cells (many i8) xs f = refl
go-of_cells (many i16) xs f = refl
go-of_cells (many i32) xs f = refl
go-of_cells (many i64) xs f = refl
go-of_cells (many f32) xs f = refl
go-of_cells (many f64) xs f = refl

pub cmp-of_cells {ℓ} :
    {B : Type ℓ} (c : CellType) (xs ys : List (Cell c))
    (same : (c : CellType) → List (Cell c) → List (Cell c) → B) (other : B)
    → typed_field_data_cmp (of_cells c xs) (of_cells c ys) same other ≡ same c xs ys
cmp-of_cells (single u8) xs ys same other = refl
cmp-of_cells (single u16) xs ys same other = refl
cmp-of_cells (single u32) xs ys same other = refl
cmp-of_cells (single u64) xs ys same other = refl
cmp-of_cells (single i8) xs ys same other = refl
cmp-of_cells (single i16) xs ys same other = refl
cmp-of_cells (single i32) xs ys same other = refl
cmp-of_cells (single i64) xs ys same other = refl
cmp-of_cells (single f32) xs ys same other = refl
cmp-of_cells (single f64) xs ys same other = refl
cmp-of_cells (many u8) xs ys same other = refl
cmp-of_cells (many u16) xs ys same other = refl
cmp-of_cells (many u32) xs ys same other = refl
cmp-of_cells (many u64) xs ys same other = refl
cmp-of_cells (many i8) xs ys same other = refl
cmp-of_cells (many i16) xs ys same other = refl
cmp-of_cells (many i32) xs ys same other = refl
cmp-of_cells (many i64) xs ys same other = refl
cmp-of_cells (many f32) xs ys same other = refl
cmp-of_cells (many f64) xs ys same other = refl

pub cell_cmp-IsTotal : (fl : FloatOrder) (c : CellType) → IsTotal (cell_cmp fl c)
unfolding cell_cmp
cell_cmp-IsTotal fl (single t) = bits_cmp-IsTotal fl t
cell_cmp-IsTotal fl (many t) = slice_cmp-IsTotal (bits_cmp fl t) (bits_cmp-IsTotal fl t)

pub cell_eq_iff : (c : CellType) (a b : Cell c) → (cell_eq c a b ≡ true) ↔ (a ≡ b)
unfolding cell_eq
cell_eq_iff (single t) = bits_eq_iff t
cell_eq_iff (many t) = slice_eq_iff (bits_eq t) (bits_eq_iff t)

pub of_cells_inj : (c : CellType) (xs ys : List (Cell c)) → of_cells c xs ≡ of_cells c ys → xs ≡ ys
of_cells_inj (single u8) xs ys e = cc (e)
of_cells_inj (single u16) xs ys e = cc (e)
of_cells_inj (single u32) xs ys e = cc (e)
of_cells_inj (single u64) xs ys e = cc (e)
of_cells_inj (single i8) xs ys e = cc (e)
of_cells_inj (single i16) xs ys e = cc (e)
of_cells_inj (single i32) xs ys e = cc (e)
of_cells_inj (single i64) xs ys e = cc (e)
of_cells_inj (single f32) xs ys e = cc (e)
of_cells_inj (single f64) xs ys e = cc (e)
of_cells_inj (many u8) xs ys e = cc (e)
of_cells_inj (many u16) xs ys e = cc (e)
of_cells_inj (many u32) xs ys e = cc (e)
of_cells_inj (many u64) xs ys e = cc (e)
of_cells_inj (many i8) xs ys e = cc (e)
of_cells_inj (many i16) xs ys e = cc (e)
of_cells_inj (many i32) xs ys e = cc (e)
of_cells_inj (many i64) xs ys e = cc (e)
of_cells_inj (many f32) xs ys e = cc (e)
of_cells_inj (many f64) xs ys e = cc (e)
