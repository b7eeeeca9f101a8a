-- ===== src/Range/Var.antt =====
-- tiledb/common/src/range.rs: `VarValueRange`. A boxed slice is a list, a text the list of its
-- bytes.
pub mod Hull
use tiledb_rs.Base.{
  ℕ, ◌≡◌, refl, Bool, true, false, ◌&&◌, Option, none, some, List, Outcome, done, panic, ◌>>=◌,
}
use tiledb_rs.Base.Int.{ℤ}
use tiledb_rs.Physical.{
  PhysicalType, u8, u16, u32, u64, i8, i16, i32, i64, f32, f64, Elem, FloatOrder, InRange, bits_eq,
  bits_cmp, bits_lt, bits_gt, bits_le, slice_eq, slice_cmp,
}
use tiledb_rs.Array.{CellValNum, var}
use tiledb_rs.Range.Interval.{intersection}
use tiledb_rs.Range.Interval.Hull.{least, greatest}

pub data VarValueRange : Type 0 where
  uint8 : List ℕ → List ℕ → VarValueRange
  uint16 : List ℕ → List ℕ → VarValueRange
  uint32 : List ℕ → List ℕ → VarValueRange
  uint64 : List ℕ → List ℕ → VarValueRange
  int8 : List ℤ → List ℤ → VarValueRange
  int16 : List ℤ → List ℤ → VarValueRange
  int32 : List ℤ → List ℤ → VarValueRange
  int64 : List ℤ → List ℤ → VarValueRange
  float32 : List ℕ → List ℕ → VarValueRange
  float64 : List ℕ → List ℕ → VarValueRange

-- The macro `var_value_range_go`: `then` at the type of the range's ends.
abbrev pub var_value_range_go {ℓ} :
    {R : Type ℓ} → VarValueRange → ((t : PhysicalType) → List (Elem t) → List (Elem t) → R) → R
var_value_range_go (uint8 start end) go = go u8 start end
var_value_range_go (uint16 start end) go = go u16 start end
var_value_range_go (uint32 start end) go = go u32 start end
var_value_range_go (uint64 start end) go = go u64 start end
var_value_range_go (int8 start end) go = go i8 start end
var_value_range_go (int16 start end) go = go i16 start end
var_value_range_go (int32 start end) go = go i32 start end
var_value_range_go (int64 start end) go = go i64 start end
var_value_range_go (float32 start end) go = go f32 start end
var_value_range_go (float64 start end) go = go f64 start end

-- The macro `var_value_range_cmp` on two ranges: `then` where both have ends of one type, and otherwise
-- `other`.
abbrev pub var_value_range_cmp {ℓ} :
    {R : Type ℓ}
    → VarValueRange
    → VarValueRange
    → ((t : PhysicalType) → List (Elem t) → List (Elem t) → List (Elem t) → List (Elem t) → R)
    → R
    → R
var_value_range_cmp (uint8 lstart lend) (uint8 rstart rend) go other = go u8 lstart lend rstart rend
var_value_range_cmp (uint16 lstart lend) (uint16 rstart rend) go other =
    go u16 lstart lend rstart rend
var_value_range_cmp (uint32 lstart lend) (uint32 rstart rend) go other =
    go u32 lstart lend rstart rend
var_value_range_cmp (uint64 lstart lend) (uint64 rstart rend) go other =
    go u64 lstart lend rstart rend
var_value_range_cmp (int8 lstart lend) (int8 rstart rend) go other = go i8 lstart lend rstart rend
var_value_range_cmp (int16 lstart lend) (int16 rstart rend) go other =
    go i16 lstart lend rstart rend
var_value_range_cmp (int32 lstart lend) (int32 rstart rend) go other =
    go i32 lstart lend rstart rend
var_value_range_cmp (int64 lstart lend) (int64 rstart rend) go other =
    go i64 lstart lend rstart rend
var_value_range_cmp (float32 lstart lend) (float32 rstart rend) go other =
    go f32 lstart lend rstart rend
var_value_range_cmp (float64 lstart lend) (float64 rstart rend) go other =
    go f64 lstart lend rstart rend
var_value_range_cmp _ _ go other = other

-- `impl From<(Box<[T]>, Box<[T]>)>`, for each type `T`.
abbrev pub of_slices : (t : PhysicalType) → List (Elem t) → List (Elem t) → VarValueRange
of_slices u8 start end = uint8 start end
of_slices u16 start end = uint16 start end
of_slices u32 start end = uint32 start end
of_slices u64 start end = uint64 start end
of_slices i8 start end = int8 start end
of_slices i16 start end = int16 start end
of_slices i32 start end = int32 start end
of_slices i64 start end = int64 start end
of_slices f32 start end = float32 start end
of_slices f64 start end = float64 start end

-- `impl From<(&str, &str)>`, and the other three for texts.
abbrev pub of_texts : List ℕ → List ℕ → VarValueRange
of_texts start end = uint8 start end

abbrev pub cell_val_num : VarValueRange → CellValNum
cell_val_num self = var

-- The rebuilding of a range from the ends that `intersection` returns.
abbrev pub of_ends :
    (t : PhysicalType) → Option (List (Elem t) × List (Elem t)) → Option VarValueRange
of_ends t none = none
of_ends t (some (lower, upper)) = some (of_slices t lower upper)

module _ (fl : FloatOrder) where
  unfoldable pub union : VarValueRange → VarValueRange → Outcome VarValueRange
  union self other =
      var_value_range_cmp self other
        (λ t lstart lend rstart rend. done (
          of_slices t (least (slice_cmp (bits_cmp fl t)) lstart rstart)
            (greatest (slice_cmp (bits_cmp fl t)) lend rend)))
        panic

  unfoldable pub intersect : VarValueRange → VarValueRange → Outcome (Option VarValueRange)
  intersect self other =
      var_value_range_cmp self other
        (λ t lstart lend rstart rend. do
          common ← intersection (slice_cmp (bits_cmp fl t)) lstart lend rstart rend
          done (of_ends t common))
        panic

-- `PartialEq::eq`.
unfoldable pub eq_range : VarValueRange → VarValueRange → Bool
eq_range self other =
    var_value_range_cmp self other
      (λ t lstart lend rstart rend.
        slice_eq (bits_eq t) lstart rstart && slice_eq (bits_eq t) lend rend)
      false

pub cmp-of_slices {ℓ} :
    {R : Type ℓ} (t : PhysicalType) (a b c d : List (Elem t))
    (f : (t : PhysicalType) → List (Elem t) → List (Elem t) → List (Elem t) → List (Elem t) → R)
    (other : R)
    → var_value_range_cmp (of_slices t a b) (of_slices t c d) f other ≡ f t a b c d
cmp-of_slices u8 a b c d f other = refl
cmp-of_slices u16 a b c d f other = refl
cmp-of_slices u32 a b c d f other = refl
cmp-of_slices u64 a b c d f other = refl
cmp-of_slices i8 a b c d f other = refl
cmp-of_slices i16 a b c d f other = refl
cmp-of_slices i32 a b c d f other = refl
cmp-of_slices i64 a b c d f other = refl
cmp-of_slices f32 a b c d f other = refl
cmp-of_slices f64 a b c d f other = refl
