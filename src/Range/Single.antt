-- ===== src/Range/Single.antt =====
-- tiledb/common/src/range.rs: `SingleValueRange`.
pub mod Count
pub mod Hull
use tiledb_rs.Base.{
  ℕ, ◌≡◌, refl, Ordering, Bool, true, false, ◌&&◌, Option, none, some, if◌then◌else◌, Outcome, done,
  panic, ◌>>=◌,
}
use tiledb_rs.Base.Int.{ℤ}
use tiledb_rs.Physical.{
  PhysicalType, u8, u16, u32, u64, i8, i16, i32, i64, f32, f64, Elem, FloatOrder, InRange, bits_eq,
  bits_cmp, bits_lt, bits_gt, bits_le, slice_eq, slice_cmp,
}
use tiledb_rs.Array.{CellValNum, single}
use tiledb_rs.Range.Integral.{Integral, physical, i128_from, span_cells}
use tiledb_rs.Range.Interval.{intersection}
use tiledb_rs.Range.Interval.Hull.{min_by, max_by}

pub data SingleValueRange : Type 0 where
  uint8 : ℕ → ℕ → SingleValueRange
  uint16 : ℕ → ℕ → SingleValueRange
  uint32 : ℕ → ℕ → SingleValueRange
  uint64 : ℕ → ℕ → SingleValueRange
  int8 : ℤ → ℤ → SingleValueRange
  int16 : ℤ → ℤ → SingleValueRange
  int32 : ℤ → ℤ → SingleValueRange
  int64 : ℤ → ℤ → SingleValueRange
  float32 : ℕ → ℕ → SingleValueRange
  float64 : ℕ → ℕ → SingleValueRange

-- The macro `single_value_range_go`: `then` at the type of the range's ends.
abbrev pub single_value_range_go {ℓ} :
    {R : Type ℓ} → SingleValueRange → ((t : PhysicalType) → Elem t → Elem t → R) → R
single_value_range_go (uint8 start end) go = go u8 start end
single_value_range_go (uint16 start end) go = go u16 start end
single_value_range_go (uint32 start end) go = go u32 start end
single_value_range_go (uint64 start end) go = go u64 start end
single_value_range_go (int8 start end) go = go i8 start end
single_value_range_go (int16 start end) go = go i16 start end
single_value_range_go (int32 start end) go = go i32 start end
single_value_range_go (int64 start end) go = go i64 start end
single_value_range_go (float32 start end) go = go f32 start end
single_value_range_go (float64 start end) go = go f64 start end

-- The macro with its two branches, for integral types and for floats.
abbrev pub single_value_range_go_integral {ℓ} :
    {R : Type ℓ}
    → SingleValueRange
    → ((t : Integral) → Elem (physical t) → Elem (physical t) → R)
    → R
    → R
single_value_range_go_integral (uint8 start end) integral other = integral Integral.u8 start end
single_value_range_go_integral (uint16 start end) integral other = integral Integral.u16 start end
single_value_range_go_integral (uint32 start end) integral other = integral Integral.u32 start end
single_value_range_go_integral (uint64 start end) integral other = integral Integral.u64 start end
single_value_range_go_integral (int8 start end) integral other = integral Integral.i8 start end
single_value_range_go_integral (int16 start end) integral other = integral Integral.i16 start end
single_value_range_go_integral (int32 start end) integral other = integral Integral.i32 start end
single_value_range_go_integral (int64 start end) integral other = integral Integral.i64 start end
single_value_range_go_integral (float32 start end) integral other = other
single_value_range_go_integral (float64 start end) integral other = other

-- The macro `single_value_range_cmp` on two ranges: `then` where both have ends of one type, and otherwise
-- `other`.
abbrev pub single_value_range_cmp {ℓ} :
    {R : Type ℓ}
    → SingleValueRange
    → SingleValueRange
    → ((t : PhysicalType) → Elem t → Elem t → Elem t → Elem t → R)
    → R
    → R
single_value_range_cmp (uint8 lstart lend) (uint8 rstart rend) go other =
    go u8 lstart lend rstart rend
single_value_range_cmp (uint16 lstart lend) (uint16 rstart rend) go other =
    go u16 lstart lend rstart rend
single_value_range_cmp (uint32 lstart lend) (uint32 rstart rend) go other =
    go u32 lstart lend rstart rend
single_value_range_cmp (uint64 lstart lend) (uint64 rstart rend) go other =
    go u64 lstart lend rstart rend
single_value_range_cmp (int8 lstart lend) (int8 rstart rend) go other =
    go i8 lstart lend rstart rend
single_value_range_cmp (int16 lstart lend) (int16 rstart rend) go other =
    go i16 lstart lend rstart rend
single_value_range_cmp (int32 lstart lend) (int32 rstart rend) go other =
    go i32 lstart lend rstart rend
single_value_range_cmp (int64 lstart lend) (int64 rstart rend) go other =
    go i64 lstart lend rstart rend
single_value_range_cmp (float32 lstart lend) (float32 rstart rend) go other =
    go f32 lstart lend rstart rend
single_value_range_cmp (float64 lstart lend) (float64 rstart rend) go other =
    go f64 lstart lend rstart rend
single_value_range_cmp _ _ go other = other

-- `impl From<&[T; 2]>`, for each type `T`.
abbrev pub of_pair : (t : PhysicalType) → Elem t → Elem t → SingleValueRange
of_pair u8 low high = uint8 low high
of_pair u16 low high = uint16 low high
of_pair u32 low high = uint32 low high
of_pair u64 low high = uint64 low high
of_pair i8 low high = int8 low high
of_pair i16 low high = int16 low high
of_pair i32 low high = int32 low high
of_pair i64 low high = int64 low high
of_pair f32 low high = float32 low high
of_pair f64 low high = float64 low high

-- The rebuilding of a range from the ends that `intersection` returns.
abbrev pub of_ends : (t : PhysicalType) → Option (Elem t × Elem t) → Option SingleValueRange
of_ends t none = none
of_ends t (some (lower, upper)) = some (of_pair t lower upper)

unfoldable pub num_cells : SingleValueRange → Outcome (Option ℕ)
unfolding span_cells
num_cells self =
    single_value_range_go_integral self
      (λ t start end. span_cells (i128_from t start) (i128_from t end)) (done none)

abbrev pub cell_val_num : SingleValueRange → CellValNum
cell_val_num self = single

abbrev pub is_integral : SingleValueRange → Bool
is_integral self = single_value_range_go_integral self (λ t start end. true) false

module _ (fl : FloatOrder) where
  unfoldable pub union : SingleValueRange → SingleValueRange → Outcome SingleValueRange
  union self other =
      single_value_range_cmp self other
        (λ t lstart lend rstart rend.
          done
            (of_pair t (min_by (bits_cmp fl t) lstart rstart) (max_by (bits_cmp fl t) lend rend)))
        panic

  -- The method `intersection`.
  unfoldable pub intersect : SingleValueRange → SingleValueRange → Outcome (Option SingleValueRange)
  unfolding intersection
  intersect self other =
      single_value_range_cmp self other
        (λ t lstart lend rstart rend. do
          common ← intersection (bits_cmp fl t) lstart lend rstart rend
          done (of_ends t common))
        panic

-- `PartialEq::eq`.
unfoldable pub eq_range : SingleValueRange → SingleValueRange → Bool
eq_range self other =
    single_value_range_cmp self other
      (λ t lstart lend rstart rend. bits_eq t lstart rstart && bits_eq t lend rend) false

pub go-of_pair {ℓ} :
    {R : Type ℓ} (t : PhysicalType) (low high : Elem t)
    (f : (t : PhysicalType) → Elem t → Elem t → R)
    → single_value_range_go (of_pair t low high) f ≡ f t low high
go-of_pair u8 low high f = refl
go-of_pair u16 low high f = refl
go-of_pair u32 low high f = refl
go-of_pair u64 low high f = refl
go-of_pair i8 low high f = refl
go-of_pair i16 low high f = refl
go-of_pair i32 low high f = refl
go-of_pair i64 low high f = refl
go-of_pair f32 low high f = refl
go-of_pair f64 low high f = refl

pub cmp-of_pair {ℓ} :
    {R : Type ℓ} (t : PhysicalType) (a b c d : Elem t)
    (f : (t : PhysicalType) → Elem t → Elem t → Elem t → Elem t → R) (other : R)
    → single_value_range_cmp (of_pair t a b) (of_pair t c d) f other ≡ f t a b c d
cmp-of_pair u8 a b c d f other = refl
cmp-of_pair u16 a b c d f other = refl
cmp-of_pair u32 a b c d f other = refl
cmp-of_pair u64 a b c d f other = refl
cmp-of_pair i8 a b c d f other = refl
cmp-of_pair i16 a b c d f other = refl
cmp-of_pair i32 a b c d f other = refl
cmp-of_pair i64 a b c d f other = refl
cmp-of_pair f32 a b c d f other = refl
cmp-of_pair f64 a b c d f other = refl
