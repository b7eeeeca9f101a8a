-- ===== src/Range/Multi.antt =====
-- tiledb/common/src/range.rs: `MultiValueRange`. A boxed slice is a list.
pub mod Rank
pub mod Fold
pub mod Count
pub mod Hull
use tiledb_rs.Base.{
  ℕ, ◌%◌, ◌^◌, ◌≤◌, ◌<◌, ◌≡◌, refl, Bool, true, false, ◌&&◌, Option, none, some, List, [], ◌∷◌,
  length, ◌==◌, if◌then◌else◌, Outcome, done, panic, assert, ◌>>=◌, ◌>>◌, Result, ok, err,
}
use tiledb_rs.Base.Int.{ℤ, pos, ltb_ℤ, eqb_ℤ}
use tiledb_rs.Physical.{
  PhysicalType, u8, u16, u32, u64, i8, i16, i32, i64, f32, f64, Elem, FloatOrder, InRange, bits_eq,
  bits_cmp, bits_lt, bits_gt, bits_le, slice_eq, slice_cmp,
}
use tiledb_rs.Array.{CellValNum, fixed, var}
use tiledb_rs.Range.Integral.{
  Integral, physical, i128_from, i128_add, i128_sub, checked_mul, as_u128, u128_add, min_value,
  max_value,
}
use tiledb_rs.Range.Interval.{intersection}
use tiledb_rs.Range.Interval.Hull.{least, greatest}

pub data MultiValueRange : Type 0 where
  uint8 : List ℕ → List ℕ → MultiValueRange
  uint16 : List ℕ → List ℕ → MultiValueRange
  uint32 : List ℕ → List ℕ → MultiValueRange
  uint64 : List ℕ → List ℕ → MultiValueRange
  int8 : List ℤ → List ℤ → MultiValueRange
  int16 : List ℤ → List ℤ → MultiValueRange
  int32 : List ℤ → List ℤ → MultiValueRange
  int64 : List ℤ → List ℤ → MultiValueRange
  float32 : List ℕ → List ℕ → MultiValueRange
  float64 : List ℕ → List ℕ → MultiValueRange

-- The macro `multi_value_range_go`: `then` at the type of the range's ends.
abbrev pub multi_value_range_go {ℓ} :
    {R : Type ℓ} → MultiValueRange → ((t : PhysicalType) → List (Elem t) → List (Elem t) → R) → R
multi_value_range_go (uint8 start end) go = go u8 start end
multi_value_range_go (uint16 start end) go = go u16 start end
multi_value_range_go (uint32 start end) go = go u32 start end
multi_value_range_go (uint64 start end) go = go u64 start end
multi_value_range_go (int8 start end) go = go i8 start end
multi_value_range_go (int16 start end) go = go i16 start end
multi_value_range_go (int32 start end) go = go i32 start end
multi_value_range_go (int64 start end) go = go i64 start end
multi_value_range_go (float32 start end) go = go f32 start end
multi_value_range_go (float64 start end) go = go f64 start end

-- The macro with its two branches, for integral types and for floats.
abbrev pub multi_value_range_go_integral {ℓ} :
    {R : Type ℓ}
    → MultiValueRange
    → ((t : Integral) → List (Elem (physical t)) → List (Elem (physical t)) → R)
    → R
    → R
multi_value_range_go_integral (uint8 start end) integral other = integral Integral.u8 start end
multi_value_range_go_integral (uint16 start end) integral other = integral Integral.u16 start end
multi_value_range_go_integral (uint32 start end) integral other = integral Integral.u32 start end
multi_value_range_go_integral (uint64 start end) integral other = integral Integral.u64 start end
multi_value_range_go_integral (int8 start end) integral other = integral Integral.i8 start end
multi_value_range_go_integral (int16 start end) integral other = integral Integral.i16 start end
multi_value_range_go_integral (int32 start end) integral other = integral Integral.i32 start end
multi_value_range_go_integral (int64 start end) integral other = integral Integral.i64 start end
multi_value_range_go_integral (float32 start end) integral other = other
multi_value_range_go_integral (float64 start end) integral other = other

-- The macro `multi_value_range_cmp` on two ranges: `then` where both have ends of one type, and otherwise
-- `other`.
abbrev pub multi_value_range_cmp {ℓ} :
    {R : Type ℓ}
    → MultiValueRange
    → MultiValueRange
    → ((t : PhysicalType) → List (Elem t) → List (Elem t) → List (Elem t) → List (Elem t) → R)
    → R
    → R
multi_value_range_cmp (uint8 lstart lend) (uint8 rstart rend) go other =
    go u8 lstart lend rstart rend
multi_value_range_cmp (uint16 lstart lend) (uint16 rstart rend) go other =
    go u16 lstart lend rstart rend
multi_value_range_cmp (uint32 lstart lend) (uint32 rstart rend) go other =
    go u32 lstart lend rstart rend
multi_value_range_cmp (uint64 lstart lend) (uint64 rstart rend) go other =
    go u64 lstart lend rstart rend
multi_value_range_cmp (int8 lstart lend) (int8 rstart rend) go other = go i8 lstart lend rstart rend
multi_value_range_cmp (int16 lstart lend) (int16 rstart rend) go other =
    go i16 lstart lend rstart rend
multi_value_range_cmp (int32 lstart lend) (int32 rstart rend) go other =
    go i32 lstart lend rstart rend
multi_value_range_cmp (int64 lstart lend) (int64 rstart rend) go other =
    go i64 lstart lend rstart rend
multi_value_range_cmp (float32 lstart lend) (float32 rstart rend) go other =
    go f32 lstart lend rstart rend
multi_value_range_cmp (float64 lstart lend) (float64 rstart rend) go other =
    go f64 lstart lend rstart rend
multi_value_range_cmp _ _ go other = other

abbrev pub of_slices : (t : PhysicalType) → List (Elem t) → List (Elem t) → MultiValueRange
of_slices u8 start end = uint8 start end
of_slices u16 start end = uint16 start end
of_slices u32 start end = uint32 start end
of_slices u64 start end = uint64 start end
of_slices i8 start end = int8 start end
of_slices i16 start end = int16 start end
of_slices i32 start end = int32 start end
of_slices i64 start end = int64 start end
of_slices f32 start end = float32 start end
of_slices f64 start end = float64 start end

unfoldable pub num_values : MultiValueRange → ℕ
num_values self = multi_value_range_go self (λ t start end. length start)

-- `iter_factor`: the number of values of the type.
unfoldable pub iter_factor : Integral → Outcome ℤ
unfolding i128_sub i128_add
iter_factor t = do
  span ← i128_sub (i128_from t (max_value t)) (i128_from t (min_value t))
  i128_add span (pos 1)

-- `start.iter().zip(end.iter())`.
abbrev pub zip {ℓ} : {A : Type ℓ} → List A → List A → List (A × A)
zip (x ∷ xs) (y ∷ ys) = (x, y) ∷ zip xs ys
zip _ _ = []

-- `skip_while(|(lb, ub)| lb == ub)`.
unfoldable pub skip_equal : (t : PhysicalType) → List (Elem t × Elem t) → List (Elem t × Elem t)
skip_equal t [] = []
skip_equal t ((lb, ub) ∷ rest) = if bits_eq t lb ub then skip_equal t rest else (lb, ub) ∷ rest

-- `Some(num_cells + delta)` of one round.
unfoldable pub advance : (t : Integral) → ℤ → Elem (physical t) → Elem (physical t) → Outcome ℤ
unfolding i128_sub i128_add
advance t scaled lower upper = do
  delta ← i128_sub (i128_from t upper) (i128_from t lower)
  i128_add scaled delta

-- The `try_fold`. `panic` is its `unreachable!`, or an overflow of the sum.
unfoldable pub fold_cells :
    (t : Integral) → ℤ → ℤ → List (Elem (physical t) × Elem (physical t)) → Outcome (Option ℤ)
fold_cells t factor cells [] = done (some cells)
fold_cells t factor cells ((lower, upper) ∷ rest) =
    if ltb_ℤ (i128_from t upper) (i128_from t lower) && eqb_ℤ cells (pos 0)
    then panic
    else elim (checked_mul cells factor) [
      | none ↦ done none
      | some scaled ↦ do next ← advance t scaled lower upper; fold_cells t factor next rest
    ]

-- `.map(|n| n as u128 + 1)`.
abbrev pub count : Option ℤ → Outcome (Option ℕ)
count none = done none
count (some n) = do cells ← u128_add (as_u128 n) 1; done (some cells)

unfoldable pub num_cells : MultiValueRange → Outcome (Option ℕ)
num_cells self =
    multi_value_range_go_integral self
      (λ t start end. do
        factor ← iter_factor t
        cells ← fold_cells t factor (pos 0) (skip_equal (physical t) (zip start end))
        count cells)
      (done none)

-- `CellValNum::Fixed(NonZeroU32::new(self.num_values() as u32).unwrap())`.
unfoldable pub cell_val_num : MultiValueRange → Outcome CellValNum
cell_val_num self = let n = num_values self % 2 ^ 32 in if n == 0 then panic else done (fixed n)

-- `MultiValueRangeError`.
pub data MultiValueRangeError : Type 0 where
  cell_val_num_single cell_val_num_var : MultiValueRangeError
  invalid_start_range invalid_end_range : ℕ → ℕ → MultiValueRangeError

-- `impl TryFrom<(CellValNum, Box<[T]>, Box<[T]>)>`, for each type `T`. The lengths are compared as
-- `u32`.
unfoldable pub try_from :
    (t : PhysicalType)
    → CellValNum
    → List (Elem t)
    → List (Elem t)
    → Result MultiValueRangeError MultiValueRange
try_from t (fixed cvn) start end =
    if cvn == 1
    then err cell_val_num_single
    else if (length start % 2 ^ 32) == cvn
    then (if (length end % 2 ^ 32) == cvn
        then ok (of_slices t start end)
        else err (invalid_end_range cvn (length end)))
    else err (invalid_start_range cvn (length start))
try_from t var start end = err cell_val_num_var

abbrev pub unwrap {ℓ κ} : {E : Type ℓ} {A : Type κ} → Result E A → Outcome A
unwrap (ok a) = done a
unwrap (err e) = panic

module _ (fl : FloatOrder) where
  unfoldable pub union : MultiValueRange → MultiValueRange → Outcome MultiValueRange
  union self other = do
    assert (num_values self == num_values other)
    multi_value_range_cmp self other
        (λ t lstart lend rstart rend. do
          let min = least (slice_cmp (bits_cmp fl t)) lstart rstart
          let max = greatest (slice_cmp (bits_cmp fl t)) lend rend
          cvn ← cell_val_num self
          unwrap (try_from t cvn min max))
        panic

  -- What the method `intersection` does with the result of the function `intersection`.
  unfoldable pub rebuild :
      (t : PhysicalType)
      → MultiValueRange
      → Option (List (Elem t) × List (Elem t))
      → Outcome (Option MultiValueRange)
  rebuild t self none = done none
  rebuild t self (some (lower, upper)) = do
    cvn ← cell_val_num self
    range ← unwrap (try_from t cvn lower upper)
    done (some range)

  unfoldable pub intersect : MultiValueRange → MultiValueRange → Outcome (Option MultiValueRange)
  intersect self other = do
    assert (num_values self == num_values other)
    multi_value_range_cmp self other
        (λ t lstart lend rstart rend. do
          common ← intersection (slice_cmp (bits_cmp fl t)) lstart lend rstart rend
          rebuild t self common)
        panic

-- `PartialEq::eq`.
unfoldable pub eq_range : MultiValueRange → MultiValueRange → Bool
eq_range self other =
    multi_value_range_cmp self other
      (λ t lstart lend rstart rend.
        slice_eq (bits_eq t) lstart rstart && slice_eq (bits_eq t) lend rend)
      false

pub cmp-of_slices {ℓ} :
    {R : Type ℓ} (t : PhysicalType) (a b c d : List (Elem t))
    (f : (t : PhysicalType) → List (Elem t) → List (Elem t) → List (Elem t) → List (Elem t) → R)
    (other : R)
    → multi_value_range_cmp (of_slices t a b) (of_slices t c d) f other ≡ f t a b c d
cmp-of_slices u8 a b c d f other = refl
cmp-of_slices u16 a b c d f other = refl
cmp-of_slices u32 a b c d f other = refl
cmp-of_slices u64 a b c d f other = refl
cmp-of_slices i8 a b c d f other = refl
cmp-of_slices i16 a b c d f other = refl
cmp-of_slices i32 a b c d f other = refl
cmp-of_slices i64 a b c d f other = refl
cmp-of_slices f32 a b c d f other = refl
cmp-of_slices f64 a b c d f other = refl
