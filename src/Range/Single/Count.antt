-- ===== src/Range/Single/Count.antt =====
-- The number of cells of a single-value range.
use tiledb_rs.Base.{
  ℕ, ◌+◌, ◌-◌, ◌^◌, ◌≡◌, ◌∙◌, refl, none, some, arith, done, panic, if◌then◌else◌, ◌==◌,
}
use tiledb_rs.Base.Int.{ℤ, pos, negsuc, pos_part, neg_part, ◌+ℤ◌, ◌-ℤ◌, ◌≤ℤ◌, ◌<ℤ◌, int_laws}
use tiledb_rs.Physical.{f32, f64, Elem, InRange}
use tiledb_rs.Range.Integral.{Integral, physical, i128_from, span_cells}
use tiledb_rs.Range.Single.{of_pair, num_cells}

-- The value is one of a 64-bit type, signed or unsigned.
abbrev pub IsNarrow : ℤ → Type 0
IsNarrow x = (negsuc (2 ^ 63 - 1) ≤ℤ x) × (x <ℤ pos (2 ^ 64))

pub InRange-IsNarrow :
    (t : Integral) (x : Elem (physical t)) → InRange (physical t) x → IsNarrow (i128_from t x)
InRange-IsNarrow Integral.u8 x h = omega arith
InRange-IsNarrow Integral.u16 x h = omega arith
InRange-IsNarrow Integral.u32 x h = omega arith
InRange-IsNarrow Integral.u64 x h = omega arith
InRange-IsNarrow Integral.i8 x h = omega arith
InRange-IsNarrow Integral.i16 x h = omega arith
InRange-IsNarrow Integral.i32 x h = omega arith
InRange-IsNarrow Integral.i64 x h = omega arith

-- How far `low` is above `high`, as a natural number.
abbrev pub excess : ℤ → ℤ → ℕ
excess low high = (pos_part low + neg_part high) - (pos_part high + neg_part low)

pub span_cells_ordered :
    (low high : ℤ)
    → IsNarrow low
    → IsNarrow high
    → low ≤ℤ high
    → span_cells low high ≡ done (some (1 + excess high low))
unfolding span_cells ◌-ℤ◌
span_cells_ordered low high p q h = ground arith

pub span_cells_reversed :
    (low high : ℤ)
    → IsNarrow low
    → IsNarrow high
    → high <ℤ low
    → span_cells low high
      ≡ (if excess low high == 1 then panic else done (some (2 ^ 128 + 1 - excess low high)))
unfolding span_cells ◌-ℤ◌
span_cells_reversed low high p q h = ground arith

num_cells-of_pair :
    (t : Integral) (low high : Elem (physical t))
    → num_cells (of_pair (physical t) low high) ≡ span_cells (i128_from t low) (i128_from t high)
unfolding num_cells
num_cells-of_pair Integral.u8 low high = refl
num_cells-of_pair Integral.u16 low high = refl
num_cells-of_pair Integral.u32 low high = refl
num_cells-of_pair Integral.u64 low high = refl
num_cells-of_pair Integral.i8 low high = refl
num_cells-of_pair Integral.i16 low high = refl
num_cells-of_pair Integral.i32 low high = refl
num_cells-of_pair Integral.i64 low high = refl

module _ (t : Integral) (low high : Elem (physical t)) (low_in : InRange (physical t) low)
    (high_in : InRange (physical t) high) where
  -- Between integral ends in order the count never overflows, and is the difference of the ends
  -- plus one.
  pub num_cells_ordered :
      i128_from t low ≤ℤ i128_from t high
      → (n : ℕ) × (num_cells (of_pair (physical t) low high) ≡ done (some n))
        × (pos n +ℤ i128_from t low ≡ i128_from t high +ℤ pos 1)
  num_cells_ordered h = (
    1 + excess (i128_from t high) (i128_from t low),
    num_cells-of_pair t low high
        ∙ span_cells_ordered _ _ (InRange-IsNarrow t low low_in) (InRange-IsNarrow t high high_in)
            h,
    omega int_laws,
  )

  -- Between integral ends in the wrong order the count is no error value: it overflows where the
  -- ends differ by one, and is otherwise 2 ^ 128 + 1 less their difference.
  pub num_cells_reversed :
      i128_from t high <ℤ i128_from t low
      → num_cells (of_pair (physical t) low high) ≡ (
          if excess (i128_from t low) (i128_from t high) == 1
          then panic
          else done (some (2 ^ 128 + 1 - excess (i128_from t low) (i128_from t high))))
  num_cells_reversed h =
      num_cells-of_pair t low high
      ∙ span_cells_reversed _ _ (InRange-IsNarrow t low low_in) (InRange-IsNarrow t high high_in) h

num_cells_float :
    (low high : ℕ)
    → (num_cells (of_pair f32 low high) ≡ done none)
      × (num_cells (of_pair f64 low high) ≡ done none)
unfolding num_cells
num_cells_float low high = (refl, refl)
