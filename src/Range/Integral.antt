-- ===== src/Range/Integral.antt =====
-- The integers of the Rust code that are wider than a cell's values: `i128` and `u128`. An operation
-- that overflows panics, as in a build with overflow checks.
-- Also the types that the macros of tiledb/common/src/range.rs call `Integral`.
use tiledb_rs.Base.{
  ℕ, suc, ◌+◌, ◌-◌, ◌^◌, Bool, Option, none, some, ltb, if◌then◌else◌, Outcome, done, panic, ◌>>=◌,
}
use tiledb_rs.Base.Int.{ℤ, pos, negsuc, ◌+ℤ◌, ◌-ℤ◌, ◌*ℤ◌}
use tiledb_rs.Physical.{PhysicalType, Elem}

abbrev pub fits_i128 : ℤ → Bool
fits_i128 (pos n) = ltb n (2 ^ 127)
fits_i128 (negsuc n) = ltb n (2 ^ 127)

unfoldable pub i128_add : ℤ → ℤ → Outcome ℤ
i128_add a b = let sum = a +ℤ b in if fits_i128 sum then done sum else panic

unfoldable pub i128_sub : ℤ → ℤ → Outcome ℤ
i128_sub a b = let difference = a -ℤ b in if fits_i128 difference then done difference else panic

-- `i128::checked_mul`.
unfoldable pub checked_mul : ℤ → ℤ → Option ℤ
checked_mul a b = let product = a *ℤ b in if fits_i128 product then some product else none

-- `as u128`: two's complement.
abbrev pub as_u128 : ℤ → ℕ
as_u128 (pos n) = n
as_u128 (negsuc n) = 2 ^ 128 - suc n

unfoldable pub u128_add : ℕ → ℕ → Outcome ℕ
u128_add a b = if ltb (a + b) (2 ^ 128) then done (a + b) else panic

-- `Some(1 + (high - low) as u128)`, the count in `num_cells` of a single-value range and of a
-- dimension's constraints.
unfoldable pub span_cells : ℤ → ℤ → Outcome (Option ℕ)
unfolding i128_sub u128_add
span_cells low high = do
  span ← i128_sub high low
  cells ← u128_add 1 (as_u128 span)
  done (some cells)

-- The physical types for which the macros take their `Integral` branch.
pub data Integral : Type 0 where
  u8 u16 u32 u64 i8 i16 i32 i64 : Integral

abbrev pub physical : Integral → PhysicalType
physical Integral.u8 = PhysicalType.u8
physical Integral.u16 = PhysicalType.u16
physical Integral.u32 = PhysicalType.u32
physical Integral.u64 = PhysicalType.u64
physical Integral.i8 = PhysicalType.i8
physical Integral.i16 = PhysicalType.i16
physical Integral.i32 = PhysicalType.i32
physical Integral.i64 = PhysicalType.i64

-- `i128::from`.
abbrev pub i128_from : (t : Integral) → Elem (physical t) → ℤ
i128_from Integral.u8 x = pos x
i128_from Integral.u16 x = pos x
i128_from Integral.u32 x = pos x
i128_from Integral.u64 x = pos x
i128_from Integral.i8 x = x
i128_from Integral.i16 x = x
i128_from Integral.i32 x = x
i128_from Integral.i64 x = x

-- `DT::MIN` and `DT::MAX`.
abbrev pub min_value : (t : Integral) → Elem (physical t)
min_value Integral.u8 = 0
min_value Integral.u16 = 0
min_value Integral.u32 = 0
min_value Integral.u64 = 0
min_value Integral.i8 = negsuc (2 ^ 7 - 1)
min_value Integral.i16 = negsuc (2 ^ 15 - 1)
min_value Integral.i32 = negsuc (2 ^ 31 - 1)
min_value Integral.i64 = negsuc (2 ^ 63 - 1)

abbrev pub max_value : (t : Integral) → Elem (physical t)
max_value Integral.u8 = 2 ^ 8 - 1
max_value Integral.u16 = 2 ^ 16 - 1
max_value Integral.u32 = 2 ^ 32 - 1
max_value Integral.u64 = 2 ^ 64 - 1
max_value Integral.i8 = pos (2 ^ 7 - 1)
max_value Integral.i16 = pos (2 ^ 15 - 1)
max_value Integral.i32 = pos (2 ^ 31 - 1)
max_value Integral.i64 = pos (2 ^ 63 - 1)
