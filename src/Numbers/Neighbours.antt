-- ===== src/Numbers/Neighbours.antt =====
-- tiledb/utils/src/numbers.rs: the neighbours of an integer, and the least positive value, against
-- the order of the type.
use tiledb_rs.Base.{◌≡◌, ◌↔◌, arith, Outcome, done, panic}
use tiledb_rs.Base.Int.{pos, ◌≤ℤ◌, ◌<ℤ◌, ◌+ℤ◌, ◌-ℤ◌}
use tiledb_rs.Physical.{Elem, InRange}
use tiledb_rs.Range.Integral.{Integral, physical, i128_from, min_value, max_value}
use tiledb_rs.Numbers.{up, down, next_numeric_value, add_one, sub_one, smallest_positive_value}

-- The result is a value of the type, and is the least value above `x`, or `x` itself where that is
-- the greatest value.
abbrev pub IsSuccessor : (t : Integral) → Elem (physical t) → Outcome (Elem (physical t)) → Type 0
IsSuccessor t x (done y) =
    InRange (physical t) y
    × (i128_from t x ≤ℤ i128_from t y)
    × ((i128_from t y ≡ i128_from t x) ↔ (x ≡ max_value t))
    × ((z : Elem (physical t))
        → InRange (physical t) z
        → i128_from t x <ℤ i128_from t z
        → i128_from t y ≤ℤ i128_from t z)
IsSuccessor t x panic = ⊥

-- The result is a value of the type, and is the greatest value below `x`, or `x` itself where that
-- is the least value.
abbrev pub IsPredecessor : (t : Integral) → Elem (physical t) → Outcome (Elem (physical t)) → Type 0
IsPredecessor t x (done y) =
    InRange (physical t) y
    × (i128_from t y ≤ℤ i128_from t x)
    × ((i128_from t y ≡ i128_from t x) ↔ (x ≡ min_value t))
    × ((z : Elem (physical t))
        → InRange (physical t) z
        → i128_from t z <ℤ i128_from t x
        → i128_from t z ≤ℤ i128_from t y)
IsPredecessor t x panic = ⊥

-- Upwards, `next_numeric_value` never overflows and returns the least value of the type above the
-- given one, or the given one where it is the greatest of its type.
pub next_numeric_value-IsSuccessor :
    (t : Integral) (x : Elem (physical t))
    → InRange (physical t) x
    → IsSuccessor t x (next_numeric_value t x up)
unfolding next_numeric_value add_one ◌+ℤ◌
next_numeric_value-IsSuccessor Integral.u8 x h = ground arith
next_numeric_value-IsSuccessor Integral.u16 x h = ground arith
next_numeric_value-IsSuccessor Integral.u32 x h = ground arith
next_numeric_value-IsSuccessor Integral.u64 x h = ground arith
next_numeric_value-IsSuccessor Integral.i8 x h = ground arith
next_numeric_value-IsSuccessor Integral.i16 x h = ground arith
next_numeric_value-IsSuccessor Integral.i32 x h = ground arith
next_numeric_value-IsSuccessor Integral.i64 x h = ground arith

-- Downwards, `next_numeric_value` never overflows and returns the greatest value of the type below
-- the given one, or the given one where it is the least of its type.
pub next_numeric_value-IsPredecessor :
    (t : Integral) (x : Elem (physical t))
    → InRange (physical t) x
    → IsPredecessor t x (next_numeric_value t x down)
unfolding next_numeric_value sub_one ◌-ℤ◌
next_numeric_value-IsPredecessor Integral.u8 x h = ground arith
next_numeric_value-IsPredecessor Integral.u16 x h = ground arith
next_numeric_value-IsPredecessor Integral.u32 x h = ground arith
next_numeric_value-IsPredecessor Integral.u64 x h = ground arith
next_numeric_value-IsPredecessor Integral.i8 x h = ground arith
next_numeric_value-IsPredecessor Integral.i16 x h = ground arith
next_numeric_value-IsPredecessor Integral.i32 x h = ground arith
next_numeric_value-IsPredecessor Integral.i64 x h = ground arith

-- `smallest_positive_value` is a value of its type, it is positive, and no positive value of the
-- type is below it.
pub smallest_positive_value-least :
    (t : Integral)
    → InRange (physical t) (smallest_positive_value t)
      × (pos 0 <ℤ i128_from t (smallest_positive_value t))
      × ((z : Elem (physical t))
          → pos 0 <ℤ i128_from t z
          → i128_from t (smallest_positive_value t) ≤ℤ i128_from t z)
smallest_positive_value-least Integral.u8 = ground arith
smallest_positive_value-least Integral.u16 = ground arith
smallest_positive_value-least Integral.u32 = ground arith
smallest_positive_value-least Integral.u64 = ground arith
smallest_positive_value-least Integral.i8 = ground arith
smallest_positive_value-least Integral.i16 = ground arith
smallest_positive_value-least Integral.i32 = ground arith
smallest_positive_value-least Integral.i64 = ground arith
