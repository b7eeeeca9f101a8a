-- ===== src/Numbers.antt =====
-- tiledb/utils/src/numbers.rs: the neighbours of an integer in its type. The types `usize` and
-- `isize` are `u64` and `i64` on 64-bit platforms.
pub mod Neighbours
use tiledb_rs.Base.{◌+◌, ◌-◌, ◌^◌, ltb, leb, Bool, if◌then◌else◌, Outcome, done, panic, ℕ}
use tiledb_rs.Base.Int.{ℤ, pos, negsuc, ◌+ℤ◌, ◌-ℤ◌, ltb_ℤ}
use tiledb_rs.Physical.{Elem, bits_eq}
use tiledb_rs.Range.Integral.{Integral, physical, min_value, max_value}

pub data NextDirection : Type 0 where
  up down : NextDirection

-- `matches!(direction, NextDirection::Up)`.
abbrev pub is_up : NextDirection → Bool
is_up up = Bool.true
is_up down = Bool.false

-- The sum and the difference with `One::one()` in an unsigned and in a signed type of so many bits.
-- An overflow panics, as in a build with overflow checks.
abbrev pub unsigned_add_one : ℕ → ℕ → Outcome ℕ
unsigned_add_one bits x = if ltb (x + 1) (2 ^ bits) then done (x + 1) else panic

abbrev pub unsigned_sub_one : ℕ → Outcome ℕ
unsigned_sub_one x = if leb 1 x then done (x - 1) else panic

abbrev pub signed_add_one : ℕ → ℤ → Outcome ℤ
signed_add_one bits x =
    let sum = x +ℤ pos 1 in if ltb_ℤ sum (pos (2 ^ (bits - 1))) then done sum else panic

abbrev pub signed_sub_one : ℕ → ℤ → Outcome ℤ
signed_sub_one bits x =
    let difference = x -ℤ pos 1 in
    if ltb_ℤ difference (negsuc (2 ^ (bits - 1) - 1)) then panic else done difference

-- `self + One::one()` and `self - One::one()`.
unfoldable pub add_one : (t : Integral) → Elem (physical t) → Outcome (Elem (physical t))
add_one Integral.u8 x = unsigned_add_one 8 x
add_one Integral.u16 x = unsigned_add_one 16 x
add_one Integral.u32 x = unsigned_add_one 32 x
add_one Integral.u64 x = unsigned_add_one 64 x
add_one Integral.i8 x = signed_add_one 8 x
add_one Integral.i16 x = signed_add_one 16 x
add_one Integral.i32 x = signed_add_one 32 x
add_one Integral.i64 x = signed_add_one 64 x

unfoldable pub sub_one : (t : Integral) → Elem (physical t) → Outcome (Elem (physical t))
sub_one Integral.u8 x = unsigned_sub_one x
sub_one Integral.u16 x = unsigned_sub_one x
sub_one Integral.u32 x = unsigned_sub_one x
sub_one Integral.u64 x = unsigned_sub_one x
sub_one Integral.i8 x = signed_sub_one 8 x
sub_one Integral.i16 x = signed_sub_one 16 x
sub_one Integral.i32 x = signed_sub_one 32 x
sub_one Integral.i64 x = signed_sub_one 64 x

-- `NextNumericValue` of the integer types.
unfoldable pub next_numeric_value :
    (t : Integral) → Elem (physical t) → NextDirection → Outcome (Elem (physical t))
next_numeric_value t self direction =
    let clamp = if is_up direction then max_value t else min_value t in
    let above = add_one t self in
    let below = sub_one t self in
    if bits_eq (physical t) self clamp then done clamp else if is_up direction then above else below

-- `SmallestPositiveValue` of the integer types.
abbrev pub smallest_positive_value : (t : Integral) → Elem (physical t)
smallest_positive_value Integral.u8 = 1
smallest_positive_value Integral.u16 = 1
smallest_positive_value Integral.u32 = 1
smallest_positive_value Integral.u64 = 1
smallest_positive_value Integral.i8 = pos 1
smallest_positive_value Integral.i16 = pos 1
smallest_positive_value Integral.i32 = pos 1
smallest_positive_value Integral.i64 = pos 1
