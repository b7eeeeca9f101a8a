-- ===== src/Physical.antt =====
-- tiledb/common/src/datatype/physical.rs: the primitive types that a cell's values have in memory,
-- the traits `BitsEq` and `BitsOrd`, and `PhysicalValue`.
-- A value of an unsigned type is a natural number, one of a signed type an integer, and one of a
-- float type is its bit pattern (`to_bits`), a natural number. `f32::total_cmp` and
-- `f64::total_cmp` of the standard library are the fields of `FloatOrder`.
pub mod Order
pub mod Clamp
pub mod Value
use tiledb_rs.Base.{
  ℕ, zero, suc, ◌+◌, ◌-◌, ◌^◌, ◌<◌, compare, Ordering, lt, eq, gt, ◌≡◌, Bool, true, false, not,
  ◌&&◌, List, [], ◌∷◌, length, ◌==◌, if◌then◌else◌, Outcome, done, panic, ◌>>◌, ◌>>=◌, assert,
  Result, ok, err,
}
use tiledb_rs.Base.Int.{ℤ, pos, negsuc, cmp_ℤ, eqb_ℤ, ◌≤ℤ◌}
use tiledb_rs.Base.Order.{IsTotal, is_lt, is_gt, is_le, is_ge}

-- The types that implement the sealed trait `PhysicalType`.
pub data PhysicalType : Type 0 where
  u8 u16 u32 u64 i8 i16 i32 i64 f32 f64 : PhysicalType

-- The values of a type.
abbrev pub Elem : PhysicalType → Type 0
Elem u8 = ℕ
Elem u16 = ℕ
Elem u32 = ℕ
Elem u64 = ℕ
Elem i8 = ℤ
Elem i16 = ℤ
Elem i32 = ℤ
Elem i64 = ℤ
Elem f32 = ℕ
Elem f64 = ℕ

-- `std::mem::size_of`, and the width in bits.
abbrev pub size_of : PhysicalType → ℕ
size_of u8 = 1
size_of u16 = 2
size_of u32 = 4
size_of u64 = 8
size_of i8 = 1
size_of i16 = 2
size_of i32 = 4
size_of i64 = 8
size_of f32 = 4
size_of f64 = 8

-- The values that the type can hold: `T::MIN..=T::MAX`, or the bit patterns of a float.
abbrev pub InRange : (t : PhysicalType) → Elem t → Type 0
InRange u8 x = x < 2 ^ 8
InRange u16 x = x < 2 ^ 16
InRange u32 x = x < 2 ^ 32
InRange u64 x = x < 2 ^ 64
InRange i8 x = (negsuc (2 ^ 7 - 1) ≤ℤ x) × (x ≤ℤ pos (2 ^ 7 - 1))
InRange i16 x = (negsuc (2 ^ 15 - 1) ≤ℤ x) × (x ≤ℤ pos (2 ^ 15 - 1))
InRange i32 x = (negsuc (2 ^ 31 - 1) ≤ℤ x) × (x ≤ℤ pos (2 ^ 31 - 1))
InRange i64 x = (negsuc (2 ^ 63 - 1) ≤ℤ x) × (x ≤ℤ pos (2 ^ 63 - 1))
InRange f32 x = x < 2 ^ 32
InRange f64 x = x < 2 ^ 64

-- `total_cmp` of the standard library on bit patterns. Its documentation says that it is a total
-- order, in which two values are equal only if they have the same bits.
pub record FloatOrder : Type 0 where
  pub total_cmp32 : ℕ → ℕ → Ordering
  pub total_cmp64 : ℕ → ℕ → Ordering
  pub total32 : IsTotal total_cmp32
  pub total64 : IsTotal total_cmp64

-- `BitsEq::bits_eq` of the primitive types: `==`, and equality of `to_bits` for floats.
abbrev pub bits_eq : (t : PhysicalType) → Elem t → Elem t → Bool
bits_eq u8 a b = a == b
bits_eq u16 a b = a == b
bits_eq u32 a b = a == b
bits_eq u64 a b = a == b
bits_eq i8 a b = eqb_ℤ a b
bits_eq i16 a b = eqb_ℤ a b
bits_eq i32 a b = eqb_ℤ a b
bits_eq i64 a b = eqb_ℤ a b
bits_eq f32 a b = a == b
bits_eq f64 a b = a == b

-- `BitsOrd::bits_cmp` of the primitive types.
abbrev pub bits_cmp : FloatOrder → (t : PhysicalType) → Elem t → Elem t → Ordering
bits_cmp fl u8 a b = compare a b
bits_cmp fl u16 a b = compare a b
bits_cmp fl u32 a b = compare a b
bits_cmp fl u64 a b = compare a b
bits_cmp fl i8 a b = cmp_ℤ a b
bits_cmp fl i16 a b = cmp_ℤ a b
bits_cmp fl i32 a b = cmp_ℤ a b
bits_cmp fl i64 a b = cmp_ℤ a b
bits_cmp fl f32 a b = fl.total_cmp32 a b
bits_cmp fl f64 a b = fl.total_cmp64 a b

-- `impl BitsEq for [T]`: the lengths, then `zip` and `all`.
module _ {ℓ} {T : Type ℓ} (elem_eq : T → T → Bool) where
  pub zip_all_eq : List T → List T → Bool
  zip_all_eq (l ∷ ls) (r ∷ rs) = elem_eq l r && zip_all_eq ls rs
  zip_all_eq _ _ = true

  unfoldable pub slice_eq : List T → List T → Bool
  unfolding zip_all_eq
  slice_eq ls rs = (length ls == length rs) && zip_all_eq ls rs

module _ {ℓ} {T : Type ℓ} (cmp : T → T → Ordering) where
  -- The provided methods of `BitsOrd`.
  abbrev pub bits_lt : T → T → Bool
  bits_lt self other = is_lt (cmp self other)

  abbrev pub bits_le : T → T → Bool
  bits_le self other = is_le (cmp self other)

  abbrev pub bits_ge : T → T → Bool
  bits_ge self other = is_ge (cmp self other)

  abbrev pub bits_gt : T → T → Bool
  bits_gt self other = is_gt (cmp self other)

  pub bits_clamp : T → T → T → Outcome T
  bits_clamp self min max = do
    assert (is_lt (cmp min max))
    done (if is_lt (cmp self min) then min else if is_lt (cmp self max) then self else max)

  -- `impl BitsOrd for [T]`: the loop over `zip`, with the two lengths that are compared at its end.
  pub zip_cmp : ℕ → ℕ → List T → List T → Ordering
  zip_cmp n m (l ∷ ls) (r ∷ rs) = elim (cmp l r) [ lt ↦ lt | gt ↦ gt | eq ↦ zip_cmp n m ls rs ]
  zip_cmp n m _ _ = compare n m

  unfoldable pub slice_cmp : List T → List T → Ordering
  unfolding zip_cmp
  slice_cmp ls rs = zip_cmp (length ls) (length rs) ls rs

-- A dynamically typed single value.
pub data PhysicalValue : Type 0 where
  uint8 uint16 uint32 uint64 : ℕ → PhysicalValue
  int8 int16 int32 int64 : ℤ → PhysicalValue
  float32 float64 : ℕ → PhysicalValue
