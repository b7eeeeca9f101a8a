-- ===== src/Physical/Value.antt =====
-- tiledb/common/src/datatype/physical.rs: `PhysicalValue`, the conversions from and to the primitive types.
use tiledb_rs.Base.{◌≡◌, ◌≢◌, ◌↔◌, refl, Result, ok, err, arith}
use tiledb_rs.Physical.{
  PhysicalType, u8, u16, u32, u64, i8, i16, i32, i64, f32, f64, Elem, PhysicalValue, uint8, uint16,
  uint32, uint64, int8, int16, int32, int64, float32, float64,
}

-- The macro `physical_value_go`: `then` at the value's type.
abbrev pub physical_value_go {ℓ} :
    {R : Type ℓ} → PhysicalValue → ((t : PhysicalType) → Elem t → R) → R
physical_value_go (uint8 v) then = then u8 v
physical_value_go (uint16 v) then = then u16 v
physical_value_go (uint32 v) then = then u32 v
physical_value_go (uint64 v) then = then u64 v
physical_value_go (int8 v) then = then i8 v
physical_value_go (int16 v) then = then i16 v
physical_value_go (int32 v) then = then i32 v
physical_value_go (int64 v) then = then i64 v
physical_value_go (float32 v) then = then f32 v
physical_value_go (float64 v) then = then f64 v

-- `impl From<T> for PhysicalValue`, for each type `T`.
abbrev pub of_elem : (t : PhysicalType) → Elem t → PhysicalValue
of_elem u8 v = uint8 v
of_elem u16 v = uint16 v
of_elem u32 v = uint32 v
of_elem u64 v = uint64 v
of_elem i8 v = int8 v
of_elem i16 v = int16 v
of_elem i32 v = int32 v
of_elem i64 v = int64 v
of_elem f32 v = float32 v
of_elem f64 v = float64 v

-- `Error::PhysicalTypeMismatch`; the types stand for their names.
pub data Mismatch : Type 0 where
  physical_type_mismatch : PhysicalType → PhysicalType → Mismatch

-- `Error::physical_type_mismatch::<T, DT>()` at the value's type `DT`.
abbrev mismatch {ℓ} : {A : Type ℓ} → PhysicalType → PhysicalValue → Result Mismatch A
mismatch t value = physical_value_go value (λ dt _. err (physical_type_mismatch t dt))

-- `impl TryFrom<PhysicalValue> for T`, for each type `T`: `if let PhysicalValue::$variant(val)`.
pub try_from : (t : PhysicalType) → PhysicalValue → Result Mismatch (Elem t)
try_from u8 (uint8 v) = ok v
try_from u16 (uint16 v) = ok v
try_from u32 (uint32 v) = ok v
try_from u64 (uint64 v) = ok v
try_from i8 (int8 v) = ok v
try_from i16 (int16 v) = ok v
try_from i32 (int32 v) = ok v
try_from i64 (int64 v) = ok v
try_from f32 (float32 v) = ok v
try_from f64 (float64 v) = ok v
try_from t value = mismatch t value

-- A conversion to a type succeeds with a result exactly if the value was made from that result at
-- that type.
pub try_from-of_elem_iff :
    (t : PhysicalType) (value : PhysicalValue) (v : Elem t)
    → (try_from t value ≡ ok v) ↔ (value ≡ of_elem t v)
unfolding try_from
try_from-of_elem_iff u8 (uint8 w) v = ground arith
try_from-of_elem_iff u16 (uint16 w) v = ground arith
try_from-of_elem_iff u32 (uint32 w) v = ground arith
try_from-of_elem_iff u64 (uint64 w) v = ground arith
try_from-of_elem_iff i8 (int8 w) v = ground arith
try_from-of_elem_iff i16 (int16 w) v = ground arith
try_from-of_elem_iff i32 (int32 w) v = ground arith
try_from-of_elem_iff i64 (int64 w) v = ground arith
try_from-of_elem_iff f32 (float32 w) v = ground arith
try_from-of_elem_iff f64 (float64 w) v = ground arith
try_from-of_elem_iff _ _ v = ground arith

-- A conversion to another type is refused, with the type that was asked for and the value's own.
pub try_from-mismatch :
    (t s : PhysicalType) (v : Elem s)
    → s ≢ t
    → try_from t (of_elem s v) ≡ err (physical_type_mismatch t s)
unfolding try_from
try_from-mismatch u8 u8 v h = absurd (h refl)
try_from-mismatch u16 u16 v h = absurd (h refl)
try_from-mismatch u32 u32 v h = absurd (h refl)
try_from-mismatch u64 u64 v h = absurd (h refl)
try_from-mismatch i8 i8 v h = absurd (h refl)
try_from-mismatch i16 i16 v h = absurd (h refl)
try_from-mismatch i32 i32 v h = absurd (h refl)
try_from-mismatch i64 i64 v h = absurd (h refl)
try_from-mismatch f32 f32 v h = absurd (h refl)
try_from-mismatch f64 f64 v h = absurd (h refl)
try_from-mismatch _ _ v h = refl
