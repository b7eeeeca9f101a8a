-- ===== src/Range/Slices/Bytes.antt =====
-- The bytes of values in memory, the least first, and reading them back.
use native.Mathlib.Nat.{pow-suc}
use tiledb_rs.Base.{
  ℕ, zero, suc, ◌-◌, ◌*◌, ◌/◌, ◌%◌, ◌^◌, ◌<◌, ◌≡◌, refl, ap, List, [], ◌∷◌, ◌++◌, length, All,
  length-append, take, drop, arith,
}
use tiledb_rs.Base.Int.{pos, negsuc}
use tiledb_rs.Physical.{
  PhysicalType, u8, u16, u32, u64, i8, i16, i32, i64, f32, f64, Elem, size_of, InRange,
}
use tiledb_rs.Range.Slices.{le_value, of_bits, from_raw_parts}

-- The bytes of a number, the least first.
abbrev pub le_bytes : ℕ → ℕ → List ℕ
le_bytes zero v = []
le_bytes (suc n) v = (v % 256) ∷ le_bytes n (v / 256)

-- The bit pattern of a value.
abbrev pub to_bits : (t : PhysicalType) → Elem t → ℕ
to_bits u8 x = x
to_bits u16 x = x
to_bits u32 x = x
to_bits u64 x = x
to_bits i8 (pos n) = n
to_bits i8 (negsuc n) = 2 ^ 8 - 1 - n
to_bits i16 (pos n) = n
to_bits i16 (negsuc n) = 2 ^ 16 - 1 - n
to_bits i32 (pos n) = n
to_bits i32 (negsuc n) = 2 ^ 32 - 1 - n
to_bits i64 (pos n) = n
to_bits i64 (negsuc n) = 2 ^ 64 - 1 - n
to_bits f32 x = x
to_bits f64 x = x

-- The memory of a slice of values.
abbrev pub memory : (t : PhysicalType) → List (Elem t) → List ℕ
memory t [] = []
memory t (x ∷ xs) = le_bytes (size_of t) (to_bits t x) ++ memory t xs

pub length-le_bytes : (n v : ℕ) → length (le_bytes n v) ≡ n
length-le_bytes zero v = refl
length-le_bytes (suc n) v = ap suc (length-le_bytes n (v / 256))

le_value-le_bytes : (n v : ℕ) → v < 256 ^ n → le_value (le_bytes n v) ≡ v
unfolding le_value
le_value-le_bytes zero v h = ground arith
le_value-le_bytes (suc n) v h =
    omega (arith, pow-suc 256 n, le_value-le_bytes n (v / 256) (omega (arith, pow-suc 256 n)))

of_bits-to_bits : (t : PhysicalType) (x : Elem t) → InRange t x → of_bits t (to_bits t x) ≡ x
unfolding of_bits
of_bits-to_bits u8 x h = refl
of_bits-to_bits u16 x h = refl
of_bits-to_bits u32 x h = refl
of_bits-to_bits u64 x h = refl
of_bits-to_bits i8 (pos n) h = ground arith
of_bits-to_bits i8 (negsuc n) h = ground arith
of_bits-to_bits i16 (pos n) h = ground arith
of_bits-to_bits i16 (negsuc n) h = ground arith
of_bits-to_bits i32 (pos n) h = ground arith
of_bits-to_bits i32 (negsuc n) h = ground arith
of_bits-to_bits i64 (pos n) h = ground arith
of_bits-to_bits i64 (negsuc n) h = ground arith
of_bits-to_bits f32 x h = refl
of_bits-to_bits f64 x h = refl

to_bits-lt : (t : PhysicalType) (x : Elem t) → InRange t x → to_bits t x < 256 ^ size_of t
to_bits-lt u8 x h = h
to_bits-lt u16 x h = h
to_bits-lt u32 x h = h
to_bits-lt u64 x h = h
to_bits-lt i8 (pos n) h = omega arith
to_bits-lt i8 (negsuc n) h = omega arith
to_bits-lt i16 (pos n) h = omega arith
to_bits-lt i16 (negsuc n) h = omega arith
to_bits-lt i32 (pos n) h = omega arith
to_bits-lt i32 (negsuc n) h = omega arith
to_bits-lt i64 (pos n) h = omega arith
to_bits-lt i64 (negsuc n) h = omega arith
to_bits-lt f32 x h = h
to_bits-lt f64 x h = h

take-le_bytes : (n v : ℕ) (rest : List ℕ) → take n (le_bytes n v ++ rest) ≡ le_bytes n v
take-le_bytes zero v rest = refl
take-le_bytes (suc n) v rest = ap (λ bs. (v % 256) ∷ bs) (take-le_bytes n (v / 256) rest)

drop-le_bytes : (n v : ℕ) (rest : List ℕ) → drop n (le_bytes n v ++ rest) ≡ rest
drop-le_bytes zero v rest = refl
drop-le_bytes (suc n) v rest = drop-le_bytes n (v / 256) rest

pub from_raw_parts-memory :
    (t : PhysicalType) (xs : List (Elem t))
    → All (InRange t) xs
    → from_raw_parts t (memory t xs) (length xs) ≡ xs
unfolding from_raw_parts
from_raw_parts-memory t [] h = refl
from_raw_parts-memory t (x ∷ xs) h = rw (
  take-le_bytes (size_of t) (to_bits t x) (memory t xs),
  drop-le_bytes (size_of t) (to_bits t x) (memory t xs),
  le_value-le_bytes (size_of t) (to_bits t x) (to_bits-lt t x h.0),
  of_bits-to_bits t x h.0,
  from_raw_parts-memory t xs h.1,
)

pub length-memory :
    (t : PhysicalType) (xs : List (Elem t)) → length (memory t xs) ≡ length xs * size_of t
length-memory t [] = omega arith
length-memory t (x ∷ xs) = omega (
  arith,
  length-append (le_bytes (size_of t) (to_bits t x)) (memory t xs),
  length-le_bytes (size_of t) (to_bits t x),
  length-memory t xs,
)

pub whole_values :
    (t : PhysicalType) (n : ℕ)
    → ((n * size_of t) % size_of t ≡ 0) × ((n * size_of t) / size_of t ≡ n)
whole_values u8 n = omega arith
whole_values u16 n = omega arith
whole_values u32 n = omega arith
whole_values u64 n = omega arith
whole_values i8 n = omega arith
whole_values i16 n = omega arith
whole_values i32 n = omega arith
whole_values i64 n = omega arith
whole_values f32 n = omega arith
whole_values f64 n = omega arith

pub length-from_raw_parts :
    (t : PhysicalType) (bytes : List ℕ) (n : ℕ) → length (from_raw_parts t bytes n) ≡ n
unfolding from_raw_parts
length-from_raw_parts t bytes zero = refl
length-from_raw_parts t bytes (suc n) = ap suc (length-from_raw_parts t (drop (size_of t) bytes) n)
