-- ===== src/Condition/Tree/Arguments.antt =====
-- tiledb/api/src/query/condition/mod.rs: the bytes of literals, and the arguments for sets, against
-- what the C library reads in them.
use tiledb_rs.Base.{ℕ, ◌+◌, ◌*◌, ◌≡◌, refl, ◌∙◌, List, [], ◌∷◌, map, length, All, length-map, arith}
use tiledb_rs.Physical.{
  PhysicalType, u8, u16, u32, u64, i8, i16, i32, i64, f32, f64, Elem, InRange, size_of,
}
use tiledb_rs.Range.Slices.Bytes.{
  to_bits, memory, length-memory, length-le_bytes, from_raw_parts-memory,
}
use tiledb_rs.Condition.{
  Literal, string, SetMembers, uint8_set, uint16_set, uint32_set, uint64_set, int8_set, int16_set,
  int32_set, int64_set, float32_set, float64_set, string_set, numeric_offsets, text_offsets,
  to_bytes,
}
use tiledb_rs.Condition.Offsets.{
  concat, bytes_of, append_nil, memory-concat, numeric_offsets_lem, length-text_offsets,
}
use tiledb_rs.Condition.Sets.{arguments_of}
use tiledb_rs.Condition.Tree.Meaning.{
  Kind, number, text, numeral, IsValue, literals, AreValues, IsSized, Reads, LiesIn, Describes,
}

to_bytes-numeral : (t : PhysicalType) (x : Elem t) → to_bytes (numeral t x) ≡ bytes_of t x
unfolding to_bytes
to_bytes-numeral u8 x = refl
to_bytes-numeral u16 x = refl
to_bytes-numeral u32 x = refl
to_bytes-numeral u64 x = refl
to_bytes-numeral i8 x = refl
to_bytes-numeral i16 x = refl
to_bytes-numeral i32 x = refl
to_bytes-numeral i64 x = refl
to_bytes-numeral f32 x = refl
to_bytes-numeral f64 x = refl

bytes_of-Reads :
    (t : PhysicalType) (x : Elem t) → InRange t x → Reads (number t) (bytes_of t x) (numeral t x)
bytes_of-Reads t x h = (
  length-le_bytes (size_of t) (to_bits t x),
  x,
  rw (← append_nil (bytes_of t x)) (from_raw_parts-memory t (x ∷ []) (h, tt)),
  refl,
)

-- The library reads in the bytes of a literal the value that it has.
pub to_bytes-Reads : (k : Kind) (v : Literal) → IsValue k v → Reads k (to_bytes v) v
unfolding to_bytes
to_bytes-Reads (number t) v (x, e, h) = rw (e, to_bytes-numeral t x) (bytes_of-Reads t x h)
to_bytes-Reads text v (s, e) = rw e refl

-- Byte strings one after the other, at the offsets that the code computes, give the values of which
-- they are the bytes.
numbers-LiesIn :
    (t : PhysicalType) (start : ℕ) (val : List (Elem t))
    → All (InRange t) val
    → LiesIn
        (number t)
        start
        (concat (map (bytes_of t) val))
        (text_offsets (map (bytes_of t) val) start)
        (map (numeral t) val)
numbers-LiesIn t start [] h = refl
numbers-LiesIn t start (x ∷ val) h = (
  refl,
  bytes_of t x,
  concat (map (bytes_of t) val),
  refl,
  bytes_of-Reads t x h.0,
  numbers-LiesIn t (start + length (bytes_of t x)) val h.1,
)

texts-LiesIn :
    (start : ℕ) (val : List (List ℕ))
    → LiesIn text start (concat val) (text_offsets val start) (map string val)
texts-LiesIn start [] = refl
texts-LiesIn start (v ∷ val) =
    (refl, v, concat val, refl, refl, texts-LiesIn (start + length v) val)

numbers-Describes :
    (k : Kind) (t : PhysicalType) (val : List (Elem t))
    → (k ≡ number t) × All (InRange t) val
    → (size_of t ≡ 8) × (length val ≡ 3)
    → Describes k
        (record {
          data_bytes = memory t val;
          data_size = 24;
          offsets = numeric_offsets (length val) 0 (size_of t);
          offsets_size = 24;
        })
        (map (numeral t) val)
numbers-Describes k t val (e, h) (w, n) =
    let bytes : length val * size_of t ≡ 24 = rw (w, n) refl in
    rw (e, numeric_offsets_lem t val 0)
      (
        rw (memory-concat t val) (numbers-LiesIn t 0 val h),
        omega (arith, length-memory t val, bytes),
        omega
            (arith, length-text_offsets (map (bytes_of t) val) 0 ∙ length-map (bytes_of t) val, n),
      )

-- Where a set is sized, the arguments that the code computes for it describe its members.
pub arguments_of-Describes :
    (k : Kind) (self : SetMembers)
    → AreValues k self
    → IsSized self
    → Describes k (arguments_of self) (literals self)
arguments_of-Describes k (uint8_set val) h s = numbers-Describes k u8 val h s
arguments_of-Describes k (uint16_set val) h s = numbers-Describes k u16 val h s
arguments_of-Describes k (uint32_set val) h s = numbers-Describes k u32 val h s
arguments_of-Describes k (uint64_set val) h s = numbers-Describes k u64 val h s
arguments_of-Describes k (int8_set val) h s = numbers-Describes k i8 val h s
arguments_of-Describes k (int16_set val) h s = numbers-Describes k i16 val h s
arguments_of-Describes k (int32_set val) h s = numbers-Describes k i32 val h s
arguments_of-Describes k (int64_set val) h s = numbers-Describes k i64 val h s
arguments_of-Describes k (float32_set val) h s = numbers-Describes k f32 val h s
arguments_of-Describes k (float64_set val) h s = numbers-Describes k f64 val h s
arguments_of-Describes k (string_set val) h s =
    rw h (texts-LiesIn 0 val, refl, omega (arith, length-text_offsets val 0, s))
