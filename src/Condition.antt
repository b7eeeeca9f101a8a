-- ===== src/Condition.antt =====
-- tiledb/api/src/query/condition/mod.rs: literals and the members of a set, and the arguments with
-- which a set membership predicate calls the C library. A text is the list of its bytes.
pub mod Offsets
pub mod Sets
pub mod Tree
use tiledb_rs.Base.{
  ℕ, zero, suc, ◌+◌, ◌*◌, ◌==◌, ltb, leb, if◌then◌else◌, Bool, true, false, ◌&&◌, List, [], ◌∷◌,
  ◌++◌, length, take, drop, Option, none, some, Outcome, done, panic, ◌>>=◌, ◌>>◌, assert, Result,
  ok, err,
}
use tiledb_rs.Base.Int.{ℤ}
use tiledb_rs.Physical.{
  PhysicalType, u8, u16, u32, u64, i8, i16, i32, i64, f32, f64, Elem, size_of, bits_eq, slice_eq,
}
use tiledb_rs.Range.Slices.Bytes.{le_bytes, to_bits, memory}

pub data Literal : Type 0 where
  uint8 : ℕ → Literal
  uint16 : ℕ → Literal
  uint32 : ℕ → Literal
  uint64 : ℕ → Literal
  int8 : ℤ → Literal
  int16 : ℤ → Literal
  int32 : ℤ → Literal
  int64 : ℤ → Literal
  float32 : ℕ → Literal
  float64 : ℕ → Literal
  string : List ℕ → Literal

-- `Literal::to_bytes`.
unfoldable pub to_bytes : Literal → List ℕ
to_bytes (uint8 val) = le_bytes (size_of u8) (to_bits u8 val)
to_bytes (uint16 val) = le_bytes (size_of u16) (to_bits u16 val)
to_bytes (uint32 val) = le_bytes (size_of u32) (to_bits u32 val)
to_bytes (uint64 val) = le_bytes (size_of u64) (to_bits u64 val)
to_bytes (int8 val) = le_bytes (size_of i8) (to_bits i8 val)
to_bytes (int16 val) = le_bytes (size_of i16) (to_bits i16 val)
to_bytes (int32 val) = le_bytes (size_of i32) (to_bits i32 val)
to_bytes (int64 val) = le_bytes (size_of i64) (to_bits i64 val)
to_bytes (float32 val) = le_bytes (size_of f32) (to_bits f32 val)
to_bytes (float64 val) = le_bytes (size_of f64) (to_bits f64 val)
to_bytes (string val) = val

-- `PartialEq::eq` of literals.
unfoldable pub eq_literal : Literal → Literal → Bool
eq_literal (uint8 mine) (uint8 theirs) = bits_eq u8 mine theirs
eq_literal (uint16 mine) (uint16 theirs) = bits_eq u16 mine theirs
eq_literal (uint32 mine) (uint32 theirs) = bits_eq u32 mine theirs
eq_literal (uint64 mine) (uint64 theirs) = bits_eq u64 mine theirs
eq_literal (int8 mine) (int8 theirs) = bits_eq i8 mine theirs
eq_literal (int16 mine) (int16 theirs) = bits_eq i16 mine theirs
eq_literal (int32 mine) (int32 theirs) = bits_eq i32 mine theirs
eq_literal (int64 mine) (int64 theirs) = bits_eq i64 mine theirs
eq_literal (float32 mine) (float32 theirs) = bits_eq f32 mine theirs
eq_literal (float64 mine) (float64 theirs) = bits_eq f64 mine theirs
eq_literal (string mine) (string theirs) = slice_eq (bits_eq u8) mine theirs
eq_literal _ _ = false

pub data SetMembers : Type 0 where
  uint8_set : List ℕ → SetMembers
  uint16_set : List ℕ → SetMembers
  uint32_set : List ℕ → SetMembers
  uint64_set : List ℕ → SetMembers
  int8_set : List ℤ → SetMembers
  int16_set : List ℤ → SetMembers
  int32_set : List ℤ → SetMembers
  int64_set : List ℤ → SetMembers
  float32_set : List ℕ → SetMembers
  float64_set : List ℕ → SetMembers
  string_set : List (List ℕ) → SetMembers

-- A `match` with one branch for the numeric types and one for texts.
abbrev pub set_members_go {ℓ} :
    {R : Type ℓ} → SetMembers → ((t : PhysicalType) → List (Elem t) → R) → (List (List ℕ) → R) → R
set_members_go (uint8_set val) numeric texts = numeric u8 val
set_members_go (uint16_set val) numeric texts = numeric u16 val
set_members_go (uint32_set val) numeric texts = numeric u32 val
set_members_go (uint64_set val) numeric texts = numeric u64 val
set_members_go (int8_set val) numeric texts = numeric i8 val
set_members_go (int16_set val) numeric texts = numeric i16 val
set_members_go (int32_set val) numeric texts = numeric i32 val
set_members_go (int64_set val) numeric texts = numeric i64 val
set_members_go (float32_set val) numeric texts = numeric f32 val
set_members_go (float64_set val) numeric texts = numeric f64 val
set_members_go (string_set val) numeric texts = texts val

unfoldable pub len : SetMembers → ℕ
len self = set_members_go self (λ t val. length val) (λ val. length val)

unfoldable pub elem_size : SetMembers → ℕ
elem_size self = set_members_go self (λ t val. size_of t) (λ val. 0)

-- `std::mem::size_of_val` of a reference to a `Vec`: the pointer, the capacity and the length of
-- 8 bytes each, whatever the vector holds.
abbrev pub size_of_vec : ℕ
size_of_vec = 24

-- `as_ptr_and_size`: the memory behind the pointer, and the size that `slice_to_ptr_and_size` takes
-- of a reference to the `Vec`.
unfoldable pub as_ptr_and_size : SetMembers → Option (List ℕ × ℕ)
as_ptr_and_size self = set_members_go self (λ t val. some (memory t val, size_of_vec)) (λ val. none)

-- The arguments `data`, `data_size`, `offsets` and `offsets_size` of
-- `tiledb_query_condition_alloc_set_membership`.
pub record SetArguments : Type 0 where
  pub data_bytes : List ℕ
  pub data_size : ℕ
  pub offsets : List ℕ
  pub offsets_size : ℕ

-- `Error::InvalidArgument`.
pub data ConditionError : Type 0 where
  empty_set : ConditionError

-- The loop over the offsets of a numeric set, from `curr_offset`.
abbrev pub numeric_offsets : ℕ → ℕ → ℕ → List ℕ
numeric_offsets zero curr_offset size = []
numeric_offsets (suc n) curr_offset size = curr_offset ∷ numeric_offsets n (curr_offset + size) size

-- The loop over the texts: the offsets, and `curr_offset` after it.
abbrev pub text_offsets : List (List ℕ) → ℕ → List ℕ
text_offsets [] curr_offset = []
text_offsets (v ∷ values) curr_offset = curr_offset ∷ text_offsets values (curr_offset + length v)

abbrev pub text_total : List (List ℕ) → ℕ → ℕ
text_total [] curr_offset = curr_offset
text_total (v ∷ values) curr_offset = text_total values (curr_offset + length v)

-- `vec![0u8; n]`.
abbrev pub zeros : ℕ → List ℕ
zeros zero = []
zeros (suc n) = 0 ∷ zeros n

-- `data[start..(start + v.len())].copy_from_slice(v)`.
abbrev pub copy_at : ℕ → List ℕ → List ℕ → Outcome (List ℕ)
copy_at start v bytes =
    if leb (start + length v) (length bytes)
    then done (take start bytes ++ (v ++ drop (start + length v) bytes))
    else panic

-- The loop that copies the texts.
unfoldable pub fill : List ℕ → List (List ℕ) → List ℕ → Outcome (List ℕ)
fill (start ∷ starts) (v ∷ values) bytes = do next ← copy_at start v bytes; fill starts values next
fill _ _ bytes = done bytes

-- `match &self.members`, whose other arm is `unreachable!`.
abbrev pub texts_of : SetMembers → Outcome (List (List ℕ))
texts_of self = set_members_go self (λ t val. panic) (λ val. done val)

-- The arguments of a set that is not one of texts.
abbrev pub numeric_arguments :
    SetMembers → List ℕ → ℕ → Outcome (Result ConditionError SetArguments)
numeric_arguments self bytes size = do
  assert (ltb 0 size)
  assert (ltb 0 (elem_size self))
  done (
      ok (record {
        data_bytes = bytes;
        data_size = size;
        offsets = numeric_offsets (len self) 0 (elem_size self);
        offsets_size = size_of_vec;
      }))

abbrev pub text_arguments : SetMembers → Outcome (Result ConditionError SetArguments)
text_arguments self = do
  values ← texts_of self
  bytes ← fill (text_offsets values 0) values (zeros (text_total values 0))
  done (
      ok (record {
        data_bytes = bytes;
        data_size = length bytes;
        offsets = text_offsets values 0;
        offsets_size = size_of_vec;
      }))

-- `SetMembershipPredicate::build` up to its call of the C library.
unfoldable pub set_arguments : SetMembers → Outcome (Result ConditionError SetArguments)
set_arguments self = if len self == 0 then done (err empty_set) else elim (as_ptr_and_size self) [
  | some (bytes, size) ↦ numeric_arguments self bytes size
  | none ↦ text_arguments self
]
