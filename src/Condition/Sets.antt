-- ===== src/Condition/Sets.antt =====
-- Where the members of a set lie in the bytes that the C library is given.
use tiledb_rs.Base.{
  ℕ, ◌≡◌, ◌↔◌, refl, true, false, ◌==◌, ltb, Bool-cases, inl, inr, List, [], map, length, ◌≢◌,
  if◌then◌else◌, arith, done, ok, err,
}
use tiledb_rs.Physical.{
  PhysicalType, Elem, u8, u16, u32, u64, i8, i16, i32, i64, f32, f64, size_of, bits_eq,
}
use tiledb_rs.Physical.Order.{bits_eq_iff, slice_eq_iff}
use tiledb_rs.Range.Slices.Bytes.{le_bytes, to_bits, memory}
use tiledb_rs.Condition.{
  SetMembers, uint8_set, uint16_set, uint32_set, uint64_set, int8_set, int16_set, int32_set,
  int64_set, float32_set, float64_set, string_set, set_members_go, SetArguments, numeric_offsets,
  text_offsets, set_arguments, empty_set, len, elem_size, as_ptr_and_size, Literal, eq_literal,
}
use tiledb_rs.Condition.Offsets.{
  concat, Located, filled, numeric_offsets-Located, text_offsets-Located,
}

-- The bytes of the members.
abbrev pub member_bytes : SetMembers → List (List ℕ)
member_bytes self =
    set_members_go self (λ t val. map (λ x. le_bytes (size_of t) (to_bits t x)) val) (λ val. val)

some_member {ℓ} : {A : Type ℓ} (val : List A) → length val ≢ 0 → (length val == 0) ≡ false
some_member val h = ground arith

-- The arguments are those of the call: every member lies in the data at its offset, and the sizes
-- are as the code takes them.
abbrev pub IsCall : SetMembers → SetArguments → Type 0
IsCall self args =
    Located (member_bytes self) args.offsets args.data_bytes
    × (args.offsets_size ≡ 24)
    × (args.data_size ≡ (if ltb 0 (elem_size self) then 24 else length args.data_bytes))

-- The arguments of a call with the numbers of a set.
abbrev numeric_call : (t : PhysicalType) → List (Elem t) → SetArguments
numeric_call t val = record {
  data_bytes = memory t val;
  data_size = 24;
  offsets = numeric_offsets (length val) 0 (size_of t);
  offsets_size = 24;
}

-- The arguments of the call for a set.
abbrev pub arguments_of : SetMembers → SetArguments
arguments_of self = set_members_go self numeric_call (λ val. record {
  data_bytes = concat val;
  data_size = length (concat val);
  offsets = text_offsets val 0;
  offsets_size = 24;
})

pub set_arguments-arguments_of :
    (self : SetMembers) → len self ≢ 0 → set_arguments self ≡ done (ok (arguments_of self))
unfolding set_arguments len elem_size as_ptr_and_size
set_arguments-arguments_of (uint8_set val) h = rw (some_member val h) refl
set_arguments-arguments_of (uint16_set val) h = rw (some_member val h) refl
set_arguments-arguments_of (uint32_set val) h = rw (some_member val h) refl
set_arguments-arguments_of (uint64_set val) h = rw (some_member val h) refl
set_arguments-arguments_of (int8_set val) h = rw (some_member val h) refl
set_arguments-arguments_of (int16_set val) h = rw (some_member val h) refl
set_arguments-arguments_of (int32_set val) h = rw (some_member val h) refl
set_arguments-arguments_of (int64_set val) h = rw (some_member val h) refl
set_arguments-arguments_of (float32_set val) h = rw (some_member val h) refl
set_arguments-arguments_of (float64_set val) h = rw (some_member val h) refl
set_arguments-arguments_of (string_set val) h = rw (some_member val h, filled val) refl

arguments_of-IsCall : (self : SetMembers) → IsCall self (arguments_of self)
unfolding elem_size
arguments_of-IsCall (uint8_set val) = (numeric_offsets-Located u8 val, refl, refl)
arguments_of-IsCall (uint16_set val) = (numeric_offsets-Located u16 val, refl, refl)
arguments_of-IsCall (uint32_set val) = (numeric_offsets-Located u32 val, refl, refl)
arguments_of-IsCall (uint64_set val) = (numeric_offsets-Located u64 val, refl, refl)
arguments_of-IsCall (int8_set val) = (numeric_offsets-Located i8 val, refl, refl)
arguments_of-IsCall (int16_set val) = (numeric_offsets-Located i16 val, refl, refl)
arguments_of-IsCall (int32_set val) = (numeric_offsets-Located i32 val, refl, refl)
arguments_of-IsCall (int64_set val) = (numeric_offsets-Located i64 val, refl, refl)
arguments_of-IsCall (float32_set val) = (numeric_offsets-Located f32 val, refl, refl)
arguments_of-IsCall (float64_set val) = (numeric_offsets-Located f64 val, refl, refl)
arguments_of-IsCall (string_set val) = (text_offsets-Located [] val, refl, refl)

-- For every set with members, `build` calls the C library with data in which each member lies at its
-- offset. The size of the offsets is given as 24, whatever their number, and so is that of the data
-- of a set of numbers.
pub set_arguments-IsCall :
    (self : SetMembers)
    → len self ≢ 0
    → (args : SetArguments) × (set_arguments self ≡ done (ok args)) × IsCall self args
set_arguments-IsCall self h =
    (arguments_of self, set_arguments-arguments_of self h, arguments_of-IsCall self)

pub refused : (self : SetMembers) → len self ≡ 0 → set_arguments self ≡ done (err empty_set)
unfolding set_arguments
refused self h = ground arith

-- A set without members is refused, and no other.
pub set_arguments-err_iff :
    (self : SetMembers) → (set_arguments self ≡ done (err empty_set)) ↔ (len self ≡ 0)
set_arguments-err_iff self = (
  λ h. elim (Bool-cases (len self == 0)) [
    | inl no_member ↦ ground arith
    | inr some_members ↦
        absurd (let (args, e, called) = set_arguments-IsCall self (ground arith) in ground arith)
  ],
  refused self,
)

-- `==` of literals is equality: of the types and of the values, for floats bit for bit.
pub eq_literal_iff : (a b : Literal) → (eq_literal a b ≡ true) ↔ (a ≡ b)
unfolding eq_literal
eq_literal_iff (Literal.uint8 a) (Literal.uint8 b) = ground arith
eq_literal_iff (Literal.uint16 a) (Literal.uint16 b) = ground arith
eq_literal_iff (Literal.uint32 a) (Literal.uint32 b) = ground arith
eq_literal_iff (Literal.uint64 a) (Literal.uint64 b) = ground arith
eq_literal_iff (Literal.int8 a) (Literal.int8 b) = ground arith
eq_literal_iff (Literal.int16 a) (Literal.int16 b) = ground arith
eq_literal_iff (Literal.int32 a) (Literal.int32 b) = ground arith
eq_literal_iff (Literal.int64 a) (Literal.int64 b) = ground arith
eq_literal_iff (Literal.float32 a) (Literal.float32 b) = ground arith
eq_literal_iff (Literal.float64 a) (Literal.float64 b) = ground arith
eq_literal_iff (Literal.string a) (Literal.string b) =
    ground (arith, slice_eq_iff (bits_eq u8) (bits_eq_iff u8) a b)
eq_literal_iff _ _ = ground arith
