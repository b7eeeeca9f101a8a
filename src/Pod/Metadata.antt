-- ===== src/Pod/Metadata.antt =====
-- tiledb/common/src/metadata.rs: `Value`, a vector of one of ten types, the macros that choose a
-- branch by it, and `Metadata`.
pub mod Values
use tiledb_rs.Base.{ℕ, Bool, not, ◌==◌, List, length, if◌then◌else◌, Result, ok, err}
use tiledb_rs.Base.Int.{ℤ}
use Prim.Native.String.{String}
use tiledb_rs.Physical.{PhysicalType, u8, u16, u32, u64, i8, i16, i32, i64, f32, f64, Elem}
use tiledb_rs.Datatype.{Datatype, DatatypeError, physical_type_incompatible}
use tiledb_rs.Datatype.Classes.{is_compatible_type}

pub data Value : Type 0 where
  uint8_value uint16_value uint32_value uint64_value : List ℕ → Value
  int8_value int16_value int32_value int64_value : List ℤ → Value
  float32_value float64_value : List ℕ → Value

-- `From<Vec<T>>`.
unfoldable pub of_vec : (t : PhysicalType) → List (Elem t) → Value
of_vec u8 vec = uint8_value vec
of_vec u16 vec = uint16_value vec
of_vec u32 vec = uint32_value vec
of_vec u64 vec = uint64_value vec
of_vec i8 vec = int8_value vec
of_vec i16 vec = int16_value vec
of_vec i32 vec = int32_value vec
of_vec i64 vec = int64_value vec
of_vec f32 vec = float32_value vec
of_vec f64 vec = float64_value vec

-- The macro `metadata_value_go`.
unfoldable pub metadata_value_go {ℓ} :
    {R : Type ℓ} → Value → ((t : PhysicalType) → List (Elem t) → R) → R
metadata_value_go (uint8_value vec) go = go u8 vec
metadata_value_go (uint16_value vec) go = go u16 vec
metadata_value_go (uint32_value vec) go = go u32 vec
metadata_value_go (uint64_value vec) go = go u64 vec
metadata_value_go (int8_value vec) go = go i8 vec
metadata_value_go (int16_value vec) go = go i16 vec
metadata_value_go (int32_value vec) go = go i32 vec
metadata_value_go (int64_value vec) go = go i64 vec
metadata_value_go (float32_value vec) go = go f32 vec
metadata_value_go (float64_value vec) go = go f64 vec

-- The macro `value_cmp`: `same` where both have values of one type, and otherwise `other`.
unfoldable pub value_cmp {ℓ} :
    {R : Type ℓ} → Value → Value → ((t : PhysicalType) → List (Elem t) → List (Elem t) → R) → R → R
value_cmp (uint8_value l) (uint8_value r) same other = same u8 l r
value_cmp (uint16_value l) (uint16_value r) same other = same u16 l r
value_cmp (uint32_value l) (uint32_value r) same other = same u32 l r
value_cmp (uint64_value l) (uint64_value r) same other = same u64 l r
value_cmp (int8_value l) (int8_value r) same other = same i8 l r
value_cmp (int16_value l) (int16_value r) same other = same i16 l r
value_cmp (int32_value l) (int32_value r) same other = same i32 l r
value_cmp (int64_value l) (int64_value r) same other = same i64 l r
value_cmp (float32_value l) (float32_value r) same other = same f32 l r
value_cmp (float64_value l) (float64_value r) same other = same f64 l r
value_cmp _ _ same other = other

-- The methods `len` and `is_empty`.
unfoldable pub value_len : Value → ℕ
unfolding metadata_value_go
value_len self = metadata_value_go self (λ t v. length v)

unfoldable pub value_is_empty : Value → Bool
unfolding metadata_value_go
value_is_empty self = metadata_value_go self (λ t v. length v == 0)

pub record Metadata : Type 0 where
  pub key : String
  pub datatype : Datatype
  pub value : Value

unfoldable pub new :
    (t : PhysicalType) → String → Datatype → List (Elem t) → Result DatatypeError Metadata
unfolding of_vec
new t key datatype vec =
    if not (is_compatible_type t datatype)
    then err (physical_type_incompatible t datatype)
    else ok (record { key = key; datatype = datatype; value = of_vec t vec })
