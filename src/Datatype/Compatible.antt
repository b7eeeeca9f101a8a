-- ===== src/Datatype/Compatible.antt =====
-- Which physical types and which uses a logical type is compatible with.
use tiledb_rs.Base.{
  ℕ, ◌*◌, ◌^◌, ◌≤◌, ◌<◌, ◌≡◌, ◌↔◌, refl, Bool, true, false, not, some, List, [], ◌∷◌, arith,
  if◌then◌else◌,
}
use tiledb_rs.Physical.{PhysicalType, u8, u16, u32, u64, i8, i16, i32, i64, f32, f64}
use tiledb_rs.Datatype.{
  Datatype, int32, any, eq_datatype, datatypes, dense_dimension_datatypes,
  sparse_dimension_datatypes, physical_type,
}
use tiledb_rs.Datatype.Classes.{
  size, same_type, is_compatible_type, max_enumeration_variants, is_allowed_dimension_type_sparse,
  is_allowed_dimension_type_dense,
}

pub same_type_iff : (s t : PhysicalType) → (same_type s t ≡ true) ↔ (s ≡ t)
same_type_iff u8 u8 = ground arith
same_type_iff _ _ = ground arith

-- A physical type is compatible with a logical type exactly if it is the type by which
-- `physical_type_go` represents it.
pub is_compatible_type-physical_type :
    (t : PhysicalType) (d : Datatype) → is_compatible_type t d ≡ same_type (physical_type d) t
unfolding is_compatible_type physical_type
is_compatible_type-physical_type u8 int32 = refl
is_compatible_type-physical_type u16 int32 = refl
is_compatible_type-physical_type u32 int32 = refl
is_compatible_type-physical_type u64 int32 = refl
is_compatible_type-physical_type i8 int32 = refl
is_compatible_type-physical_type i16 int32 = refl
is_compatible_type-physical_type i32 int32 = refl
is_compatible_type-physical_type i64 int32 = refl
is_compatible_type-physical_type f32 int32 = refl
is_compatible_type-physical_type f64 int32 = refl
is_compatible_type-physical_type _ _ = refl

abbrev pub contains : List Datatype → Datatype → Bool
contains [] d = false
contains (x ∷ xs) d = if eq_datatype x d then true else contains xs d

-- The two lists of dimension types hold exactly the types that the two tests allow.
pub dimension_types :
    (d : Datatype)
    → (contains dense_dimension_datatypes d ≡ is_allowed_dimension_type_dense d)
      × (contains sparse_dimension_datatypes d ≡ is_allowed_dimension_type_sparse d)
unfolding is_allowed_dimension_type_dense is_allowed_dimension_type_sparse
dimension_types int32 = (refl, refl)
dimension_types _ = (refl, refl)

-- `Datatype::iter` yields every type but `Any`.
pub datatypes-contains : (d : Datatype) → contains datatypes d ≡ not (eq_datatype d any)
datatypes-contains int32 = refl
datatypes-contains _ = refl

-- The variants of an enumeration on an attribute of the type can be numbered by values of its
-- physical type: their number is below the number of non-negative values.
pub max_enumeration_variants_bound :
    (d : Datatype) (n : ℕ) → max_enumeration_variants d ≡ some n → (2 ≤ n) × (n < 2 ^ (8 * size d))
unfolding max_enumeration_variants size physical_type
max_enumeration_variants_bound int32 n h = ground arith
max_enumeration_variants_bound _ n h = ground arith
