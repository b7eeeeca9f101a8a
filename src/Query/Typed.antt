-- ===== src/Query/Typed.antt =====
-- tiledb/api/src/query/buffer/mod.rs: buffers with the physical type of their values,
-- `TypedQueryBuffers` and `RefTypedQueryBuffersMut`, and the macros that choose a branch by it.
pub mod Types
use tiledb_rs.Base.{ℕ, Option, List, length, Outcome, panic, Result, ok, err}
use tiledb_rs.Base.Int.{ℤ}
use tiledb_rs.Physical.{PhysicalType, u8, u16, u32, u64, i8, i16, i32, i64, f32, f64, Elem}
use tiledb_rs.Query.Buffer.{Buffer, as_ref, CellStructure, QueryBuffers, borrow}
use tiledb_rs.Query.BufferMut.{QueryBuffersMut, as_shared}

pub data TypedQueryBuffers : Type 0 where
  uint8 uint16 uint32 uint64 : QueryBuffers ℕ → TypedQueryBuffers
  int8 int16 int32 int64 : QueryBuffers ℤ → TypedQueryBuffers
  float32 float64 : QueryBuffers ℕ → TypedQueryBuffers

-- `From<QueryBuffers<T>>`.
unfoldable pub of_buffers : (t : PhysicalType) → QueryBuffers (Elem t) → TypedQueryBuffers
of_buffers u8 value = TypedQueryBuffers.uint8 value
of_buffers u16 value = TypedQueryBuffers.uint16 value
of_buffers u32 value = TypedQueryBuffers.uint32 value
of_buffers u64 value = TypedQueryBuffers.uint64 value
of_buffers i8 value = TypedQueryBuffers.int8 value
of_buffers i16 value = TypedQueryBuffers.int16 value
of_buffers i32 value = TypedQueryBuffers.int32 value
of_buffers i64 value = TypedQueryBuffers.int64 value
of_buffers f32 value = TypedQueryBuffers.float32 value
of_buffers f64 value = TypedQueryBuffers.float64 value

-- `TryFrom<TypedQueryBuffers>` for `QueryBuffers<T>`.
unfoldable pub try_into :
    (t : PhysicalType) → TypedQueryBuffers → Result (Unit {0}) (QueryBuffers (Elem t))
try_into u8 (TypedQueryBuffers.uint8 value) = ok value
try_into u16 (TypedQueryBuffers.uint16 value) = ok value
try_into u32 (TypedQueryBuffers.uint32 value) = ok value
try_into u64 (TypedQueryBuffers.uint64 value) = ok value
try_into i8 (TypedQueryBuffers.int8 value) = ok value
try_into i16 (TypedQueryBuffers.int16 value) = ok value
try_into i32 (TypedQueryBuffers.int32 value) = ok value
try_into i64 (TypedQueryBuffers.int64 value) = ok value
try_into f32 (TypedQueryBuffers.float32 value) = ok value
try_into f64 (TypedQueryBuffers.float64 value) = ok value
try_into _ _ = err tt

-- The macro `typed_query_buffers_go` of one argument, and that of two.
unfoldable pub typed_query_buffers_go {ℓ} :
    {R : Type ℓ} → TypedQueryBuffers → ((t : PhysicalType) → QueryBuffers (Elem t) → R) → R
typed_query_buffers_go (TypedQueryBuffers.uint8 inner) go = go u8 inner
typed_query_buffers_go (TypedQueryBuffers.uint16 inner) go = go u16 inner
typed_query_buffers_go (TypedQueryBuffers.uint32 inner) go = go u32 inner
typed_query_buffers_go (TypedQueryBuffers.uint64 inner) go = go u64 inner
typed_query_buffers_go (TypedQueryBuffers.int8 inner) go = go i8 inner
typed_query_buffers_go (TypedQueryBuffers.int16 inner) go = go i16 inner
typed_query_buffers_go (TypedQueryBuffers.int32 inner) go = go i32 inner
typed_query_buffers_go (TypedQueryBuffers.int64 inner) go = go i64 inner
typed_query_buffers_go (TypedQueryBuffers.float32 inner) go = go f32 inner
typed_query_buffers_go (TypedQueryBuffers.float64 inner) go = go f64 inner

unfoldable pub typed_query_buffers_cmp {ℓ} :
    {R : Type ℓ}
    → TypedQueryBuffers
    → TypedQueryBuffers
    → ((t : PhysicalType) → QueryBuffers (Elem t) → QueryBuffers (Elem t) → Outcome R)
    → Outcome R
typed_query_buffers_cmp (TypedQueryBuffers.uint8 l) (TypedQueryBuffers.uint8 r) go = go u8 l r
typed_query_buffers_cmp (TypedQueryBuffers.uint16 l) (TypedQueryBuffers.uint16 r) go = go u16 l r
typed_query_buffers_cmp (TypedQueryBuffers.uint32 l) (TypedQueryBuffers.uint32 r) go = go u32 l r
typed_query_buffers_cmp (TypedQueryBuffers.uint64 l) (TypedQueryBuffers.uint64 r) go = go u64 l r
typed_query_buffers_cmp (TypedQueryBuffers.int8 l) (TypedQueryBuffers.int8 r) go = go i8 l r
typed_query_buffers_cmp (TypedQueryBuffers.int16 l) (TypedQueryBuffers.int16 r) go = go i16 l r
typed_query_buffers_cmp (TypedQueryBuffers.int32 l) (TypedQueryBuffers.int32 r) go = go i32 l r
typed_query_buffers_cmp (TypedQueryBuffers.int64 l) (TypedQueryBuffers.int64 r) go = go i64 l r
typed_query_buffers_cmp (TypedQueryBuffers.float32 l) (TypedQueryBuffers.float32 r) go = go f32 l r
typed_query_buffers_cmp (TypedQueryBuffers.float64 l) (TypedQueryBuffers.float64 r) go = go f64 l r
typed_query_buffers_cmp _ _ go = panic

unfoldable pub values_capacity : TypedQueryBuffers → ℕ
unfolding typed_query_buffers_go
values_capacity self = typed_query_buffers_go self (λ t qb. length (as_ref qb.values))

unfoldable pub cell_structure : TypedQueryBuffers → CellStructure
unfolding typed_query_buffers_go
cell_structure self = typed_query_buffers_go self (λ t qb. qb.cell_structure)

unfoldable pub validity : TypedQueryBuffers → Option (Buffer ℕ)
unfolding typed_query_buffers_go
validity self = typed_query_buffers_go self (λ t qb. qb.validity)

-- The method `borrow`.
unfoldable pub borrow_typed : TypedQueryBuffers → TypedQueryBuffers
unfolding typed_query_buffers_go of_buffers
borrow_typed self = typed_query_buffers_go self (λ t qb. of_buffers t (borrow qb))

-- A `Ref` to buffers is those buffers.
pub data RefTypedQueryBuffersMut : Type 0 where
  uint8 uint16 uint32 uint64 : QueryBuffersMut ℕ → RefTypedQueryBuffersMut
  int8 int16 int32 int64 : QueryBuffersMut ℤ → RefTypedQueryBuffersMut
  float32 float64 : QueryBuffersMut ℕ → RefTypedQueryBuffersMut

-- The macro `ref_typed_query_buffers_go`.
unfoldable pub ref_typed_query_buffers_go {ℓ} :
    {R : Type ℓ} → RefTypedQueryBuffersMut → ((t : PhysicalType) → QueryBuffersMut (Elem t) → R) → R
ref_typed_query_buffers_go (RefTypedQueryBuffersMut.uint8 inner) go = go u8 inner
ref_typed_query_buffers_go (RefTypedQueryBuffersMut.uint16 inner) go = go u16 inner
ref_typed_query_buffers_go (RefTypedQueryBuffersMut.uint32 inner) go = go u32 inner
ref_typed_query_buffers_go (RefTypedQueryBuffersMut.uint64 inner) go = go u64 inner
ref_typed_query_buffers_go (RefTypedQueryBuffersMut.int8 inner) go = go i8 inner
ref_typed_query_buffers_go (RefTypedQueryBuffersMut.int16 inner) go = go i16 inner
ref_typed_query_buffers_go (RefTypedQueryBuffersMut.int32 inner) go = go i32 inner
ref_typed_query_buffers_go (RefTypedQueryBuffersMut.int64 inner) go = go i64 inner
ref_typed_query_buffers_go (RefTypedQueryBuffersMut.float32 inner) go = go f32 inner
ref_typed_query_buffers_go (RefTypedQueryBuffersMut.float64 inner) go = go f64 inner

-- `From<Ref<QueryBuffersMut<T>>>`.
unfoldable pub of_ref : (t : PhysicalType) → QueryBuffersMut (Elem t) → RefTypedQueryBuffersMut
of_ref u8 value = RefTypedQueryBuffersMut.uint8 value
of_ref u16 value = RefTypedQueryBuffersMut.uint16 value
of_ref u32 value = RefTypedQueryBuffersMut.uint32 value
of_ref u64 value = RefTypedQueryBuffersMut.uint64 value
of_ref i8 value = RefTypedQueryBuffersMut.int8 value
of_ref i16 value = RefTypedQueryBuffersMut.int16 value
of_ref i32 value = RefTypedQueryBuffersMut.int32 value
of_ref i64 value = RefTypedQueryBuffersMut.int64 value
of_ref f32 value = RefTypedQueryBuffersMut.float32 value
of_ref f64 value = RefTypedQueryBuffersMut.float64 value

-- The method `as_shared`.
unfoldable pub typed_as_shared : RefTypedQueryBuffersMut → TypedQueryBuffers
unfolding ref_typed_query_buffers_go of_buffers
typed_as_shared self = ref_typed_query_buffers_go self (λ t qb. of_buffers t (as_shared qb))
