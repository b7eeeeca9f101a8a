-- ===== src/Query/Typed/Types.antt =====
-- Typed buffers are the buffers of exactly one type, and what is read of them is read of those.
use tiledb_rs.Base.{◌≡◌, ◌↔◌, refl, ok, arith}
use tiledb_rs.Physical.{PhysicalType, u8, Elem}
use tiledb_rs.Query.Buffer.{QueryBuffers, borrow}
use tiledb_rs.Query.Typed.{TypedQueryBuffers, of_buffers, try_into, borrow_typed}

-- Typed buffers are taken back as buffers of a type exactly if they were made from those.
pub try_into_iff :
    (t : PhysicalType) (b : TypedQueryBuffers) (qb : QueryBuffers (Elem t))
    → (try_into t b ≡ ok qb) ↔ (b ≡ of_buffers t qb)
unfolding try_into of_buffers
try_into_iff u8 (TypedQueryBuffers.uint8 _) qb = ground arith
try_into_iff _ _ qb = ground arith

-- Borrowing typed buffers keeps their type.
pub borrow_typed-of_buffers :
    (t : PhysicalType) (qb : QueryBuffers (Elem t))
    → borrow_typed (of_buffers t qb) ≡ of_buffers t (borrow qb)
unfolding borrow_typed
borrow_typed-of_buffers u8 qb = refl
borrow_typed-of_buffers _ qb = refl
