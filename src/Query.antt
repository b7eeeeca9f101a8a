-- ===== src/Query.antt =====
-- Queries of tiledb/api/src/query and tiledb/pod/src/query, as far as they need no C library: the
-- buffers of the values of a field, how cells are laid out in them and read from them, and the
-- ranges of a subarray.
pub mod Buffer
pub mod BufferMut
pub mod Input
pub mod Output
pub mod Scratch
pub mod Subarray
pub mod Typed
