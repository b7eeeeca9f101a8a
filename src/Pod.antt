-- ===== src/Pod.antt =====
-- tiledb/pod/src/array: arrays as plain values, from which the arrays of the C library are made, and
-- the metadata of tiledb/common/src/metadata.rs.
pub mod Enumeration
pub mod Metadata
pub mod Schema
