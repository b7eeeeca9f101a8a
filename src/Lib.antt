-- ===== src/Lib.antt =====
-- Verification of the core data model of the tiledb-rs crates: the logical and physical types of
-- cells, the ranges of dimensions and cells over them, the constraints of dimensions, query
-- conditions, the buffers and subarrays of queries, filters, the plain data of a schema, and the
-- cells that tests write and compare.
--
-- The parts and how they interact:
-- - Base: what the other modules share. Base/Tests has Boolean tests on numbers, Base/Lists lists
--   over native numbers, Base/Failing the outcomes of a call (`Outcome`: it returns or panics) and
--   `Result`, Base/Int integers, Base/Order total orders given by a comparison, Base/Weak orders in
--   which different records can be equal, Base/Vectors vectors that are allocated and resized,
--   Base/Table a `match` on constants as a table, Base/Map a
--   `HashMap` as the list of its entries.
-- - Physical (tiledb/common/src/datatype/physical.rs): the primitive types, `BitsEq`, `BitsOrd` and
--   `PhysicalValue`. A value of an unsigned type is a natural number, of a signed type an integer,
--   of a float type its bit pattern. `total_cmp` of the standard library is the parameter
--   `FloatOrder`, with its documented law that it is a total order on bit patterns.
-- - Datatype (tiledb/common/src/datatype/mod.rs and logical.rs): `Datatype`, the classes of types
--   (Classes), the codes of the C interface (Codes), the names (Names). `physical_type` is the type
--   to which `physical_type_go` binds its name.
-- - Array (tiledb/common/src/array/mod.rs, tiledb/common/src/vfs.rs): `CellValNum` and the
--   enumerations with their codes. Array/Constraints (tiledb/common/src/array/dimension.rs):
--   `DimensionConstraints`, which use the types above and give ranges as their domains.
-- - Range (tiledb/common/src/range.rs): Range/Interval has the function `intersection` and the ends
--   that the `union` methods choose; Range/Single, Range/Multi and Range/Var the three kinds of
--   ranges, of one value, of a fixed number of values and of any number; Range/Integral the
--   `i128` and `u128` arithmetic of the cell counts; Range the enumeration `Range` and its check
--   against a dimension; Range/Slices `TypedRange::from_slices`; Range/Domain `NonEmptyDomain`.
-- - Condition (tiledb/api/src/query/condition/mod.rs): literals, set members, and
--   `SetMembershipPredicate::build` up to its call of the C library, whose arguments are the result.
--   Condition/Tree has the expressions and `QueryConditionExpr::build`; the functions of the C
--   library are the parameter `ConditionApi`, whose calls may fail. Condition/Tree/Meaning says what
--   an expression says of a cell, and has the parameter `Documented`: what is documented of the calls
--   that succeed, for a set only where the sizes that the library is given are those of its data and
--   its offsets.
-- - Numbers (tiledb/utils/src/numbers.rs): the neighbours of an integer in its type.
-- - Subset (tiledb/utils/src/option.rs): `OptionSubset` on options, slices and `Datatype`;
--   Subset/Json on JSON values, with the numbers of the crate serde_json as a parameter.
-- - Cells (test-utils/cells/src): Cells/Field is `FieldData` of field.rs with the macros that choose
--   a branch by its type, Cells/Field/Methods its methods. Cells is the type `Cells` of lib.rs and
--   the methods that look at fields one by one; Cells/Ordered those that compare records by keys
--   and sort them; Cells/Groups those that look for equal records; Cells/Structured is
--   `StructuredCells` with the iterator `NextIndex`; Cells/Write the inputs of write/mod.rs, whose
--   domains are ranges. Cells/Shape has what holds of cells whose fields have one length. The set
--   of bits of the crate proptest is the parameter `BitSet`.
-- - Query: Query/Buffer, Query/BufferMut and Query/Typed are tiledb/api/src/query/buffer/mod.rs:
--   buffers that are borrowed, owned or boxed, the structure of cells over them, and the choice by
--   type. Query/Input (tiledb/api/src/query/write/input/mod.rs) makes such buffers from the cells to
--   write; Query/Output (tiledb/api/src/query/read/output/mod.rs) iterates over the cells read, and
--   Query/Scratch has the space that a read fills, with the allocators that grow it. Query/Subarray
--   (tiledb/pod/src/query/subarray.rs) is `SubarrayData`, whose ranges are those of Range.
-- - Filter (tiledb/common/src/filter): filter data, its codes and the type that a filter gives.
-- - Pod: Pod/Metadata (tiledb/common/src/metadata.rs) has metadata values; Pod/Enumeration
--   (tiledb/pod/src/array/enumeration/mod.rs) enumerations and their records; Pod/Schema
--   (tiledb/pod/src/array/schema/mod.rs with domain/mod.rs, dimension/mod.rs, attribute/mod.rs, and
--   tiledb/common/src/key.rs) schemas, their fields and their cell counts.
-- - Tests: runs on concrete values.
--
-- The macros that choose a branch by type (`physical_value_go`, `single_value_range_go`,
-- `multi_value_range_cmp`, `dimension_constraints_go` and the like) are functions that take the
-- branch as a function of the type. The method `intersection` of each kind of range is called
-- `intersect` here, since the free function has the other name. A conversion `From` of the type `T`
-- is a function of the type and the value (`of_pair`, `of_slices`, `of_elem`, `of_bounds`). An
-- operation that overflows panics, as in a build with overflow checks. `usize` has 64 bits.
-- The bytes that `from_slices` reads are aligned for their type.
-- A loop over a list or a range of numbers is recursion on the list or on the rounds that are left.
-- The iterator of `StructuredCells::slice` runs on fuel; the number of coordinates in the box, and
-- one more, is enough. `slice::sort_by` is an insertion sort, since its documentation says that it
-- is stable. A `HashMap` iterates over its entries in the order of the list; the reserved word
-- `data`, the name of a field of the write inputs, is `cells` here.
-- The product of the ranges of a subarray, of the crate itertools, is the parameter
-- `cartesian_product`, with what is documented of it; `String::from_utf8_lossy` is a parameter too.
-- A vector whose allocation would pass `isize::MAX` bytes panics. An iterator that is collected runs
-- on fuel, one more than its items, which is enough. A field named by a reserved word, as `data`, is
-- `values` in the buffers, `bytes` in an enumeration and `fill` in the fill value of an attribute.
--
-- Not modelled: hashing, the conversion of a range to a `RangeInclusive` (third-party traits), the
-- generators of random values, the views of cells (their comparison uses the equality of floats),
-- the printed forms, `query_buffers` of `QueryBuffers` (its slice has not the length of the buffer), the conversions
-- to Arrow, and the rest of tiledb/api (arrays, queries, aggregates, the callbacks of a read),
-- whose results are those of the C library that it calls.
pub mod Array
pub mod Base
pub mod Cells
pub mod Condition
pub mod Datatype
pub mod Filter
pub mod Numbers
pub mod Physical
pub mod Pod
pub mod Query
pub mod Range
pub mod Subset
pub mod Tests
