-- ===== src/Tests.antt =====
-- Runs on concrete values, and each theorem with hypotheses applied to some.
mod Array
mod Buffers
mod Cells
mod Condition
mod Datatype
mod Domain
mod Expressions
mod Floats
mod Json
mod Numbers
mod Physical
mod Range
mod Schema
mod Slices
mod Subarrays
mod Subset
mod Writes
