-- ===== src/Range/Slices.antt =====
-- tiledb/common/src/range.rs: `TypedRange`, and its construction from slices of bytes. Memory is
-- read in little-endian order.
pub mod Bytes
pub mod Decode
use tiledb_rs.Base.{
  ℕ, zero, suc, ◌+◌, ◌-◌, ◌*◌, ◌/◌, ◌%◌, ◌^◌, ltb, ◌==◌, not, Bool, List, [], ◌∷◌, length, take,
  drop, if◌then◌else◌, Outcome, done, panic, ◌>>=◌, Result, ok, err, and_then, map_err,
}
use tiledb_rs.Base.Int.{ℤ, pos, negsuc}
use tiledb_rs.Physical.{PhysicalType, u8, u16, u32, u64, i8, i16, i32, i64, f32, f64, Elem, size_of}
use tiledb_rs.Array.{CellValNum, fixed, var as var_sized}
use tiledb_rs.Datatype.{Datatype, physical_type}
use tiledb_rs.Datatype.Classes.{size}
use tiledb_rs.Range.Single.{of_pair}
use tiledb_rs.Range.Multi.{MultiValueRangeError, try_from}
use tiledb_rs.Range.Var.{of_slices}
use tiledb_rs.Range.{Range, single, multi, var, cell_val_num}

pub record TypedRange : Type 0 where
  pub datatype : Datatype
  pub range : Range

-- `RangeFromSlicesError`.
pub data SlicesError : Type 0 where
  start_truncation end_truncation : Datatype → ℕ → SlicesError
  start_mismatch end_mismatch : ℕ → ℕ → SlicesError
  invalid_multi_value_range : MultiValueRangeError → SlicesError

-- The number whose bytes these are, the least first.
unfoldable pub le_value : List ℕ → ℕ
le_value [] = 0
le_value (b ∷ bs) = b + 256 * le_value bs

-- The value of the type with this bit pattern.
unfoldable pub of_bits : (t : PhysicalType) → ℕ → Elem t
of_bits u8 v = v
of_bits u16 v = v
of_bits u32 v = v
of_bits u64 v = v
of_bits i8 v = if ltb v (2 ^ 7) then pos v else negsuc (2 ^ 8 - 1 - v)
of_bits i16 v = if ltb v (2 ^ 15) then pos v else negsuc (2 ^ 16 - 1 - v)
of_bits i32 v = if ltb v (2 ^ 31) then pos v else negsuc (2 ^ 32 - 1 - v)
of_bits i64 v = if ltb v (2 ^ 63) then pos v else negsuc (2 ^ 64 - 1 - v)
of_bits f32 v = v
of_bits f64 v = v

-- `std::slice::from_raw_parts` at a number of values of the type. It requires memory that is aligned
-- for the type, which `from_slices` does not check; the model takes the memory to be aligned.
unfoldable pub from_raw_parts : (t : PhysicalType) → List ℕ → ℕ → List (Elem t)
from_raw_parts t bytes zero = []
from_raw_parts t bytes (suc n) =
    of_bits t (le_value (take (size_of t) bytes)) ∷ from_raw_parts t (drop (size_of t) bytes) n

-- `slice[0]`.
abbrev pub first {ℓ} : {A : Type ℓ} → List A → Outcome A
first [] = panic
first (x ∷ xs) = done x

-- The checks of `from_slices`. `EndTruncation` is given the length of `start`, as in the source.
unfoldable pub check_slices :
    Datatype → CellValNum → List ℕ → List ℕ → Result SlicesError (Unit {0})
check_slices d var_sized start end =
    if not ((length start % size d) == 0)
    then err (start_truncation d (length start))
    else if not ((length end % size d) == 0)
    then err (end_truncation d (length start))
    else ok tt
check_slices d (fixed cvn) start end =
    if not ((length start % size d) == 0)
    then err (start_truncation d (length start))
    else if not ((length end % size d) == 0)
    then err (end_truncation d (length start))
    else if not ((length start / size d) == cvn)
    then err (start_mismatch cvn (length start / size d))
    else if not ((length end / size d) == cvn)
    then err (end_mismatch cvn (length end / size d))
    else ok tt

-- The arm of the last `match` for a single value.
unfoldable pub of_single :
    (d : Datatype)
    → List (Elem (physical_type d))
    → List (Elem (physical_type d))
    → Outcome (Result SlicesError TypedRange)
of_single d start end = do
  low ← first start
  high ← first end
  done (ok (record { datatype = d; range = single (of_pair (physical_type d) low high) }))

-- The last `match`, on the values that were read.
unfoldable pub of_values :
    (d : Datatype)
    → CellValNum
    → List (Elem (physical_type d))
    → List (Elem (physical_type d))
    → Outcome (Result SlicesError TypedRange)
of_values d (fixed cvn) start end =
    if cvn == 1
    then of_single d start end
    else done (
        and_then
          (map_err invalid_multi_value_range (try_from (physical_type d) (fixed cvn) start end))
          λ r. ok (record { datatype = d; range = multi r }))
of_values d var_sized start end =
    done (ok (record { datatype = d; range = var (of_slices (physical_type d) start end) }))

-- What follows the checks.
unfoldable pub read_values :
    (d : Datatype) → CellValNum → List ℕ → List ℕ → Outcome (Result SlicesError TypedRange)
read_values d cvn start end =
    of_values d cvn (from_raw_parts (physical_type d) start (length start / size d))
      (from_raw_parts (physical_type d) end (length end / size d))

unfoldable pub from_slices :
    Datatype → CellValNum → List ℕ → List ℕ → Outcome (Result SlicesError TypedRange)
from_slices d cvn start end = elim (check_slices d cvn start end) [
  | ok checked ↦ read_values d cvn start end
  | err e ↦ done (err e)
]

abbrev pub typed_cell_val_num : TypedRange → Outcome CellValNum
typed_cell_val_num r = cell_val_num r.range
