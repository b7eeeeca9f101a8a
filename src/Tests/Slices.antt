-- ===== src/Tests/Slices.antt =====
-- Typed ranges from bytes.
use tiledb_rs.Base.{◌≡◌, refl, List, [], ◌∷◌, arith, done, ok, err, Returns}
use tiledb_rs.Base.Int.{ℤ, pos, negsuc}
use tiledb_rs.Physical.{i16}
use tiledb_rs.Array.{fixed, var}
use tiledb_rs.Datatype.{int16, int32, physical_type}
use tiledb_rs.Range.{multi}
use tiledb_rs.Range.Multi.{of_slices}
use tiledb_rs.Range.Slices.{TypedRange, from_slices, check_slices, end_truncation}
use tiledb_rs.Range.Slices.Bytes.{memory}
use tiledb_rs.Range.Slices.Decode.{EndsAre, from_slices-memory, from_slices-Returns}

abbrev two_low : List ℤ
two_low = negsuc 0 ∷ pos 258 ∷ []

abbrev two_high : List ℤ
two_high = pos 0 ∷ negsuc 99 ∷ []

bytes_of_two : memory i16 two_low ≡ 255 ∷ 255 ∷ 2 ∷ 1 ∷ []
bytes_of_two = refl

read_two :
    from_slices int16 (fixed 2) (255 ∷ 255 ∷ 2 ∷ 1 ∷ []) (0 ∷ 0 ∷ 156 ∷ 255 ∷ [])
    ≡ done (ok (record { datatype = int16; range = multi (of_slices i16 two_low two_high) }))
unfolding from_slices tiledb_rs.Range.Slices.check_slices tiledb_rs.Datatype.Classes.size
    tiledb_rs.Range.Slices.read_values tiledb_rs.Range.Slices.of_values
    tiledb_rs.Range.Multi.try_from tiledb_rs.Range.Slices.from_raw_parts
    tiledb_rs.Range.Slices.of_bits tiledb_rs.Range.Slices.le_value
read_two = refl

from_slices-memory_example :
    (r : TypedRange) × (from_slices int16 (fixed 2) (memory i16 two_low) (memory i16 two_high)
      ≡ done (ok r))
    × (r.datatype ≡ int16)
    × EndsAre r.range i16 two_low two_high
unfolding physical_type
from_slices-memory_example =
    from_slices-memory int16 (fixed 2) two_low two_high (omega arith) (omega arith) (omega arith)
      refl refl

from_slices-Returns_example : Returns (from_slices int32 (fixed 3) (1 ∷ 2 ∷ 3 ∷ []) [])
from_slices-Returns_example = from_slices-Returns int32 (fixed 3) (1 ∷ 2 ∷ 3 ∷ []) [] (omega arith)

-- The error for truncated bytes of `end` has the length of `start`, 4, and not that of `end`, 3.
truncated_end :
    from_slices int32 var (1 ∷ 2 ∷ 3 ∷ 4 ∷ []) (1 ∷ 2 ∷ 3 ∷ [])
    ≡ done (err (end_truncation int32 4))
unfolding from_slices check_slices tiledb_rs.Datatype.Classes.size
truncated_end = refl
