-- ===== src/Tests/Range.antt =====
-- Ranges of the three kinds.
use tiledb_rs.Base.{
  ℕ, ◌+◌, ◌-◌, ◌^◌, ◌==◌, ◌≡◌, ◌↔◌, refl, List, [], ◌∷◌, none, some, true, if◌then◌else◌, arith,
  done, panic, ok, length,
}
use tiledb_rs.Base.Int.{ℤ, pos, negsuc, ◌+ℤ◌, ◌-ℤ◌, ◌*ℤ◌}
use tiledb_rs.Physical.{u8, u16, i32, i64, u64, f32, Elem, bits_cmp, slice_cmp}
use tiledb_rs.Array.{fixed, var as var_sized}
use tiledb_rs.Datatype.{Datatype, date_time_day, string_ascii}
use tiledb_rs.Range.{Range, single, multi, var, check_dimension_compatibility}
use tiledb_rs.Range.Integral.{Integral, physical, i128_from}
use tiledb_rs.Range.Interval.Hull.{IsHull}
use tiledb_rs.Range.Single.{of_pair, num_cells, union, intersect, eq_range}
use tiledb_rs.Range.Single.Count.{excess, num_cells_reversed}
use tiledb_rs.Range.Single.Hull.{union-IsHull, IsCommon, intersect-IsCommon, eq_range_iff}
use tiledb_rs.Range.Multi
use tiledb_rs.Range.Multi.{of_slices}
use tiledb_rs.Range.Multi.Rank.{rank}
use tiledb_rs.Range.Multi.Count.{IsCellCount, num_cells-IsCellCount}
use tiledb_rs.Range.Multi.Hull
use tiledb_rs.Range.Multi.Hull.{
  try_from_iff, multi_union-IsHull, multi_intersect-IsCommon, multi_mismatch_panics,
}
use tiledb_rs.Range.Var
use tiledb_rs.Range.Var.{of_slices as var_of_slices}
use tiledb_rs.Range.Var.Hull as VarHull
use tiledb_rs.Range.Var.Hull.{var_union-IsHull, var_intersect-IsCommon, slices}
use tiledb_rs.Range.Dimension.{Fits, check_dimension_compatibility_iff}
use tiledb_rs.Tests.Floats.{floats}

-- Two cells of two bytes each, 257 apart with both ends counted.
count_pairs : Multi.num_cells (of_slices u8 (0 ∷ 0 ∷ []) (1 ∷ 0 ∷ [])) ≡ done (some 257)
unfolding Multi.num_cells Multi.iter_factor ◌-ℤ◌ ◌+ℤ◌ Multi.fold_cells Multi.skip_equal
    tiledb_rs.Range.Integral.checked_mul ◌*ℤ◌ Multi.advance tiledb_rs.Range.Integral.u128_add
count_pairs = refl

-- The cells from (0, 1) to (2 ^ 63, 0) are 2 ^ 127 in number, which a `u128` holds, but the product
-- before the last difference is taken passes `i128::MAX`.
count_overflow : Multi.num_cells (of_slices u64 (0 ∷ 1 ∷ []) (2 ^ 63 ∷ 0 ∷ [])) ≡ done none
unfolding Multi.num_cells Multi.iter_factor ◌-ℤ◌ ◌+ℤ◌ Multi.fold_cells Multi.skip_equal
    tiledb_rs.Range.Integral.checked_mul ◌*ℤ◌ Multi.advance
count_overflow = refl

num_cells-IsCellCount_example :
    IsCellCount Integral.u8
      (rank Integral.u8 (0 ∷ 5 ∷ []))
      (rank Integral.u8 (1 ∷ 3 ∷ []))
      (Multi.num_cells (of_slices u8 (0 ∷ 5 ∷ []) (1 ∷ 3 ∷ [])))
num_cells-IsCellCount_example =
    num_cells-IsCellCount floats Integral.u8 (0 ∷ 5 ∷ []) (1 ∷ 3 ∷ []) (omega arith) (omega arith)
      refl (unfold slice_cmp in refl)

intersect-IsCommon_example :
    IsCommon floats i32
      (negsuc 4)
      (pos 3)
      (pos 1)
      (pos 9)
      (intersect floats (of_pair i32 (negsuc 4) (pos 3)) (of_pair i32 (pos 1) (pos 9)))
intersect-IsCommon_example =
    intersect-IsCommon floats i32 (negsuc 4) (pos 3) (pos 1) (pos 9) refl refl

multi_intersect-IsCommon_example :
    Hull.IsCommon floats u16 2 (1 ∷ 2 ∷ []) (5 ∷ 0 ∷ []) (3 ∷ 4 ∷ []) (8 ∷ 8 ∷ []) (
      Multi.intersect floats
        (of_slices u16 (1 ∷ 2 ∷ []) (5 ∷ 0 ∷ []))
        (of_slices u16 (3 ∷ 4 ∷ []) (8 ∷ 8 ∷ [])))
multi_intersect-IsCommon_example =
    multi_intersect-IsCommon floats u16 (1 ∷ 2 ∷ []) (5 ∷ 0 ∷ []) (3 ∷ 4 ∷ []) (8 ∷ 8 ∷ [])
      (omega arith) refl refl refl (unfold slice_cmp in refl) (unfold slice_cmp in refl)

var_intersect-IsCommon_example :
    VarHull.IsCommon floats u8 (1 ∷ []) (5 ∷ 0 ∷ []) (3 ∷ 4 ∷ []) (8 ∷ []) (
      Var.intersect floats
        (var_of_slices u8 (1 ∷ []) (5 ∷ 0 ∷ []))
        (var_of_slices u8 (3 ∷ 4 ∷ []) (8 ∷ [])))
var_intersect-IsCommon_example =
    var_intersect-IsCommon floats u8 (1 ∷ []) (5 ∷ 0 ∷ []) (3 ∷ 4 ∷ []) (8 ∷ [])
      (unfold slice_cmp in refl) (unfold slice_cmp in refl)

union-IsHull_example :
    (lower upper : ℤ) × (union floats (of_pair i64 (negsuc 4) (pos 3)) (of_pair i64 (pos 7) (pos 9))
      ≡ done (of_pair i64 lower upper))
    × IsHull (bits_cmp floats i64) (negsuc 4) (pos 3) (pos 7) (pos 9) lower upper
union-IsHull_example = union-IsHull floats i64 (negsuc 4) (pos 3) (pos 7) (pos 9)

var_union-IsHull_example :
    (lower upper : List (Elem u8)) × (Var.union floats
        (var_of_slices u8 (1 ∷ []) (5 ∷ 0 ∷ []))
        (var_of_slices u8 (1 ∷ 4 ∷ []) (8 ∷ []))
      ≡ done (var_of_slices u8 lower upper))
    × IsHull (slices floats u8) (1 ∷ []) (5 ∷ 0 ∷ []) (1 ∷ 4 ∷ []) (8 ∷ []) lower upper
var_union-IsHull_example = var_union-IsHull floats u8 (1 ∷ []) (5 ∷ 0 ∷ []) (1 ∷ 4 ∷ []) (8 ∷ [])

multi_union-IsHull_example :
    (lower upper : List (Elem u16)) × (Multi.union floats
        (of_slices u16 (1 ∷ 2 ∷ []) (5 ∷ 0 ∷ []))
        (of_slices u16 (3 ∷ 4 ∷ []) (8 ∷ 8 ∷ []))
      ≡ done (of_slices u16 lower upper))
    × (length lower ≡ 2)
    × (length upper ≡ 2)
    × IsHull
        (slice_cmp (bits_cmp floats u16))
        (1 ∷ 2 ∷ [])
        (5 ∷ 0 ∷ [])
        (3 ∷ 4 ∷ [])
        (8 ∷ 8 ∷ [])
        lower
        upper
multi_union-IsHull_example =
    multi_union-IsHull floats u16 2 (1 ∷ 2 ∷ []) (5 ∷ 0 ∷ []) (3 ∷ 4 ∷ []) (8 ∷ 8 ∷ [])
      (omega arith) refl refl refl refl

eq_range_iff_example :
    (eq_range (of_pair f32 1 2) (of_pair f32 1 3) ≡ true) ↔ (of_pair f32 1 2 ≡ of_pair f32 1 3)
eq_range_iff_example = eq_range_iff (of_pair f32 1 2) (of_pair f32 1 3)

abbrev low_bytes : List ℕ
low_bytes = 1 ∷ 2 ∷ []

abbrev high_bytes : List ℕ
high_bytes = 3 ∷ 4 ∷ []

-- A range whose ends are the wrong way round has a count, near 2 ^ 128.
num_cells_reversed_example : num_cells (of_pair i64 (pos 5) (pos 3)) ≡ (
    if excess (pos 5) (pos 3) == 1
    then panic
    else done (some (2 ^ 128 + 1 - excess (pos 5) (pos 3))))
num_cells_reversed_example =
    num_cells_reversed Integral.i64 (pos 5) (pos 3) (omega arith) (omega arith) (omega arith)

-- And panics where they differ by one.
reversed_by_one : num_cells (of_pair i64 (pos 1) (pos 0)) ≡ panic
unfolding num_cells ◌-ℤ◌
reversed_by_one = refl

check_dimension_compatibility_iff_example :
    (check_dimension_compatibility (single (of_pair i64 (pos 0) (pos 9))) date_time_day (fixed 1)
      ≡ ok tt)
    ↔ Fits (single (of_pair i64 (pos 0) (pos 9))) date_time_day (fixed 1)
check_dimension_compatibility_iff_example =
    check_dimension_compatibility_iff (single (of_pair i64 (pos 0) (pos 9))) date_time_day (fixed 1)

string_range :
    check_dimension_compatibility
      (var (var_of_slices u8 (97 ∷ []) (98 ∷ [])))
      string_ascii
      var_sized
    ≡ ok tt
unfolding check_dimension_compatibility tiledb_rs.Range.check_range tiledb_rs.Range.check_var
    tiledb_rs.Range.check_type tiledb_rs.Datatype.Classes.is_compatible_type
    tiledb_rs.Range.check_cells
string_range = refl
