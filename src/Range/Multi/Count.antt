-- ===== src/Range/Multi/Count.antt =====
-- The number of cells of a multiple-value range, by the ranks of its ends.
use tiledb_rs.Base.{
  ℕ, ◌+◌, ◌^◌, ◌≤◌, ◌<◌, ◌≡◌, List, length, arith, true, Option, none, some, Outcome, done, panic,
  ◌>>=◌,
}
use tiledb_rs.Base.Int.{ℤ, pos, negsuc}
use tiledb_rs.Physical.{Elem, FloatOrder, bits_cmp, slice_cmp, bits_le}
use tiledb_rs.Range.Integral.{Integral, physical, u128_add}
use tiledb_rs.Range.Multi.{of_slices, num_cells, zip, skip_equal, fold_cells, count}
use tiledb_rs.Range.Multi.Rank.{width, rank, AllIn, slice_cmp-rank}
use tiledb_rs.Range.Multi.Fold.{IsSpan, iter_factor-width, skip_equal-IsSpan}

num_cells-of_slices :
    (t : Integral) (ls us : List (Elem (physical t)))
    → num_cells (of_slices (physical t) ls us)
      ≡ (fold_cells t (pos (width t)) (pos 0) (skip_equal (physical t) (zip ls us)) >>= count)
unfolding num_cells
num_cells-of_slices Integral.u8 ls us = rw (iter_factor-width Integral.u8)
num_cells-of_slices Integral.u16 ls us = rw (iter_factor-width Integral.u16)
num_cells-of_slices Integral.u32 ls us = rw (iter_factor-width Integral.u32)
num_cells-of_slices Integral.u64 ls us = rw (iter_factor-width Integral.u64)
num_cells-of_slices Integral.i8 ls us = rw (iter_factor-width Integral.i8)
num_cells-of_slices Integral.i16 ls us = rw (iter_factor-width Integral.i16)
num_cells-of_slices Integral.i32 ls us = rw (iter_factor-width Integral.i32)
num_cells-of_slices Integral.i64 ls us = rw (iter_factor-width Integral.i64)

-- What `num_cells` may return on ends whose ranks are `low` and `high`: the number of ranks from
-- `low` to `high`, or `None` where that number is within a width of 2 ^ 127 or above. It may not
-- panic.
abbrev pub IsCellCount : Integral → ℕ → ℕ → Outcome (Option ℕ) → Type 0
IsCellCount t low high (done (some n)) = (low + n ≡ high + 1) × (n ≤ 2 ^ 127)
IsCellCount t low high (done none) = 2 ^ 127 + low < high + width t
IsCellCount t low high panic = ⊥

counted :
    (t : Integral) (low high : ℕ) (r : Outcome (Option ℤ))
    → IsSpan t low high r
    → IsCellCount t low high (r >>= count)
unfolding u128_add
counted t low high (done none) h = h
counted t low high (done (some (pos z))) (n, e, sum, fits) = ground arith
counted t low high (done (some (negsuc z))) (n, e, sum, fits) = ground arith
counted t low high panic h = h

-- On ends of one length that hold values of their integral type and are in order, `num_cells`
-- never panics: it returns the number of cells from the first end to the last in the order of
-- `bits_cmp`, or `None` where that number is so large that it is within one width of 2 ^ 127 or
-- above.
pub num_cells-IsCellCount :
    (fl : FloatOrder) (t : Integral) (start end : List (Elem (physical t)))
    → AllIn t start
    → AllIn t end
    → length start ≡ length end
    → bits_le (slice_cmp (bits_cmp fl (physical t))) start end ≡ true
    → IsCellCount t (rank t start) (rank t end) (num_cells (of_slices (physical t) start end))
num_cells-IsCellCount fl t start end hs he k h = rw (num_cells-of_slices t start end) (
    counted t (rank t start) (rank t end) _ (
      skip_equal-IsSpan t 0 start end hs he k
        (ground (arith, slice_cmp-rank fl t start end hs he k))))
