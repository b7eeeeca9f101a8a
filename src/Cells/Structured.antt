-- ===== src/Cells/Structured.antt =====
-- test-utils/cells/src/lib.rs: `StructuredCells`, cells laid out as an array in row-major order, and
-- its method `slice` with the iterator `NextIndex` over the indices of a box.
-- `for_each` drives the iterator on fuel; without fuel left it answers `none`.
pub mod Odometer
pub mod Box
pub mod Slice
pub mod Visits
use tiledb_rs.Base.{
  ℕ, zero, suc, ◌+◌, ◌*◌, ltb, ◌==◌, Bool, true, false, not, Option, none, some, List, [], ◌∷◌, map,
  length, if◌then◌else◌, Outcome, done, ◌>>=◌, ◌>>◌, assert,
}
use tiledb_rs.Base.Map.{index, set_elem}
use tiledb_rs.Cells.{Cells, len, filter}
use tiledb_rs.Cells.Groups.{BitSet}

pub record StructuredCells : Type 0 where
  pub dimensions : List ℕ
  pub cells : Cells

-- `iter().product()`.
abbrev pub product : List ℕ → ℕ
product [] = 1
product (d ∷ ds) = d * product ds

unfoldable pub new : List ℕ → Cells → Outcome StructuredCells
new dimensions cells = do
  n ← len cells
  assert (product dimensions == n)
  done (record { dimensions = dimensions; cells = cells })

abbrev pub num_dimensions : StructuredCells → ℕ
num_dimensions self = length self.dimensions

abbrev pub dimension_len : StructuredCells → ℕ → Outcome ℕ
dimension_len self d = index self.dimensions d

abbrev pub into_inner : StructuredCells → Cells
into_inner self = self.cells

-- `std::ops::Range<usize>`: its start and its end.
abbrev pub Span : Type 0
Span = ℕ × ℕ

-- `Range::is_empty`.
abbrev pub is_empty_span : Span → Bool
is_empty_span (first, past) = not (ltb first past)

-- `NextIndex::new`: the cursors.
unfoldable pub first_cursors : List Span → List Span → Option (List ℕ)
first_cursors ranges [] = some (map (λ r. r.0) ranges)
first_cursors ranges (r ∷ rs) =
    let rest = first_cursors ranges rs in if is_empty_span r then none else rest

-- The loop of `NextIndex::compute`, with the dimensions below `d` left: `index` and `scale`.
unfoldable pub compute_loop : (dimensions cursors : List ℕ) (d i scale : ℕ) → Outcome (ℕ × ℕ)
compute_loop dimensions cursors zero i scale = done (i, scale)
compute_loop dimensions cursors (suc d) i scale = do
  c ← index cursors d
  n ← index dimensions d
  compute_loop dimensions cursors d (i + c * scale) (scale * n)

unfoldable pub compute : (dimensions cursors : List ℕ) → Outcome ℕ
compute dimensions cursors = do
  (i, scale) ← compute_loop dimensions cursors (length dimensions) 0 1
  done i

-- The loop of `NextIndex::advance`, with the dimensions below `d` left: whether it returned, and
-- the cursors.
unfoldable pub advance_loop : List Span → (d : ℕ) → List ℕ → Outcome (Bool × List ℕ)
advance_loop ranges zero cursors = done (false, cursors)
advance_loop ranges (suc d) cursors = do
  c ← index cursors d
  r ← index ranges d
  let rest = advance_loop ranges d (set_elem cursors d (r.0))
  if ltb (c + 1) (r.1) then done (true, set_elem cursors d (c + 1)) else rest

unfoldable pub advance : List ℕ → List Span → List ℕ → Outcome (Option (List ℕ))
advance dimensions ranges cursors = do
  (returned, moved) ← advance_loop ranges (length dimensions) cursors
  done (if returned then some moved else none)

module _ (bits : BitSet) (dimensions : List ℕ) (ranges : List Span) where
  -- `for_each(|idx| v.set(idx))`, by `NextIndex::next`.
  unfoldable pub for_each : (fuel : ℕ) → Option (List ℕ) → bits.Set → Outcome (Option bits.Set)
  for_each zero cursors v = done none
  for_each (suc fuel) none v = done (some v)
  for_each (suc fuel) (some cursors) v = do
    i ← compute dimensions cursors
    next ← advance dimensions ranges cursors
    for_each fuel next (bits.set v i)

-- The cells that are in the set.
unfoldable pub filter_set : (bits : BitSet) → StructuredCells → bits.Set → Outcome StructuredCells
filter_set bits self v = do
  cells ← filter self.cells (bits.test v)
  done (record { dimensions = self.dimensions; cells = cells })

unfoldable pub slice :
    BitSet → (fuel : ℕ) → StructuredCells → List Span → Outcome (Option StructuredCells)
slice bits fuel self slices = do
  assert (length slices == length self.dimensions)
  n ← len self.cells
  v ← for_each bits self.dimensions slices fuel (first_cursors slices slices) (bits.new_bitset n)
  elim v [ none ↦ done none | some v ↦ filter_set bits self v >>= (λ cells. done (some cells)) ]
