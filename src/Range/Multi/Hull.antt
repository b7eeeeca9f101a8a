-- ===== src/Range/Multi/Hull.antt =====
-- The checked construction, the union and the intersection of multiple-value ranges.
use tiledb_rs.Base.{
  ℕ, ◌^◌, ◌≤◌, ◌<◌, Ordering, ◌≡◌, ◌≢◌, ◌↔◌, ◌⊎◌, refl, true, false, ◌==◌, Bool, List, length,
  Option, none, some, arith, Outcome, done, panic, ◌>>=◌, ◌>>◌, assert, ok, inl, inr,
}
use tiledb_rs.Physical.{
  PhysicalType, u8, u16, u32, u64, i8, i16, i32, i64, f32, f64, Elem, FloatOrder, bits_cmp, bits_le,
  slice_cmp,
}
use tiledb_rs.Physical.Order.{bits_cmp-IsTotal, slice_cmp-IsTotal}
use tiledb_rs.Array.{CellValNum, fixed, var}
use tiledb_rs.Range.Interval.{
  Within, IsIntersection, Ends, intersection-IsIntersection, intersection-Ends,
}
use tiledb_rs.Range.Interval.Hull.{least, greatest, IsHull, least-greatest-IsHull}
use tiledb_rs.Range.Multi.{
  MultiValueRange, of_slices, num_values, cell_val_num, try_from, unwrap, union, rebuild, intersect,
  multi_value_range_cmp, cmp-of_slices,
}

-- `try_from` makes a range exactly from ends whose common length is the number of a fixed cell with
-- more than one value, for slices of fewer than 2 ^ 32 values.
pub try_from_iff :
    (t : PhysicalType) (c : CellValNum) (start end : List (Elem t)) (r : MultiValueRange)
    → length start < 2 ^ 32
    → length end < 2 ^ 32
    → (try_from t c start end ≡ ok r) ↔ (
        (r ≡ of_slices t start end)
        × (c ≡ fixed (length start))
        × (length end ≡ length start)
        × (length start ≢ 1))
unfolding try_from
try_from_iff t (fixed n) start end r h k = ground arith
try_from_iff t var start end r h k = ground arith

pub num_values-of_slices :
    (t : PhysicalType) (start end : List (Elem t))
    → num_values (of_slices t start end) ≡ length start
unfolding num_values
num_values-of_slices u8 start end = refl
num_values-of_slices u16 start end = refl
num_values-of_slices u32 start end = refl
num_values-of_slices u64 start end = refl
num_values-of_slices i8 start end = refl
num_values-of_slices i16 start end = refl
num_values-of_slices i32 start end = refl
num_values-of_slices i64 start end = refl
num_values-of_slices f32 start end = refl
num_values-of_slices f64 start end = refl

-- The length of the ends of a range that `try_from` makes.
abbrev pub IsLength : ℕ → Type 0
IsLength n = (2 ≤ n) × (n < 2 ^ 32)

cell_val_num-of_slices :
    (t : PhysicalType) (start end : List (Elem t))
    → IsLength (length start)
    → cell_val_num (of_slices t start end) ≡ done (fixed (length start))
unfolding cell_val_num
cell_val_num-of_slices t start end h = rw (num_values-of_slices t start end) (ground arith)

pub remade :
    (t : PhysicalType) (n : ℕ) (start end : List (Elem t))
    → IsLength n
    → length start ≡ n
    → length end ≡ n
    → unwrap (try_from t (fixed n) start end) ≡ done (of_slices t start end)
unfolding try_from
remade t n start end h p q = ground arith

module _ (fl : FloatOrder) where
  -- The union of two ranges of one type and one length, of at least 2 and fewer than 2 ^ 32 values as
  -- for every range that `try_from` makes, is a range of that type and length, and it is their hull.
  pub multi_union-IsHull :
      (t : PhysicalType) (n : ℕ) (ll lu rl ru : List (Elem t))
      → IsLength n
      → length ll ≡ n
      → length lu ≡ n
      → length rl ≡ n
      → length ru ≡ n
      → (lower upper : List (Elem t)) × (union fl (of_slices t ll lu) (of_slices t rl ru)
          ≡ done (of_slices t lower upper))
        × (length lower ≡ n)
        × (length upper ≡ n)
        × IsHull (slice_cmp (bits_cmp fl t)) ll lu rl ru lower upper
  unfolding union
  multi_union-IsHull t n ll lu rl ru h a b c d = (
    least cmp ll rl,
    greatest cmp lu ru,
    rw
        (
          num_values-of_slices t ll lu,
          num_values-of_slices t rl ru,
          same,
          cmp-of_slices t ll lu rl ru _ _,
          cell_val_num-of_slices t ll lu (ground arith),
          a,
        )
        (remade t n (least cmp ll rl) (greatest cmp lu ru) h (ground arith) (ground arith)),
    ground arith,
    ground arith,
    least-greatest-IsHull cmp (slice_cmp-IsTotal (bits_cmp fl t) (bits_cmp-IsTotal fl t)) ll lu rl
        ru,
  )
    where
      cmp : List (Elem t) → List (Elem t) → Ordering
      cmp = slice_cmp (bits_cmp fl t)

      same : (length ll == length rl) ≡ true
      same = ground arith

  -- The union of two ranges of one value each, which the public variants of `MultiValueRange` can
  -- hold and `try_from` refuses, panics.
  multi_union_single-panic :
      (t : PhysicalType) (ll lu rl ru : List (Elem t))
      → length ll ≡ 1
      → length rl ≡ 1
      → union fl (of_slices t ll lu) (of_slices t rl ru) ≡ panic
  unfolding union cell_val_num try_from
  multi_union_single-panic t ll lu rl ru a b =
      rw
        (
          num_values-of_slices t ll lu,
          num_values-of_slices t rl ru,
          a,
          b,
          cmp-of_slices t ll lu rl ru _ _,
        )
        refl

  -- What the intersection of two ranges of length `n` may return: a range of that length in order
  -- that holds exactly the cells that lie in both, or `None` where no cell lies in both. It may not
  -- panic.
  abbrev pub IsCommon :
      (t : PhysicalType) (n : ℕ) (ll lu rl ru : List (Elem t))
      → Outcome (Option MultiValueRange)
      → Type 0
  IsCommon t n ll lu rl ru (done (some r)) =
      (lower upper : List (Elem t)) × (r ≡ of_slices t lower upper)
      × (length lower ≡ n)
      × (length upper ≡ n)
      × (bits_le (slice_cmp (bits_cmp fl t)) lower upper ≡ true)
      × ((x : List (Elem t))
          → Within (slice_cmp (bits_cmp fl t)) lower upper x ↔ (
              Within (slice_cmp (bits_cmp fl t)) ll lu x
              × Within (slice_cmp (bits_cmp fl t)) rl ru x))
  IsCommon t n ll lu rl ru (done none) =
      (x : List (Elem t))
      → ¬ (Within (slice_cmp (bits_cmp fl t)) ll lu x × Within (slice_cmp (bits_cmp fl t)) rl ru x)
  IsCommon t n ll lu rl ru panic = ⊥

  rebuilt :
      (t : PhysicalType) (ll lu rl ru : List (Elem t))
      (found : Outcome (Option (List (Elem t) × List (Elem t))))
      → IsLength (length ll)
      → IsIntersection (slice_cmp (bits_cmp fl t)) ll lu rl ru found
      → Ends (λ end. length end ≡ length ll) found
      → IsCommon t (length ll) ll lu rl ru (found >>= rebuild fl t (of_slices t ll lu))
  unfolding rebuild
  rebuilt t ll lu rl ru (done none) h i e = i
  rebuilt t ll lu rl ru (done (some (lower, upper))) h i e =
      rw (cell_val_num-of_slices t ll lu h, remade t (length ll) lower upper h e.0 e.1)
        (lower, upper, refl, e.0, e.1, i.0, i.1)
  rebuilt t ll lu rl ru panic h i e = i

  -- The intersection of two ranges of one type and one length, of at least 2 and fewer than 2 ^ 32
  -- values as for every range that `try_from` makes, whose ends are in order, returns a range of
  -- that type and length, in order, that holds exactly the cells that lie in both, or `None` where
  -- no cell lies in both.
  pub multi_intersect-IsCommon :
      (t : PhysicalType) (ll lu rl ru : List (Elem t))
      → IsLength (length ll)
      → length lu ≡ length ll
      → length rl ≡ length ll
      → length ru ≡ length ll
      → bits_le (slice_cmp (bits_cmp fl t)) ll lu ≡ true
      → bits_le (slice_cmp (bits_cmp fl t)) rl ru ≡ true
      → IsCommon t (length ll) ll lu rl ru (intersect fl (of_slices t ll lu) (of_slices t rl ru))
  unfolding intersect
  multi_intersect-IsCommon t ll lu rl ru h b c d p q =
      rw
        (
          num_values-of_slices t ll lu,
          num_values-of_slices t rl ru,
          same,
          cmp-of_slices t ll lu rl ru _ _,
        )
        (rebuilt t ll lu rl ru _ h
          (intersection-IsIntersection cmp
            (slice_cmp-IsTotal (bits_cmp fl t) (bits_cmp-IsTotal fl t)) ll lu rl ru p q)
          (intersection-Ends cmp (λ end. length end ≡ length ll) ll lu rl ru refl b c d))
    where
      cmp : List (Elem t) → List (Elem t) → Ordering
      cmp = slice_cmp (bits_cmp fl t)

      same : (length ll == length rl) ≡ true
      same = ground arith

  cmp-mismatch :
      {R : Type 0} (s t : PhysicalType) (a b : List (Elem s)) (c d : List (Elem t))
      (f : (t : PhysicalType) → List (Elem t) → List (Elem t) → List (Elem t) → List (Elem t) → R)
      (other : R)
      → s ≢ t
      → multi_value_range_cmp (of_slices s a b) (of_slices t c d) f other ≡ other
  cmp-mismatch u8 u8 a b c d f other h = absurd (h refl)
  cmp-mismatch u16 u16 a b c d f other h = absurd (h refl)
  cmp-mismatch u32 u32 a b c d f other h = absurd (h refl)
  cmp-mismatch u64 u64 a b c d f other h = absurd (h refl)
  cmp-mismatch i8 i8 a b c d f other h = absurd (h refl)
  cmp-mismatch i16 i16 a b c d f other h = absurd (h refl)
  cmp-mismatch i32 i32 a b c d f other h = absurd (h refl)
  cmp-mismatch i64 i64 a b c d f other h = absurd (h refl)
  cmp-mismatch f32 f32 a b c d f other h = absurd (h refl)
  cmp-mismatch f64 f64 a b c d f other h = absurd (h refl)
  cmp-mismatch _ _ a b c d f other h = refl

  pub assert_panic : {A : Type 0} (b : Bool) (r : Outcome A) → r ≡ panic → (assert b >> r) ≡ panic
  assert_panic true r h = h
  assert_panic false r h = refl

  -- Ranges of different types or of different lengths have neither a union nor an intersection:
  -- both calls panic.
  pub multi_mismatch_panics :
      (s t : PhysicalType) (a b : List (Elem s)) (c d : List (Elem t))
      → (s ≢ t) ⊎ (length a ≢ length c)
      → (union fl (of_slices s a b) (of_slices t c d) ≡ panic)
        × (intersect fl (of_slices s a b) (of_slices t c d) ≡ panic)
  unfolding union intersect
  multi_mismatch_panics s t a b c d (inl h) = (
    assert_panic _ _ (cmp-mismatch s t a b c d _ _ h),
    assert_panic _ _ (cmp-mismatch s t a b c d _ _ h),
  )
  multi_mismatch_panics s t a b c d (inr h) = (
    rw (num_values-of_slices s a b, num_values-of_slices t c d, differ),
    rw (num_values-of_slices s a b, num_values-of_slices t c d, differ),
  )
    where
      differ : (length a == length c) ≡ false
      differ = ground arith
