-- ===== src/Range/Single/Hull.antt =====
-- The union and the intersection of two single-value ranges.
use tiledb_rs.Base.{
  Ordering, ◌≡◌, ◌≢◌, ◌↔◌, refl, true, Option, none, some, arith, Outcome, done, panic, ◌>>=◌,
}
use mathlib.Core.Path.{ap₂}
use tiledb_rs.Base.Order.{IsTotal}
use tiledb_rs.Physical.{
  PhysicalType, u8, u16, u32, u64, i8, i16, i32, i64, f32, f64, Elem, FloatOrder, bits_cmp, bits_le,
}
use tiledb_rs.Physical.Order.{bits_cmp-IsTotal}
use tiledb_rs.Range.Interval.{Within, IsIntersection, intersection-IsIntersection}
use tiledb_rs.Range.Interval.Hull.{
  min_by, max_by, IsHull, min_by-least, max_by-greatest, min_by_comm, max_by_comm,
  least-greatest-IsHull,
}
use tiledb_rs.Range.Single.{
  SingleValueRange, uint8, uint16, uint32, uint64, int8, int16, int32, int64, float32, float64,
  of_pair, of_ends, union, intersect, eq_range, cmp-of_pair,
}

module _ (fl : FloatOrder) where
  -- The union of two ranges of one type is their hull: a range contains it exactly if it contains
  -- both.
  pub union-IsHull :
      (t : PhysicalType) (ll lu rl ru : Elem t)
      → (lower upper : Elem t) × (union fl (of_pair t ll lu) (of_pair t rl ru)
          ≡ done (of_pair t lower upper))
        × IsHull (bits_cmp fl t) ll lu rl ru lower upper
  unfolding union
  union-IsHull t ll lu rl ru = (
    min_by cmp ll rl,
    max_by cmp lu ru,
    cmp-of_pair t ll lu rl ru _ _,
    rw (min_by-least cmp o ll rl, max_by-greatest cmp o lu ru)
        (least-greatest-IsHull cmp o ll lu rl ru),
  )
    where
      cmp : Elem t → Elem t → Ordering
      cmp = bits_cmp fl t

      o : IsTotal cmp
      o = bits_cmp-IsTotal fl t

  -- The union does not depend on the order of the two ranges, also where it panics.
  pub union_comm : (a b : SingleValueRange) → union fl a b ≡ union fl b a
  unfolding union
  union_comm (uint8 ls le) (uint8 rs re) =
      ap₂ (λ low high. done (uint8 low high)) (min_by_comm _ (bits_cmp-IsTotal fl u8) ls rs)
        (max_by_comm _ (bits_cmp-IsTotal fl u8) le re)
  union_comm (uint16 ls le) (uint16 rs re) =
      ap₂ (λ low high. done (uint16 low high)) (min_by_comm _ (bits_cmp-IsTotal fl u16) ls rs)
        (max_by_comm _ (bits_cmp-IsTotal fl u16) le re)
  union_comm (uint32 ls le) (uint32 rs re) =
      ap₂ (λ low high. done (uint32 low high)) (min_by_comm _ (bits_cmp-IsTotal fl u32) ls rs)
        (max_by_comm _ (bits_cmp-IsTotal fl u32) le re)
  union_comm (uint64 ls le) (uint64 rs re) =
      ap₂ (λ low high. done (uint64 low high)) (min_by_comm _ (bits_cmp-IsTotal fl u64) ls rs)
        (max_by_comm _ (bits_cmp-IsTotal fl u64) le re)
  union_comm (int8 ls le) (int8 rs re) =
      ap₂ (λ low high. done (int8 low high)) (min_by_comm _ (bits_cmp-IsTotal fl i8) ls rs)
        (max_by_comm _ (bits_cmp-IsTotal fl i8) le re)
  union_comm (int16 ls le) (int16 rs re) =
      ap₂ (λ low high. done (int16 low high)) (min_by_comm _ (bits_cmp-IsTotal fl i16) ls rs)
        (max_by_comm _ (bits_cmp-IsTotal fl i16) le re)
  union_comm (int32 ls le) (int32 rs re) =
      ap₂ (λ low high. done (int32 low high)) (min_by_comm _ (bits_cmp-IsTotal fl i32) ls rs)
        (max_by_comm _ (bits_cmp-IsTotal fl i32) le re)
  union_comm (int64 ls le) (int64 rs re) =
      ap₂ (λ low high. done (int64 low high)) (min_by_comm _ (bits_cmp-IsTotal fl i64) ls rs)
        (max_by_comm _ (bits_cmp-IsTotal fl i64) le re)
  union_comm (float32 ls le) (float32 rs re) =
      ap₂ (λ low high. done (float32 low high)) (min_by_comm _ (bits_cmp-IsTotal fl f32) ls rs)
        (max_by_comm _ (bits_cmp-IsTotal fl f32) le re)
  union_comm (float64 ls le) (float64 rs re) =
      ap₂ (λ low high. done (float64 low high)) (min_by_comm _ (bits_cmp-IsTotal fl f64) ls rs)
        (max_by_comm _ (bits_cmp-IsTotal fl f64) le re)
  union_comm _ _ = refl

  -- What the intersection of two ranges may return: a range in order that holds exactly the values
  -- that lie in both, or `None` where no value lies in both. It may not panic.
  abbrev pub IsCommon :
      (t : PhysicalType) (ll lu rl ru : Elem t) → Outcome (Option SingleValueRange) → Type 0
  IsCommon t ll lu rl ru (done (some r)) =
      (lower upper : Elem t) × (r ≡ of_pair t lower upper)
      × (bits_le (bits_cmp fl t) lower upper ≡ true)
      × ((x : Elem t)
          → Within (bits_cmp fl t) lower upper x
            ↔ (Within (bits_cmp fl t) ll lu x × Within (bits_cmp fl t) rl ru x))
  IsCommon t ll lu rl ru (done none) =
      (x : Elem t) → ¬ (Within (bits_cmp fl t) ll lu x × Within (bits_cmp fl t) rl ru x)
  IsCommon t ll lu rl ru panic = ⊥

  rebuilt :
      (t : PhysicalType) (ll lu rl ru : Elem t) (found : Outcome (Option (Elem t × Elem t)))
      → IsIntersection (bits_cmp fl t) ll lu rl ru found
      → IsCommon t ll lu rl ru (found >>= λ common. done (of_ends t common))
  rebuilt t ll lu rl ru (done none) h = h
  rebuilt t ll lu rl ru (done (some (lower, upper))) h = (lower, upper, refl, h.0, h.1)
  rebuilt t ll lu rl ru panic h = h

  -- The intersection of two ranges of one type whose ends are in order returns a range in order
  -- that holds exactly the values that lie in both, or `None` where no value lies in both.
  pub intersect-IsCommon :
      (t : PhysicalType) (ll lu rl ru : Elem t)
      → bits_le (bits_cmp fl t) ll lu ≡ true
      → bits_le (bits_cmp fl t) rl ru ≡ true
      → IsCommon t ll lu rl ru (intersect fl (of_pair t ll lu) (of_pair t rl ru))
  unfolding intersect
  intersect-IsCommon t ll lu rl ru p q = rw (cmp-of_pair t ll lu rl ru _ _) (
      rebuilt t ll lu rl ru _
        (intersection-IsIntersection (bits_cmp fl t) (bits_cmp-IsTotal fl t) ll lu rl ru p q))

  -- Ranges of different types have neither a union nor an intersection: both calls panic.
  pub mismatch_panics :
      (s t : PhysicalType) (a b : Elem s) (c d : Elem t)
      → s ≢ t
      → (union fl (of_pair s a b) (of_pair t c d) ≡ panic)
        × (intersect fl (of_pair s a b) (of_pair t c d) ≡ panic)
  unfolding union intersect
  mismatch_panics u8 u8 a b c d h = absurd (h refl)
  mismatch_panics u16 u16 a b c d h = absurd (h refl)
  mismatch_panics u32 u32 a b c d h = absurd (h refl)
  mismatch_panics u64 u64 a b c d h = absurd (h refl)
  mismatch_panics i8 i8 a b c d h = absurd (h refl)
  mismatch_panics i16 i16 a b c d h = absurd (h refl)
  mismatch_panics i32 i32 a b c d h = absurd (h refl)
  mismatch_panics i64 i64 a b c d h = absurd (h refl)
  mismatch_panics f32 f32 a b c d h = absurd (h refl)
  mismatch_panics f64 f64 a b c d h = absurd (h refl)
  mismatch_panics _ _ a b c d h = (refl, refl)

-- `==` on ranges is equality: of the types and of both ends, bit for bit.
pub eq_range_iff : (a b : SingleValueRange) → (eq_range a b ≡ true) ↔ (a ≡ b)
unfolding eq_range
eq_range_iff (uint8 ls le) (uint8 rs re) = ground arith
eq_range_iff (uint16 ls le) (uint16 rs re) = ground arith
eq_range_iff (uint32 ls le) (uint32 rs re) = ground arith
eq_range_iff (uint64 ls le) (uint64 rs re) = ground arith
eq_range_iff (int8 ls le) (int8 rs re) = ground arith
eq_range_iff (int16 ls le) (int16 rs re) = ground arith
eq_range_iff (int32 ls le) (int32 rs re) = ground arith
eq_range_iff (int64 ls le) (int64 rs re) = ground arith
eq_range_iff (float32 ls le) (float32 rs re) = ground arith
eq_range_iff (float64 ls le) (float64 rs re) = ground arith
eq_range_iff _ _ = ground arith
