-- ===== src/Range/Var/Hull.antt =====
-- The union and the intersection of two variable-length ranges.
use tiledb_rs.Base.{
  Ordering, ◌≡◌, ◌≢◌, ◌↔◌, refl, true, List, Option, none, some, Outcome, done, panic, ◌>>=◌,
}
use tiledb_rs.Base.Order.{IsTotal}
use tiledb_rs.Physical.{
  PhysicalType, u8, u16, u32, u64, i8, i16, i32, i64, f32, f64, Elem, FloatOrder, bits_cmp, bits_le,
  slice_cmp,
}
use tiledb_rs.Physical.Order.{bits_cmp-IsTotal, slice_cmp-IsTotal}
use tiledb_rs.Range.Interval.{Within, IsIntersection, intersection-IsIntersection}
use tiledb_rs.Range.Interval.Hull.{least, greatest, IsHull, least-greatest-IsHull}
use tiledb_rs.Range.Var.{VarValueRange, of_slices, of_ends, union, intersect, cmp-of_slices}

module _ (fl : FloatOrder) where
  -- The comparison of slices of a type.
  abbrev pub slices : (t : PhysicalType) → List (Elem t) → List (Elem t) → Ordering
  slices t = slice_cmp (bits_cmp fl t)

  slices-IsTotal : (t : PhysicalType) → IsTotal (slices t)
  slices-IsTotal t = slice_cmp-IsTotal (bits_cmp fl t) (bits_cmp-IsTotal fl t)

  -- The union of two ranges of one type, of whatever lengths, is their hull.
  pub var_union-IsHull :
      (t : PhysicalType) (ll lu rl ru : List (Elem t))
      → (lower upper : List (Elem t)) × (union fl (of_slices t ll lu) (of_slices t rl ru)
          ≡ done (of_slices t lower upper))
        × IsHull (slices t) ll lu rl ru lower upper
  unfolding union
  var_union-IsHull t ll lu rl ru = (
    least (slices t) ll rl,
    greatest (slices t) lu ru,
    cmp-of_slices t ll lu rl ru _ _,
    least-greatest-IsHull (slices t) (slices-IsTotal t) ll lu rl ru,
  )

  -- What the intersection of two ranges may return: a range in order that holds exactly the values
  -- that lie in both, or `None` where no value lies in both. It may not panic.
  abbrev pub IsCommon :
      (t : PhysicalType) (ll lu rl ru : List (Elem t)) → Outcome (Option VarValueRange) → Type 0
  IsCommon t ll lu rl ru (done (some r)) =
      (lower upper : List (Elem t)) × (r ≡ of_slices t lower upper)
      × (bits_le (slices t) lower upper ≡ true)
      × ((x : List (Elem t))
          → Within (slices t) lower upper x
            ↔ (Within (slices t) ll lu x × Within (slices t) rl ru x))
  IsCommon t ll lu rl ru (done none) =
      (x : List (Elem t)) → ¬ (Within (slices t) ll lu x × Within (slices t) rl ru x)
  IsCommon t ll lu rl ru panic = ⊥

  rebuilt :
      (t : PhysicalType) (ll lu rl ru : List (Elem t))
      (found : Outcome (Option (List (Elem t) × List (Elem t))))
      → IsIntersection (slices t) ll lu rl ru found
      → IsCommon t ll lu rl ru (found >>= λ common. done (of_ends t common))
  rebuilt t ll lu rl ru (done none) h = h
  rebuilt t ll lu rl ru (done (some (lower, upper))) h = (lower, upper, refl, h.0, h.1)
  rebuilt t ll lu rl ru panic h = h

  -- The intersection of two ranges of one type whose ends are in order returns a range in order
  -- that holds exactly the values that lie in both, or `None` where no value lies in both.
  pub var_intersect-IsCommon :
      (t : PhysicalType) (ll lu rl ru : List (Elem t))
      → bits_le (slices t) ll lu ≡ true
      → bits_le (slices t) rl ru ≡ true
      → IsCommon t ll lu rl ru (intersect fl (of_slices t ll lu) (of_slices t rl ru))
  unfolding intersect
  var_intersect-IsCommon t ll lu rl ru p q = rw (cmp-of_slices t ll lu rl ru _ _) (
      rebuilt t ll lu rl ru _
        (intersection-IsIntersection (slices t) (slices-IsTotal t) ll lu rl ru p q))

  -- Ranges of different types have neither a union nor an intersection: both calls panic.
  pub var_mismatch_panics :
      (s t : PhysicalType) (a b : List (Elem s)) (c d : List (Elem t))
      → s ≢ t
      → (union fl (of_slices s a b) (of_slices t c d) ≡ panic)
        × (intersect fl (of_slices s a b) (of_slices t c d) ≡ panic)
  unfolding union intersect
  var_mismatch_panics u8 u8 a b c d h = absurd (h refl)
  var_mismatch_panics u16 u16 a b c d h = absurd (h refl)
  var_mismatch_panics u32 u32 a b c d h = absurd (h refl)
  var_mismatch_panics u64 u64 a b c d h = absurd (h refl)
  var_mismatch_panics i8 i8 a b c d h = absurd (h refl)
  var_mismatch_panics i16 i16 a b c d h = absurd (h refl)
  var_mismatch_panics i32 i32 a b c d h = absurd (h refl)
  var_mismatch_panics i64 i64 a b c d h = absurd (h refl)
  var_mismatch_panics f32 f32 a b c d h = absurd (h refl)
  var_mismatch_panics f64 f64 a b c d h = absurd (h refl)
  var_mismatch_panics _ _ a b c d h = (refl, refl)
