-- ===== src/Query/Subarray/Coordinates.antt =====
-- The coordinates of a dimension that a range holds, for the kinds of range that a dimension can have,
-- and the intersection of two ranges by them.
use tiledb_rs.Base.{
  Ordering, ◌≡◌, ◌↔◌, refl, ap, true, Option, none, some, List, arith, Outcome, done, panic, ◌>>=◌,
}
use tiledb_rs.Physical.{
  PhysicalType, u8, u16, u32, u64, i8, i16, i32, i64, f32, f64, Elem, FloatOrder, bits_cmp, bits_le,
  slice_cmp,
}
use tiledb_rs.Range.{Range, intersect, single, var, wrap}
use tiledb_rs.Range.Interval.{Within}
use tiledb_rs.Range.Single
use tiledb_rs.Range.Single.{of_pair}
use tiledb_rs.Range.Single.Hull as SingleHull
use tiledb_rs.Range.Var
use tiledb_rs.Range.Var.{of_slices}
use tiledb_rs.Range.Var.Hull as VarHull

-- The type of a dimension's coordinates: one value, or any number of values.
pub data Kind : Type 0 where
  one many : PhysicalType → Kind

abbrev pub Coordinate : Kind → Type 0
Coordinate (one t) = Elem t
Coordinate (many t) = List (Elem t)

module _ (fl : FloatOrder) where
  abbrev pub coordinate_cmp : (k : Kind) → Coordinate k → Coordinate k → Ordering
  coordinate_cmp (one t) = bits_cmp fl t
  coordinate_cmp (many t) = slice_cmp (bits_cmp fl t)

abbrev pub of_ends : (k : Kind) → Coordinate k → Coordinate k → Range
of_ends (one t) low high = single (of_pair t low high)
of_ends (many t) low high = var (of_slices t low high)

of_pair_inj :
    (t : PhysicalType) (a b c d : Elem t) → of_pair t a b ≡ of_pair t c d → (a ≡ c) × (b ≡ d)
of_pair_inj u8 a b c d h = ground arith
of_pair_inj u16 a b c d h = ground arith
of_pair_inj u32 a b c d h = ground arith
of_pair_inj u64 a b c d h = ground arith
of_pair_inj i8 a b c d h = ground arith
of_pair_inj i16 a b c d h = ground arith
of_pair_inj i32 a b c d h = ground arith
of_pair_inj i64 a b c d h = ground arith
of_pair_inj f32 a b c d h = ground arith
of_pair_inj f64 a b c d h = ground arith

of_slices_inj :
    (t : PhysicalType) (a b c d : List (Elem t))
    → of_slices t a b ≡ of_slices t c d
    → (a ≡ c) × (b ≡ d)
of_slices_inj u8 a b c d h = ground arith
of_slices_inj u16 a b c d h = ground arith
of_slices_inj u32 a b c d h = ground arith
of_slices_inj u64 a b c d h = ground arith
of_slices_inj i8 a b c d h = ground arith
of_slices_inj i16 a b c d h = ground arith
of_slices_inj i32 a b c d h = ground arith
of_slices_inj i64 a b c d h = ground arith
of_slices_inj f32 a b c d h = ground arith
of_slices_inj f64 a b c d h = ground arith

of_ends_inj :
    (k : Kind) (a b c d : Coordinate k) → of_ends k a b ≡ of_ends k c d → (a ≡ c) × (b ≡ d)
of_ends_inj (one t) a b c d h = of_pair_inj t a b c d (cc)
of_ends_inj (many t) a b c d h = of_slices_inj t a b c d (cc)

both : {P Q R S T U : Type 0} → P ↔ Q → Q ↔ (R × S) → T ↔ R → U ↔ S → P ↔ (T × U)
both p q t u = (λ x. let (r, s) = q.0 (p.0 x) in (t.1 r, u.1 s), λ (x, y). p.1 (q.1 (t.0 x, u.0 y)))

module _ (fl : FloatOrder) (k : Kind) where
  -- A range of the kind, with its ends in order.
  abbrev pub IsRange : Range → Type 0
  IsRange r =
      (low high : Coordinate k) × (r ≡ of_ends k low high)
      × (bits_le (coordinate_cmp fl k) low high ≡ true)

  -- The coordinate lies between the ends of the range.
  abbrev pub Holds : Range → Coordinate k → Type 0
  Holds r x =
      (low high : Coordinate k) × (r ≡ of_ends k low high) × Within (coordinate_cmp fl k) low high x

  Holds-iff :
      (low high x : Coordinate k)
      → Holds (of_ends k low high) x ↔ Within (coordinate_cmp fl k) low high x
  Holds-iff low high x = (
    λ (a, b, e, w). let (p, q) = of_ends_inj k low high a b e in rw (p, q) w,
    λ w. (low, high, refl, w),
  )

  -- What the intersection of two ranges may return: a range that holds the coordinates that both
  -- hold, or `None` where there are none. It may not panic.
  abbrev pub IsCommon : Range → Range → Outcome (Option Range) → Type 0
  IsCommon l r (done (some c)) =
      IsRange c × ((x : Coordinate k) → Holds c x ↔ (Holds l x × Holds r x))
  IsCommon l r (done none) = (x : Coordinate k) → ¬ (Holds l x × Holds r x)
  IsCommon l r panic = ⊥

module _ (fl : FloatOrder) where
  single-IsCommon :
      (t : PhysicalType) (ll lu rl ru : Elem t) (found : Outcome (Option Single.SingleValueRange))
      → SingleHull.IsCommon fl t ll lu rl ru found
      → IsCommon fl
          (one t)
          (single (of_pair t ll lu))
          (single (of_pair t rl ru))
          (found >>= λ common. done (wrap fl single common))
  single-IsCommon t ll lu rl ru (done (some c)) (low, high, e, le, w) = (
    (low, high, ap single e, le),
    λ x. rw e (
        both (Holds-iff fl (one t) low high x) (w x) (Holds-iff fl (one t) ll lu x)
          (Holds-iff fl (one t) rl ru x)),
  )
  single-IsCommon t ll lu rl ru (done none) w =
      λ x (l, r). w x ((Holds-iff fl (one t) ll lu x).0 l, (Holds-iff fl (one t) rl ru x).0 r)
  single-IsCommon t ll lu rl ru panic w = w

  var-IsCommon :
      (t : PhysicalType) (ll lu rl ru : List (Elem t)) (found : Outcome (Option Var.VarValueRange))
      → VarHull.IsCommon fl t ll lu rl ru found
      → IsCommon fl
          (many t)
          (var (of_slices t ll lu))
          (var (of_slices t rl ru))
          (found >>= λ common. done (wrap fl var common))
  var-IsCommon t ll lu rl ru (done (some c)) (low, high, e, le, w) = (
    (low, high, ap var e, le),
    λ x. rw e (
        both (Holds-iff fl (many t) low high x) (w x) (Holds-iff fl (many t) ll lu x)
          (Holds-iff fl (many t) rl ru x)),
  )
  var-IsCommon t ll lu rl ru (done none) w =
      λ x (l, r). w x ((Holds-iff fl (many t) ll lu x).0 l, (Holds-iff fl (many t) rl ru x).0 r)
  var-IsCommon t ll lu rl ru panic w = w

  of_ends-IsCommon :
      (k : Kind) (ll lu rl ru : Coordinate k)
      → bits_le (coordinate_cmp fl k) ll lu ≡ true
      → bits_le (coordinate_cmp fl k) rl ru ≡ true
      → IsCommon fl k
          (of_ends k ll lu)
          (of_ends k rl ru)
          (intersect fl (of_ends k ll lu) (of_ends k rl ru))
  unfolding intersect
  of_ends-IsCommon (one t) ll lu rl ru p q =
      single-IsCommon t ll lu rl ru _ (SingleHull.intersect-IsCommon fl t ll lu rl ru p q)
  of_ends-IsCommon (many t) ll lu rl ru p q =
      var-IsCommon t ll lu rl ru _ (VarHull.var_intersect-IsCommon fl t ll lu rl ru p q)

  pub intersect-IsCommon :
      (k : Kind) (l r : Range)
      → IsRange fl k l
      → IsRange fl k r
      → IsCommon fl k l r (intersect fl l r)
  intersect-IsCommon k l r (ll, lu, e, p) (rl, ru, f, q) =
      rw (e, f) (of_ends-IsCommon k ll lu rl ru p q)
