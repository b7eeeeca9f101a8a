-- ===== src/Query/Subarray/Selects.antt =====
-- The points that a subarray selects, and those that the intersections select.
use tiledb_rs.Base.{
  ◌≡◌, ◌↔◌, inl, inr, true, false, Option, none, some, List, [], ◌∷◌, map, arith, Outcome, done,
  panic, ◌>>=◌, Bool-cases,
}
use mathlib.Core.List.{map-id}
use tiledb_rs.Physical.{FloatOrder}
use tiledb_rs.Range.{Range}
use tiledb_rs.Query.Subarray.{
  SubarrayData, any_empty, zip_map, updated, Documented, narrow, intersect_ranges, meet, intersect,
}
use tiledb_rs.Query.Subarray.Coordinates.{Kind, Coordinate}
use tiledb_rs.Query.Subarray.Meet.{
  AnyHolds, SelectsOne, AreRanges, OneGiven, MeetsOne, meet-MeetsOne, narrow-MeetsOne,
}

-- A point of an array: a coordinate for each dimension.
abbrev pub Point : List Kind → Type 0
Point [] = Unit
Point (k ∷ ks) = Coordinate k × Point ks

-- For each dimension, the ranges are of its kind, with their ends in order.
abbrev pub AreTyped : FloatOrder → List Kind → List (List Range) → Type 0
AreTyped fl [] [] = Unit
AreTyped fl (k ∷ ks) (d ∷ ds) = AreRanges fl k d × AreTyped fl ks ds
AreTyped fl _ _ = ⊥

-- For each dimension, its ranges select the coordinate.
abbrev pub Selects : FloatOrder → (ks : List Kind) → List (List Range) → Point ks → Type 0
Selects fl [] [] p = Unit
Selects fl (k ∷ ks) (d ∷ ds) (x, p) = SelectsOne fl k d x × Selects fl ks ds p
Selects fl _ _ p = ⊥

-- For each dimension, one of its ranges holds the coordinate.
abbrev HoldsAll : FloatOrder → (ks : List Kind) → List (List Range) → Point ks → Type 0
HoldsAll fl [] [] p = Unit
HoldsAll fl (k ∷ ks) (d ∷ ds) (x, p) = AnyHolds fl k d x × HoldsAll fl ks ds p
HoldsAll fl _ _ p = ⊥

-- In no dimension are both lists of ranges empty.
abbrev pub AllGiven : List (List Range) → List (List Range) → Type 0
AllGiven (d ∷ ds) (e ∷ es) = OneGiven d e × AllGiven ds es
AllGiven _ _ = Unit

both_and : {P Q R S T U : Type 0} → P ↔ (Q × R) → S ↔ (T × U) → (P × S) ↔ ((Q × T) × (R × U))
both_and p s = (
  λ (x, y). let (q, r) = p.0 x in let (t, u) = s.0 y in ((q, t), (r, u)),
  λ ((q, t), (r, u)). (p.1 (q, r), s.1 (t, u)),
)

given : (ds : List (List Range)) (ranges : List Range) → AllGiven ds (map (λ r. r ∷ []) ranges)
given [] ranges = tt
given (d ∷ ds) [] = tt
given ([] ∷ ds) (r ∷ ranges) = (tt, given ds ranges)
given ((e ∷ es) ∷ ds) (r ∷ ranges) = (tt, given ds ranges)

module _ (fl : FloatOrder) where
  -- Ranges in every dimension select what they hold.
  HoldsAll-iff :
      (ks : List Kind) (us : List (List Range)) (p : Point ks)
      → any_empty us ≡ false
      → HoldsAll fl ks us p ↔ Selects fl ks us p
  unfolding any_empty
  HoldsAll-iff [] [] p e = (λ h. h, λ h. h)
  HoldsAll-iff [] (u ∷ us) p e = (λ h. h, λ h. h)
  HoldsAll-iff (k ∷ ks) [] p e = (λ h. h, λ h. h)
  HoldsAll-iff (k ∷ ks) ([] ∷ us) (x, p) e = absurd (ground arith)
  HoldsAll-iff (k ∷ ks) ((r ∷ rs) ∷ us) (x, p) e =
      let more = HoldsAll-iff ks us p e in (λ (h, m). (h, more.0 m), λ (h, m). (h, more.1 m))

  -- A dimension without ranges holds no coordinate.
  any_empty-HoldsAll :
      (ks : List Kind) (us : List (List Range)) (p : Point ks)
      → any_empty us ≡ true
      → ¬ HoldsAll fl ks us p
  unfolding any_empty
  any_empty-HoldsAll [] [] p e = absurd (ground arith)
  any_empty-HoldsAll [] (u ∷ us) p e = λ h. h
  any_empty-HoldsAll (k ∷ ks) [] p e = λ h. h
  any_empty-HoldsAll (k ∷ ks) ([] ∷ us) (x, p) e = λ ((r, i, h), m). i
  any_empty-HoldsAll (k ∷ ks) ((r ∷ rs) ∷ us) (x, p) e = λ (h, m). any_empty-HoldsAll ks us p e m

  -- What the intersection may return: a subarray of such ranges that selects the points that both
  -- select, or `None` where there are none. It may not panic.
  abbrev pub IsMeet :
      List Kind → List (List Range) → List (List Range) → Outcome (Option SubarrayData) → Type 0
  IsMeet ks mine theirs (done (some s)) =
      AreTyped fl ks s.dimension_ranges
      × ((p : Point ks)
          → Selects fl ks s.dimension_ranges p ↔ (Selects fl ks mine p × Selects fl ks theirs p))
  IsMeet ks mine theirs (done none) =
      (p : Point ks) → ¬ (Selects fl ks mine p × Selects fl ks theirs p)
  IsMeet ks mine theirs panic = ⊥

  -- The same of the updated ranges, where no ranges hold nothing.
  abbrev MeetsAll :
      List Kind → List (List Range) → List (List Range) → Outcome (List (List Range)) → Type 0
  MeetsAll ks mine theirs (done us) =
      AreTyped fl ks us
      × ((p : Point ks) → HoldsAll fl ks us p ↔ (Selects fl ks mine p × Selects fl ks theirs p))
  MeetsAll ks mine theirs panic = ⊥

  of_updated :
      (ks : List Kind) (mine theirs : List (List Range)) (us : Outcome (List (List Range)))
      → MeetsAll ks mine theirs us
      → IsMeet ks mine theirs (us >>= λ u. done (updated u))
  unfolding updated
  of_updated ks mine theirs panic m = m
  of_updated ks mine theirs (done us) (t, m) = elim (Bool-cases (any_empty us)) [
    | inl e ↦ rw e (λ p both. any_empty-HoldsAll ks us p e ((m p).1 both))
    | inr e ↦ rw e (
      t,
      λ p. let h = HoldsAll-iff ks us p e in (λ s. (m p).0 (h.1 s), λ both. h.0 ((m p).1 both)),
    )
  ]

  module _ {B : Type 0} (ranges_of : B → List Range) (f : List Range → B → Outcome (List Range))
      (meets : (k : Kind) (my : List Range) (b : B)
        → AreRanges fl k my
        → AreRanges fl k (ranges_of b)
        → OneGiven my (ranges_of b)
        → MeetsOne fl k my (ranges_of b) (f my b)) where
    cons_meets :
        (k : Kind) (ks : List Kind) (a b : List Range) (mine theirs : List (List Range))
        (u : Outcome (List Range)) (us : Outcome (List (List Range)))
        → MeetsOne fl k a b u
        → MeetsAll ks mine theirs us
        → MeetsAll (k ∷ ks) (a ∷ mine) (b ∷ theirs) (u >>= λ z. us >>= λ zs. done (z ∷ zs))
    cons_meets k ks a b mine theirs (done u) (done us) (t, m) (ts, ms) =
        ((t, ts), λ (x, p). both_and (m x) (ms p))
    cons_meets k ks a b mine theirs (done u) panic m ms = ms
    cons_meets k ks a b mine theirs panic us m ms = m

    zip_map-MeetsAll :
        (ks : List Kind) (mine : List (List Range)) (theirs : List B)
        → AreTyped fl ks mine
        → AreTyped fl ks (map ranges_of theirs)
        → AllGiven mine (map ranges_of theirs)
        → MeetsAll ks mine (map ranges_of theirs) (zip_map f mine theirs)
    unfolding zip_map
    zip_map-MeetsAll [] [] [] t u g = (tt, λ p. (λ h. (tt, tt), λ h. tt))
    zip_map-MeetsAll [] [] (b ∷ theirs) t u g = absurd u
    zip_map-MeetsAll [] (a ∷ mine) theirs t u g = absurd t
    zip_map-MeetsAll (k ∷ ks) [] theirs t u g = absurd t
    zip_map-MeetsAll (k ∷ ks) (a ∷ mine) [] t u g = absurd u
    zip_map-MeetsAll (k ∷ ks) (a ∷ mine) (b ∷ theirs) (t, ts) (u, us) (g, gs) =
        cons_meets k ks a (ranges_of b) mine (map ranges_of theirs) _ _ (meets k a b t u g)
          (zip_map-MeetsAll ks mine theirs ts us gs)

  -- For subarrays of the ranges of the same dimensions, with their ends in order, where no dimension
  -- is without ranges in both, `intersect` returns. It answers a subarray of such ranges that
  -- selects exactly the points that both select, or `None` where there are none.
  pub intersect-IsMeet :
      (cartesian_product : List Range → List Range → List (Range × Range))
      → Documented cartesian_product
      → (ks : List Kind) (self other : SubarrayData) → AreTyped fl ks self.dimension_ranges
      → AreTyped fl ks other.dimension_ranges
      → AllGiven self.dimension_ranges other.dimension_ranges
      → IsMeet ks self.dimension_ranges other.dimension_ranges
          (intersect fl cartesian_product self other)
  unfolding intersect
  intersect-IsMeet product d ks self other t u g =
      let same : map (λ b. b) other.dimension_ranges ≡ other.dimension_ranges =
        map-id other.dimension_ranges in
      of_updated ks self.dimension_ranges other.dimension_ranges _ (
        rw same at (
          zip_map-MeetsAll (λ b. b) (meet fl product) (λ k my b. meet-MeetsOne fl k product d my b)
            ks self.dimension_ranges other.dimension_ranges t (rw same u) (rw same g)))

  -- For a subarray of ranges of the dimensions, and one range of each dimension, with their ends in
  -- order, `intersect_ranges` returns. It answers a subarray of such ranges that selects exactly the
  -- points that the subarray selects and that the ranges hold, or `None` where there are none.
  pub intersect_ranges-IsMeet :
      (ks : List Kind) (self : SubarrayData) (ranges : List Range)
      → AreTyped fl ks self.dimension_ranges
      → AreTyped fl ks (map (λ r. r ∷ []) ranges)
      → IsMeet ks self.dimension_ranges (map (λ r. r ∷ []) ranges) (intersect_ranges fl self ranges)
  unfolding intersect_ranges
  intersect_ranges-IsMeet ks self ranges t u =
      of_updated ks self.dimension_ranges (map (λ r. r ∷ []) ranges) _ (
        zip_map-MeetsAll (λ r. r ∷ []) (narrow fl)
          (λ k my n a b g. narrow-MeetsOne fl k my n a (b.0)) ks self.dimension_ranges ranges t u
          (given self.dimension_ranges ranges))
