-- ===== src/Tests/Subarrays.antt =====
-- Subarrays.
use tiledb_rs.Base.{◌≡◌, ◌↔◌, ◌⊎◌, inl, inr, refl, ap, List, [], ◌∷◌, ◌++◌, map, done, some}
use mathlib.Core.Path.{ap₂}
use tiledb_rs.Base.Int.{pos}
use tiledb_rs.Physical.{i64, u8}
use tiledb_rs.Range.{Range, single, var, intersect as intersection}
use tiledb_rs.Range.Single.{of_pair}
use tiledb_rs.Range.Single
use tiledb_rs.Range.Var
use tiledb_rs.Range.Var.{of_slices}
use tiledb_rs.Physical.{slice_cmp}
use tiledb_rs.Query.Subarray.{SubarrayData, In, Documented, intersect, intersect_ranges}
use tiledb_rs.Query.Subarray.Coordinates.{Kind, one, many}
use tiledb_rs.Query.Subarray.Selects.{AreTyped, IsMeet, intersect-IsMeet, intersect_ranges-IsMeet}
use tiledb_rs.Tests.Floats.{floats}

abbrev row : Range → List Range → List (Range × Range)
row l rs = map (λ r. (l, r)) rs

abbrev product : List Range → List Range → List (Range × Range)
product [] rs = []
product (l ∷ ls) rs = row l rs ++ product ls rs

In-append :
    (p : Range × Range) (xs ys : List (Range × Range)) → In p (xs ++ ys) ↔ (In p xs ⊎ In p ys)
In-append p [] ys = (λ i. inr i, λ i. elim i [ inl j ↦ absurd j | inr j ↦ j ])
In-append p (x ∷ xs) ys =
    let more = In-append p xs ys in
    (
      λ i. elim i [
        | inl e ↦ inl (inl e)
        | inr j ↦ elim (more.0 j) [ inl k ↦ inl (inr k) | inr k ↦ inr k ]
      ],
      λ i. elim i [
        | inl j ↦ elim j [ inl e ↦ inl e | inr k ↦ inr (more.1 (inl k)) ]
        | inr j ↦ inr (more.1 (inr j))
      ],
    )

In-row : (l m r : Range) (rs : List Range) → In (l, r) (row m rs) ↔ ((l ≡ m) × In r rs)
In-row l m r [] = (λ i. absurd i, λ h. h.1)
In-row l m r (s ∷ rs) =
    let more = In-row l m r rs in
    (
      λ i. elim i [
        | inl e ↦ (ap (λ p. p.0) e, inl (ap (λ p. p.1) e))
        | inr j ↦ ((more.0 j).0, inr ((more.0 j).1))
      ],
      λ h. elim (h.1) [ inl e ↦ inl (ap₂ (λ a b. (a, b)) (h.0) e) | inr j ↦ inr (more.1 (h.0, j)) ],
    )

product-Documented : Documented product
product-Documented [] rs l r = (λ i. absurd i, λ h. h.0)
product-Documented (m ∷ ls) rs l r =
    let here = In-append (l, r) (row m rs) (product ls rs) in
    let first = In-row l m r rs in
    let more = product-Documented ls rs l r in
    (
      λ i. elim (here.0 i) [
        | inl j ↦ (inl ((first.0 j).0), (first.0 j).1)
        | inr j ↦ (inr ((more.0 j).0), (more.0 j).1)
      ],
      λ h. elim (h.0) [
        | inl e ↦ here.1 (inl (first.1 (e, h.1)))
        | inr j ↦ here.1 (inr (more.1 (j, h.1)))
      ],
    )

abbrev kinds : List Kind
kinds = one i64 ∷ many u8 ∷ []

abbrev early : SubarrayData
early = record {
  dimension_ranges =
      (single (of_pair i64 (pos 0) (pos 100)) ∷ single (of_pair i64 (pos 200) (pos 300)) ∷ [])
      ∷ []
      ∷ [];
}

abbrev late_ranges : List Range
late_ranges = single (of_pair i64 (pos 150) (pos 250)) ∷ var (of_slices u8 (97 ∷ []) (99 ∷ [])) ∷ []

abbrev late : SubarrayData
late = record { dimension_ranges = map (λ r. r ∷ []) late_ranges }

early_typed : AreTyped floats kinds early.dimension_ranges
early_typed = (((pos 0, pos 100, refl, refl), ((pos 200, pos 300, refl, refl), tt)), (tt, tt))

late_typed : AreTyped floats kinds late.dimension_ranges
unfolding slice_cmp
late_typed = (((pos 150, pos 250, refl, refl), tt), (((97 ∷ [], 99 ∷ [], refl, refl), tt), tt))

intersect-IsMeet_example :
    IsMeet floats kinds early.dimension_ranges late.dimension_ranges
      (intersect floats product early late)
intersect-IsMeet_example =
    intersect-IsMeet floats product product-Documented kinds early late early_typed late_typed
      (tt, (tt, tt))

intersect_ranges-IsMeet_example :
    IsMeet floats kinds early.dimension_ranges late.dimension_ranges
      (intersect_ranges floats early late_ranges)
intersect_ranges-IsMeet_example =
    intersect_ranges-IsMeet floats kinds early late_ranges early_typed late_typed

early_and_late :
    intersect_ranges floats early late_ranges
    ≡ done (
        some (record {
          dimension_ranges =
              (single (of_pair i64 (pos 200) (pos 250)) ∷ [])
              ∷ (var (of_slices u8 (97 ∷ []) (99 ∷ [])) ∷ [])
              ∷ [];
        }))
unfolding intersect_ranges intersection Single.intersect Var.intersect slice_cmp
early_and_late = refl
