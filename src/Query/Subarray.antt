-- ===== src/Query/Subarray.antt =====
-- tiledb/pod/src/query/subarray.rs: `SubarrayData`, the ranges requested of each dimension.
-- `cartesian_product` of the crate itertools is a parameter, and `Documented` what is documented of
-- it.
pub mod Coordinates
pub mod Meet
pub mod Selects
use tiledb_rs.Base.{
  Bool, true, false, ◌↔◌, ◌≡◌, ◌⊎◌, Option, none, some, List, [], ◌∷◌, if◌then◌else◌, Outcome, done,
  ◌>>=◌, ◌||◌,
}
use tiledb_rs.Physical.{FloatOrder}
use tiledb_rs.Range.{Range, intersect as intersection}

pub record SubarrayData : Type 0 where
  pub dimension_ranges : List (List Range)

-- `Vec::is_empty`.
abbrev pub is_empty {ℓ} : {A : Type ℓ} → List A → Bool
is_empty [] = true
is_empty (x ∷ xs) = false

-- `any(|dim| dim.is_empty())`.
unfoldable pub any_empty : List (List Range) → Bool
any_empty [] = false
any_empty (dim ∷ dims) = is_empty dim || any_empty dims

module _ {A B : Type 0} where
  -- `filter_map`, with a function that may panic.
  unfoldable pub filter_map : (A → Outcome (Option B)) → List A → Outcome (List B)
  filter_map f [] = done []
  filter_map f (x ∷ xs) = do
    found ← f x
    rest ← filter_map f xs
    done (elim found [ none ↦ rest | some y ↦ y ∷ rest ])

-- `zip`, `map` and `collect`.
unfoldable pub zip_map : {A B C : Type 0} → (A → B → Outcome C) → List A → List B → Outcome (List C)
zip_map f (x ∷ xs) (y ∷ ys) = do z ← f x y; rest ← zip_map f xs ys; done (z ∷ rest)
zip_map f _ _ = done []

-- What both methods do with the updated ranges.
unfoldable pub updated : List (List Range) → Option SubarrayData
unfolding any_empty
updated updated_ranges =
    if any_empty updated_ranges then none else some (record { dimension_ranges = updated_ranges })

-- The element is in the list.
abbrev pub In : {A : Type 0} → A → List A → Type 0
In x [] = ⊥
In x (y ∷ ys) = (x ≡ y) ⊎ In x ys

-- It yields the pairs of an element of the one and an element of the other.
abbrev pub Documented : (List Range → List Range → List (Range × Range)) → Type 0
Documented cartesian_product =
    (ls rs : List Range) (l r : Range) → In (l, r) (cartesian_product ls rs) ↔ (In l ls × In r rs)

module _ (fl : FloatOrder) where
  -- The closure of `intersect_ranges`.
  unfoldable pub narrow : List Range → Range → Outcome (List Range)
  unfolding filter_map
  narrow [] new_range = done (new_range ∷ [])
  narrow (r ∷ rs) new_range =
      filter_map (λ current_range. intersection fl current_range new_range) (r ∷ rs)

  unfoldable pub intersect_ranges : SubarrayData → List Range → Outcome (Option SubarrayData)
  unfolding narrow zip_map updated
  intersect_ranges self ranges = do
    updated_ranges ← zip_map narrow self.dimension_ranges ranges
    done (updated updated_ranges)

  module _ (cartesian_product : List Range → List Range → List (Range × Range)) where
    -- The closure of `intersect`.
    unfoldable pub meet : List Range → List Range → Outcome (List Range)
    unfolding filter_map
    meet [] their_dimension = done their_dimension
    meet (r ∷ rs) [] = done (r ∷ rs)
    meet (r ∷ rs) (t ∷ ts) =
        filter_map (λ pair. intersection fl (pair.0) (pair.1)) (cartesian_product (r ∷ rs) (t ∷ ts))

    unfoldable pub intersect : SubarrayData → SubarrayData → Outcome (Option SubarrayData)
    unfolding meet zip_map updated
    intersect self other = do
      updated_ranges ← zip_map meet self.dimension_ranges other.dimension_ranges
      done (updated updated_ranges)
