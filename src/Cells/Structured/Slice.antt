-- ===== src/Cells/Structured/Slice.antt =====
-- test-utils/cells/src/lib.rs: which cells `StructuredCells::slice` keeps.
use mathlib.Core.Path.{subst}
use tiledb_rs.Base.{
  ℕ, zero, suc, ◌<◌, ◌≤◌, ltb, ◌≡◌, refl, ap, ◌∙◌, ◌↔◌, ◌⊎◌, inl, inr, Bool, true, none, some, List,
  [], ◌∷◌, map, length, arith, Bool-cases, ◌==◌, done,
}
use tiledb_rs.Cells.Groups.{BitSet}
use tiledb_rs.Cells.Groups.Dedup.{kept_cells}
use tiledb_rs.Cells.Groups.Stable.{member}
use tiledb_rs.Cells.Shape.{IsUniform, len-IsUniform, filter-map_data}
use tiledb_rs.Cells.Structured.{
  StructuredCells, Span, product, first_cursors, for_each, filter_set, slice,
}
use tiledb_rs.Cells.Structured.Box.{
  InBox, Fits, NonEmpty, box, firsts, remaining-firsts, Has, box-Has, All-Has, box-InBox,
  firsts-InBox,
}
use tiledb_rs.Cells.Structured.Odometer.{encode}
use tiledb_rs.Cells.Structured.Visits.{length-Fits, first_cursors-firsts, for_each-Ends}

-- An index is in the list exactly if it is that of listed coordinates.
member-map-encode :
    (dims : List ℕ) (xs : List (List ℕ)) (j : ℕ)
    → (member (map (encode dims) xs) j ≡ true) ↔ ((cs : List ℕ) × Has xs cs × (encode dims cs ≡ j))
unfolding member
member-map-encode dims [] j = (λ h. ground arith, λ (cs, m, e). ground arith)
member-map-encode dims (x ∷ xs) j =
    let (to, from) = member-map-encode dims xs j in
    (
      λ h. elim (Bool-cases (encode dims x == j)) [
        | inl e ↦ (x, inl refl, ground (arith, e))
        | inr e ↦ let (cs, m, q) = to (ground (arith, e, h)) in (cs, inr m, q)
      ],
      λ (cs, m, e). elim m [
        | inl q ↦ let same : encode dims x ≡ j = ap (encode dims) q ∙ e in ground (arith, same)
        | inr q ↦ ground (arith, from (cs, q, e))
      ],
    )

member-box_iff :
    (dims : List ℕ) (ranges : List Span)
    → NonEmpty ranges
    → (j : ℕ)
    → (member (map (encode dims) (box ranges)) j ≡ true)
      ↔ ((cs : List ℕ) × InBox ranges cs × (encode dims cs ≡ j))
member-box_iff dims ranges full j =
    let (to, from) = member-map-encode dims (box ranges) j in
    (
      λ h.
          let (cs, m, e) = to h in
          (cs, All-Has (InBox ranges) (box ranges) cs (box-InBox ranges full) m, e),
      λ (cs, b, e). from (cs, box-Has ranges cs b, e),
    )

NonEmpty-cases :
    (ranges : List Span)
    → NonEmpty ranges
      ⊎ (((all : List Span) → first_cursors all ranges ≡ none)
          × ((cs : List ℕ) → InBox ranges cs → ⊥))
unfolding first_cursors
NonEmpty-cases [] = inl tt
NonEmpty-cases ((first, past) ∷ rs) = elim (Bool-cases (ltb first past)) [
  | inl e ↦ elim (NonEmpty-cases rs) [
    | inl h ↦ inl (ground (arith, e), h)
    | inr (h, k) ↦ inr (λ all. rw (e) (h all), λ cs b. InBox_tail (first, past) rs cs k b)
  ]
  | inr e ↦ inr (λ all. rw (e) refl, λ cs b. InBox_head (first, past) rs cs (ground (arith, e)) b)
]
  where
    InBox_tail :
        (r : Span) (rs : List Span) (cs : List ℕ)
        → ((cs : List ℕ) → InBox rs cs → ⊥)
        → InBox (r ∷ rs) cs
        → ⊥
    InBox_tail r rs [] k b = b
    InBox_tail r rs (c ∷ cs) k (p, q, b) = k cs b

    InBox_head : (r : Span) (rs : List Span) (cs : List ℕ) → r.1 ≤ r.0 → InBox (r ∷ rs) cs → ⊥
    InBox_head r rs [] h b = b
    InBox_head r rs (c ∷ cs) h (p, q, b) = ground (arith, h, p, q)

module _ (bits : BitSet) (self : StructuredCells) (ranges : List Span)
    (uniform : IsUniform self.cells (product self.dimensions))
    (fits : Fits self.dimensions ranges) where
  -- The structured cells with the records that pass the test.
  abbrev pub kept_structured : (ℕ → Bool) → StructuredCells
  kept_structured test = record { dimensions = self.dimensions; cells = kept_cells self.cells test }

  slice-filter :
      (fuel : ℕ) (v' : bits.Set)
      → for_each bits self.dimensions ranges fuel
          (first_cursors ranges ranges)
          (bits.new_bitset (product self.dimensions))
        ≡ done (some v')
      → slice bits fuel self ranges ≡ done (some (kept_structured (bits.test v')))
  unfolding slice filter_set
  slice-filter fuel v' e =
      let ranks : (length ranges == length self.dimensions) ≡ true =
        ground (arith, length-Fits self.dimensions ranges fits) in
      rw
        (
          ranks,
          len-IsUniform self.cells (product self.dimensions) uniform,
          e,
          filter-map_data self.cells (bits.test v') (product self.dimensions) (uniform.0),
        )
        refl

  -- Where the product of the dimensions is the number of records of every field, and every range
  -- lies within its dimension, `slice` ends with as much fuel as the box has coordinates, and one
  -- more: the dimensions stay, and every field is left with the cells at the indices that are the
  -- row-major indices of coordinates in the box.
  pub slice-InBox :
      (fuel : ℕ)
      → length (box ranges) < fuel
      → (test : ℕ → Bool) × (slice bits fuel self ranges ≡ done (some (kept_structured test)))
        × ((j : ℕ)
            → (test j ≡ true) ↔ ((cs : List ℕ) × InBox ranges cs × (encode self.dimensions cs ≡ j)))
  unfolding for_each
  slice-InBox zero h = ground arith
  slice-InBox (suc fuel) h = elim (NonEmpty-cases ranges) [
    | inl full ↦
        let start = bits.new_bitset (product self.dimensions) in
        let (v', e, sets) =
          for_each-Ends self.dimensions ranges fits bits full (suc fuel) (firsts ranges) start
            (firsts-InBox ranges full) (bits.size_new (product self.dimensions))
            (omega (arith, h, ap length (remaining-firsts ranges full))) in
        (
          bits.test v',
          slice-filter (suc fuel) v' (rw (first_cursors-firsts ranges ranges full) e),
          λ j.
              let tested : bits.test v' j ≡ member (map (encode self.dimensions) (box ranges)) j =
                subst (λ xs. bits.test v' j ≡ member (map (encode self.dimensions) xs) j)
                  (remaining-firsts ranges full)
                  (ground (arith, sets j, bits.test_new (product self.dimensions) j)) in
              rw (tested) (member-box_iff self.dimensions ranges full j),
        )
    | inr (empty, outside) ↦ (
      bits.test (bits.new_bitset (product self.dimensions)),
      slice-filter (suc fuel) (bits.new_bitset (product self.dimensions)) (rw (empty ranges) refl),
      λ j. (
        λ t. ground (arith, t, bits.test_new (product self.dimensions) j),
        λ (cs, b, e). ground (arith, outside cs b),
      ),
    )
  ]
