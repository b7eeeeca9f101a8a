-- ===== src/Pod/Schema/Cells.antt =====
-- How many cells a domain has.
use tiledb_rs.Base.{
  ℕ, ◌*◌, ◌^◌, ◌≤◌, ◌<◌, ◌≡◌, ltb, true, false, Bool-cases, inl, inr, none, some, List, [], ◌∷◌,
  arith, done, if◌then◌else◌,
}
use tiledb_rs.Array.Constraints.{constraints_num_cells}
use tiledb_rs.Pod.Schema.{DimensionData, DomainData, num_cells_loop, num_cells}

-- The numbers of cells of the dimensions, each of which has one at least.
abbrev pub AreCounts : List DimensionData → List ℕ → Type 0
AreCounts [] [] = Unit
AreCounts (d ∷ ds) (n ∷ ns) =
    (constraints_num_cells d.constraints ≡ done (some n)) × (1 ≤ n) × AreCounts ds ns
AreCounts _ _ = ⊥

abbrev pub product : List ℕ → ℕ
product [] = 1
product (n ∷ ns) = n * product ns

product_pos : (ds : List DimensionData) (ns : List ℕ) → AreCounts ds ns → 1 ≤ product ns
product_pos [] [] c = omega arith
product_pos [] (n ∷ ns) c = absurd c
product_pos (d ∷ ds) [] c = absurd c
product_pos (d ∷ ds) (n ∷ ns) (e, p, c) =
    let q : 1 ≤ product ns = product_pos ds ns c in grind arith

above : (a n m : ℕ) → 1 ≤ m → 2 ^ 128 ≤ a * n → 2 ^ 128 ≤ a * (n * m)
above a n m p h =
    let q : a * n ≤ a * n * m = grind arith in
    let e : a * (n * m) ≡ a * n * m = grind arith in omega (arith, q, e, h)

-- The loop gives the product, or gives up only where the product is too large.
num_cells_loop-product :
    (total : ℕ) (ds : List DimensionData) (ns : List ℕ)
    → AreCounts ds ns
    → total < 2 ^ 128
    → num_cells_loop total ds
      ≡ done (if ltb (total * product ns) (2 ^ 128) then some (total * product ns) else none)
unfolding num_cells_loop
num_cells_loop-product total [] [] c h =
    let e : total * 1 ≡ total = omega arith in
    let b : ltb total (2 ^ 128) ≡ true = ground arith in rw (e, b)
num_cells_loop-product total [] (n ∷ ns) c h = absurd c
num_cells_loop-product total (d ∷ ds) [] c h = absurd c
num_cells_loop-product total (d ∷ ds) (n ∷ ns) (e, p, c) h =
    elim (Bool-cases (ltb (total * n) (2 ^ 128))) [
      | inl b ↦
          let same : total * n * product ns ≡ total * (n * product ns) = grind arith in
          rw (e, b, ← same) (num_cells_loop-product (total * n) ds ns c (ground arith))
      | inr b ↦
          let big : ltb (total * (n * product ns)) (2 ^ 128) ≡ false =
            let far : 2 ^ 128 ≤ total * (n * product ns) =
              above total n (product ns) (product_pos ds ns c) (ground arith) in
            ground arith in
          rw (e, b, big)
    ]

-- Where every dimension has a number of cells, `num_cells` answers their product if it is below
-- 2 ^ 64, and `None` otherwise; it does not panic.
pub num_cells-product :
    (self : DomainData) (ns : List ℕ)
    → AreCounts self.dimension ns
    → num_cells self ≡ done (if ltb (product ns) (2 ^ 64) then some (product ns) else none)
unfolding num_cells
num_cells-product self ns c =
    let loop = num_cells_loop-product 1 self.dimension ns c (omega arith) in
    let one : 1 * product ns ≡ product ns = omega arith in
    rw (loop, one)
      (elim (Bool-cases (ltb (product ns) (2 ^ 128))) [
        | inl b ↦ rw b
        | inr b ↦ let c : ltb (product ns) (2 ^ 64) ≡ false = ground arith in rw (b, c)
      ])
