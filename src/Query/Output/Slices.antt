-- ===== src/Query/Output/Slices.antt =====
-- Slices of joined lists, and the offsets that mark where the cells in a list of values begin.
use tiledb_rs.Base.{
  ℕ, suc, ◌+◌, ◌-◌, ◌≡◌, refl, ap, leb, true, some, List, [], ◌∷◌, ◌++◌, length, length-append,
  get_elem?, take, drop, arith, done,
}
use tiledb_rs.Base.Vectors.{slice}

module _ {A : Type 0} where
  pub take-append : (xs ys : List A) → take (length xs) (xs ++ ys) ≡ xs
  take-append [] ys = refl
  take-append (x ∷ xs) ys = ap (λ r. x ∷ r) (take-append xs ys)

  pub drop-append : (xs ys : List A) → drop (length xs) (xs ++ ys) ≡ ys
  drop-append [] ys = refl
  drop-append (x ∷ xs) ys = drop-append xs ys

  -- The slice between two lists.
  pub slice-append :
      (before xs after : List A)
      → slice (before ++ (xs ++ after)) (length before) (length before + length xs) ≡ done xs
  slice-append before xs after =
      let n : length before + length xs - length before ≡ length xs = omega arith in
      let l : length (before ++ (xs ++ after)) ≡ length before + length xs + length after =
        omega (arith, length-append before (xs ++ after), length-append xs after) in
      let low : leb (length before) (length before + length xs) ≡ true = ground arith in
      let high : leb (length before + length xs) (length before + length xs + length after) ≡ true =
        ground arith in
      rw (l, n, low, high, drop-append before (xs ++ after), take-append xs after)

module _ {C : Type 0} where
  -- From place `i` on, the offsets are where the cells begin, the first at `first`, and where the
  -- last cell ends.
  abbrev pub Marks : List ℕ → (i first : ℕ) → List (List C) → Type 0
  Marks offsets i first [] = get_elem? offsets i ≡ some first
  Marks offsets i first (c ∷ cells) =
      (get_elem? offsets i ≡ some first) × Marks offsets (suc i) (first + length c) cells

  pub Marks-first :
      (offsets : List ℕ) (i first : ℕ) (cells : List (List C))
      → Marks offsets i first cells
      → get_elem? offsets i ≡ some first
  Marks-first offsets i first [] m = m
  Marks-first offsets i first (c ∷ cells) m = m.0

  pub Marks-cons :
      (offsets : List ℕ) (offset i first : ℕ) (cells : List (List C))
      → Marks offsets i first cells
      → Marks (offset ∷ offsets) (suc i) first cells
  Marks-cons offsets offset i first [] m = m
  Marks-cons offsets offset i first (c ∷ cells) m =
      (m.0, Marks-cons offsets offset (suc i) (first + length c) cells m.1)
