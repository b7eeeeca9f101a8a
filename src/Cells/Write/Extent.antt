-- ===== src/Cells/Write/Extent.antt =====
-- The least and the greatest value of a list, as `Iterator::min_by` and `max_by` find them.
use mathlib.Core.Path.{subst}
use tiledb_rs.Base.{Ordering, ◌≡◌, refl, sym, ◌∙◌, ◌⊎◌, inl, inr, true, List, [], ◌∷◌, All, arith}
use tiledb_rs.Base.Order.{IsTotal, is_le, le_trans, le_refl}
use tiledb_rs.Cells.Write.{reduce}
use tiledb_rs.Range.Interval.Hull.{min_by, max_by}

module _ {A : Type 0} where
  -- The value is one of the list's.
  abbrev pub Occurs : A → List A → Type 0
  Occurs x [] = ⊥
  Occurs x (y ∷ ys) = (x ≡ y) ⊎ Occurs x ys

module _ {A : Type 0} (cmp : A → A → Ordering) where
  -- The two ends are values of the list, and all values lie between them.
  abbrev pub IsExtent : A → A → List A → Type 0
  IsExtent low high xs =
      Occurs low xs
      × Occurs high xs
      × All (λ x. (is_le (cmp low x) ≡ true) × (is_le (cmp x high) ≡ true)) xs

module _ {A : Type 0} (pick : A → A → A) (R : A → A → Type 0)
    (picks : (x y : A) → (pick x y ≡ x) ⊎ (pick x y ≡ y)) (refl_R : (x : A) → R x x)
    (trans_R : (x y z : A) → R x y → R y z → R x z) (left : (x y : A) → R (pick x y) x)
    (right : (x y : A) → R (pick x y) y) where
  -- What picks one of two values picks one of the list's.
  reduce-Occurs : (x : A) (ys : List A) → Occurs (reduce pick x ys) (x ∷ ys)
  unfolding reduce
  reduce-Occurs x [] = inl refl
  reduce-Occurs x (y ∷ ys) = elim (reduce-Occurs (pick x y) ys) [
    | inl e ↦ elim (picks x y) [ inl p ↦ inl (e ∙ p) | inr p ↦ inr (inl (e ∙ p)) ]
    | inr h ↦ inr (inr h)
  ]

  reduce-All : (x : A) (ys : List A) → All (R (reduce pick x ys)) (x ∷ ys)
  unfolding reduce
  reduce-All x [] = (refl_R x, tt)
  reduce-All x (y ∷ ys) =
      let (h, hs) = reduce-All (pick x y) ys in
      let m = reduce pick (pick x y) ys in
      (trans_R m (pick x y) x h (left x y), (trans_R m (pick x y) y h (right x y), hs))

All-both :
    {A : Type 0} (P Q : A → Type 0) (xs : List A) → All P xs → All Q xs → All (λ x. P x × Q x) xs
All-both P Q [] h k = tt
All-both P Q (x ∷ xs) (h, hs) (k, ks) = ((h, k), All-both P Q xs hs ks)

module _ {A : Type 0} (cmp : A → A → Ordering) (o : IsTotal cmp) where
  Below : A → A → Type 0
  Below a b = is_le (cmp a b) ≡ true

  Above : A → A → Type 0
  Above a b = is_le (cmp b a) ≡ true

  min_picks : (x y : A) → (min_by cmp x y ≡ x) ⊎ (min_by cmp x y ≡ y)
  min_picks x y = ground arith

  max_picks : (x y : A) → (max_by cmp x y ≡ x) ⊎ (max_by cmp x y ≡ y)
  max_picks x y = ground arith

  min_left : (x y : A) → Below (min_by cmp x y) x
  unfolding Below
  min_left x y = ground (arith, o.cmp_refl x, o.cmp_swap x y)

  min_right : (x y : A) → Below (min_by cmp x y) y
  unfolding Below
  min_right x y = ground (arith, o.cmp_refl y, o.cmp_swap x y)

  max_left : (x y : A) → Above (max_by cmp x y) x
  unfolding Above
  max_left x y = ground (arith, o.cmp_refl x, o.cmp_swap x y)

  max_right : (x y : A) → Above (max_by cmp x y) y
  unfolding Above
  max_right x y = ground (arith, o.cmp_refl y, o.cmp_swap x y)

  pub reduce-IsExtent :
      (x : A) (xs : List A)
      → IsExtent cmp (reduce (min_by cmp) x xs) (reduce (max_by cmp) x xs) (x ∷ xs)
  unfolding Below Above
  reduce-IsExtent x xs =
      let trans_above : (x y z : A) → Above x y → Above y z → Above x z =
        λ x y z h k. le_trans cmp o z y x k h in
      (
        reduce-Occurs (min_by cmp) Below min_picks (le_refl cmp o) (le_trans cmp o) min_left
            min_right x xs,
        reduce-Occurs (max_by cmp) Above max_picks (le_refl cmp o) trans_above max_left max_right x
            xs,
        All-both (Below (reduce (min_by cmp) x xs)) (Above (reduce (max_by cmp) x xs)) (x ∷ xs)
            (reduce-All (min_by cmp) Below min_picks (le_refl cmp o) (le_trans cmp o) min_left
              min_right x xs)
            (reduce-All (max_by cmp) Above max_picks (le_refl cmp o) trans_above max_left max_right
              x xs),
      )

pub Occurs-All : {A : Type 0} (P : A → Type 0) (x : A) (xs : List A) → All P xs → Occurs x xs → P x
Occurs-All P x [] h m = ground arith
Occurs-All P x (y ∷ ys) (h, hs) (inl e) = subst P (sym e) h
Occurs-All P x (y ∷ ys) (h, hs) (inr m) = Occurs-All P x ys hs m
