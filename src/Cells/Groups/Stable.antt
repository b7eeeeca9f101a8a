-- ===== src/Cells/Groups/Stable.antt =====
-- The insertion sort that stands for `slice::sort_by`, as a sort of increasing indices: records that
-- compare as equal stay in the order of their indices.
use mathlib.Core.Path.{subst}
use tiledb_rs.Base.{
  ℕ, zero, suc, ◌+◌, ◌<◌, ◌≤◌, compare, Ordering, ◌≡◌, refl, ap, ◌∙◌, Bool, true, false, List, [],
  ◌∷◌, All, ◌==◌, if◌then◌else◌, arith, Bool-cases, inl, inr,
}
use tiledb_rs.Base.Order.{is_le, compare-IsTotal}
use tiledb_rs.Base.Weak.{
  IsWeakOrder, then_cmp, then_cmp-IsWeakOrder, pullback-IsWeakOrder, weak_le_trans,
}
use tiledb_rs.Cells.Ordered.{count_from}
use tiledb_rs.Cells.Sorting.{insert, insertion_sort}
use tiledb_rs.Cells.Sorting.Laws.{Ascending, insertion_sort-Ascending, All-insertion_sort}

unfoldable pub member : List ℕ → ℕ → Bool
member [] j = false
member (l ∷ ls) j = let rest = member ls j in if l == j then true else rest

pub All-member {κ} : (P : ℕ → Type κ) (xs : List ℕ) (j : ℕ) → All P xs → member xs j ≡ true → P j
unfolding member
All-member P [] j h m = ground arith
All-member P (x ∷ xs) j (h, hs) m = elim (Bool-cases (x == j)) [
  | inl e ↦ subst P (ground (arith, e)) h
  | inr e ↦ All-member P xs j hs (ground (arith, e, m))
]

-- Each number is below the later ones.
abbrev pub Increasing : List ℕ → Type 0
Increasing [] = Unit
Increasing (x ∷ xs) = All (λ y. x < y) xs × Increasing xs

All-above : (m i n : ℕ) → m < i → All (λ j. m < j) (count_from i n)
unfolding count_from
All-above m i zero h = tt
All-above m i (suc n) h = (h, All-above m (suc i) n (omega arith))

pub count_from-Increasing : (i n : ℕ) → Increasing (count_from i n)
unfolding count_from
count_from-Increasing i zero = tt
count_from-Increasing i (suc n) =
    (All-above i (suc i) n (omega arith), count_from-Increasing (suc i) n)

module _ (cmp : ℕ → ℕ → Ordering) where
  member-insert : (x : ℕ) (ys : List ℕ) (j : ℕ) → member (insert cmp x ys) j ≡ member (x ∷ ys) j
  unfolding insert member
  member-insert x [] j = refl
  member-insert x (y ∷ ys) j = ground (arith, member-insert x ys j)

  pub member-insertion_sort : (xs : List ℕ) (j : ℕ) → member (insertion_sort cmp xs) j ≡ member xs j
  unfolding insertion_sort member
  member-insertion_sort [] j = refl
  member-insertion_sort (x ∷ xs) j =
      ground (arith, member-insert x (insertion_sort cmp xs) j, member-insertion_sort xs j)

  -- By the comparison, then by the index.
  abbrev pub stable : ℕ → ℕ → Ordering
  stable a b = then_cmp cmp compare a b

  insert-stable : (x : ℕ) (ys : List ℕ) → All (λ y. x < y) ys → insert cmp x ys ≡ insert stable x ys
  unfolding insert
  insert-stable x [] h = refl
  insert-stable x (y ∷ ys) (h, hs) = ground (arith, h, insert-stable x ys hs)

  insertion_sort-stable :
      (xs : List ℕ) → Increasing xs → insertion_sort cmp xs ≡ insertion_sort stable xs
  unfolding insertion_sort
  insertion_sort-stable [] h = refl
  insertion_sort-stable (x ∷ xs) (h, hs) =
      insert-stable x (insertion_sort cmp xs) (All-insertion_sort cmp (λ y. x < y) xs h)
      ∙ ap (insert stable x) (insertion_sort-stable xs hs)

  -- Each index comes before the later ones.
  abbrev pub InOrder : List ℕ → Type 0
  InOrder [] = Unit
  InOrder (x ∷ xs) = All (λ y. is_le (stable x y) ≡ true) xs × InOrder xs

  module _ (o : IsWeakOrder cmp) where
    stable-IsWeakOrder : IsWeakOrder stable
    stable-IsWeakOrder =
        then_cmp-IsWeakOrder cmp compare o
          (pullback-IsWeakOrder compare (λ (a : ℕ). a) compare-IsTotal)

    All-after :
        (x y : ℕ) (ys : List ℕ)
        → is_le (stable x y) ≡ true
        → All (λ z. is_le (stable y z) ≡ true) ys
        → All (λ z. is_le (stable x z) ≡ true) ys
    All-after x y [] h k = tt
    All-after x y (z ∷ zs) h (k, ks) =
        (weak_le_trans stable stable-IsWeakOrder x y z h k, All-after x y zs h ks)

    InOrder-Ascending : (xs : List ℕ) → Ascending stable xs → InOrder xs
    InOrder-Ascending [] h = tt
    InOrder-Ascending (x ∷ []) h = (tt, tt)
    InOrder-Ascending (x ∷ y ∷ ys) (h, k) =
        let (below, rest) = InOrder-Ascending (y ∷ ys) k in
        ((h, All-after x y ys h below), (below, rest))

    pub insertion_sort-InOrder : (xs : List ℕ) → Increasing xs → InOrder (insertion_sort cmp xs)
    insertion_sort-InOrder xs h = rw (insertion_sort-stable xs h) (
        InOrder-Ascending (insertion_sort stable xs)
          (insertion_sort-Ascending stable stable-IsWeakOrder.cmp_swap xs))

pub member-count_from : (i n j : ℕ) → i ≤ j → j < i + n → member (count_from i n) j ≡ true
unfolding member count_from
member-count_from i zero j h k = ground arith
member-count_from i (suc n) j h k = elim (Bool-cases (i == j)) [
  | inl e ↦ rw (e) refl
  | inr e ↦ rw (e) (member-count_from (suc i) n j (ground (arith, e)) (omega arith))
]
