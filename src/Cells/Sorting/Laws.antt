-- ===== src/Cells/Sorting/Laws.antt =====
-- The insertion sort that stands for `slice::sort_by`: its result is sorted, and has the same
-- elements.
use mathlib.Core.Path.{subst}
use tiledb_rs.Base.{
  sym, ℕ, zero, suc, Ordering, ◌≡◌, refl, ◌≢◌, true, some, List, [], ◌∷◌, length, get_elem?,
  Outcome, done, All, arith,
}
use tiledb_rs.Base.Order.{is_le, flip}
use tiledb_rs.Cells.Sorting.{insert_by, sort_by, insert, insertion_sort}

module _ {ℓ} {A : Type ℓ} where
  -- No element occurs twice.
  abbrev pub NoDup : List A → Type ℓ
  NoDup [] = Unit
  NoDup (x ∷ xs) = All (λ y. x ≢ y) xs × NoDup xs

  some_inj : (a b : A) → some a ≡ some b → a ≡ b
  some_inj a b e = ground arith

  pub All-get_elem? {κ} :
      (P : A → Type κ) (xs : List A) (i : ℕ) (x : A) → All P xs → get_elem? xs i ≡ some x → P x
  All-get_elem? P [] i x h e = ground arith
  All-get_elem? P (y ∷ ys) zero x (h, k) e = subst P (some_inj y x e) h
  All-get_elem? P (y ∷ ys) (suc i) x (h, k) e = All-get_elem? P ys i x k e

module _ {ℓ} {A : Type ℓ} (cmp : A → A → Ordering) where
  -- Each element is at most the next one.
  abbrev pub AtMostHead : A → List A → Type 0
  AtMostHead x [] = Unit
  AtMostHead x (y ∷ ys) = is_le (cmp x y) ≡ true

  abbrev pub Ascending : List A → Type 0
  Ascending [] = Unit
  Ascending (x ∷ xs) = AtMostHead x xs × Ascending xs

  pub All-insert {κ} :
      (P : A → Type κ) (x : A) (ys : List A) → P x → All P ys → All P (insert cmp x ys)
  unfolding insert
  All-insert P x [] h k = (h, tt)
  All-insert P x (y ∷ ys) h k = ground (arith, All-insert P x ys)

  pub All-insertion_sort {κ} :
      (P : A → Type κ) (xs : List A) → All P xs → All P (insertion_sort cmp xs)
  unfolding insertion_sort
  All-insertion_sort P [] h = tt
  All-insertion_sort P (x ∷ xs) (h, k) =
      All-insert P x (insertion_sort cmp xs) h (All-insertion_sort P xs k)

  insert-NoDup : (x : A) (ys : List A) → All (λ y. x ≢ y) ys → NoDup ys → NoDup (insert cmp x ys)
  unfolding insert
  insert-NoDup x [] h k = (tt, tt)
  insert-NoDup x (y ∷ ys) (d, h) (l, k) =
      ground
        (arith, d, h, l, k, insert-NoDup x ys h k, All-insert (λ z. y ≢ z) x ys (λ e. d (sym e)) l)

  length-insert : (x : A) (ys : List A) → length (insert cmp x ys) ≡ suc (length ys)
  unfolding insert
  length-insert x [] = refl
  length-insert x (y ∷ ys) = ground (arith, length-insert x ys)

  pub length-insertion_sort : (xs : List A) → length (insertion_sort cmp xs) ≡ length xs
  unfolding insertion_sort
  length-insertion_sort [] = refl
  length-insertion_sort (x ∷ xs) =
      omega (arith, length-insert x (insertion_sort cmp xs), length-insertion_sort xs)

  pub insertion_sort-NoDup : (xs : List A) → NoDup xs → NoDup (insertion_sort cmp xs)
  unfolding insertion_sort
  insertion_sort-NoDup [] h = tt
  insertion_sort-NoDup (x ∷ xs) (h, k) =
      insert-NoDup x (insertion_sort cmp xs) (All-insertion_sort (λ y. x ≢ y) xs h)
        (insertion_sort-NoDup xs k)

  module _ (swap : (a b : A) → cmp b a ≡ flip (cmp a b)) where
    insert-AtMostHead :
        (x y : A) (ys : List A)
        → is_le (cmp y x) ≡ true
        → AtMostHead y ys
        → AtMostHead y (insert cmp x ys)
    unfolding insert
    insert-AtMostHead x y [] h k = h
    insert-AtMostHead x y (z ∷ zs) h k = ground arith

    insert-Ascending : (x : A) (ys : List A) → Ascending ys → Ascending (insert cmp x ys)
    unfolding insert
    insert-Ascending x [] h = (tt, tt)
    insert-Ascending x (y ∷ ys) (h, k) =
        ground (arith, swap x y, insert-AtMostHead x y ys, insert-Ascending x ys)

    pub insertion_sort-Ascending : (xs : List A) → Ascending (insertion_sort cmp xs)
    unfolding insertion_sort
    insertion_sort-Ascending [] = tt
    insertion_sort-Ascending (x ∷ xs) =
        insert-Ascending x (insertion_sort cmp xs) (insertion_sort-Ascending xs)

module _ {ℓ κ} {A : Type ℓ} (P : A → Type κ) (f : A → A → Outcome Ordering)
    (cmp : A → A → Ordering) where
  -- Where the comparison returns on all elements, the sort does, and sorts by its answers.
  module _ (returns : (a b : A) → P a → P b → f a b ≡ done (cmp a b)) where
    insert_by-insert :
        (x : A) (ys : List A) → P x → All P ys → insert_by f x ys ≡ done (insert cmp x ys)
    unfolding insert_by insert
    insert_by-insert x [] h k = refl
    insert_by-insert x (y ∷ ys) h (k, l) =
        ground (arith, returns x y h k, insert_by-insert x ys h l)

    pub sort_by-insertion_sort :
        (xs : List A) → All P xs → sort_by f xs ≡ done (insertion_sort cmp xs)
    unfolding sort_by insertion_sort
    sort_by-insertion_sort [] h = refl
    sort_by-insertion_sort (x ∷ xs) (h, k) =
        rw (sort_by-insertion_sort xs k)
          (insert_by-insert x (insertion_sort cmp xs) h (All-insertion_sort cmp P xs k))
