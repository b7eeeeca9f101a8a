-- ===== src/Cells/Sorting.antt =====
-- `slice::sort_by` of the standard library with a comparison that can panic: a stable insertion
-- sort. Also the same sort with a pure comparison.
pub mod Laws
use tiledb_rs.Base.{
  Ordering, lt, eq, gt, ◌≡◌, refl, List, [], ◌∷◌, Outcome, done, panic, ◌>>=◌, All,
}
use tiledb_rs.Base.Order.{is_le}

module _ {ℓ} {A : Type ℓ} (cmp : A → A → Outcome Ordering) where
  unfoldable pub insert_by : A → List A → Outcome (List A)
  insert_by x [] = done (x ∷ [])
  insert_by x (y ∷ ys) = do
    o ← cmp x y
    let rest = insert_by x ys
    elim o [ gt ↦ rest >>= (λ zs. done (y ∷ zs)) | _ ↦ done (x ∷ y ∷ ys) ]

  unfoldable pub sort_by : List A → Outcome (List A)
  sort_by [] = done []
  sort_by (x ∷ xs) = do ys ← sort_by xs; insert_by x ys

module _ {ℓ} {A : Type ℓ} (cmp : A → A → Ordering) where
  unfoldable pub insert : A → List A → List A
  insert x [] = x ∷ []
  insert x (y ∷ ys) = let rest = insert x ys in elim (cmp x y) [ gt ↦ y ∷ rest | _ ↦ x ∷ y ∷ ys ]

  unfoldable pub insertion_sort : List A → List A
  insertion_sort [] = []
  insertion_sort (x ∷ xs) = insert x (insertion_sort xs)
