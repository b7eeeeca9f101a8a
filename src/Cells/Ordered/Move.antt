-- ===== src/Cells/Ordered/Move.antt =====
-- test-utils/cells/src/lib.rs: the loop of `Cells::sort` that moves the cells of a field into their
-- places.
use tiledb_rs.Base.{
  ℕ, zero, suc, ◌+◌, ◌<◌, ◌≡◌, refl, sym, ap, ◌∙◌, ◌≢◌, true, none, some, List, [], ◌∷◌, ◌++◌,
  length, get_elem?, take, drop, done, All, arith, ltb,
}
use tiledb_rs.Base.Map.{set_elem}
use tiledb_rs.Cells.Ordered.{move_loop, move_cells, replicate}
use tiledb_rs.Cells.Sorting.Laws.{NoDup}

module _ {ℓ} {A : Type ℓ} where
  -- The elements at the given indices, without those out of range.
  abbrev pub gather : List A → List ℕ → List A
  gather xs [] = []
  gather xs (i ∷ is) = elim (get_elem? xs i) [ none ↦ gather xs is | some x ↦ x ∷ gather xs is ]

  pub get_elem?_in_range :
      (xs : List A) (i : ℕ) → i < length xs → (x : A) × (get_elem? xs i ≡ some x)
  get_elem?_in_range [] i h = ground arith
  get_elem?_in_range (x ∷ xs) zero h = (x, refl)
  get_elem?_in_range (x ∷ xs) (suc i) h = get_elem?_in_range xs i (omega arith)

  pub gather_cons :
      (xs : List A) (i : ℕ) (is : List ℕ) (x : A)
      → get_elem? xs i ≡ some x
      → gather xs (i ∷ is) ≡ x ∷ gather xs is
  gather_cons xs i is x e = rw (e, gather) refl

  length-replicate : (n : ℕ) (x : A) → length (replicate n x) ≡ n
  unfolding replicate
  length-replicate zero x = refl
  length-replicate (suc n) x = omega (arith, length-replicate n x)

  pub length-set_elem : (xs : List A) (i : ℕ) (x : A) → length (set_elem xs i x) ≡ length xs
  unfolding set_elem
  length-set_elem [] i x = refl
  length-set_elem (y ∷ ys) zero x = refl
  length-set_elem (y ∷ ys) (suc i) x = omega (arith, length-set_elem ys i x)

  get_elem?-set_elem_other :
      (xs : List A) (i j : ℕ) (x : A) → i ≢ j → get_elem? (set_elem xs i x) j ≡ get_elem? xs j
  unfolding set_elem
  get_elem?-set_elem_other [] i j x h = refl
  get_elem?-set_elem_other (y ∷ ys) zero zero x h = ground arith
  get_elem?-set_elem_other (y ∷ ys) zero (suc j) x h = refl
  get_elem?-set_elem_other (y ∷ ys) (suc i) zero x h = refl
  get_elem?-set_elem_other (y ∷ ys) (suc i) (suc j) x h =
      get_elem?-set_elem_other ys i j x (λ e. h (ap suc e))

  take_all : (xs : List A) (n : ℕ) → length xs ≡ n → xs ≡ take n xs ++ []
  take_all [] zero h = refl
  take_all [] (suc n) h = ground arith
  take_all (x ∷ xs) zero h = ground arith
  take_all (x ∷ xs) (suc n) h = ap (λ ys. x ∷ ys) (take_all xs n (omega arith))

  take-set_elem :
      (xs : List A) (i : ℕ) (x : A) (ys : List A)
      → i < length xs
      → take (suc i) (set_elem xs i x) ++ ys ≡ take i xs ++ (x ∷ ys)
  unfolding set_elem
  take-set_elem [] i x ys h = ground arith
  take-set_elem (z ∷ zs) zero x ys h = refl
  take-set_elem (z ∷ zs) (suc i) x ys h = ap (λ us. z ∷ us) (take-set_elem zs i x ys (omega arith))

  pub drop_cons :
      (xs : List A) (i : ℕ) (x : A) (ys : List A)
      → drop i xs ≡ x ∷ ys
      → (get_elem? xs i ≡ some x) × (drop (suc i) xs ≡ ys)
  drop_cons [] zero x ys h = ground arith
  drop_cons [] (suc i) x ys h = ground arith
  drop_cons (z ∷ zs) zero x ys h = ground arith
  drop_cons (z ∷ zs) (suc i) x ys h = drop_cons zs i x ys h

All-other {ℓ} :
    {A : Type ℓ} (orig u : List A) (j : ℕ) (x : A) (js : List ℕ)
    → All (λ k. j ≢ k) js
    → All (λ k. get_elem? u k ≡ get_elem? orig k) js
    → All (λ k. get_elem? (set_elem u j x) k ≡ get_elem? orig k) js
All-other orig u j x [] h k = tt
All-other orig u j x (l ∷ ls) (h, hs) (k, ks) =
    (get_elem?-set_elem_other u j l x h ∙ k, All-other orig u j x ls hs ks)

All-refl {ℓ} :
    {A : Type ℓ} (orig : List A) (js : List ℕ) → All (λ k. get_elem? orig k ≡ get_elem? orig k) js
All-refl orig [] = tt
All-refl orig (j ∷ js) = (refl, All-refl orig js)

module _ {ℓ} {A : Type ℓ} (default : A) (idx : List ℕ) (orig : List A) where
  move_loop-gather :
      (js : List ℕ) (i : ℕ) (u cells : List A)
      → drop i idx ≡ js
      → length cells ≡ i + length js
      → All (λ j. j < length orig) js
      → NoDup js
      → All (λ j. get_elem? u j ≡ get_elem? orig j) js
      → move_loop default idx (length js) i u cells ≡ done (take i cells ++ gather orig js)
  unfolding move_loop
  move_loop-gather [] i u cells d l r n same = ap done (take_all cells i (omega arith))
  move_loop-gather (j ∷ js) i u cells d l (r, rs) (n, ns) (e, es) =
      let (x, ex) = get_elem?_in_range orig j r in
      let (ei, di) = drop_cons idx i j js d in
      let placed : ltb i (length cells) ≡ true = ground (arith, l) in
      rw (ei, e, ex, placed)
        (move_loop-gather js (suc i) (set_elem u j default) (set_elem cells i x) di
            (omega (arith, length-set_elem cells i x)) rs ns (All-other orig u j default js n es)
          ∙ ap done (
              take-set_elem cells i x (gather orig js) (omega arith)
              ∙ ap (λ ys. take i cells ++ ys) (sym (gather_cons orig j js x ex))))

  -- For distinct indices below the number of cells, as many as there are cells.
  pub move_cells-gather :
      length idx ≡ length orig
      → All (λ j. j < length orig) idx
      → NoDup idx
      → move_cells default idx orig ≡ done (gather orig idx)
  unfolding move_cells
  move_cells-gather l r n = rw (sym l) (
      move_loop-gather idx 0 orig (replicate (length idx) default) refl
        (omega (arith, length-replicate (length idx) default)) r n (All-refl orig idx))
