-- ===== src/Cells/Groups/Leaders.antt =====
-- test-utils/cells/src/lib.rs: the records that the loop of `Cells::dedup` keeps of sorted ones: the
-- first of each run of equal records.
use mathlib.Core.Path.{subst}
use tiledb_rs.Base.{
  ◌⊎◌, ℕ, ◌≤◌, Ordering, lt, eq, gt, ◌≡◌, refl, sym, ap, ◌∙◌, ◌↔◌, true, List, [], ◌∷◌, All, ◌==◌,
  arith, Bool-cases, inl, inr,
}
use tiledb_rs.Base.Order.{is_le}
use tiledb_rs.Base.Weak.{IsWeakOrder}
use tiledb_rs.Cells.Groups.Stable.{member, All-member, stable, InOrder}

-- The indices among the list's that begin a run, where a run of records equal to `c` goes before.
abbrev pub leaders : (ℕ → ℕ → Ordering) → ℕ → List ℕ → List ℕ
leaders cmp c [] = []
leaders cmp c (j ∷ js) = elim (cmp c j) [
  | lt ↦ j ∷ leaders cmp j js
  | gt ↦ j ∷ leaders cmp j js
  | eq ↦ leaders cmp c js
]

module _ (cmp : ℕ → ℕ → Ordering) where
  pub leaders_new :
      (c j : ℕ) (js : List ℕ) → cmp c j ≡ lt → leaders cmp c (j ∷ js) ≡ j ∷ leaders cmp j js
  leaders_new c j js e = rw (e, leaders) refl

  pub leaders_same :
      (c j : ℕ) (js : List ℕ) → cmp c j ≡ eq → leaders cmp c (j ∷ js) ≡ leaders cmp c js
  leaders_same c j js e = rw (e, leaders) refl

module _ {A : Type 0} (row : ℕ → A) (cmp : ℕ → ℕ → Ordering) (o : IsWeakOrder cmp)
    (eq_iff : (i j : ℕ) → (cmp i j ≡ eq) ↔ (row i ≡ row j)) where
  -- Each index compares as less than the later ones.
  abbrev Strict : List ℕ → Type 0
  Strict [] = Unit
  Strict (x ∷ xs) = All (λ y. cmp x y ≡ lt) xs × Strict xs

  All-lt :
      (x y : ℕ) (ys : List ℕ)
      → cmp x y ≡ lt
      → All (λ z. cmp y z ≡ lt) ys
      → All (λ z. cmp x z ≡ lt) ys
  All-lt x y [] h k = tt
  All-lt x y (z ∷ zs) h (k, ks) = (o.lt_trans x y z h k, All-lt x y zs h ks)

  Le-cases : (c j : ℕ) → is_le (stable cmp c j) ≡ true → (cmp c j ≡ lt) ⊎ ((cmp c j ≡ eq) × (c ≤ j))
  Le-cases c j h = ground arith

  leaders-Strict : (c : ℕ) (js : List ℕ) → InOrder cmp (c ∷ js) → Strict (c ∷ leaders cmp c js)
  leaders-Strict c [] h = (tt, tt)
  leaders-Strict c (j ∷ js) ((l, ls), (k, ks)) = elim (Le-cases c j l) [
    | inl e ↦
        let (s, ss) = leaders-Strict j js (k, ks) in
        rw (leaders_new cmp c j js e) ((e, All-lt c j (leaders cmp j js) e s), (s, ss))
    | inr (e, h) ↦ rw (leaders_same cmp c j js e) (leaders-Strict c js (ls, ks))
  ]

  Strict-member :
      (ls : List ℕ) (i j : ℕ)
      → Strict ls
      → member ls i ≡ true
      → member ls j ≡ true
      → row i ≡ row j
      → i ≡ j
  unfolding member
  Strict-member [] i j s p q e = ground arith
  Strict-member (l ∷ ls) i j (s, ss) p q e = elim (Bool-cases (l == i)) [
    | inl a ↦ elim (Bool-cases (l == j)) [
      | inl b ↦ ground (arith, a, b)
      | inr b ↦
          let less = All-member (λ y. cmp l y ≡ lt) ls j s (ground (arith, b, q)) in
          let same = (eq_iff l j).1 (ap row (ground (arith, a)) ∙ e) in ground (arith, less, same)
    ]
    | inr a ↦ elim (Bool-cases (l == j)) [
      | inl b ↦
          let less = All-member (λ y. cmp l y ≡ lt) ls i s (ground (arith, a, p)) in
          let same = (eq_iff l i).1 (ap row (ground (arith, b)) ∙ sym e) in
          ground (arith, less, same)
      | inr b ↦ Strict-member ls i j ss (ground (arith, a, p)) (ground (arith, b, q)) e
    ]
  ]

  -- Of two kept records with equal values there is only one.
  pub leaders-member :
      (c : ℕ) (js : List ℕ) (i j : ℕ)
      → InOrder cmp (c ∷ js)
      → member (c ∷ leaders cmp c js) i ≡ true
      → member (c ∷ leaders cmp c js) j ≡ true
      → row i ≡ row j
      → i ≡ j
  leaders-member c js i j h = Strict-member (c ∷ leaders cmp c js) i j (leaders-Strict c js h)

  -- A kept record with the values of record `j` that does not come after it.
  abbrev pub KeptFor : List ℕ → ℕ → Type 0
  KeptFor ls j = (i : ℕ) × (member ls i ≡ true) × (row i ≡ row j) × (i ≤ j)

  KeptFor-cons : (l : ℕ) (ls : List ℕ) (j : ℕ) → KeptFor ls j → KeptFor (l ∷ ls) j
  unfolding member
  KeptFor-cons l ls j (i, m, e, h) = (i, ground (arith, m), e, h)

  All-kept_cons : (l : ℕ) (ls js : List ℕ) → All (KeptFor ls) js → All (KeptFor (l ∷ ls)) js
  All-kept_cons l ls [] h = tt
  All-kept_cons l ls (j ∷ js) (h, hs) = (KeptFor-cons l ls j h, All-kept_cons l ls js hs)

  member_self : (c : ℕ) (ls : List ℕ) → member (c ∷ ls) c ≡ true
  unfolding member
  member_self c ls = ground arith

  KeptFor-self : (c : ℕ) (ls : List ℕ) → KeptFor (c ∷ ls) c
  KeptFor-self c ls = (c, member_self c ls, refl, omega arith)

  pub leaders-KeptFor :
      (c : ℕ) (js : List ℕ) → InOrder cmp (c ∷ js) → All (KeptFor (c ∷ leaders cmp c js)) (c ∷ js)
  leaders-KeptFor c [] h = (KeptFor-self c [], tt)
  leaders-KeptFor c (j ∷ js) ((l, ls), (k, ks)) = elim (Le-cases c j l) [
    | inl e ↦
        subst (λ ls. All (KeptFor (c ∷ ls)) (c ∷ j ∷ js)) (sym (leaders_new cmp c j js e))
          (
            KeptFor-self c (j ∷ leaders cmp j js),
            All-kept_cons c (j ∷ leaders cmp j js) (j ∷ js) (leaders-KeptFor j js (k, ks)),
          )
    | inr (e, h) ↦
        let (s, r) = leaders-KeptFor c js (ls, ks) in
        subst (λ ls. All (KeptFor (c ∷ ls)) (c ∷ j ∷ js)) (sym (leaders_same cmp c j js e))
          (s, ((c, member_self c (leaders cmp c js), (eq_iff c j).0 e, h), r))
  ]
