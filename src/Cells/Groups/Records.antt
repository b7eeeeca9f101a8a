-- ===== src/Cells/Groups/Records.antt =====
-- test-utils/cells/src/lib.rs: the values of one record at the keys, and the test whether two records
-- differ there.
use mathlib.Core.Path.{subst, ap₂}
use Prim.Native.String.{String}
use tiledb_rs.Base.{
  eq, get_elem?, Option-cases, ℕ, ◌<◌, ◌≡◌, refl, ap, ◌∙◌, ◌↔◌, Bool, true, false, not, Option,
  none, some, List, [], ◌∷◌, Outcome, done, arith, Bool-cases, inl, inr,
}
use tiledb_rs.Base.Weak.{option_cmp-IsTotal}
use tiledb_rs.Physical.{FloatOrder}
use tiledb_rs.Base.Map.{get}
use tiledb_rs.Cells.{Fields}
use tiledb_rs.Cells.Field.{CellType, Cell, FieldData, of_cells, cell_cmp, cell_eq}
use tiledb_rs.Cells.Field.View.{cell_cmp-IsTotal, by_view, go-of_cells, cell_eq_iff, of_cells_inj}
use tiledb_rs.Cells.Field.Methods as Data
use tiledb_rs.Cells.Groups.{bits_ne_at, any_distinct}
use tiledb_rs.Cells.Ordered.Gather.{gather_data, gather_data-of_cells}
use tiledb_rs.Cells.Ordered.Rows.{data_cmp, data_cmp-of_cells, key_cmp, row_cmp}
use tiledb_rs.Cells.Ordered.Move.{gather, gather_cons, get_elem?_in_range}
use tiledb_rs.Cells.Shape.{HasLen, HasKeys, get-HasLen, len-of_cells}

-- The field's value in record `i`, as data of one cell; none for a missing field.
abbrev pub value_at : Option FieldData → ℕ → Option FieldData
value_at none i = none
value_at (some d) i = some (gather_data (i ∷ []) d)

-- The values of record `i` at the keys.
abbrev pub record_at : Fields → List String → ℕ → List (Option FieldData)
record_at fields [] i = []
record_at fields (key ∷ keys) i = value_at (get fields key) i ∷ record_at fields keys i

-- An answer of the test for difference is right.
abbrev pub Tells {ℓ} : {A : Type ℓ} → Outcome Bool → A → A → Type ℓ
Tells o a b = (answer : Bool) × (o ≡ done answer) × ((answer ≡ false) ↔ (a ≡ b))

module _ {ℓ} {A : Type ℓ} where
  cons_head : {x y : A} {xs ys : List A} → x ∷ xs ≡ y ∷ ys → x ≡ y
  cons_head e = cc (e)

  cons_tail : {x y : A} {xs ys : List A} → x ∷ xs ≡ y ∷ ys → xs ≡ ys
  cons_tail e = cc (e)

  some_inj : {x y : A} → some x ≡ some y → x ≡ y
  some_inj e = cc (e)

one_cell_iff :
    (c : CellType) (x y : Cell c)
    → (not (cell_eq c x y) ≡ false) ↔ (of_cells c (x ∷ []) ≡ of_cells c (y ∷ []))
one_cell_iff c x y =
    let (to, from) = cell_eq_iff c x y in
    (
      λ h. ap (λ z. of_cells c (z ∷ [])) (to (ground (arith, h))),
      λ e. rw (from (cons_head (of_cells_inj c (x ∷ []) (y ∷ []) e))) refl,
    )

bits_ne_at-Tells :
    (d : FieldData) (i j : ℕ)
    → i < Data.len d
    → j < Data.len d
    → Tells (bits_ne_at d i j) (gather_data (i ∷ []) d) (gather_data (j ∷ []) d)
unfolding bits_ne_at
bits_ne_at-Tells =
    by_view
      (λ d.
        (i j : ℕ)
        → i < Data.len d
        → j < Data.len d
        → Tells (bits_ne_at d i j) (gather_data (i ∷ []) d) (gather_data (j ∷ []) d))
      (λ c xs i j h k.
        let (x, ex) = get_elem?_in_range xs i (subst (λ m. i < m) (len-of_cells c xs) h) in
        let (y, ey) = get_elem?_in_range xs j (subst (λ m. j < m) (len-of_cells c xs) k) in
        (
          not (cell_eq c x y),
          go-of_cells c xs _ ∙ rw (ex, ey) refl,
          rw
              (
                gather_data-of_cells (i ∷ []) c xs,
                gather_data-of_cells (j ∷ []) c xs,
                gather_cons xs i [] x ex,
                gather_cons xs j [] y ey,
              )
              (one_cell_iff c x y),
        ))

pub any_distinct-Tells :
    (n : ℕ) (fields : Fields) (keys : List String) (i j : ℕ)
    → HasLen n fields
    → HasKeys fields keys
    → i < n
    → j < n
    → Tells (any_distinct fields keys i j) (record_at fields keys i) (record_at fields keys j)
unfolding any_distinct
any_distinct-Tells n fields [] i j h k p q = (false, refl, (λ e. refl, λ e. refl))
any_distinct-Tells n fields (key ∷ keys) i j h (k, ks) p q =
    let (d, g, m) = get-HasLen n fields key h k in
    let (b, e, (to, from)) = bits_ne_at-Tells d i j (omega (arith, m)) (omega (arith, m)) in
    let (b', e', (to', from')) = any_distinct-Tells n fields keys i j h ks p q in
    elim (Bool-cases b) [
      | inl p ↦ (
        true,
        rw (g, e, e', p) refl,
        rw (g) (λ q. ground (arith, q), λ q. ground (arith, p, from (some_inj (cons_head q)))),
      )
      | inr p ↦ (
        b',
        rw (g, e, e', p) refl,
        rw (g) (λ q. ap₂ (λ u v. some u ∷ v) (to p) (to' q), λ q. from' (cons_tail q)),
      )
    ]

-- One element, or none.
abbrev opt_list {ℓ} : {A : Type ℓ} → Option A → List A
opt_list none = []
opt_list (some x) = x ∷ []

opt_list_inj {ℓ} : {A : Type ℓ} (a b : Option A) → opt_list a ≡ opt_list b → a ≡ b
opt_list_inj none none e = refl
opt_list_inj none (some b) e = ground arith
opt_list_inj (some a) none e = ground arith
opt_list_inj (some a) (some b) e = ap some (cons_head e)

gather_one {ℓ} : {A : Type ℓ} (xs : List A) (i : ℕ) → gather xs (i ∷ []) ≡ opt_list (get_elem? xs i)
gather_one xs i = elim (Option-cases (get_elem? xs i)) [
  | inl e ↦ rw (e, gather) refl
  | inr (x, e) ↦ rw (e, gather) refl
]

module _ (fl : FloatOrder) where
  data_cmp-eq_iff :
      (d : FieldData) (i j : ℕ)
      → (data_cmp fl d i j ≡ eq) ↔ (gather_data (i ∷ []) d ≡ gather_data (j ∷ []) d)
  data_cmp-eq_iff =
      by_view
        (λ d.
          (i j : ℕ) → (data_cmp fl d i j ≡ eq) ↔ (gather_data (i ∷ []) d ≡ gather_data (j ∷ []) d))
        (λ c xs i j.
          let total = option_cmp-IsTotal (cell_cmp fl c) (cell_cmp-IsTotal fl c) in
          rw
            (
              data_cmp-of_cells fl c xs i j,
              gather_data-of_cells (i ∷ []) c xs,
              gather_data-of_cells (j ∷ []) c xs,
              gather_one xs i,
              gather_one xs j,
            )
            (
              λ h.
                  ap (λ o. of_cells c (opt_list o))
                    (total.eq_of_cmp (get_elem? xs i) (get_elem? xs j) h),
              λ e.
                  rw
                    (opt_list_inj (get_elem? xs i) (get_elem? xs j)
                      (of_cells_inj c (opt_list (get_elem? xs i)) (opt_list (get_elem? xs j)) e))
                    (total.cmp_refl (get_elem? xs j)),
            ))

  key_cmp-eq_iff :
      (d : Option FieldData) (i j : ℕ) → (key_cmp fl d i j ≡ eq) ↔ (value_at d i ≡ value_at d j)
  key_cmp-eq_iff none i j = (λ h. refl, λ e. refl)
  key_cmp-eq_iff (some d) i j =
      let (to, from) = data_cmp-eq_iff d i j in (λ h. ap some (to h), λ e. from (some_inj e))

  -- Records compare as equal exactly if they have the same values at the keys.
  pub row_cmp-eq_iff :
      (fields : Fields) (keys : List String) (i j : ℕ)
      → (row_cmp fl fields keys i j ≡ eq) ↔ (record_at fields keys i ≡ record_at fields keys j)
  row_cmp-eq_iff fields [] i j = (λ h. refl, λ e. refl)
  row_cmp-eq_iff fields (key ∷ keys) i j =
      let (to, from) = key_cmp-eq_iff (get fields key) i j in
      let (to', from') = row_cmp-eq_iff fields keys i j in
      (
        λ h. ap₂ (λ u v. u ∷ v) (to (ground (arith, h))) (to' (ground (arith, h))),
        λ e. ground (arith, from (cons_head e), from' (cons_tail e)),
      )
