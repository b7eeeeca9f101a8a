-- ===== src/Physical/Order.antt =====
-- tiledb/common/src/datatype/physical.rs: `bits_cmp` and `bits_eq` as an order and as equality, on
-- single values and on slices.
use tiledb_rs.Base.{
  ℕ, suc, ◌+◌, Ordering, lt, eq, gt, ◌≡◌, refl, sym, ◌∙◌, ◌↔◌, Bool, true, List, [], ◌∷◌, length,
  arith,
}
use tiledb_rs.Base.Order.{IsTotal, compare-IsTotal, cmp_ℤ-IsTotal, flip}
use tiledb_rs.Physical.{
  PhysicalType, u8, u16, u32, u64, i8, i16, i32, i64, f32, f64, Elem, FloatOrder, bits_eq, bits_cmp,
  slice_eq, zip_cmp, slice_cmp,
}

-- `bits_cmp` is a total order on the values of every physical type, in which only equal values
-- compare as equal.
pub bits_cmp-IsTotal : (fl : FloatOrder) (t : PhysicalType) → IsTotal (bits_cmp fl t)
bits_cmp-IsTotal fl u8 = compare-IsTotal
bits_cmp-IsTotal fl u16 = compare-IsTotal
bits_cmp-IsTotal fl u32 = compare-IsTotal
bits_cmp-IsTotal fl u64 = compare-IsTotal
bits_cmp-IsTotal fl i8 = cmp_ℤ-IsTotal
bits_cmp-IsTotal fl i16 = cmp_ℤ-IsTotal
bits_cmp-IsTotal fl i32 = cmp_ℤ-IsTotal
bits_cmp-IsTotal fl i64 = cmp_ℤ-IsTotal
bits_cmp-IsTotal fl f32 = fl.total32
bits_cmp-IsTotal fl f64 = fl.total64

-- `bits_eq` answers true exactly for equal values.
pub bits_eq_iff : (t : PhysicalType) (a b : Elem t) → (bits_eq t a b ≡ true) ↔ (a ≡ b)
bits_eq_iff u8 a b = ground arith
bits_eq_iff u16 a b = ground arith
bits_eq_iff u32 a b = ground arith
bits_eq_iff u64 a b = ground arith
bits_eq_iff i8 a b = ground arith
bits_eq_iff i16 a b = ground arith
bits_eq_iff i32 a b = ground arith
bits_eq_iff i64 a b = ground arith
bits_eq_iff f32 a b = ground arith
bits_eq_iff f64 a b = ground arith

module _ {ℓ} {T : Type ℓ} (cmp : T → T → Ordering) where
  -- Lexicographic order by recursion on both lists, a proper prefix first.
  abbrev pub lex : List T → List T → Ordering
  lex [] [] = eq
  lex [] (r ∷ rs) = lt
  lex (l ∷ ls) [] = gt
  lex (l ∷ ls) (r ∷ rs) = elim (cmp l r) [ lt ↦ lt | gt ↦ gt | eq ↦ lex ls rs ]

  zip_cmp-lex :
      (k n m : ℕ) (ls rs : List T)
      → n ≡ k + length ls
      → m ≡ k + length rs
      → zip_cmp cmp n m ls rs ≡ lex ls rs
  unfolding zip_cmp
  zip_cmp-lex k n m [] [] p q = ground arith
  zip_cmp-lex k n m [] (r ∷ rs) p q = ground arith
  zip_cmp-lex k n m (l ∷ ls) [] p q = ground arith
  zip_cmp-lex k n m (l ∷ ls) (r ∷ rs) p q = ground (arith, zip_cmp-lex (suc k) n m ls rs)

  -- The loop over the zipped slices, with its comparison of the lengths at the end, is the
  -- lexicographic order.
  pub slice_cmp-lex : (ls rs : List T) → slice_cmp cmp ls rs ≡ lex ls rs
  unfolding slice_cmp
  slice_cmp-lex ls rs = zip_cmp-lex 0 (length ls) (length rs) ls rs (omega arith) (omega arith)

module _ {ℓ} {T : Type ℓ} (cmp : T → T → Ordering) (o : IsTotal cmp) where
  lex_refl : (xs : List T) → lex cmp xs xs ≡ eq
  lex_refl [] = refl
  lex_refl (x ∷ xs) = ground (arith, o.cmp_refl x, lex_refl xs)

  eq_of_lex : (xs ys : List T) → lex cmp xs ys ≡ eq → xs ≡ ys
  eq_of_lex [] [] h = refl
  eq_of_lex [] (y ∷ ys) h = ground arith
  eq_of_lex (x ∷ xs) [] h = ground arith
  eq_of_lex (x ∷ xs) (y ∷ ys) h = ground (arith, o.eq_of_cmp x y, eq_of_lex xs ys)

  lex_swap : (xs ys : List T) → lex cmp ys xs ≡ flip (lex cmp xs ys)
  lex_swap [] [] = refl
  lex_swap [] (y ∷ ys) = refl
  lex_swap (x ∷ xs) [] = refl
  lex_swap (x ∷ xs) (y ∷ ys) = ground (arith, o.cmp_swap x y, lex_swap xs ys)

  lex_trans : (xs ys zs : List T) → lex cmp xs ys ≡ lt → lex cmp ys zs ≡ lt → lex cmp xs zs ≡ lt
  lex_trans [] [] zs h k = ground arith
  lex_trans [] (y ∷ ys) [] h k = ground arith
  lex_trans [] (y ∷ ys) (z ∷ zs) h k = refl
  lex_trans (x ∷ xs) [] zs h k = ground arith
  lex_trans (x ∷ xs) (y ∷ ys) [] h k = ground arith
  lex_trans (x ∷ xs) (y ∷ ys) (z ∷ zs) h k =
      ground (
        arith,
        o.eq_of_cmp x y,
        o.eq_of_cmp y z,
        o.lt_trans x y z,
        o.cmp_refl y,
        lex_trans xs ys zs,
      )

  lex-IsTotal : IsTotal (lex cmp)
  lex-IsTotal = record {
    cmp_refl = lex_refl;
    eq_of_cmp = eq_of_lex;
    cmp_swap = lex_swap;
    lt_trans = lex_trans;
  }

  -- Where the comparison of elements is a total order, that of slices is one too.
  pub slice_cmp-IsTotal : IsTotal (slice_cmp cmp)
  slice_cmp-IsTotal = record {
    cmp_refl = λ a. slice_cmp-lex cmp a a ∙ lex_refl a;
    eq_of_cmp = λ a b h. eq_of_lex a b (sym (slice_cmp-lex cmp a b) ∙ h);
    cmp_swap = λ a b. rw (slice_cmp-lex cmp a b, slice_cmp-lex cmp b a) (lex_swap a b);
    lt_trans = λ a b c.
        rw (slice_cmp-lex cmp a b, slice_cmp-lex cmp b c, slice_cmp-lex cmp a c) (lex_trans a b c);
  }

module _ {ℓ} {T : Type ℓ} (elem_eq : T → T → Bool) where
  -- Where `elem_eq` decides equality of elements, `slice_eq` decides equality of slices.
  pub slice_eq_iff :
      ((a b : T) → (elem_eq a b ≡ true) ↔ (a ≡ b))
      → (ls rs : List T) → (slice_eq elem_eq ls rs ≡ true) ↔ (ls ≡ rs)
  unfolding slice_eq
  slice_eq_iff decides [] [] = ground arith
  slice_eq_iff decides [] (r ∷ rs) = ground arith
  slice_eq_iff decides (l ∷ ls) [] = ground arith
  slice_eq_iff decides (l ∷ ls) (r ∷ rs) = ground (arith, decides l r, slice_eq_iff decides ls rs)
