-- ===== src/Range/Domain/Union.antt =====
-- The union of ranges of every kind, and of domains.
use tiledb_rs.Base.{
  ℕ, zero, suc, ◌≡◌, ◌∙◌, refl, sym, ap, List, [], ◌∷◌, length, get_elem?, true, ◌==◌, Bool-cases,
  inl, inr, some, arith, Outcome, done, panic, Returns, ◌>>=◌, Ordering,
}
use mathlib.Core.Path.{ap₂}
use tiledb_rs.Base.Order.{IsTotal}
use tiledb_rs.Physical.{
  PhysicalType, u8, u16, u32, u64, i8, i16, i32, i64, f32, f64, Elem, FloatOrder, bits_cmp,
  slice_cmp,
}
use tiledb_rs.Physical.Order.{bits_cmp-IsTotal, slice_cmp-IsTotal}
use tiledb_rs.Range.Interval.Hull.{least_comm, greatest_comm}
use tiledb_rs.Range.{Range, single, multi, var, union}
use tiledb_rs.Range.Single.Hull.{union_comm}
use tiledb_rs.Range.Multi.{
  MultiValueRange, of_slices, cell_val_num, union as multi_union, cmp-of_slices,
  uint8 as multi_uint8, uint16 as multi_uint16, uint32 as multi_uint32, uint64 as multi_uint64,
  int8 as multi_int8, int16 as multi_int16, int32 as multi_int32, int64 as multi_int64,
  float32 as multi_float32, float64 as multi_float64,
}
use tiledb_rs.Range.Multi.Hull.{num_values-of_slices, assert_panic}
use tiledb_rs.Range.Var.{
  VarValueRange, union as var_union, uint8 as var_uint8, uint16 as var_uint16, uint32 as var_uint32,
  uint64 as var_uint64, int8 as var_int8, int16 as var_int16, int32 as var_int32,
  int64 as var_int64, float32 as var_float32, float64 as var_float64,
}
use tiledb_rs.Range.Domain.{NonEmptyDomain, zip_union, union_domain}

module _ (fl : FloatOrder) where
  slices : (t : PhysicalType) → List (Elem t) → List (Elem t) → Ordering
  slices t = slice_cmp (bits_cmp fl t)

  slices-IsTotal : (t : PhysicalType) → IsTotal (slices t)
  unfolding slices
  slices-IsTotal t = slice_cmp-IsTotal (bits_cmp fl t) (bits_cmp-IsTotal fl t)

  var_union_comm : (a b : VarValueRange) → var_union fl a b ≡ var_union fl b a
  unfolding var_union slices
  var_union_comm (var_uint8 ls le) (var_uint8 rs re) =
      ap₂ (λ low high. done (var_uint8 low high)) (least_comm _ (slices-IsTotal u8) ls rs)
        (greatest_comm _ (slices-IsTotal u8) le re)
  var_union_comm (var_uint16 ls le) (var_uint16 rs re) =
      ap₂ (λ low high. done (var_uint16 low high)) (least_comm _ (slices-IsTotal u16) ls rs)
        (greatest_comm _ (slices-IsTotal u16) le re)
  var_union_comm (var_uint32 ls le) (var_uint32 rs re) =
      ap₂ (λ low high. done (var_uint32 low high)) (least_comm _ (slices-IsTotal u32) ls rs)
        (greatest_comm _ (slices-IsTotal u32) le re)
  var_union_comm (var_uint64 ls le) (var_uint64 rs re) =
      ap₂ (λ low high. done (var_uint64 low high)) (least_comm _ (slices-IsTotal u64) ls rs)
        (greatest_comm _ (slices-IsTotal u64) le re)
  var_union_comm (var_int8 ls le) (var_int8 rs re) =
      ap₂ (λ low high. done (var_int8 low high)) (least_comm _ (slices-IsTotal i8) ls rs)
        (greatest_comm _ (slices-IsTotal i8) le re)
  var_union_comm (var_int16 ls le) (var_int16 rs re) =
      ap₂ (λ low high. done (var_int16 low high)) (least_comm _ (slices-IsTotal i16) ls rs)
        (greatest_comm _ (slices-IsTotal i16) le re)
  var_union_comm (var_int32 ls le) (var_int32 rs re) =
      ap₂ (λ low high. done (var_int32 low high)) (least_comm _ (slices-IsTotal i32) ls rs)
        (greatest_comm _ (slices-IsTotal i32) le re)
  var_union_comm (var_int64 ls le) (var_int64 rs re) =
      ap₂ (λ low high. done (var_int64 low high)) (least_comm _ (slices-IsTotal i64) ls rs)
        (greatest_comm _ (slices-IsTotal i64) le re)
  var_union_comm (var_float32 ls le) (var_float32 rs re) =
      ap₂ (λ low high. done (var_float32 low high)) (least_comm _ (slices-IsTotal f32) ls rs)
        (greatest_comm _ (slices-IsTotal f32) le re)
  var_union_comm (var_float64 ls le) (var_float64 rs re) =
      ap₂ (λ low high. done (var_float64 low high)) (least_comm _ (slices-IsTotal f64) ls rs)
        (greatest_comm _ (slices-IsTotal f64) le re)
  var_union_comm _ _ = refl

  of_slices-union_comm :
      (t : PhysicalType) (ls le rs re : List (Elem t))
      → multi_union fl (of_slices t ls le) (of_slices t rs re)
        ≡ multi_union fl (of_slices t rs re) (of_slices t ls le)
  unfolding multi_union cell_val_num slices
  of_slices-union_comm t ls le rs re =
      rw
        (
          num_values-of_slices t ls le,
          num_values-of_slices t rs re,
          cmp-of_slices t ls le rs re _ _,
          cmp-of_slices t rs re ls le _ _,
          least_comm _ (slices-IsTotal t) ls rs,
          greatest_comm _ (slices-IsTotal t) le re,
        )
        (ground arith)

  multi_union_comm : (a b : MultiValueRange) → multi_union fl a b ≡ multi_union fl b a
  unfolding multi_union
  multi_union_comm (multi_uint8 ls le) (multi_uint8 rs re) = of_slices-union_comm u8 ls le rs re
  multi_union_comm (multi_uint16 ls le) (multi_uint16 rs re) = of_slices-union_comm u16 ls le rs re
  multi_union_comm (multi_uint32 ls le) (multi_uint32 rs re) = of_slices-union_comm u32 ls le rs re
  multi_union_comm (multi_uint64 ls le) (multi_uint64 rs re) = of_slices-union_comm u64 ls le rs re
  multi_union_comm (multi_int8 ls le) (multi_int8 rs re) = of_slices-union_comm i8 ls le rs re
  multi_union_comm (multi_int16 ls le) (multi_int16 rs re) = of_slices-union_comm i16 ls le rs re
  multi_union_comm (multi_int32 ls le) (multi_int32 rs re) = of_slices-union_comm i32 ls le rs re
  multi_union_comm (multi_int64 ls le) (multi_int64 rs re) = of_slices-union_comm i64 ls le rs re
  multi_union_comm (multi_float32 ls le) (multi_float32 rs re) =
      of_slices-union_comm f32 ls le rs re
  multi_union_comm (multi_float64 ls le) (multi_float64 rs re) =
      of_slices-union_comm f64 ls le rs re
  multi_union_comm _ _ = assert_panic fl _ _ refl ∙ sym (assert_panic fl _ _ refl)

  -- The union of two ranges of any kinds does not depend on their order, also where it panics.
  pub range_union_comm : (a b : Range) → union fl a b ≡ union fl b a
  unfolding union
  range_union_comm (single a) (single b) =
      ap (λ r. r >>= λ range. done (single range)) (union_comm fl a b)
  range_union_comm (multi a) (multi b) =
      ap (λ r. r >>= λ range. done (multi range)) (multi_union_comm a b)
  range_union_comm (var a) (var b) = ap (λ r. r >>= λ range. done (var range)) (var_union_comm a b)
  range_union_comm _ _ = refl

  zip_union_comm : (a b : NonEmptyDomain) → zip_union fl a b ≡ zip_union fl b a
  unfolding zip_union
  zip_union_comm (l ∷ ls) (r ∷ rs) = rw (range_union_comm l r, zip_union_comm ls rs)
  zip_union_comm (l ∷ ls) [] = refl
  zip_union_comm [] (r ∷ rs) = refl
  zip_union_comm [] [] = refl

  -- The union of two domains does not depend on their order, also where it panics.
  pub union_domain_comm : (a b : NonEmptyDomain) → union_domain fl a b ≡ union_domain fl b a
  unfolding union_domain
  union_domain_comm a b = rw (zip_union_comm a b) (ground arith)

  -- The domain holds at each dimension the union of the ranges there.
  abbrev pub IsUnion : NonEmptyDomain → NonEmptyDomain → NonEmptyDomain → Type 0
  IsUnion a b c =
      (length a ≡ length b)
      × (length c ≡ length a)
      × ((i : ℕ) (l r : Range)
          → get_elem? a i ≡ some l
          → get_elem? b i ≡ some r
          → (range : Range) × (union fl l r ≡ done range) × (get_elem? c i ≡ some range))

  both_done :
      (m : Outcome Range) (k : Outcome NonEmptyDomain) (c : NonEmptyDomain)
      → (m >>= λ range. k >>= λ rest. done (range ∷ rest)) ≡ done c
      → (range : Range) × (rest : NonEmptyDomain) × (m ≡ done range)
        × (k ≡ done rest)
        × (c ≡ range ∷ rest)
  both_done (done range) (done rest) c h = (range, rest, refl, refl, ground arith)
  both_done (done range) panic c h = absurd (ground arith)
  both_done panic k c h = absurd (ground arith)

  extend :
      (l r range : Range) (a b rest : NonEmptyDomain)
      → union fl l r ≡ done range
      → IsUnion a b rest
      → IsUnion (l ∷ a) (r ∷ b) (range ∷ rest)
  extend l r range a b rest e (h, k, at) = (omega (arith, h), omega (arith, k), found)
    where
      found :
          (i : ℕ) (l' r' : Range)
          → get_elem? (l ∷ a) i ≡ some l'
          → get_elem? (r ∷ b) i ≡ some r'
          → (u : Range) × (union fl l' r' ≡ done u) × (get_elem? (range ∷ rest) i ≡ some u)
      found zero l' r' p q = (range, ground (arith, e), refl)
      found (suc i) l' r' p q = at i l' r' p q

  zip_union-IsUnion :
      (a b c : NonEmptyDomain) → length a ≡ length b → zip_union fl a b ≡ done c → IsUnion a b c
  unfolding zip_union
  zip_union-IsUnion [] [] c h e = ground arith
  zip_union-IsUnion [] (r ∷ rs) c h e = absurd (omega arith)
  zip_union-IsUnion (l ∷ ls) [] c h e = absurd (omega arith)
  zip_union-IsUnion (l ∷ ls) (r ∷ rs) c h e =
      let (range, rest, p, q, made) = both_done (union fl l r) (zip_union fl ls rs) c e in
      rw made (extend l r range ls rs rest p (zip_union-IsUnion ls rs rest (omega arith) q))

  -- If the union of two domains returns, the domains have one number of dimensions, and the result
  -- holds at each dimension the union of the two ranges there.
  pub union_domain-IsUnion : (a b c : NonEmptyDomain) → union_domain fl a b ≡ done c → IsUnion a b c
  unfolding union_domain
  union_domain-IsUnion a b c h = elim (Bool-cases (length a == length b)) [
    | inl same ↦ zip_union-IsUnion a b c (ground arith) (ground arith)
    | inr differ ↦ absurd (ground arith)
  ]

  both_return :
      (m : Outcome Range) (k : Outcome NonEmptyDomain)
      → Returns m
      → Returns k
      → Returns (m >>= λ range. k >>= λ rest. done (range ∷ rest))
  both_return (done range) (done rest) h i = tt
  both_return (done range) panic h i = i
  both_return panic k h i = h

  zip_union-Returns :
      (a b : NonEmptyDomain)
      → ((i : ℕ) (l r : Range)
          → get_elem? a i ≡ some l
          → get_elem? b i ≡ some r
          → Returns (union fl l r))
      → Returns (zip_union fl a b)
  unfolding zip_union
  zip_union-Returns (l ∷ ls) (r ∷ rs) each =
      both_return (union fl l r) (zip_union fl ls rs) (each 0 l r refl refl)
        (zip_union-Returns ls rs (λ i. each (suc i)))
  zip_union-Returns (l ∷ ls) [] each = tt
  zip_union-Returns [] (r ∷ rs) each = tt
  zip_union-Returns [] [] each = tt

  -- Domains of one number of dimensions whose ranges have a union at each dimension have a union.
  pub union_domain-Returns :
      (a b : NonEmptyDomain)
      → length a ≡ length b
      → ((i : ℕ) (l r : Range)
          → get_elem? a i ≡ some l
          → get_elem? b i ≡ some r
          → Returns (union fl l r))
      → Returns (union_domain fl a b)
  unfolding union_domain
  union_domain-Returns a b h each = rw (same) (zip_union-Returns a b each)
    where
      same : (length a == length b) ≡ true
      same = ground arith
