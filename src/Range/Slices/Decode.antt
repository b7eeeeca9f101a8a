-- ===== src/Range/Slices/Decode.antt =====
-- What `from_slices` makes of the bytes of values, and of any bytes.
use tiledb_rs.Base.{
  ℕ, ◌≡◌, refl, ◌∙◌, ◌==◌, List, [], ◌∷◌, length, All, done, ok, arith, Bool-cases, inl, inr, false,
  Returns, Result-cases,
}
use tiledb_rs.Physical.{PhysicalType, Elem, InRange}
use tiledb_rs.Array.{CellValNum, fixed, var as var_sized, IsValid}
use tiledb_rs.Datatype.{Datatype, physical_type}
use tiledb_rs.Datatype.Classes.{size}
use tiledb_rs.Range.Multi
use tiledb_rs.Range.Multi.Hull.{try_from_iff}
use tiledb_rs.Range.Var
use tiledb_rs.Range.Single.{of_pair}
use tiledb_rs.Range.Multi.{MultiValueRangeError, try_from}
use tiledb_rs.Range.{Range, single, multi, var}
use tiledb_rs.Range.Slices.{
  TypedRange, check_slices, of_values, read_values, from_slices, of_single,
}
use tiledb_rs.Range.Slices.Bytes.{
  memory, from_raw_parts-memory, length-memory, whole_values, length-from_raw_parts,
}

-- The values are as many as the cell holds.
abbrev pub HasLength {ℓ} : {A : Type ℓ} → CellValNum → List A → Type 0
HasLength (fixed n) xs = length xs ≡ n
HasLength var_sized xs = Unit

-- The ends of the range are these values.
abbrev pub EndsAre : Range → (t : PhysicalType) → List (Elem t) → List (Elem t) → Type 0
EndsAre (single r) t xs ys =
    (low high : Elem t) × (r ≡ of_pair t low high) × (xs ≡ low ∷ []) × (ys ≡ high ∷ [])
EndsAre (multi r) t xs ys = r ≡ Multi.of_slices t xs ys
EndsAre (var r) t xs ys = r ≡ Var.of_slices t xs ys

checks_pass :
    (d : Datatype) (c : CellValNum) (xs ys : List (Elem (physical_type d)))
    → HasLength c xs
    → HasLength c ys
    → check_slices d c (memory (physical_type d) xs) (memory (physical_type d) ys) ≡ ok tt
unfolding check_slices size
checks_pass d (fixed n) xs ys h k = ground (
  arith,
  length-memory (physical_type d) xs,
  length-memory (physical_type d) ys,
  whole_values (physical_type d) (length xs),
  whole_values (physical_type d) (length ys),
)
checks_pass d var_sized xs ys h k = ground (
  arith,
  length-memory (physical_type d) xs,
  length-memory (physical_type d) ys,
  whole_values (physical_type d) (length xs),
  whole_values (physical_type d) (length ys),
)

read_values-memory :
    (d : Datatype) (c : CellValNum) (xs ys : List (Elem (physical_type d)))
    → All (InRange (physical_type d)) xs
    → All (InRange (physical_type d)) ys
    → read_values d c (memory (physical_type d) xs) (memory (physical_type d) ys)
      ≡ of_values d c xs ys
unfolding read_values size
read_values-memory d c xs ys h k = rw (
  length-memory (physical_type d) xs,
  length-memory (physical_type d) ys,
  (whole_values (physical_type d) (length xs)).1,
  (whole_values (physical_type d) (length ys)).1,
  from_raw_parts-memory (physical_type d) xs h,
  from_raw_parts-memory (physical_type d) ys k,
)

one_value :
    (d : Datatype) (xs ys : List (Elem (physical_type d)))
    → length xs ≡ 1
    → length ys ≡ 1
    → (r : TypedRange) × (of_single d xs ys ≡ done (ok r))
      × (r.datatype ≡ d)
      × EndsAre r.range (physical_type d) xs ys
unfolding of_single
one_value d [] ys h k = absurd (omega arith)
one_value d (x ∷ xs) [] h k = absurd (omega arith)
one_value d (x ∷ []) (y ∷ []) h k = (
  record { datatype = d; range = single (of_pair (physical_type d) x y) },
  refl,
  refl,
  (x, y, refl, refl, refl),
)
one_value d (x ∷ []) (y ∷ y' ∷ ys) h k = absurd (omega arith)
one_value d (x ∷ x' ∷ xs) (y ∷ ys) h k = absurd (omega arith)

of_values-EndsAre :
    (d : Datatype) (c : CellValNum) (xs ys : List (Elem (physical_type d)))
    → IsValid c
    → HasLength c xs
    → HasLength c ys
    → (r : TypedRange) × (of_values d c xs ys ≡ done (ok r))
      × (r.datatype ≡ d)
      × EndsAre r.range (physical_type d) xs ys
unfolding of_values
of_values-EndsAre d (fixed n) xs ys v h k = elim (Bool-cases (n == 1)) [
  | inl one ↦ rw one (one_value d xs ys (ground arith) (ground arith))
  | inr many ↦ (
    record { datatype = d; range = multi (Multi.of_slices (physical_type d) xs ys) },
    rw (many, made many),
    refl,
    refl,
  )
]
  where
    made :
        (n == 1) ≡ false
        → try_from (physical_type d) (fixed n) xs ys ≡ ok (Multi.of_slices (physical_type d) xs ys)
    made many =
        (try_from_iff (physical_type d) (fixed n) xs ys _ (ground arith) (ground arith)).1
          (refl, ground arith, ground arith, ground arith)
of_values-EndsAre d var_sized xs ys v h k =
    (record { datatype = d; range = var (Var.of_slices (physical_type d) xs ys) }, refl, refl, refl)

-- From the memory of as many values as the cell holds, `from_slices` returns the range whose ends
-- are these values.
pub from_slices-memory :
    (d : Datatype) (c : CellValNum) (xs ys : List (Elem (physical_type d)))
    → IsValid c
    → All (InRange (physical_type d)) xs
    → All (InRange (physical_type d)) ys
    → HasLength c xs
    → HasLength c ys
    → (r : TypedRange) × (from_slices d c
          (memory (physical_type d) xs)
          (memory (physical_type d) ys)
        ≡ done (ok r))
      × (r.datatype ≡ d)
      × EndsAre r.range (physical_type d) xs ys
unfolding from_slices
from_slices-memory d c xs ys v hx hy h k =
    rw (checks_pass d c xs ys h k, from_slices, read_values-memory d c xs ys hx hy)
      (of_values-EndsAre d c xs ys v h k)

of_single-Returns :
    (d : Datatype) (xs ys : List (Elem (physical_type d)))
    → length xs ≡ 1
    → length ys ≡ 1
    → Returns (of_single d xs ys)
unfolding of_single
of_single-Returns d [] ys h k = absurd (omega arith)
of_single-Returns d (x ∷ xs) [] h k = absurd (omega arith)
of_single-Returns d (x ∷ xs) (y ∷ ys) h k = tt

read_values-Returns :
    (d : Datatype) (c : CellValNum) (start end : List ℕ)
    → check_slices d c start end ≡ ok tt
    → Returns (read_values d c start end)
unfolding check_slices read_values of_values
read_values-Returns d (fixed n) start end h = elim (Bool-cases (n == 1)) [
  | inl one ↦ rw one (
      of_single-Returns d _ _ (length-from_raw_parts (physical_type d) start _ ∙ ground arith)
        (length-from_raw_parts (physical_type d) end _ ∙ ground arith))
  | inr many ↦ rw many tt
]
read_values-Returns d var_sized start end h = tt

-- On memory that is aligned for the type, `from_slices` does not panic, whatever the bytes, for a
-- valid number of values: it returns a range or an error.
pub from_slices-Returns :
    (d : Datatype) (c : CellValNum) (start end : List ℕ)
    → IsValid c
    → Returns (from_slices d c start end)
unfolding from_slices
from_slices-Returns d c start end v = elim (Result-cases (check_slices d c start end)) [
  | inl (checked, good) ↦ rw (good, from_slices) (read_values-Returns d c start end good)
  | inr (e, bad) ↦ rw (bad, from_slices) tt
]
