-- ===== src/Query/Scratch/Owned.antt =====
-- Which buffers can become scratch space, and what space they become.
use tiledb_rs.Base.{
  ℕ, ◌≡◌, ◌↔◌, refl, ap, ◌∙◌, Option, none, some, List, [], arith, Result, ok, err, and_then,
}
use tiledb_rs.Query.BufferMut.{BufferMut, CellStructureMut, QueryBuffersMut}
use tiledb_rs.Query.Input.{Error, invalid_argument, borrowed_data}
use tiledb_rs.Query.Scratch.{
  ScratchCellStructure, ScratchSpace, fixed, var, into_owned, into_validity, try_from_structure_mut,
  try_from, to_structure_mut,
}

module _ {C : Type 0} where
  -- The buffer has the values, and does not borrow them.
  abbrev pub Holds : BufferMut C → List C → Type 0
  Holds BufferMut.empty values = values ≡ []
  Holds (BufferMut.borrowed _) values = ⊥
  Holds (BufferMut.owned own) values = own ≡ values

  into_owned_iff :
      (e : Error) (b : BufferMut C) (values : List C)
      → (into_owned e b ≡ ok values) ↔ Holds b values
  unfolding into_owned
  into_owned_iff e BufferMut.empty values = ground arith
  into_owned_iff e (BufferMut.borrowed _) values = ground arith
  into_owned_iff e (BufferMut.owned own) values = ground arith

abbrev pub HoldsValidity : Option (BufferMut ℕ) → Option (List ℕ) → Type 0
HoldsValidity none none = Unit
HoldsValidity (some b) (some values) = Holds b values
HoldsValidity _ _ = ⊥

into_validity_iff :
    (b : Option (BufferMut ℕ)) (v : Option (List ℕ)) → (into_validity b ≡ ok v) ↔ HoldsValidity b v
unfolding into_validity into_owned
into_validity_iff none none = ground arith
into_validity_iff none (some v) = ground arith
into_validity_iff (some BufferMut.empty) none = ground arith
into_validity_iff (some (BufferMut.borrowed _)) none = ground arith
into_validity_iff (some (BufferMut.owned _)) none = ground arith
into_validity_iff (some BufferMut.empty) (some v) = ground arith
into_validity_iff (some (BufferMut.borrowed _)) (some v) = ground arith
into_validity_iff (some (BufferMut.owned _)) (some v) = ground arith

try_from_structure_mut_iff :
    (c : CellStructureMut) (s : ScratchCellStructure)
    → (try_from_structure_mut c ≡ ok s) ↔ (c ≡ to_structure_mut s)
unfolding try_from_structure_mut
try_from_structure_mut_iff (CellStructureMut.fixed nz) (fixed n) = ground arith
try_from_structure_mut_iff (CellStructureMut.fixed nz) (var offsets) = ground arith
try_from_structure_mut_iff (CellStructureMut.var BufferMut.empty) (fixed n) = ground arith
try_from_structure_mut_iff (CellStructureMut.var (BufferMut.borrowed _)) (fixed n) = ground arith
try_from_structure_mut_iff (CellStructureMut.var (BufferMut.owned _)) (fixed n) = ground arith
try_from_structure_mut_iff (CellStructureMut.var BufferMut.empty) (var o) = ground arith
try_from_structure_mut_iff (CellStructureMut.var (BufferMut.borrowed _)) (var o) = ground arith
try_from_structure_mut_iff (CellStructureMut.var (BufferMut.owned _)) (var o) = ground arith

-- A result that is made of three.
and_then_iff {ℓ} :
    {X Y Z E : Type 0} {R : Type ℓ} (a : Result E X) (b : Result E Y) (c : Result E Z)
    (make : X → Y → Z → R) (r : R)
    → (and_then a (λ x. and_then b (λ y. and_then c (λ z. ok (make x y z)))) ≡ ok r)
      ↔ ((x : X) × (y : Y) × (z : Z) × (a ≡ ok x) × (b ≡ ok y) × (c ≡ ok z) × (make x y z ≡ r))
and_then_iff (ok x) (ok y) (ok z) make r =
    (λ h. (x, y, z, refl, refl, refl, ground arith), λ (x', y', z', p, q, s, e). ground arith)
and_then_iff (err e) b c make r =
    (λ h. absurd (ground arith), λ (x', y', z', p, q, s, e'). absurd (ground arith))
and_then_iff (ok x) (err e) c make r =
    (λ h. absurd (ground arith), λ (x', y', z', p, q, s, e'). absurd (ground arith))
and_then_iff (ok x) (ok y) (err e) make r =
    (λ h. absurd (ground arith), λ (x', y', z', p, q, s, e'). absurd (ground arith))

module _ {C : Type 0} where
  abbrev make_space : List C → ScratchCellStructure → Option (List ℕ) → ScratchSpace C
  make_space values structure validity = record {
    values = values;
    cell_structure = structure;
    validity = validity;
  }

  -- The buffers own what is in the space; for no cell structure is an empty buffer enough.
  abbrev pub IsOwnerOf : QueryBuffersMut C → ScratchSpace C → Type 0
  IsOwnerOf value space =
      Holds value.values space.values
      × (value.cell_structure ≡ to_structure_mut space.cell_structure)
      × HoldsValidity value.validity space.validity

  -- Buffers become a scratch space exactly if they own what is in it, where a buffer of values or of
  -- validity may be `Empty` for no values, but one of offsets may not.
  pub try_from-IsOwnerOf :
      (value : QueryBuffersMut C) (space : ScratchSpace C)
      → (try_from value ≡ ok space) ↔ IsOwnerOf value space
  unfolding try_from
  try_from-IsOwnerOf value space =
      let parts =
        and_then_iff (into_owned (invalid_argument borrowed_data) value.values)
          (try_from_structure_mut value.cell_structure) (into_validity value.validity) make_space
          space in
      (
        λ h.
            let (values, structure, validity, a, b, c, e) = parts.0 h in
            (
              (into_owned_iff _ value.values space.values).0 (a ∙ ap (λ s. ok s.values) e),
              (try_from_structure_mut_iff value.cell_structure space.cell_structure).0
                  (b ∙ ap (λ s. ok s.cell_structure) e),
              (into_validity_iff value.validity space.validity).0 (c ∙ ap (λ s. ok s.validity) e),
            ),
        λ (v, s, y). parts.1 (
          space.values,
          space.cell_structure,
          space.validity,
          (into_owned_iff _ value.values space.values).1 v,
          (try_from_structure_mut_iff value.cell_structure space.cell_structure).1 s,
          (into_validity_iff value.validity space.validity).1 y,
          refl,
        ),
      )
