-- ===== src/Query/Scratch/Growth.antt =====
-- How `FieldScratchAllocator` makes room.
use tiledb_rs.Base.{
  ℕ, zero, suc, ◌+◌, ◌-◌, ◌*◌, ◌^◌, ◌≤◌, ◌<◌, ◌≡◌, refl, sym, ◌∙◌, leb, ltb, true, false, Option,
  none, some, List, [], ◌∷◌, ◌++◌, length, length-append, arith, Outcome, done, ◌>>=◌,
}
use native.Mathlib.Decide.{dec_lt}
use mathlib.Core.List.{append-nil, append_assoc}
use tiledb_rs.Base.Vectors.{replicate}
use tiledb_rs.Query.Scratch.{ScratchCellStructure, ScratchSpace, fixed, var}
use tiledb_rs.Query.Scratch.Allocators.{
  FieldScratchAllocator, double, map_structure, map_validity, field_realloc,
}

below_bytes : (n size_of : ℕ) → 1 ≤ size_of → n * size_of < 2 ^ 63 → n < 2 ^ 63
below_bytes n size_of p h = grind arith

mul_below : (a b c limit : ℕ) → a ≤ b → b * c < limit → a * c < limit
mul_below a b c limit h k = grind arith

module _ {A : Type 0} where
  length-replicate : (n : ℕ) (x : A) → length (replicate n x) ≡ n
  length-replicate zero x = omega arith
  length-replicate (suc n) x = omega (arith, length-replicate n x)

  -- The list with as many more of one value.
  abbrev pub twice : A → List A → List A
  twice x v = v ++ replicate (length v) x

  pub double_lem :
      (size_of : ℕ) (x : A) (v : List A)
      → 1 ≤ size_of
      → 2 * length v * size_of < 2 ^ 63
      → double size_of x v ≡ done (twice x v)
  unfolding double
  double_lem size_of x [] p h = let b : ltb (0 * size_of) (2 ^ 63) ≡ true = ground arith in rw b
  double_lem size_of x (y ∷ v) p h =
      let n = suc (length v) in
      let small : 2 * n < 2 ^ 63 = below_bytes (2 * n) size_of p h in
      let a : ltb (2 * n) (2 ^ 64) ≡ true = ground arith in
      let b : ltb (2 * n * size_of) (2 ^ 63) ≡ true = ground arith in
      let c : leb (2 * n) n ≡ false = ground arith in
      let d : 2 * n - n ≡ n = omega arith in rw (a, b, c, d)

  pub length-twice : (x : A) (v : List A) → length (twice x v) ≡ 2 * length v
  length-twice x v =
      omega (arith, length-append v (replicate (length v) x), length-replicate (length v) x)

-- As many offsets, or as many validities, as a limit at most.
abbrev pub WithinStructure : ℕ → ScratchCellStructure → Type 0
WithinStructure n (fixed nz) = Unit
WithinStructure n (var offsets) = length offsets ≤ n

abbrev pub WithinValidity : ℕ → Option (List ℕ) → Type 0
WithinValidity n none = Unit
WithinValidity n (some validity) = length validity ≤ n

abbrev pub twice_structure : ScratchCellStructure → ScratchCellStructure
twice_structure (fixed nz) = fixed nz
twice_structure (var offsets) = var (twice 0 offsets)

abbrev pub twice_validity : Option (List ℕ) → Option (List ℕ)
twice_validity none = none
twice_validity (some validity) = some (twice 0 validity)

map_structure-double :
    (n : ℕ) (s : ScratchCellStructure)
    → WithinStructure n s
    → 16 * n < 2 ^ 63
    → (map_structure (double 8 0) s ≡ done (twice_structure s))
      × WithinStructure (2 * n) (twice_structure s)
unfolding map_structure
map_structure-double n (fixed nz) w h = (refl, tt)
map_structure-double n (var offsets) w h =
    (rw (double_lem 8 0 offsets (omega arith) (omega arith)), omega (arith, length-twice 0 offsets))

map_validity-double :
    (n : ℕ) (v : Option (List ℕ))
    → WithinValidity n v
    → 16 * n < 2 ^ 63
    → (map_validity (double 1 0) v ≡ done (twice_validity v))
      × WithinValidity (2 * n) (twice_validity v)
unfolding map_validity
map_validity-double n none w h = (refl, tt)
map_validity-double n (some validity) w h = (
  rw (double_lem 1 0 validity (omega arith) (omega arith)),
  omega (arith, length-twice 0 validity),
)

module _ {C : Type 0} (size_of : ℕ) (zero_value : C) (self : FieldScratchAllocator) where
  -- There is a value at least, and no more offsets or validities than values.
  abbrev pub IsRoomy : ScratchSpace C → Type 0
  IsRoomy space =
      (1 ≤ length space.values)
      × WithinStructure (length space.values) space.cell_structure
      × WithinValidity (length space.values) space.validity

  -- The space with twice the room.
  abbrev pub twice_space : ScratchSpace C → ScratchSpace C
  twice_space space = record {
    values = twice zero_value space.values;
    cell_structure = twice_structure space.cell_structure;
    validity = twice_validity space.validity;
  }

  field_realloc-twice :
      (space : ScratchSpace C)
      → IsRoomy space
      → 1 ≤ size_of
      → 16 * length space.values * size_of < 2 ^ 63
      → (field_realloc size_of zero_value self space ≡ done (twice_space space))
        × IsRoomy (twice_space space)
  unfolding field_realloc
  field_realloc-twice space (one, s, v) p h =
      let n = length space.values in
      let small : 16 * n < 2 ^ 63 = below_bytes (16 * n) size_of p h in
      let fits : 2 * n * size_of < 2 ^ 63 = grind arith in
      let (structure, s') = map_structure-double n space.cell_structure s small in
      let (validity, v') = map_validity-double n space.validity v small in
      let l : length (twice zero_value space.values) ≡ 2 * n =
        length-twice zero_value space.values in
      (
        rw (double_lem size_of zero_value space.values p fits, structure, validity),
        (omega arith, rw l s', rw l v'),
      )

  -- The space after so many calls of `realloc`, each with what the one before it returned.
  abbrev pub realloc_times : ℕ → ScratchSpace C → Outcome (ScratchSpace C)
  realloc_times zero space = done space
  realloc_times (suc k) space =
      field_realloc size_of zero_value self space >>= λ more. realloc_times k more

  -- The need is met by calls of `realloc`.
  abbrev pub Reaches : ℕ → ScratchSpace C → Type 0
  Reaches need space =
      (k : ℕ) × (last : ScratchSpace C) × (more : List C) × (realloc_times k space ≡ done last)
      × (need ≤ length last.values)
      × (last.values ≡ space.values ++ more)

  Reaches-within :
      (rounds need : ℕ) (space : ScratchSpace C)
      → IsRoomy space
      → 1 ≤ size_of
      → 16 * need * size_of < 2 ^ 63
      → need ≤ length space.values + rounds
      → Reaches need space
  Reaches-within zero need space r p h n =
      (0, space, [], refl, omega arith, sym (append-nil space.values))
  Reaches-within (suc rounds) need space r p h n = elim (dec_lt (length space.values) need) [
    | no enough ↦ (0, space, [], refl, omega arith, sym (append-nil space.values))
    | yes less ↦
        let fits : 16 * length space.values * size_of < 2 ^ 63 =
          mul_below (16 * length space.values) (16 * need) size_of (2 ^ 63) (omega arith) h in
        let (step, roomy) = field_realloc-twice space r p fits in
        let l : length (twice zero_value space.values) ≡ 2 * length space.values =
          length-twice zero_value space.values in
        let (k, last, more, e, room, same) =
          Reaches-within rounds need (twice_space space) roomy p h (omega arith) in
        (
          suc k,
          last,
          replicate (length space.values) zero_value ++ more,
          rw step e,
          room,
          same ∙ append_assoc space.values (replicate (length space.values) zero_value) more,
        )
  ]

  -- From a space with at least one value, and no more offsets or validities than values, any need
  -- that fits into memory sixteen times over is met: after some number of calls of `realloc` that
  -- all return, the space has room for it, and its values begin with those that were there.
  pub field_realloc-Reaches :
      (need : ℕ) (space : ScratchSpace C)
      → IsRoomy space
      → 1 ≤ size_of
      → 16 * need * size_of < 2 ^ 63
      → Reaches need space
  field_realloc-Reaches need space r p h = Reaches-within need need space r p h (omega arith)
