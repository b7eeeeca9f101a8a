-- ===== src/Pod/Enumeration/Records.antt =====
-- Records become bytes and offsets, and come back.
use tiledb_rs.Base.{
  ℕ, ◌+◌, ◌-◌, ◌*◌, ◌/◌, ◌^◌, ◌≤◌, ◌<◌, ◌==◌, ◌≡◌, refl, sym, ap, ◌∙◌, leb, true, false, none, some,
  List, [], ◌∷◌, ◌++◌, length, length-append, All, arith, done, Option, Bool,
}
use mathlib.Core.Path.{subst}
use Prim.Native.String.{String}
use tiledb_rs.Datatype.{Datatype}
use tiledb_rs.Datatype.Classes.{size}
use tiledb_rs.Array.{CellValNum, fixed, var, to_u32}
use tiledb_rs.Query.Input.{offsets_from, extend_all}
use tiledb_rs.Query.Input.Fixed.{length-extend_all}
use tiledb_rs.Query.Input.Var.{offsets_from-Marks}
use tiledb_rs.Query.Output.Slices.{take-append}
use tiledb_rs.Pod.Enumeration.{
  EnumerationData, num_variants, records, records_at, chunks_loop, variants_from_records,
}
use tiledb_rs.Pod.Enumeration.Cut.{
  records_at-offsets, chunks_loop-extend_all, split_last, extend_all-last, size_pos, divided,
}

-- The enumeration that has the records' bytes and offsets.
abbrev pub made :
    String → Datatype → CellValNum → Option Bool → List ℕ × Option (List ℕ) → EnumerationData
made name datatype cell_val_num ordered stored = record {
  name = name;
  datatype = datatype;
  cell_val_num = some cell_val_num;
  ordered = ordered;
  bytes = stored.0;
  offsets = stored.1;
}

-- What the records must be: of one size, or at least one with fewer than 2 ^ 64 bytes in all.
abbrev pub AreRecords : Datatype → CellValNum → List (List ℕ) → Type 0
AreRecords datatype (fixed nz) variants =
    (1 ≤ nz) × All (λ v. length v ≡ size datatype * nz) variants
AreRecords datatype var variants = (1 ≤ length variants) × (length (extend_all variants) < 2 ^ 64)

fixed_stored :
    (nz : ℕ) (variants : List (List ℕ))
    → variants_from_records (fixed nz) variants ≡ done (extend_all variants, none)
unfolding variants_from_records
fixed_stored nz variants = refl

fixed_records :
    (name : String) (datatype : Datatype) (nz : ℕ) (ordered : Option Bool)
    (variants : List (List ℕ))
    → 1 ≤ size datatype * nz
    → chunks_loop (length (extend_all variants)) (size datatype * nz) (extend_all variants)
      ≡ variants
    → records (made name datatype (fixed nz) ordered (extend_all variants, none)) ≡ done variants
unfolding records to_u32
fixed_records name datatype nz ordered variants n e =
    let z : (size datatype * nz == 0) ≡ false = ground arith in rw (z, e)

fixed_counted :
    (name : String) (datatype : Datatype) (nz : ℕ) (ordered : Option Bool)
    (variants : List (List ℕ))
    → num_variants (made name datatype (fixed nz) ordered (extend_all variants, none))
      ≡ length (extend_all variants) / size datatype / nz
unfolding num_variants to_u32
fixed_counted name datatype nz ordered variants = refl

var_counted :
    (name : String) (datatype : Datatype) (ordered : Option Bool) (variants : List (List ℕ))
    (offsets : List ℕ)
    → num_variants (made name datatype var ordered (extend_all variants, some (0 ∷ offsets)))
      ≡ length (0 ∷ offsets)
unfolding num_variants
var_counted name datatype ordered variants offsets = refl

var_stored :
    (before : List (List ℕ)) (last offsets : List ℕ)
    → offsets_from 0 before ≡ done offsets
    → variants_from_records var (before ++ (last ∷ []))
      ≡ done (extend_all (before ++ (last ∷ [])), some (0 ∷ offsets))
unfolding variants_from_records
var_stored before last offsets o =
    let l : length (before ++ (last ∷ [])) ≡ length before + 1 = length-append before (last ∷ []) in
    let b : leb 1 (length before + 1) ≡ true = ground arith in
    let n : length before + 1 - 1 ≡ length before = omega arith in
    rw (l, b, n, take-append before (last ∷ []), o)

var_records :
    (name : String) (datatype : Datatype) (ordered : Option Bool) (variants : List (List ℕ))
    (offsets : List ℕ)
    → records_at (extend_all variants) (0 ∷ offsets) ≡ done variants
    → records (made name datatype var ordered (extend_all variants, some (0 ∷ offsets)))
      ≡ done variants
unfolding records
var_records name datatype ordered variants offsets e = e

-- The records become bytes and offsets, and the enumeration that has those has the records, and
-- counts them.
abbrev pub IsStored : String → Datatype → CellValNum → Option Bool → List (List ℕ) → Type 0
IsStored name datatype cell_val_num ordered variants =
    (stored : List ℕ × Option (List ℕ)) × (variants_from_records cell_val_num variants
      ≡ done stored)
    × (records (made name datatype cell_val_num ordered stored) ≡ done variants)
    × (num_variants (made name datatype cell_val_num ordered stored) ≡ length variants)

var-IsStored :
    (name : String) (datatype : Datatype) (ordered : Option Bool) (before : List (List ℕ))
    (last : List ℕ)
    → length (extend_all (before ++ (last ∷ []))) < 2 ^ 64
    → IsStored name datatype var ordered (before ++ (last ∷ []))
var-IsStored name datatype ordered before last h =
    let variants = before ++ (last ∷ []) in
    let l : length (extend_all variants) ≡ length (extend_all before) + length last =
      ap length (extend_all-last before last) ∙ length-append (extend_all before) last in
    let less : 0 + length (extend_all before) < 2 ^ 64 = omega (arith, l, h) in
    let (offsets, o, m, e, at, n) = offsets_from-Marks 0 before less in
    let c : length variants ≡ length before + 1 = length-append before (last ∷ []) in
    let cut : records_at (extend_all variants) (0 ∷ offsets) ≡ done variants =
      ap (λ b. records_at b (0 ∷ offsets)) (extend_all-last before last)
      ∙ records_at-offsets [] before last offsets o less in
    (
      (extend_all variants, some (0 ∷ offsets)),
      var_stored before last offsets o,
      var_records name datatype ordered variants offsets cut,
      var_counted name datatype ordered variants offsets ∙ omega (arith, c, n),
    )

-- Records of one size, or at least one record with fewer than 2 ^ 64 bytes in all where the sizes
-- differ, become bytes and offsets without panic, and the enumeration that has those has the
-- records, and counts them.
pub variants_from_records-records :
    (name : String) (datatype : Datatype) (cell_val_num : CellValNum) (ordered : Option Bool)
    (variants : List (List ℕ))
    → AreRecords datatype cell_val_num variants
    → IsStored name datatype cell_val_num ordered variants
variants_from_records-records name datatype (fixed nz) ordered variants (p, a) =
    let s = size_pos datatype in
    let n : 1 ≤ size datatype * nz = grind arith in
    let l : length (extend_all variants) ≡ length variants * (size datatype * nz) =
      length-extend_all (size datatype * nz) variants a in
    (
      (extend_all variants, none),
      fixed_stored nz variants,
      fixed_records name datatype nz ordered variants n (
          chunks_loop-extend_all (length (extend_all variants)) (size datatype * nz) variants n a
            (omega arith)),
      fixed_counted name datatype nz ordered variants
          ∙ rw l (divided (length variants) (size datatype) nz s p),
    )
variants_from_records-records name datatype var ordered [] (p, h) = absurd (omega arith)
variants_from_records-records name datatype var ordered (v ∷ variants) (p, h) =
    let (before, last, e) = split_last v variants in
    subst (IsStored name datatype var ordered) (sym e) (
      var-IsStored name datatype ordered before last
        (subst (λ vs. length (extend_all vs) < 2 ^ 64) e h))
