-- ===== src/Pod/Enumeration.antt =====
-- tiledb/pod/src/array/enumeration/mod.rs: `EnumerationData`, whose variants are records of bytes,
-- and the bytes and offsets of a list of records. The field `data` is called `bytes`.
pub mod Cut
pub mod Records
use Prim.Native.String.{String}
use tiledb_rs.Base.{
  ℕ, zero, suc, ◌-◌, ◌*◌, ◌/◌, ◌==◌, Bool, Option, none, some, List, [], ◌∷◌, length, take, drop,
  Outcome, done, panic, ◌>>=◌, if◌then◌else◌,
}
use tiledb_rs.Datatype.{Datatype}
use tiledb_rs.Datatype.Classes.{size}
use tiledb_rs.Array.{CellValNum, fixed, var, single, to_u32}
use tiledb_rs.Base.Vectors.{checked_sub, slice}
use tiledb_rs.Query.Input.{offsets_from, extend_all}

pub record EnumerationData : Type 0 where
  pub name : String
  pub datatype : Datatype
  pub cell_val_num : Option CellValNum
  pub ordered : Option Bool
  pub bytes : List ℕ
  pub offsets : Option (List ℕ)

-- `u32::from(self.cell_val_num.unwrap_or(CellValNum::single()))`.
abbrev pub values_per_variant : Option CellValNum → ℕ
values_per_variant none = to_u32 single
values_per_variant (some cell_val_num) = to_u32 cell_val_num

unfoldable pub num_variants : EnumerationData → ℕ
num_variants self = elim self.offsets [
  | some offsets ↦ length offsets
  | none ↦ length self.bytes / size self.datatype / values_per_variant self.cell_val_num
]

-- The records between neighbouring offsets, and from the last to the end; `last().unwrap()` panics
-- where there are no offsets.
unfoldable pub records_at : List ℕ → List ℕ → Outcome (List (List ℕ))
records_at bytes [] = panic
records_at bytes (first ∷ []) = do r ← slice bytes first (length bytes); done (r ∷ [])
records_at bytes (first ∷ past ∷ offsets) = do
  r ← slice bytes first past
  rest ← records_at bytes (past ∷ offsets)
  done (r ∷ rest)

-- `chunks`, on as many rounds as there are bytes.
unfoldable pub chunks_loop : (rounds n : ℕ) → List ℕ → List (List ℕ)
chunks_loop zero n bytes = []
chunks_loop (suc rounds) n [] = []
chunks_loop (suc rounds) n (b ∷ bytes) =
    take n (b ∷ bytes) ∷ chunks_loop rounds n (drop n (b ∷ bytes))

unfoldable pub chunks : ℕ → List ℕ → Outcome (List (List ℕ))
unfolding chunks_loop
chunks n bytes = if n == 0 then panic else done (chunks_loop (length bytes) n bytes)

unfoldable pub records : EnumerationData → Outcome (List (List ℕ))
unfolding records_at chunks
records self = elim self.offsets [
  | some offsets ↦ records_at self.bytes offsets
  | none ↦ chunks (size self.datatype * values_per_variant self.cell_val_num) self.bytes
]

-- The offsets are those of all variants but the last, added up as `offsets_from` does.
unfoldable pub variants_from_records :
    CellValNum → List (List ℕ) → Outcome (List ℕ × Option (List ℕ))
variants_from_records (fixed nz) variants = done (extend_all variants, none)
variants_from_records var variants = do
  n ← checked_sub (length variants) 1
  offsets ← offsets_from 0 (take n variants)
  done (extend_all variants, some (0 ∷ offsets))
