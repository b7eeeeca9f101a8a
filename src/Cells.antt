-- ===== src/Cells.antt =====
-- test-utils/cells/src/lib.rs: `Cells`, a set of records that is stored field by field. A method that
-- changes its receiver returns the cells that it leaves there; one that can panic returns an
-- `Outcome`.
pub mod Field
pub mod Groups
pub mod Ordered
pub mod Shape
pub mod Sorting
pub mod Structured
pub mod Write
use Prim.Native.String.{String}
use tiledb_rs.Base.{
  ℕ, leb, ◌==◌, Bool, true, false, not, ◌&&◌, Option, none, some, List, [], ◌∷◌, ◌++◌, map, length,
  drop, if◌then◌else◌, Outcome, done, panic, ◌>>=◌, ◌>>◌, assert,
}
use tiledb_rs.Base.Map.{get, contains_key, insert, remove, unwrap}
use Field.{FieldData, of_cells, typed_field_data_cmp}
use Field.Methods as Data

-- The entries of the map.
abbrev pub Fields : Type 0
Fields = List (String × FieldData)

pub record Cells : Type 0 where
  pub fields : Fields

-- The loop of `new`, with its variable `expect_len`.
unfoldable pub check_len : Option ℕ → Fields → Outcome (Unit {0})
check_len expect_len [] = done tt
check_len none ((k, d) ∷ fields) = check_len (some (Data.len d)) fields
check_len (some n) ((k, d) ∷ fields) = assert (Data.len d == n) >> check_len (some n) fields

unfoldable pub new : Fields → Outcome Cells
new fields = check_len none fields >> done (record { fields = fields })

-- `self.fields.values().next().unwrap()`.
abbrev pub first_field : Fields → Outcome FieldData
first_field [] = panic
first_field ((k, d) ∷ fields) = done d

unfoldable pub is_empty : Cells → Outcome Bool
is_empty self = first_field self.fields >>= λ d. done (Data.is_empty d)

unfoldable pub len : Cells → Outcome ℕ
len self = first_field self.fields >>= λ d. done (Data.len d)

-- Either all of `theirs`, or `mine` with its front overwritten.
unfoldable pub copy_data : FieldData → FieldData → Outcome FieldData
copy_data prev_write_data d =
    typed_field_data_cmp prev_write_data d
      (λ c mine theirs. done (
        of_cells c (
          if leb (length mine) (length theirs)
          then theirs
          else theirs ++ drop (length theirs) mine)))
      panic

unfoldable pub copy_fields : Fields → Fields → Outcome Fields
copy_fields mine [] = done mine
copy_fields mine ((field, d) ∷ fields) = do
  d ← elim (get mine field) [ none ↦ done d | some prev ↦ copy_data prev d ]
  copy_fields (insert mine field d) fields

unfoldable pub copy_from : Cells → Cells → Outcome Cells
copy_from self cells =
    copy_fields self.fields cells.fields >>= λ fields. done (record { fields = fields })

unfoldable pub truncate : Cells → ℕ → Cells
truncate self n = record { fields = map (λ (k, d). (k, Data.truncate d n)) self.fields }

-- The loop of `extend`: the extended fields, and what is left of the other cells.
unfoldable pub extend_fields : Fields → Fields → Outcome (Fields × Fields)
extend_fields [] other = done ([], other)
extend_fields ((field, d) ∷ fields) other = do
  other_data ← unwrap (get other field)
  d ← Data.extend d other_data
  (fields, other) ← extend_fields fields (remove other field)
  done ((field, d) ∷ fields, other)

unfoldable pub extend : Cells → Cells → Outcome Cells
extend self other = do
  (fields, other) ← extend_fields self.fields other.fields
  assert (length other == 0)
  done (record { fields = fields })

-- The argument is `|i| set.test(i)`.
unfoldable pub filter : Cells → (ℕ → Bool) → Outcome Cells
filter self test = new (map (λ (k, v). (k, Data.filter v test)) self.fields)

-- The fields that `collect` makes of the requested ones, or `none` at a missing one.
unfoldable pub collect_fields : Fields → List String → Fields → Option Fields
collect_fields all [] acc = some acc
collect_fields all (f ∷ fs) acc = elim (get all f) [
  | none ↦ none
  | some d ↦ collect_fields all fs (insert acc f d)
]

unfoldable pub projection : Cells → List String → Outcome (Option Cells)
projection self fields = elim (collect_fields self.fields fields []) [
  | none ↦ done none
  | some p ↦ new p >>= (λ cells. done (some cells))
]

-- The answer, and the cells afterwards.
unfoldable pub add_field : Cells → String → FieldData → Outcome (Bool × Cells)
add_field self key values = do
  n ← len self
  if not (n == Data.len values)
      then done (false, self)
      else if contains_key self.fields key
      then done (false, self)
      else done (true, record { fields = insert self.fields key values })

-- `impl BitsEq for Cells`.
unfoldable pub bits_eq_fields : Fields → Fields → Bool
bits_eq_fields [] theirs = true
bits_eq_fields ((key, mine) ∷ fields) theirs = elim (get theirs key) [
  | none ↦ false
  | some d ↦ Data.bits_eq mine d && bits_eq_fields fields theirs
]

unfoldable pub bits_eq : Cells → Cells → Bool
bits_eq self other =
    bits_eq_fields self.fields other.fields && (length self.fields == length other.fields)
