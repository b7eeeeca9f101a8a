-- ===== src/Pod/Schema.antt =====
-- tiledb/pod/src/array/{dimension,attribute,domain,schema}/mod.rs, and `LookupKey` of
-- tiledb/common/src/key.rs: the schema of an array and its fields.
pub mod Fields
pub mod Cells
use Prim.Native.String.{String}
use text.Mathlib.Text.{◌==◌ as str_eq}
use tiledb_rs.Base.{
  ℕ, ◌+◌, ◌-◌, ◌*◌, ◌^◌, ltb, Bool, true, false, not, ◌||◌, Option, none, some, List, [], ◌∷◌,
  length, if◌then◌else◌, Outcome, done, panic, ◌>>=◌,
}
use mathlib.Core.Option
use tiledb_rs.Base.Map.{index, unwrap}
use tiledb_rs.Base.Vectors.{checked_sub}
use tiledb_rs.Datatype.{Datatype}
use tiledb_rs.Datatype.Classes.{max_enumeration_variants}
use tiledb_rs.Array.{CellValNum, is_single_valued, ArrayType, CellOrder, TileOrder}
use tiledb_rs.Array.Constraints
use tiledb_rs.Array.Constraints.{
  DimensionConstraints, constraints_cell_val_num, constraints_num_cells,
}
use tiledb_rs.Filter.{FilterData}
use tiledb_rs.Range.{Range, single as single_range}
use tiledb_rs.Range.Domain.{NonEmptyDomain}
use tiledb_rs.Pod.Metadata.{Value}
use tiledb_rs.Pod.Enumeration.{EnumerationData, num_variants}

pub data LookupKey : Type 0 where
  by_index : ℕ → LookupKey
  by_name : String → LookupKey

pub record DimensionData : Type 0 where
  pub name : String
  pub datatype : Datatype
  pub constraints : DimensionConstraints
  pub filters : Option (List FilterData)

abbrev pub dimension_cell_val_num : DimensionData → CellValNum
dimension_cell_val_num self = constraints_cell_val_num self.constraints

-- Its field `data` is called `fill`.
pub record FillData : Type 0 where
  pub fill : Value
  pub nullability : Option Bool

pub record AttributeData : Type 0 where
  pub name : String
  pub datatype : Datatype
  pub nullability : Option Bool
  pub cell_val_num : Option CellValNum
  pub fill : Option FillData
  pub filters : List FilterData
  pub enumeration : Option String

-- `self.cell_val_num.map(|c| !c.is_single_valued()).unwrap_or(false)`.
abbrev has_many_values : Option CellValNum → Bool
has_many_values none = false
has_many_values (some c) = not (is_single_valued c)

-- What follows the number of variants that the type allows.
abbrev set_if_fits : AttributeData → EnumerationData → Option ℕ → AttributeData × Bool
set_if_fits self enumeration none = (self, false)
set_if_fits self enumeration (some max_variants) =
    if has_many_values self.cell_val_num || ltb max_variants (num_variants enumeration)
    then (self, false)
    else (record self { enumeration = some enumeration.name }, true)

-- The attribute after the call, and the result.
unfoldable pub try_set_enumeration : AttributeData → EnumerationData → AttributeData × Bool
try_set_enumeration self enumeration =
    set_if_fits self enumeration (max_enumeration_variants self.datatype)

pub record DomainData : Type 0 where
  pub dimension : List DimensionData

-- The loop of `DomainData::num_cells`; `?` leaves it.
unfoldable pub num_cells_loop : (total : ℕ) → List DimensionData → Outcome (Option ℕ)
num_cells_loop total [] = done (some total)
num_cells_loop total (d ∷ ds) = do
  cells ← constraints_num_cells d.constraints
  elim cells [
    | none ↦ done none
    | some n ↦ if ltb (total * n) (2 ^ 128) then num_cells_loop (total * n) ds else done none
  ]

-- `usize::try_from(total).ok()`.
abbrev to_usize : Option ℕ → Option ℕ
to_usize none = none
to_usize (some total) = if ltb total (2 ^ 64) then some total else none

unfoldable pub num_cells : DomainData → Outcome (Option ℕ)
unfolding num_cells_loop
num_cells self = do total ← num_cells_loop 1 self.dimension; done (to_usize total)

-- The loop of `DomainData::num_cells_per_tile`.
unfoldable pub num_cells_per_tile_loop : (total : ℕ) → List DimensionData → Outcome (Option ℕ)
num_cells_per_tile_loop total [] = done (some total)
num_cells_per_tile_loop total (d ∷ ds) = do
  cells ← Constraints.num_cells_per_tile d.constraints
  elim cells [
    | none ↦ done none
    | some n ↦
        if ltb (total * n) (2 ^ 64) then num_cells_per_tile_loop (total * n) ds else done none
  ]

unfoldable pub domain_num_cells_per_tile : DomainData → Outcome (Option ℕ)
unfolding num_cells_per_tile_loop
domain_num_cells_per_tile self = num_cells_per_tile_loop 1 self.dimension

-- `collect` of options.
abbrev add_range : Option Range → Option NonEmptyDomain → Option NonEmptyDomain
add_range (some range) (some rest) = some (range ∷ rest)
add_range _ _ = none

unfoldable pub domains_of : List DimensionData → Option NonEmptyDomain
domains_of [] = some []
domains_of (d ∷ ds) =
    add_range (Option.map single_range (Constraints.domain d.constraints)) (domains_of ds)

abbrev pub domains : DomainData → Option NonEmptyDomain
domains self = domains_of self.dimension

pub record SchemaData : Type 0 where
  pub array_type : ArrayType
  pub domain : DomainData
  pub capacity : Option ℕ
  pub cell_order : Option CellOrder
  pub tile_order : Option TileOrder
  pub allow_duplicates : Option Bool
  pub attributes : List AttributeData
  pub enumerations : List EnumerationData
  pub coordinate_filters : List FilterData
  pub offsets_filters : List FilterData
  pub nullity_filters : List FilterData

-- `enum FieldData`, with `From<DimensionData>` and `From<AttributeData>`.
pub data FieldData : Type 0 where
  dimension : DimensionData → FieldData
  attribute : AttributeData → FieldData

abbrev pub is_attribute : FieldData → Bool
is_attribute (dimension d) = false
is_attribute (attribute a) = true

abbrev pub is_dimension : FieldData → Bool
is_dimension (dimension d) = true
is_dimension (attribute a) = false

abbrev pub field_name : FieldData → String
field_name (dimension d) = d.name
field_name (attribute a) = a.name

abbrev pub field_datatype : FieldData → Datatype
field_datatype (dimension d) = d.datatype
field_datatype (attribute a) = a.datatype

abbrev pub field_cell_val_num : FieldData → Option CellValNum
field_cell_val_num (dimension d) = some (dimension_cell_val_num d)
field_cell_val_num (attribute a) = a.cell_val_num

abbrev pub field_nullability : FieldData → Option Bool
field_nullability (dimension d) = some false
field_nullability (attribute a) = a.nullability

abbrev pub num_fields : SchemaData → ℕ
num_fields self = length self.domain.dimension + length self.attributes

-- The two loops of `field` over names.
unfoldable pub attribute_by_name : String → List AttributeData → Option FieldData
attribute_by_name name [] = none
attribute_by_name name (a ∷ attributes) =
    let rest = attribute_by_name name attributes in
    if str_eq a.name name then some (attribute a) else rest

unfoldable pub field_by_name : String → List DimensionData → List AttributeData → Option FieldData
unfolding attribute_by_name
field_by_name name [] attributes = attribute_by_name name attributes
field_by_name name (d ∷ dimensions) attributes =
    let rest = field_by_name name dimensions attributes in
    if str_eq d.name name then some (dimension d) else rest

unfoldable pub field : SchemaData → LookupKey → Outcome (Option FieldData)
unfolding field_by_name
field self (by_index idx) =
    if ltb idx (length self.domain.dimension)
    then (index self.domain.dimension idx >>= λ d. done (some (dimension d)))
    else if ltb idx (length self.domain.dimension + length self.attributes)
    then (index self.attributes (idx - length self.domain.dimension) >>= λ a.
        done (some (attribute a)))
    else done none
field self (by_name name) = done (field_by_name name self.domain.dimension self.attributes)

abbrev pub default_sparse_tile_capacity : ℕ
default_sparse_tile_capacity = 10000

abbrev capacity_or_default : Option ℕ → ℕ
capacity_or_default none = default_sparse_tile_capacity
capacity_or_default (some capacity) = capacity

abbrev cells_per_tile : SchemaData → ArrayType → Outcome ℕ
cells_per_tile self ArrayType.dense = do cells ← domain_num_cells_per_tile self.domain; unwrap cells
cells_per_tile self ArrayType.sparse = done (capacity_or_default self.capacity)

unfoldable pub schema_num_cells_per_tile : SchemaData → Outcome ℕ
schema_num_cells_per_tile self = cells_per_tile self self.array_type

pub record FieldDataIter : Type 0 where
  pub schema : SchemaData
  pub cursor : ℕ

-- `fields`, by `FieldDataIter::new`.
abbrev pub fields : SchemaData → FieldDataIter
fields schema = record { schema = schema; cursor = 0 }

unfoldable pub next : FieldDataIter → Outcome (Option FieldData × FieldDataIter)
next self =
    if ltb self.cursor (num_fields self.schema)
    then (field self.schema (by_index self.cursor) >>= λ item.
        unwrap item >>= λ f. done (some f, record self { cursor = self.cursor + 1 }))
    else done (none, self)

unfoldable pub size_hint : FieldDataIter → Outcome (ℕ × Option ℕ)
size_hint self = do
  exact ← checked_sub (num_fields self.schema) self.cursor
  done (exact, some exact)
