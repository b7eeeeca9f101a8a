-- ===== src/Tests/Schema.antt =====
-- Schemas, enumerations and filters.
use tiledb_rs.Base.{◌≡◌, refl, true, none, some, [], ◌∷◌, arith, done}
use tiledb_rs.Base.Int.{pos, ◌-ℤ◌}
use tiledb_rs.Array.{ArrayType, var}
use tiledb_rs.Array.Constraints.{constraints_num_cells, int64_bounds, uint8_bounds}
use tiledb_rs.Datatype.{int64, uint8, float64, string_ascii, physical_type}
use tiledb_rs.Datatype.Classes.{size}
use tiledb_rs.Filter.{xor, transform_datatype}
use tiledb_rs.Filter.Sizes.{transform_datatype-size}
use tiledb_rs.Query.Output.{collect}
use tiledb_rs.Pod.Enumeration.Records.{IsStored, variants_from_records-records}
use tiledb_rs.Pod.Schema.{
  DimensionData, AttributeData, DomainData, SchemaData, field, by_index, by_name, fields, next,
  num_cells, attribute, dimension,
}
use tiledb_rs.Pod.Schema.Cells.{AreCounts, num_cells-product}
use tiledb_rs.Pod.Schema.Fields.{all_fields, field-all_fields, fields-all_fields}

abbrev rows : DimensionData
rows = record {
  name = "rows";
  datatype = int64;
  constraints = int64_bounds (pos 1) (pos 4) (some (pos 2));
  filters = none;
}

abbrev columns : DimensionData
columns = record {
  name = "columns";
  datatype = uint8;
  constraints = uint8_bounds 0 9 none;
  filters = none;
}

abbrev label : AttributeData
label = record {
  name = "label";
  datatype = string_ascii;
  nullability = some true;
  cell_val_num = some var;
  fill = none;
  filters = [];
  enumeration = none;
}

abbrev grid : DomainData
grid = record { dimension = rows ∷ columns ∷ [] }

abbrev table : SchemaData
table = record {
  array_type = ArrayType.sparse;
  domain = grid;
  capacity = none;
  cell_order = none;
  tile_order = none;
  allow_duplicates = none;
  attributes = label ∷ [];
  enumerations = [];
  coordinate_filters = [];
  offsets_filters = [];
  nullity_filters = [];
}

grid_counts : AreCounts grid.dimension (4 ∷ 10 ∷ [])
unfolding constraints_num_cells ◌-ℤ◌
grid_counts = (refl, omega arith, (refl, omega arith, tt))

num_cells-product_example : num_cells grid ≡ done (some 40)
num_cells-product_example = num_cells-product grid (4 ∷ 10 ∷ []) grid_counts

fields-all_fields_example : collect next 4 (fields table) ≡ done (some (all_fields table))
fields-all_fields_example = fields-all_fields table 4 (omega arith)

field-all_fields_example :
    (field table (by_index 2) ≡ done (some (attribute label)))
    × (field table (by_name "columns") ≡ done (some (dimension columns)))
field-all_fields_example = field-all_fields table 2 "columns"

variants_from_records-records_example :
    IsStored "colors" string_ascii var none ((1 ∷ 2 ∷ []) ∷ [] ∷ (7 ∷ []) ∷ [])
variants_from_records-records_example =
    variants_from_records-records "colors" string_ascii var none ((1 ∷ 2 ∷ []) ∷ [] ∷ (7 ∷ []) ∷ [])
      (omega arith, omega arith)

xor_float64 : transform_datatype xor float64 ≡ some int64
unfolding transform_datatype size physical_type
xor_float64 = refl

transform_datatype-size_example : size int64 ≡ size float64
transform_datatype-size_example = transform_datatype-size xor float64 int64 tt xor_float64
