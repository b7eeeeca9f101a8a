-- ===== src/Tests/Cells.antt =====
-- Small cells for `Cells` and `StructuredCells`, and runs on them. The set of bits is a function.
use Prim.Native.String.{String}
use tiledb_rs.Base.{
  ℕ, ◌<◌, ◌≡◌, refl, ◌≢◌, ◌⊎◌, ◌↔◌, Bool, true, false, Option, some, none, List, [], ◌∷◌, done,
  Outcome, ◌==◌, if◌then◌else◌, arith, length,
}
use tiledb_rs.Base.Map.{contains_key}
use tiledb_rs.Cells.{Fields, Cells}
use tiledb_rs.Cells.Field.{FieldData, uint8, vec_uint8, uint16}
use tiledb_rs.Cells.Field.Methods as Data
use tiledb_rs.Cells.Groups.{BitSet, identify_groups, count_distinct, dedup}
use tiledb_rs.Cells.Groups.Dedup.{KeepsFirst, kept_cells, dedup-KeepsFirst}
use tiledb_rs.Cells.Groups.Records.{record_at}
use tiledb_rs.Cells.Groups.Runs.{Groups, identify_groups-Groups}
use tiledb_rs.Cells.Ordered.{sort, is_sorted}
use tiledb_rs.Cells.Ordered.Gather.{Arranges, gather_data}
use tiledb_rs.Cells.Ordered.Sort.{sort-Arranges}
use tiledb_rs.Cells.Shape.{IsUniform, HasKeys, map_data}
use tiledb_rs.Cells.Structured.{StructuredCells, Span, slice}
use tiledb_rs.Cells.Structured.Box.{InBox}
use tiledb_rs.Cells.Structured.Odometer.{encode}
use tiledb_rs.Cells.Structured.Slice.{slice-InBox}
use tiledb_rs.Tests.Floats.{floats}

abbrev bits : BitSet
bits = record {
  Set = ℕ × (ℕ → Bool);
  new_bitset = λ n. (n, λ i. false);
  size = λ s. s.0;
  set = λ s i. (s.0, λ j. if i == j then true else s.1 j);
  test = λ s i. s.1 i;
  size_new = λ n. refl;
  test_new = λ n i. refl;
  size_set = λ s i h. refl;
  test_set = λ s i j h. refl;
}

abbrev cells : Cells
cells = record {
  fields =
      ("a", uint8 (3 ∷ 1 ∷ 3 ∷ 2 ∷ []))
      ∷ ("b", vec_uint8 ((7 ∷ []) ∷ [] ∷ (7 ∷ []) ∷ (5 ∷ 6 ∷ []) ∷ []))
      ∷ [];
}

abbrev keys : List String
keys = "b" ∷ "a" ∷ []

abbrev records : ℕ
records = 4

cells-IsUniform : IsUniform cells 4
cells-IsUniform = ((refl, (refl, tt)), omega arith)

keys-HasKeys : HasKeys cells.fields keys
unfolding contains_key
keys-HasKeys = (refl, (refl, tt))

sort-keys :
    sort floats cells keys
    ≡ done (record {
      fields =
          ("a", uint8 (1 ∷ 2 ∷ 3 ∷ 3 ∷ []))
          ∷ ("b", vec_uint8 ([] ∷ (5 ∷ 6 ∷ []) ∷ (7 ∷ []) ∷ (7 ∷ []) ∷ []))
          ∷ [];
    })
unfolding sort tiledb_rs.Cells.len tiledb_rs.Cells.Sorting.sort_by tiledb_rs.Cells.Sorting.insert_by
    tiledb_rs.Cells.Ordered.count_from tiledb_rs.Cells.Ordered.index_comparator
    tiledb_rs.Cells.Ordered.compare_cells tiledb_rs.Cells.Field.cell_cmp
    tiledb_rs.Physical.slice_cmp tiledb_rs.Base.Map.get tiledb_rs.Cells.Ordered.move_fields
    tiledb_rs.Cells.Ordered.move_field tiledb_rs.Cells.Ordered.move_cells
    tiledb_rs.Cells.Ordered.move_loop tiledb_rs.Cells.Ordered.replicate tiledb_rs.Base.Map.set_elem
sort-keys = refl

dedup-keys :
    dedup bits floats cells keys
    ≡ done (record {
      fields =
          ("a", uint8 (3 ∷ 1 ∷ 2 ∷ [])) ∷ ("b", vec_uint8 ((7 ∷ []) ∷ [] ∷ (5 ∷ 6 ∷ []) ∷ [])) ∷ [];
    })
unfolding dedup tiledb_rs.Cells.is_empty tiledb_rs.Cells.Groups.dedup_cells
    tiledb_rs.Cells.Groups.dedup_loop tiledb_rs.Cells.filter tiledb_rs.Cells.new
    tiledb_rs.Cells.check_len Data.filter_from tiledb_rs.Cells.len tiledb_rs.Cells.Sorting.sort_by
    tiledb_rs.Cells.Sorting.insert_by tiledb_rs.Cells.Ordered.count_from
    tiledb_rs.Cells.Ordered.index_comparator tiledb_rs.Cells.Ordered.compare_cells
    tiledb_rs.Cells.Field.cell_cmp tiledb_rs.Physical.slice_cmp tiledb_rs.Base.Map.get
    tiledb_rs.Cells.Groups.any_distinct tiledb_rs.Cells.Groups.bits_ne_at
    tiledb_rs.Cells.Field.cell_eq tiledb_rs.Physical.slice_eq
dedup-keys = refl

groups_keys : identify_groups cells ("a" ∷ []) ≡ done (some (0 ∷ 1 ∷ 2 ∷ 3 ∷ 4 ∷ []))
unfolding identify_groups tiledb_rs.Cells.is_empty tiledb_rs.Cells.Groups.group_offsets
    tiledb_rs.Cells.len tiledb_rs.Cells.Groups.groups_loop tiledb_rs.Base.Map.get
    tiledb_rs.Cells.Groups.any_distinct tiledb_rs.Cells.Groups.bits_ne_at
    tiledb_rs.Cells.Field.cell_eq tiledb_rs.Physical.slice_eq
groups_keys = refl

count_keys : count_distinct floats cells keys ≡ done 3
unfolding count_distinct tiledb_rs.Cells.Groups.count_cells tiledb_rs.Cells.Groups.count_loop
    tiledb_rs.Cells.new tiledb_rs.Cells.check_len tiledb_rs.Cells.Groups.key_fields
    tiledb_rs.Base.Map.contains tiledb_rs.Cells.Ordered.sorted sort tiledb_rs.Cells.len
    tiledb_rs.Cells.Sorting.sort_by tiledb_rs.Cells.Sorting.insert_by
    tiledb_rs.Cells.Ordered.count_from tiledb_rs.Cells.Ordered.index_comparator
    tiledb_rs.Cells.Ordered.compare_cells tiledb_rs.Cells.Field.cell_cmp
    tiledb_rs.Physical.slice_cmp tiledb_rs.Base.Map.get tiledb_rs.Cells.Ordered.move_fields
    tiledb_rs.Cells.Ordered.move_field tiledb_rs.Cells.Ordered.move_cells
    tiledb_rs.Cells.Ordered.move_loop tiledb_rs.Cells.Ordered.replicate tiledb_rs.Base.Map.set_elem
    tiledb_rs.Cells.Groups.any_distinct tiledb_rs.Cells.Groups.bits_ne_at
    tiledb_rs.Cells.Field.cell_eq tiledb_rs.Physical.slice_eq
count_keys = refl

sort-Arranges_example :
    (idx : List ℕ) × (result : Cells) × (sort floats cells keys ≡ done result)
    × Arranges 4 idx
    × (result.fields ≡ map_data (gather_data idx) cells.fields)
    × (is_sorted floats result keys ≡ done true)
sort-Arranges_example = sort-Arranges floats cells keys 4 cells-IsUniform keys-HasKeys

identify_groups-Groups_example :
    ((records ≡ 0) × (identify_groups cells keys ≡ done none))
    ⊎ ((ends : List ℕ) × (identify_groups cells keys ≡ done (some (0 ∷ ends)))
        × Groups (record_at cells.fields keys) 4 0 ends)
identify_groups-Groups_example = identify_groups-Groups cells keys 4 cells-IsUniform keys-HasKeys

dedup-KeepsFirst_example :
    (test : ℕ → Bool) × (dedup bits floats cells keys ≡ done (kept_cells cells test))
    × KeepsFirst (record_at cells.fields keys) 4 test
dedup-KeepsFirst_example =
    dedup-KeepsFirst floats bits cells keys 4 cells-IsUniform keys-HasKeys (omega arith)

-- Two rows of two records.
abbrev square : StructuredCells
square = record { dimensions = 2 ∷ 2 ∷ []; cells = cells }

abbrev second_column : List Span
second_column = (0, 2) ∷ (1, 2) ∷ []

slice-InBox_example :
    (test : ℕ → Bool) × (slice bits 3 square second_column
      ≡ done (some (record { dimensions = 2 ∷ 2 ∷ []; cells = kept_cells cells test })))
    × ((j : ℕ)
        → (test j ≡ true) ↔ ((cs : List ℕ) × InBox second_column cs × (encode (2 ∷ 2 ∷ []) cs ≡ j)))
slice-InBox_example =
    slice-InBox bits square second_column cells-IsUniform (omega arith, (omega arith, tt)) 3
      (omega arith)
