-- ===== src/Query/Scratch/Allocators.antt =====
-- tiledb/api/src/query/read/output/mod.rs: the implementations of `ScratchAllocator`.
-- A value of type `C` has `size_of` bytes, and `zero_value` is its default; a capacity that is
-- called `byte_capacity` in the source counts values, as there.
use tiledb_rs.Base.{
  ℕ, ◌*◌, Bool, true, false, Option, none, some, List, length, Outcome, done, ◌>>=◌,
}
use tiledb_rs.Base.Map.{unwrap}
use tiledb_rs.Array
use tiledb_rs.Array.{CellValNum}
use tiledb_rs.Base.Vectors.{checked_add, checked_mul, vec, resize}
use tiledb_rs.Query.Scratch.{ScratchSpace, ScratchCellStructure, fixed, var}

pub record NonVarSized : Type 0 where
  pub cell_val_num : ℕ
  pub capacity : ℕ

pub record NullableNonVarSized : Type 0 where
  pub cell_val_num : ℕ
  pub data_capacity : ℕ
  pub validity_capacity : ℕ

pub record VarSized : Type 0 where
  pub byte_capacity : ℕ
  pub offset_capacity : ℕ

pub record NullableVarSized : Type 0 where
  pub byte_capacity : ℕ
  pub offset_capacity : ℕ
  pub validity_capacity : ℕ

-- The four `Default`s.
abbrev pub default_non_var_sized : NonVarSized
default_non_var_sized = record { cell_val_num = 1; capacity = 1024 * 1024 }

abbrev pub default_nullable_non_var_sized : NullableNonVarSized
default_nullable_non_var_sized = record {
  cell_val_num = 1;
  data_capacity = 1024 * 1024;
  validity_capacity = 1024 * 1024;
}

abbrev pub default_var_sized : VarSized
default_var_sized = record { byte_capacity = 1024 * 1024; offset_capacity = 256 * 1024 }

abbrev pub default_nullable_var_sized : NullableVarSized
default_nullable_var_sized = record {
  byte_capacity = 1024 * 1024;
  offset_capacity = 256 * 1024;
  validity_capacity = 256 * 1024;
}

pub record FieldScratchAllocator : Type 0 where
  pub cell_val_num : CellValNum
  pub record_capacity : ℕ
  pub is_nullable : Bool

-- `2 * v.len() + 1`.
abbrev twice_and_one : ℕ → Outcome ℕ
twice_and_one n = do twice ← checked_mul 2 n; checked_add twice 1

-- `v.resize(2 * v.len() + 1, x)` and `v.resize(2 * v.len(), x)`.
module _ {A : Type 0} where
  unfoldable pub grow : (size_of : ℕ) → A → List A → Outcome (List A)
  unfolding resize
  grow size_of x v = do n ← twice_and_one (length v); resize size_of v n x

  unfoldable pub double : (size_of : ℕ) → A → List A → Outcome (List A)
  unfolding resize
  double size_of x v = do n ← checked_mul 2 (length v); resize size_of v n x

-- The `match` on the cell structure, with what becomes of the offsets, of eight bytes each.
unfoldable pub map_structure :
    (List ℕ → Outcome (List ℕ)) → ScratchCellStructure → Outcome ScratchCellStructure
map_structure more (fixed nz) = done (fixed nz)
map_structure more (var old_offsets) = do offsets ← more old_offsets; done (var offsets)

-- `Option::map` of the validity.
unfoldable pub map_validity :
    (List ℕ → Outcome (List ℕ)) → Option (List ℕ) → Outcome (Option (List ℕ))
map_validity more none = done none
map_validity more (some old_validity) = do validity ← more old_validity; done (some validity)

-- The capacity and the cell structure of `FieldScratchAllocator::alloc`.
unfoldable pub field_shape : CellValNum → ℕ → Outcome (ℕ × ScratchCellStructure)
unfolding vec
field_shape (Array.fixed values_per_record) record_capacity = do
  byte_capacity ← checked_mul record_capacity values_per_record
  done (byte_capacity, fixed values_per_record)
field_shape Array.var record_capacity = do
  byte_capacity ← checked_mul record_capacity 64
  offsets ← vec 8 0 record_capacity
  done (byte_capacity, var offsets)

abbrev field_validity : Bool → ℕ → Outcome (Option (List ℕ))
field_validity true record_capacity = do validity ← vec 1 0 record_capacity; done (some validity)
field_validity false record_capacity = done none

module _ {C : Type 0} (size_of : ℕ) (zero_value : C) where
  unfoldable pub non_var_alloc : NonVarSized → Outcome (ScratchSpace C)
  unfolding vec
  non_var_alloc self = do
    values ← vec size_of zero_value self.capacity
    done (record { values = values; cell_structure = fixed self.cell_val_num; validity = none })

  unfoldable pub non_var_realloc : NonVarSized → ScratchSpace C → Outcome (ScratchSpace C)
  unfolding resize
  non_var_realloc self old = do
    more ← checked_add (length old.values) 1
    new_capacity ← checked_mul 2 more
    new_data ← resize size_of old.values new_capacity zero_value
    done (record { values = new_data; cell_structure = fixed self.cell_val_num; validity = none })

  unfoldable pub nullable_non_var_alloc : NullableNonVarSized → Outcome (ScratchSpace C)
  unfolding vec
  nullable_non_var_alloc self = do
    values ← vec size_of zero_value self.data_capacity
    validity ← vec 1 0 self.validity_capacity
    done (record {
      values = values;
      cell_structure = fixed self.cell_val_num;
      validity = some validity;
    })

  unfoldable pub nullable_non_var_realloc :
      NullableNonVarSized → ScratchSpace C → Outcome (ScratchSpace C)
  unfolding grow
  nullable_non_var_realloc self old = do
    new_data ← grow size_of zero_value old.values
    old_validity ← unwrap old.validity
    new_validity ← grow 1 0 old_validity
    done (record {
      values = new_data;
      cell_structure = fixed self.cell_val_num;
      validity = some new_validity;
    })

  unfoldable pub var_alloc : VarSized → Outcome (ScratchSpace C)
  unfolding vec
  var_alloc self = do
    values ← vec size_of zero_value self.byte_capacity
    offsets ← vec 8 0 self.offset_capacity
    done (record { values = values; cell_structure = var offsets; validity = none })

  unfoldable pub var_realloc : VarSized → ScratchSpace C → Outcome (ScratchSpace C)
  unfolding grow map_structure
  var_realloc self old = do
    new_data ← grow size_of zero_value old.values
    new_structure ← map_structure (grow 8 0) old.cell_structure
    done (record { values = new_data; cell_structure = new_structure; validity = none })

  unfoldable pub nullable_var_alloc : NullableVarSized → Outcome (ScratchSpace C)
  unfolding vec
  nullable_var_alloc self = do
    values ← vec size_of zero_value self.byte_capacity
    offsets ← vec 8 0 self.offset_capacity
    validity ← vec 1 0 self.validity_capacity
    done (record { values = values; cell_structure = var offsets; validity = some validity })

  unfoldable pub nullable_var_realloc : NullableVarSized → ScratchSpace C → Outcome (ScratchSpace C)
  unfolding grow map_structure
  nullable_var_realloc self old = do
    new_data ← grow size_of zero_value old.values
    new_structure ← map_structure (grow 8 0) old.cell_structure
    old_validity ← unwrap old.validity
    new_validity ← grow 1 0 old_validity
    done
        (record { values = new_data; cell_structure = new_structure; validity = some new_validity })

  unfoldable pub field_alloc : FieldScratchAllocator → Outcome (ScratchSpace C)
  unfolding vec field_shape
  field_alloc self = do
    (byte_capacity, structure) ← field_shape self.cell_val_num self.record_capacity
    values ← vec size_of zero_value byte_capacity
    validity ← field_validity self.is_nullable self.record_capacity
    done (record { values = values; cell_structure = structure; validity = validity })

  unfoldable pub field_realloc : FieldScratchAllocator → ScratchSpace C → Outcome (ScratchSpace C)
  unfolding double map_structure map_validity
  field_realloc self old = do
    new_data ← double size_of zero_value old.values
    new_structure ← map_structure (double 8 0) old.cell_structure
    new_validity ← map_validity (double 1 0) old.validity
    done (record { values = new_data; cell_structure = new_structure; validity = new_validity })
