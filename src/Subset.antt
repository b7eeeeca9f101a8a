-- ===== src/Subset.antt =====
-- tiledb/utils/src/option.rs: the trait `OptionSubset`, which compares data of which a part may be
-- unset, on options and on slices. Also its implementation for `Datatype`
-- (tiledb/common/src/datatype/mod.rs). An implementation is its method `option_subset`.
pub mod Json
pub mod Preorder
use tiledb_rs.Base.{◌==◌, Bool, true, false, ◌&&◌, Option, none, some, List, [], ◌∷◌, length}
use tiledb_rs.Datatype.{Datatype, any, eq_datatype}

module _ {ℓ} {T : Type ℓ} (option_subset : T → T → Bool) where
  -- `impl OptionSubset for Option<T>`.
  abbrev pub subset_option : Option T → Option T → Bool
  subset_option none none = true
  subset_option none (some theirs) = true
  subset_option (some mine) none = false
  subset_option (some mine) (some theirs) = option_subset mine theirs

  -- `zip` and `all`.
  abbrev pub zip_all : List T → List T → Bool
  zip_all (mine ∷ ls) (theirs ∷ rs) = option_subset mine theirs && zip_all ls rs
  zip_all _ _ = true

  -- `impl OptionSubset for [T]`, which arrays, vectors and boxed slices share.
  unfoldable pub subset_slice : List T → List T → Bool
  subset_slice self other = (length self == length other) && zip_all self other

-- `impl OptionSubset for Datatype`.
unfoldable pub subset_datatype : Datatype → Datatype → Bool
subset_datatype any other = true
subset_datatype self other = eq_datatype self other
