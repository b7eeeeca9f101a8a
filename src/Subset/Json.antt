-- ===== src/Subset/Json.antt =====
-- tiledb/utils/src/option.rs: `OptionSubset` for the JSON values of the crate serde_json, of which
-- `Number` is a parameter with its equality. An object is the list of its entries.
pub mod Laws
use Prim.Native.String.{String}
use text.Mathlib.Text.{◌==◌ as str_eq}
use tiledb_rs.Base.{Bool, true, false, ◌&&◌, Option, none, some, if◌then◌else◌}

mutual
  pub data Value (N : Type 0) : Type 0 where
    null : Value N
    boolean : Bool → Value N
    number : N → Value N
    string : String → Value N
    array : Values N → Value N
    object : Entries N → Value N

  pub data Values (N : Type 0) : Type 0 where
    nil : Values N
    cons : Value N → Values N → Values N

  pub data Entries (N : Type 0) : Type 0 where
    empty : Entries N
    entry : String → Value N → Entries N → Entries N

-- `option_subset_partialeq!(bool)`.
abbrev pub eq_bool : Bool → Bool → Bool
eq_bool true b = b
eq_bool false true = false
eq_bool false false = true

-- `Map::get`.
unfoldable pub get_entry : {N : Type 0} → Entries N → String → Option (Value N)
get_entry empty key = none
get_entry (entry k v entries) key =
    let rest = get_entry entries key in if str_eq k key then some v else rest

-- The lengths of two arrays are equal.
unfoldable pub same_length : {N : Type 0} → Values N → Values N → Bool
same_length nil nil = true
same_length (cons v vs) (cons w ws) = same_length vs ws
same_length _ _ = false

module _ {N : Type 0} (number_eq : N → N → Bool) where
  unfoldable mutual
    pub subset_value : Value N → Value N → Bool
    subset_value null other = true
    subset_value (boolean l) (boolean r) = eq_bool l r
    subset_value (number l) (number r) = number_eq l r
    subset_value (string l) (string r) = str_eq l r
    subset_value (array l) (array r) = same_length l r && subset_values l r
    subset_value (object l) (object r) = subset_map l r
    subset_value _ _ = false

    -- `zip` and `all`.
    pub subset_values : Values N → Values N → Bool
    subset_values (cons v vs) (cons w ws) = subset_value v w && subset_values vs ws
    subset_values _ _ = true

    pub subset_map : Entries N → Entries N → Bool
    subset_map empty other = true
    subset_map (entry k self_v entries) other = elim (get_entry other k) [
      | none ↦ false
      | some other_v ↦ subset_value self_v other_v && subset_map entries other
    ]
