-- ===== src/Base/Map.antt =====
-- `std::collections::HashMap` with `String` keys, as the list of its entries in the order in which
-- it iterates over them, and `unwrap` and indexing, which panic.
use Prim.Native.String.{String}
use text.Mathlib.Text.{◌==◌ as str_eq}
use Prim.Native.Nat.{ℕ, zero, suc}
use mathlib.Core.Bool.{Bool, true, false}
use mathlib.Core.List.{List, [], ◌∷◌}
use mathlib.Core.Option.{Option, none, some}
use tiledb_rs.Base.Failing.{Outcome, done, panic}
use tiledb_rs.Base.Lists.{get_elem?}
use tiledb_rs.Base.Tests.{if◌then◌else◌}

module _ {ℓ} {V : Type ℓ} where
  unfoldable pub get : List (String × V) → String → Option V
  get [] key = none
  get ((k, v) ∷ entries) key = let rest = get entries key in if str_eq k key then some v else rest

  unfoldable pub contains_key : List (String × V) → String → Bool
  contains_key [] key = false
  contains_key ((k, v) ∷ entries) key =
      let rest = contains_key entries key in if str_eq k key then true else rest

  -- `insert`, and the entry that `collect` makes; a key that is there keeps its place.
  unfoldable pub insert : List (String × V) → String → V → List (String × V)
  insert [] key value = (key, value) ∷ []
  insert ((k, v) ∷ entries) key value =
      let rest = insert entries key value in
      if str_eq k key then (k, value) ∷ entries else (k, v) ∷ rest

  -- The entries that `remove` leaves.
  unfoldable pub remove : List (String × V) → String → List (String × V)
  remove [] key = []
  remove ((k, v) ∷ entries) key =
      let rest = remove entries key in if str_eq k key then entries else (k, v) ∷ rest

unfoldable pub contains : List String → String → Bool
contains [] key = false
contains (k ∷ keys) key = let rest = contains keys key in if str_eq k key then true else rest

module _ {ℓ} {A : Type ℓ} where
  -- `Option::unwrap`.
  abbrev pub unwrap : Option A → Outcome A
  unwrap none = panic
  unwrap (some a) = done a

  -- `v[i]`.
  abbrev pub index : List A → ℕ → Outcome A
  index xs i = unwrap (get_elem? xs i)

  -- `v[i] = x`, where `i` is in range.
  unfoldable pub set_elem : List A → ℕ → A → List A
  set_elem [] i x = []
  set_elem (y ∷ ys) zero x = x ∷ ys
  set_elem (y ∷ ys) (suc i) x = y ∷ set_elem ys i x
