-- ===== src/Tests/Json.antt =====
-- JSON values of which a part is unset, with native numbers.
use tiledb_rs.Base.{ℕ, ◌≡◌, refl, ◌==◌, true, false, arith}
use tiledb_rs.Subset.Json.{
  Value, null, number, array, object, nil, cons, empty, entry, get_entry, same_length, subset_value,
}
use tiledb_rs.Subset.Json.Laws.{IsEquality, DistinctKeys, subset_value_trans}

native-IsEquality : IsEquality ◌==◌
native-IsEquality = record { number_refl = λ a. ground arith; number_trans = λ a b c. ground arith }

-- `{"k": null}`, `{"k": [1]}` and `{"j": 2, "k": [1]}`.
abbrev unset : Value ℕ
unset = object (entry "k" null empty)

abbrev set_key : Value ℕ
set_key = object (entry "k" (array (cons (number 1) nil)) empty)

abbrev two_keys : Value ℕ
two_keys = object (entry "j" (number 2) (entry "k" (array (cons (number 1) nil)) empty))

unset_below : subset_value ◌==◌ unset set_key ≡ true
unfolding subset_value get_entry
unset_below = refl

set_below : subset_value ◌==◌ set_key two_keys ≡ true
unfolding subset_value get_entry same_length
set_below = refl

two_keys-DistinctKeys : DistinctKeys two_keys
unfolding DistinctKeys get_entry
two_keys-DistinctKeys = (tt, refl, ((tt, tt), refl, tt))

not_below : subset_value ◌==◌ two_keys set_key ≡ false
unfolding subset_value get_entry
not_below = refl

subset_value_trans_example : subset_value ◌==◌ unset two_keys ≡ true
subset_value_trans_example =
    subset_value_trans ◌==◌ native-IsEquality unset set_key two_keys unset_below set_below
