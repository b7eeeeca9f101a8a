-- ===== src/Tests/Condition.antt =====
-- The arguments of set membership predicates, and literals.
use tiledb_rs.Base.{◌≡◌, refl, [], ◌∷◌, arith, done, ok}
use tiledb_rs.Condition.{
  Literal, SetMembers, uint16_set, string_set, SetArguments, set_arguments, empty_set, len,
  eq_literal,
}
use tiledb_rs.Condition.Sets.{IsCall, set_arguments-IsCall}

abbrev two_texts : SetMembers
two_texts = string_set ((97 ∷ 98 ∷ []) ∷ (99 ∷ []) ∷ [])

texts_call :
    set_arguments two_texts
    ≡ done (
        ok (record {
          data_bytes = 97 ∷ 98 ∷ 99 ∷ [];
          data_size = 3;
          offsets = 0 ∷ 2 ∷ [];
          offsets_size = 24;
        }))
unfolding set_arguments len tiledb_rs.Condition.as_ptr_and_size tiledb_rs.Condition.fill
texts_call = refl

-- Two members of two bytes each, whose data of 4 bytes are given the size 24.
numbers_call :
    set_arguments (uint16_set (1 ∷ 258 ∷ []))
    ≡ done (
        ok (record {
          data_bytes = 1 ∷ 0 ∷ 2 ∷ 1 ∷ [];
          data_size = 24;
          offsets = 0 ∷ 2 ∷ [];
          offsets_size = 24;
        }))
unfolding set_arguments len tiledb_rs.Condition.as_ptr_and_size tiledb_rs.Condition.elem_size
numbers_call = refl

set_arguments-IsCall_example :
    (args : SetArguments) × (set_arguments two_texts ≡ done (ok args)) × IsCall two_texts args
unfolding len
set_arguments-IsCall_example = set_arguments-IsCall two_texts (omega arith)
