-- ===== src/Tests/Subset.antt =====
-- Data of which a part may be unset.
use tiledb_rs.Base.{◌≡◌, refl, ◌==◌, true, false, none, some, [], ◌∷◌, arith}
use tiledb_rs.Subset.{subset_option, subset_slice}
use tiledb_rs.Subset.Preorder.{IsPreorder}

equality-IsPreorder : IsPreorder ◌==◌
equality-IsPreorder = record {
  subset_refl = λ a. ground arith;
  subset_trans = λ a b c h k. ground arith;
}

partly_unset :
    (subset_slice (subset_option ◌==◌) (none ∷ some 2 ∷ []) (some 1 ∷ some 2 ∷ []) ≡ true)
    × (subset_slice (subset_option ◌==◌) (some 1 ∷ some 2 ∷ []) (none ∷ some 2 ∷ []) ≡ false)
unfolding subset_slice
partly_unset = (refl, refl)
