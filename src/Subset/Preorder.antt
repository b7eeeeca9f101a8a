-- ===== src/Subset/Preorder.antt =====
-- tiledb/utils/src/option.rs: `OptionSubset` as an order on partly unset data.
use tiledb_rs.Base.{◌≡◌, ◌↔◌, ◌⊎◌, refl, inr, Bool, true, Option, none, some, List, [], ◌∷◌, arith}
use tiledb_rs.Datatype.{Datatype, any, int32}
use tiledb_rs.Datatype.Codes.{eq_datatype_iff}
use tiledb_rs.Subset.{subset_option, subset_slice, subset_datatype}

-- A reflexive and transitive test.
pub record IsPreorder {ℓ} {A : Type ℓ} (subset : A → A → Bool) : Type ℓ where
  pub subset_refl : (a : A) → subset a a ≡ true
  pub subset_trans : (a b c : A) → subset a b ≡ true → subset b c ≡ true → subset a c ≡ true

module _ {ℓ} {T : Type ℓ} (option_subset : T → T → Bool) (o : IsPreorder option_subset) where
  option_trans :
      (a b c : Option T)
      → subset_option option_subset a b ≡ true
      → subset_option option_subset b c ≡ true
      → subset_option option_subset a c ≡ true
  option_trans none b none h k = refl
  option_trans none b (some z) h k = refl
  option_trans (some x) none c h k = ground arith
  option_trans (some x) (some y) none h k = ground arith
  option_trans (some x) (some y) (some z) h k = o.subset_trans x y z h k

  option_refl : (a : Option T) → subset_option option_subset a a ≡ true
  option_refl none = refl
  option_refl (some x) = o.subset_refl x

  slice_refl : (xs : List T) → subset_slice option_subset xs xs ≡ true
  unfolding subset_slice
  slice_refl [] = refl
  slice_refl (x ∷ xs) = ground (arith, o.subset_refl x, slice_refl xs)

  slice_trans :
      (xs ys zs : List T)
      → subset_slice option_subset xs ys ≡ true
      → subset_slice option_subset ys zs ≡ true
      → subset_slice option_subset xs zs ≡ true
  unfolding subset_slice
  slice_trans [] [] zs h k = k
  slice_trans [] (y ∷ ys) zs h k = ground arith
  slice_trans (x ∷ xs) [] zs h k = ground arith
  slice_trans (x ∷ xs) (y ∷ ys) [] h k = ground arith
  slice_trans (x ∷ xs) (y ∷ ys) (z ∷ zs) h k =
      ground (arith, o.subset_trans x y z, slice_trans xs ys zs)

  -- Where the comparison of elements is reflexive and transitive, so are that of options and that
  -- of slices.
  pub subset-IsPreorder :
      IsPreorder (subset_option option_subset) × IsPreorder (subset_slice option_subset)
  subset-IsPreorder = (
    record { subset_refl = option_refl; subset_trans = option_trans },
    record { subset_refl = slice_refl; subset_trans = slice_trans },
  )

-- A type is a subset of another exactly if it is `Any` or is the other.
pub subset_datatype_iff : (a b : Datatype) → (subset_datatype a b ≡ true) ↔ ((a ≡ any) ⊎ (a ≡ b))
unfolding subset_datatype
subset_datatype_iff any b = ground arith
subset_datatype_iff int32 b = ground (arith, eq_datatype_iff int32 b)
subset_datatype_iff a b = ground (arith, eq_datatype_iff a b)

-- The comparison of types is reflexive and transitive.
pub subset_datatype-IsPreorder : IsPreorder subset_datatype
subset_datatype-IsPreorder = record {
  subset_refl = λ a. (subset_datatype_iff a a).1 (inr refl);
  subset_trans = λ a b c h k.
      (subset_datatype_iff a c).1
        (ground (arith, subset_datatype_iff a b, subset_datatype_iff b c));
}
