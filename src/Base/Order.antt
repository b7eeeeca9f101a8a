-- ===== src/Base/Order.antt =====
-- Total orders given by a comparison, as `Ord::cmp` and `BitsOrd::bits_cmp` give them.
use Prim.Native.Nat.{compare, Ordering}
use Prim.Native.Nat.Ordering.{lt, eq, gt}
use mathlib.Core.Path.{◌≡◌}
use mathlib.Core.Bool.{Bool, true, false}
use native.Mathlib.Omega.{arith}
use tiledb_rs.Base.Int.{cmp_ℤ}

-- `Ordering::reverse`.
abbrev pub flip : Ordering → Ordering
flip lt = gt
flip eq = eq
flip gt = lt

pub record IsTotal {ℓ} {A : Type ℓ} (cmp : A → A → Ordering) : Type ℓ where
  pub cmp_refl : (a : A) → cmp a a ≡ eq
  pub eq_of_cmp : (a b : A) → cmp a b ≡ eq → a ≡ b
  pub cmp_swap : (a b : A) → cmp b a ≡ flip (cmp a b)
  pub lt_trans : (a b c : A) → cmp a b ≡ lt → cmp b c ≡ lt → cmp a c ≡ lt

pub compare-IsTotal : IsTotal compare
compare-IsTotal = ground arith

pub cmp_ℤ-IsTotal : IsTotal cmp_ℤ
cmp_ℤ-IsTotal = record {
  cmp_refl = λ a. ground arith;
  eq_of_cmp = λ a b. ground arith;
  cmp_swap = λ a b. ground arith;
  lt_trans = λ a b c. ground arith;
}

abbrev pub is_lt : Ordering → Bool
is_lt lt = true
is_lt _ = false

abbrev pub is_gt : Ordering → Bool
is_gt gt = true
is_gt _ = false

-- `matches!(o, Ordering::Less | Ordering::Equal)`.
abbrev pub is_le : Ordering → Bool
is_le gt = false
is_le _ = true

-- `matches!(o, Ordering::Equal | Ordering::Greater)`.
abbrev pub is_ge : Ordering → Bool
is_ge lt = false
is_ge _ = true

module _ {ℓ} {A : Type ℓ} (cmp : A → A → Ordering) (o : IsTotal cmp) where
  pub le_refl : (a : A) → is_le (cmp a a) ≡ true
  le_refl a = ground (arith, o.cmp_refl a)

  pub le_trans :
      (a b c : A) → is_le (cmp a b) ≡ true → is_le (cmp b c) ≡ true → is_le (cmp a c) ≡ true
  le_trans a b c h k = ground (arith, o.lt_trans a b c, o.eq_of_cmp a b, o.eq_of_cmp b c)

  pub le_antisymm : (a b : A) → is_le (cmp a b) ≡ true → is_le (cmp b a) ≡ true → a ≡ b
  le_antisymm a b h k = ground (arith, o.eq_of_cmp a b, o.cmp_swap a b)

  -- A value is not below another exactly if that one is at most it.
  pub le_of_not_lt : (a b : A) → is_lt (cmp a b) ≡ false → is_le (cmp b a) ≡ true
  le_of_not_lt a b h = ground (arith, o.cmp_swap a b)

  pub not_lt_of_le : (a b : A) → is_le (cmp b a) ≡ true → is_lt (cmp a b) ≡ false
  not_lt_of_le a b h = ground (arith, o.cmp_swap a b)

  pub gt_swap : (a b : A) → is_gt (cmp a b) ≡ is_lt (cmp b a)
  gt_swap a b = ground (arith, o.cmp_swap a b)

  pub le_of_lt : (a b : A) → is_lt (cmp a b) ≡ true → is_le (cmp a b) ≡ true
  le_of_lt a b h = ground arith
