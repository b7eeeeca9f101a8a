-- ===== src/Base/Weak.antt =====
-- Orders in which different values can compare as equal, as a comparison of records at some fields
-- is, and their composition: the second where the first finds no difference. Also the order of
-- optional values.
use Prim.Native.Nat.{Ordering}
use Prim.Native.Nat.Ordering.{lt, eq, gt}
use mathlib.Core.Path.{◌≡◌, refl, ap}
use mathlib.Core.Bool.{true}
use mathlib.Core.Option.{Option, none, some}
use native.Mathlib.Omega.{arith}
use tiledb_rs.Base.Order.{IsTotal, flip, is_le}

pub record IsWeakOrder {ℓ} {A : Type ℓ} (cmp : A → A → Ordering) : Type ℓ where
  pub cmp_swap : (a b : A) → cmp b a ≡ flip (cmp a b)
  pub lt_trans : (a b c : A) → cmp a b ≡ lt → cmp b c ≡ lt → cmp a c ≡ lt
  pub eq_left : (a b c : A) → cmp a b ≡ eq → cmp a c ≡ cmp b c

module _ {ℓ} {A : Type ℓ} where
  -- `Ordering::then`.
  abbrev pub then_cmp : (A → A → Ordering) → (A → A → Ordering) → A → A → Ordering
  then_cmp cmp cmp' a b = elim (cmp a b) [ lt ↦ lt | gt ↦ gt | eq ↦ cmp' a b ]

  pub then_cmp-IsWeakOrder :
      (cmp cmp' : A → A → Ordering)
      → IsWeakOrder cmp
      → IsWeakOrder cmp'
      → IsWeakOrder (then_cmp cmp cmp')
  then_cmp-IsWeakOrder cmp cmp' o o' = record {
    cmp_swap = λ a b. ground (arith, o.cmp_swap a b, o'.cmp_swap a b);
    lt_trans = λ a b c h k. ground (
      arith,
      h,
      k,
      o.lt_trans a b c,
      o'.lt_trans a b c,
      o.eq_left a b c,
      o.eq_left b c a,
      o.cmp_swap a b,
      o.cmp_swap a c,
    );
    eq_left = λ a b c h. ground (arith, h, o.eq_left a b c, o'.eq_left a b c);
  }

  pub equal-IsWeakOrder : IsWeakOrder (λ (a b : A). eq)
  equal-IsWeakOrder = record {
    cmp_swap = λ a b. refl;
    lt_trans = λ a b c h k. h;
    eq_left = λ a b c h. refl;
  }

  -- Values compared by what a function makes of them.
  pub pullback-IsWeakOrder {κ} :
      {B : Type κ} (cmp : B → B → Ordering) (f : A → B)
      → IsTotal cmp
      → IsWeakOrder (λ (a b : A). cmp (f a) (f b))
  pullback-IsWeakOrder cmp f o = record {
    cmp_swap = λ a b. o.cmp_swap (f a) (f b);
    lt_trans = λ a b c. o.lt_trans (f a) (f b) (f c);
    eq_left = λ a b c h. ap (λ z. cmp z (f c)) (o.eq_of_cmp (f a) (f b) h);
  }

module _ {ℓ} {A : Type ℓ} (cmp : A → A → Ordering) (o : IsWeakOrder cmp) where
  pub weak_le_trans :
      (a b c : A) → is_le (cmp a b) ≡ true → is_le (cmp b c) ≡ true → is_le (cmp a c) ≡ true
  weak_le_trans a b c h k = ground (
    arith,
    h,
    k,
    o.lt_trans a b c,
    o.eq_left a b c,
    o.eq_left b c a,
    o.cmp_swap a b,
    o.cmp_swap a c,
  )

module _ {ℓ} {A : Type ℓ} (cmp : A → A → Ordering) where
  -- A missing value is below the others.
  abbrev pub option_cmp : Option A → Option A → Ordering
  option_cmp none none = eq
  option_cmp none (some b) = lt
  option_cmp (some a) none = gt
  option_cmp (some a) (some b) = cmp a b

  module _ (o : IsTotal cmp) where
    option_refl : (a : Option A) → option_cmp a a ≡ eq
    option_refl none = refl
    option_refl (some a) = o.cmp_refl a

    eq_of_option : (a b : Option A) → option_cmp a b ≡ eq → a ≡ b
    eq_of_option none none h = refl
    eq_of_option none (some b) h = ground arith
    eq_of_option (some a) none h = ground arith
    eq_of_option (some a) (some b) h = ap some (o.eq_of_cmp a b h)

    option_swap : (a b : Option A) → option_cmp b a ≡ flip (option_cmp a b)
    option_swap none none = refl
    option_swap none (some b) = refl
    option_swap (some a) none = refl
    option_swap (some a) (some b) = o.cmp_swap a b

    option_trans :
        (a b c : Option A) → option_cmp a b ≡ lt → option_cmp b c ≡ lt → option_cmp a c ≡ lt
    option_trans none none c h k = ground arith
    option_trans none (some b) none h k = ground arith
    option_trans none (some b) (some c) h k = refl
    option_trans (some a) none c h k = ground arith
    option_trans (some a) (some b) none h k = ground arith
    option_trans (some a) (some b) (some c) h k = o.lt_trans a b c h k

    pub option_cmp-IsTotal : IsTotal option_cmp
    option_cmp-IsTotal = record {
      cmp_refl = option_refl;
      eq_of_cmp = eq_of_option;
      cmp_swap = option_swap;
      lt_trans = option_trans;
    }
