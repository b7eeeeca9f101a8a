-- ===== src/Physical/Clamp.antt =====
-- tiledb/common/src/datatype/physical.rs: `BitsOrd::bits_clamp` against the clamp that its comment names, `std::cmp::Ord::clamp`.
use tiledb_rs.Base.{Ordering, lt, ◌≡◌, ◌≢◌, ◌↔◌, true, arith, if◌then◌else◌, done, panic}
use tiledb_rs.Base.Order.{IsTotal, is_lt, is_gt}
use tiledb_rs.Physical.{bits_le, bits_clamp}

module _ {ℓ} {T : Type ℓ} (cmp : T → T → Ordering) (o : IsTotal cmp) where
  -- `std::cmp::Ord::clamp` past its assertion.
  abbrev pub std_clamp : T → T → T → T
  std_clamp self min max =
      if is_lt (cmp self min) then min else if is_gt (cmp self max) then max else self

  -- With `min` below `max`, `bits_clamp` returns what `Ord::clamp` returns.
  pub bits_clamp-std_clamp :
      (self min max : T)
      → cmp min max ≡ lt
      → bits_clamp cmp self min max ≡ done (std_clamp self min max)
  unfolding bits_clamp
  bits_clamp-std_clamp self min max h = ground (arith, o.eq_of_cmp self max)

  -- With `min` below `max`, `bits_clamp` returns a value that is between them, and that is `self`
  -- exactly where `self` is between them.
  pub bits_clamp_bounds :
      (self min max : T)
      → cmp min max ≡ lt
      → (c : T) × (bits_clamp cmp self min max ≡ done c)
        × (bits_le cmp min c ≡ true)
        × (bits_le cmp c max ≡ true)
        × ((c ≡ self) ↔ ((bits_le cmp min self ≡ true) × (bits_le cmp self max ≡ true)))
  unfolding bits_clamp
  bits_clamp_bounds self min max h = (
    std_clamp self min max,
    bits_clamp-std_clamp self min max h,
    ground (arith, o.cmp_swap self min, o.cmp_refl min, o.cmp_swap self max),
    ground (arith, o.cmp_refl max, o.cmp_swap self max),
    (
      ground (arith, o.cmp_swap self min, o.cmp_refl min, o.cmp_refl max, o.cmp_swap self max),
      ground (arith, o.cmp_swap self min, o.eq_of_cmp self max),
    ),
  )

  -- `bits_clamp` panics exactly if `min` is not below `max`. It does so also where they are equal,
  -- which `Ord::clamp` accepts.
  pub bits_clamp-panic :
      (self min max : T) → (bits_clamp cmp self min max ≡ panic) ↔ (cmp min max ≢ lt)
  unfolding bits_clamp
  bits_clamp-panic self min max = ground arith
