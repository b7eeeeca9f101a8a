-- ===== src/Range/Interval/Hull.antt =====
-- tiledb/common/src/range.rs: the ends that the `union` methods choose, over any type with
-- `BitsOrd`.
use tiledb_rs.Base.{Ordering, ◌≡◌, ◌↔◌, true, arith, if◌then◌else◌}
use tiledb_rs.Base.Order.{IsTotal, is_gt, le_trans}
use tiledb_rs.Physical.{bits_lt, bits_le, bits_gt}

module _ {B : Type 0} (cmp : B → B → Ordering) where
  -- `std::cmp::min_by` and `max_by`: of two equal values the first and the second.
  abbrev pub min_by : B → B → B
  min_by a b = if is_gt (cmp a b) then b else a

  abbrev pub max_by : B → B → B
  max_by a b = if is_gt (cmp a b) then a else b

  -- The choice of the ends for slices.
  abbrev pub least : B → B → B
  least lstart rstart = if bits_lt cmp lstart rstart then lstart else rstart

  abbrev pub greatest : B → B → B
  greatest lend rend = if bits_gt cmp lend rend then lend else rend

  -- A range contains `lower..=upper` exactly if it contains both `ll..=lu` and `rl..=ru`.
  abbrev pub IsHull : B → B → B → B → B → B → Type 0
  IsHull ll lu rl ru lower upper =
      (a b : B)
      → ((bits_le cmp a lower ≡ true) × (bits_le cmp upper b ≡ true)) ↔ (
          ((bits_le cmp a ll ≡ true) × (bits_le cmp lu b ≡ true))
          × ((bits_le cmp a rl ≡ true) × (bits_le cmp ru b ≡ true)))

module _ {B : Type 0} (cmp : B → B → Ordering) (o : IsTotal cmp) where
  -- `min_by` and `least` choose one value, and so do `max_by` and `greatest`.
  pub min_by-least : (a b : B) → min_by cmp a b ≡ least cmp a b
  min_by-least a b = ground (arith, o.eq_of_cmp a b)

  pub max_by-greatest : (a b : B) → max_by cmp a b ≡ greatest cmp a b
  max_by-greatest a b = ground (arith, o.eq_of_cmp a b)

  pub min_by_comm : (a b : B) → min_by cmp a b ≡ min_by cmp b a
  min_by_comm a b = ground (arith, o.cmp_swap a b, o.eq_of_cmp a b)

  pub max_by_comm : (a b : B) → max_by cmp a b ≡ max_by cmp b a
  max_by_comm a b = ground (arith, o.cmp_swap a b, o.eq_of_cmp a b)

  pub least_comm : (a b : B) → least cmp a b ≡ least cmp b a
  least_comm a b = ground (arith, o.cmp_swap a b, o.eq_of_cmp a b)

  pub greatest_comm : (a b : B) → greatest cmp a b ≡ greatest cmp b a
  greatest_comm a b = ground (arith, o.cmp_swap a b, o.eq_of_cmp a b)

  le_least_iff :
      (a b x : B)
      → (bits_le cmp x (least cmp a b) ≡ true)
        ↔ ((bits_le cmp x a ≡ true) × (bits_le cmp x b ≡ true))
  le_least_iff a b x = ground (arith, le_trans cmp o x a b, le_trans cmp o x b a, o.cmp_swap a b)

  greatest_le_iff :
      (a b x : B)
      → (bits_le cmp (greatest cmp a b) x ≡ true)
        ↔ ((bits_le cmp a x ≡ true) × (bits_le cmp b x ≡ true))
  greatest_le_iff a b x = ground (arith, le_trans cmp o a b x, le_trans cmp o b a x, o.cmp_swap a b)

  pub least-greatest-IsHull :
      (ll lu rl ru : B) → IsHull cmp ll lu rl ru (least cmp ll rl) (greatest cmp lu ru)
  least-greatest-IsHull ll lu rl ru a b =
      ground (arith, le_least_iff ll rl a, greatest_le_iff lu ru b)
