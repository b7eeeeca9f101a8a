-- ===== src/Range/Interval.antt =====
-- tiledb/common/src/range.rs: the function `intersection`, over any type with `BitsOrd`. The ends
-- are single values or whole slices.
pub mod Hull
use tiledb_rs.Base.{
  Ordering, ◌≡◌, ◌↔◌, inl, inr, true, false, ◌||◌, Bool, Option, none, some, arith, Bool-cases,
  if◌then◌else◌, Outcome, done, panic, ◌>>◌, assert,
}
use tiledb_rs.Base.Order.{IsTotal, le_trans, le_of_not_lt}
use tiledb_rs.Physical.{bits_lt, bits_le, bits_gt}

module _ {B : Type 0} (cmp : B → B → Ordering) where
  abbrev max_lower : B → B → B
  max_lower left_lower right_lower =
      if bits_lt cmp left_lower right_lower then right_lower else left_lower

  abbrev min_upper : B → B → B
  min_upper left_upper right_upper =
      if bits_gt cmp left_upper right_upper then right_upper else left_upper

  -- What follows once the two ranges are known to meet: the check of the output, and the result.
  overlap : B → B → Outcome (Option (B × B))
  overlap lower upper = do assert (bits_le cmp lower upper); done (some (lower, upper))

  unfoldable pub intersection : B → B → B → B → Outcome (Option (B × B))
  unfolding overlap
  intersection left_lower left_upper right_lower right_upper = do
    assert (bits_le cmp left_lower left_upper)
    assert (bits_le cmp right_lower right_upper)
    if bits_lt cmp left_upper right_lower || bits_lt cmp right_upper left_lower
        then done none
        else overlap (max_lower left_lower right_lower) (min_upper left_upper right_upper)

  -- `x` lies between the two ends.
  abbrev pub Within : B → B → B → Type 0
  Within lower upper x = (bits_le cmp lower x ≡ true) × (bits_le cmp x upper ≡ true)

  -- What a call on two ranges may return: a range in order that holds exactly the values that lie
  -- in both, or `None` where no value lies in both. It may not panic.
  abbrev pub IsIntersection : B → B → B → B → Outcome (Option (B × B)) → Type 0
  IsIntersection ll lu rl ru (done (some (lower, upper))) =
      (bits_le cmp lower upper ≡ true)
      × ((x : B) → Within lower upper x ↔ (Within ll lu x × Within rl ru x))
  IsIntersection ll lu rl ru (done none) = (x : B) → ¬ (Within ll lu x × Within rl ru x)
  IsIntersection ll lu rl ru panic = ⊥

module _ {B : Type 0} (cmp : B → B → Ordering) (o : IsTotal cmp) where
  max_lower_iff :
      (a b x : B)
      → (bits_le cmp (max_lower cmp a b) x ≡ true)
        ↔ ((bits_le cmp a x ≡ true) × (bits_le cmp b x ≡ true))
  max_lower_iff a b x =
      ground (arith, le_trans cmp o a b x, le_trans cmp o b a x, le_of_not_lt cmp o a b)

  min_upper_iff :
      (a b x : B)
      → (bits_le cmp x (min_upper cmp a b) ≡ true)
        ↔ ((bits_le cmp x a ≡ true) × (bits_le cmp x b ≡ true))
  min_upper_iff a b x = ground (arith, le_trans cmp o x a b, le_trans cmp o x b a, o.cmp_swap a b)

  apart : (a b x : B) → bits_lt cmp a b ≡ true → bits_le cmp x a ≡ true → bits_le cmp b x ≡ true → ⊥
  apart a b x h p q = ground (arith, le_trans cmp o b x a q p, o.cmp_swap a b)

  overlap-IsIntersection :
      (ll lu rl ru : B)
      → bits_le cmp ll lu ≡ true
      → bits_le cmp rl ru ≡ true
      → bits_lt cmp lu rl ≡ false
      → bits_lt cmp ru ll ≡ false
      → IsIntersection cmp ll lu rl ru (overlap cmp (max_lower cmp ll rl) (min_upper cmp lu ru))
  unfolding overlap
  overlap-IsIntersection ll lu rl ru p q h k =
      let lower = max_lower cmp ll rl in
      let upper = min_upper cmp lu ru in
      let left : bits_le cmp ll upper ≡ true =
        (min_upper_iff lu ru ll).1 (p, le_of_not_lt cmp o ru ll k) in
      let right : bits_le cmp rl upper ≡ true =
        (min_upper_iff lu ru rl).1 (le_of_not_lt cmp o lu rl h, q) in
      let ordered : bits_le cmp lower upper ≡ true = (max_lower_iff ll rl upper).1 (left, right) in
      rw ordered (ordered, λ x. ground (arith, max_lower_iff ll rl x, min_upper_iff lu ru x))

  -- On ranges whose ends are in order, `intersection` does not panic. It returns a range that is in
  -- order and holds exactly the values that lie in both, or `None` where no value lies in both.
  pub intersection-IsIntersection :
      (ll lu rl ru : B)
      → bits_le cmp ll lu ≡ true
      → bits_le cmp rl ru ≡ true
      → IsIntersection cmp ll lu rl ru (intersection cmp ll lu rl ru)
  unfolding intersection
  intersection-IsIntersection ll lu rl ru p q =
      rw (p, q)
        (elim (Bool-cases (bits_lt cmp lu rl)) [
          | inl h ↦ rw h (λ x w. apart lu rl x h w.0.1 w.1.0)
          | inr h ↦ elim (Bool-cases (bits_lt cmp ru ll)) [
            | inl k ↦ rw (h, k) (λ x w. apart ru ll x k w.1.1 w.0.0)
            | inr k ↦ rw (h, k) (overlap-IsIntersection ll lu rl ru p q h k)
          ]
        ])

-- Both ends of a result that is a range satisfy the predicate.
abbrev pub Ends : {B : Type 0} → (B → Type 0) → Outcome (Option (B × B)) → Type 0
Ends P (done (some (lower, upper))) = P lower × P upper
Ends P (done none) = Unit
Ends P panic = Unit

module _ {B : Type 0} (cmp : B → B → Ordering) (P : B → Type 0) where
  chosen : (b : Bool) (x y : B) → P x → P y → P (if b then x else y)
  chosen true x y p q = p
  chosen false x y p q = q

  asserted : (b : Bool) (r : Outcome (Option (B × B))) → Ends P r → Ends P (assert b >> r)
  asserted true r h = h
  asserted false r h = tt

  branches :
      (b : Bool) (r s : Outcome (Option (B × B)))
      → Ends P r
      → Ends P s
      → Ends P (if b then r else s)
  branches true r s h k = h
  branches false r s h k = k

  -- `intersection` returns ends of the two ranges.
  pub intersection-Ends :
      (ll lu rl ru : B) → P ll → P lu → P rl → P ru → Ends P (intersection cmp ll lu rl ru)
  unfolding intersection
  intersection-Ends ll lu rl ru a b c d = asserted (bits_le cmp ll lu) _ (
      asserted (bits_le cmp rl ru) _ (
        branches _ (done none) _ tt (
          asserted (bits_le cmp (max_lower cmp ll rl) (min_upper cmp lu ru)) _
            (chosen (bits_lt cmp ll rl) rl ll c a, chosen (bits_gt cmp lu ru) ru lu d b))))
