-- ===== src/Base/Vectors.antt =====
-- What the buffers of queries use of `usize` and `Vec` of the standard library: arithmetic with overflow checks on
-- 64 bits, allocations, which panic above `isize::MAX` bytes, and slices, which panic out of range.
use Prim.Native.Nat.{ℕ, zero, suc, ◌+◌, ◌-◌, ◌*◌, ◌^◌}
use mathlib.Core.Bool.{◌&&◌}
use mathlib.Core.List.{List, [], ◌∷◌, ◌++◌}
use tiledb_rs.Base.Tests.{leb, ltb, if◌then◌else◌}
use tiledb_rs.Base.Lists.{length, take, drop}
use tiledb_rs.Base.Failing.{Outcome, done, panic, ◌>>◌, assert}

abbrev pub checked_add : ℕ → ℕ → Outcome ℕ
checked_add a b = if ltb (a + b) (2 ^ 64) then done (a + b) else panic

abbrev pub checked_mul : ℕ → ℕ → Outcome ℕ
checked_mul a b = if ltb (a * b) (2 ^ 64) then done (a * b) else panic

abbrev pub checked_sub : ℕ → ℕ → Outcome ℕ
checked_sub a b = if leb b a then done (a - b) else panic

-- `Vec::with_capacity` for values of `size_of` bytes.
abbrev pub with_capacity : (size_of n : ℕ) → Outcome (Unit {0})
with_capacity size_of n = assert (ltb (n * size_of) (2 ^ 63))

module _ {ℓ} {A : Type ℓ} where
  abbrev pub replicate : ℕ → A → List A
  replicate zero x = []
  replicate (suc n) x = x ∷ replicate n x

  -- `vec![x; n]`.
  unfoldable pub vec : (size_of : ℕ) → A → ℕ → Outcome (List A)
  vec size_of x n = do with_capacity size_of n; done (replicate n x)

  -- `v.resize(n, x)`.
  unfoldable pub resize : (size_of : ℕ) → List A → ℕ → A → Outcome (List A)
  resize size_of v n x = do
    with_capacity size_of n
    done (if leb n (length v) then take n v else v ++ replicate (n - length v) x)

  -- `&values[first..past]`.
  abbrev pub slice : List A → ℕ → ℕ → Outcome (List A)
  slice values first past =
      if leb first past && leb past (length values)
      then done (take (past - first) (drop first values))
      else panic
