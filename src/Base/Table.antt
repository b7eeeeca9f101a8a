-- ===== src/Base/Table.antt =====
-- A Rust `match` on constants: the first entry of a table whose key is the value.
use Prim.Native.Nat.{ℕ, zero, suc, ◌≤◌, ◌<◌}
use mathlib.Core.Path.{◌≡◌, refl}
use mathlib.Core.Bool.{Bool, true, ◌&&◌}
use mathlib.Core.Option.{Option, none, some}
use mathlib.Core.List.{List, [], ◌∷◌}
use native.Mathlib.Omega.{arith}
use tiledb_rs.Base.Tests.{◌==◌, ltb, if◌then◌else◌}

module _ {ℓ} {A : Type ℓ} where
  unfoldable pub match_const : ℕ → List (ℕ × A) → Option A
  match_const k [] = none
  match_const k ((c, a) ∷ table) = if k == c then some a else match_const k table

  -- Every entry has the key that `code` gives its value.
  unfoldable pub is_keyed_by : (A → ℕ) → List (ℕ × A) → Bool
  is_keyed_by code [] = true
  is_keyed_by code ((c, a) ∷ table) = (code a == c) && is_keyed_by code table

  unfoldable pub is_below : ℕ → List (ℕ × A) → Bool
  is_below n [] = true
  is_below n ((c, a) ∷ table) = ltb c n && is_below n table

  -- In a table keyed by `code` the value that is found has the key that was looked for.
  pub match_const-keyed :
      (code : A → ℕ) (k : ℕ) (table : List (ℕ × A)) {a : A}
      → is_keyed_by code table ≡ true
      → match_const k table ≡ some a
      → code a ≡ k
  unfolding match_const is_keyed_by
  match_const-keyed code k [] h e = ground arith
  match_const-keyed code k ((c, b) ∷ table) {a} h e =
      ground (arith, match_const-keyed code k table {a = a})

  -- A value beyond all keys is not found.
  pub match_const-beyond :
      (n k : ℕ) (table : List (ℕ × A))
      → is_below n table ≡ true
      → n ≤ k
      → match_const k table ≡ none
  unfolding match_const is_below
  match_const-beyond n k [] h e = refl
  match_const-beyond n k ((c, b) ∷ table) h e = ground (arith, match_const-beyond n k table)

-- Over a small range, a test of every value by evaluation.
unfoldable pub all_below : ℕ → (ℕ → Bool) → Bool
all_below zero p = true
all_below (suc n) p = p n && all_below n p

pub all_below_sound : (n : ℕ) (p : ℕ → Bool) (x : ℕ) → all_below n p ≡ true → x < n → p x ≡ true
unfolding all_below
all_below_sound zero p x h k = absurd (omega arith)
all_below_sound (suc n) p x h k = ground (arith, all_below_sound n p x)
