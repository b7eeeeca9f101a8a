-- ===== src/Query/Output/Read.antt =====
-- The cells that the iterators yield.
use tiledb_rs.Base.{
  ℕ, zero, suc, ◌+◌, ◌^◌, ◌<◌, ◌≡◌, sym, ◌∙◌, ltb, true, false, All, ◌≤◌, ◌*◌, some, none, List, [],
  ◌∷◌, ◌++◌, length, length-append, get_elem?, arith, done,
}
use mathlib.Core.List.{append_assoc}
use tiledb_rs.Query.Buffer.{as_ref, fixed, offsets_ref, QueryBuffers}
use tiledb_rs.Query.Input.{extend_all}
use tiledb_rs.Query.Output.{CellIterator, VarDataIterator, var_next, fixed_next, collect}
use tiledb_rs.Query.Output.Slices.{Marks, Marks-first, slice-append}

mul_below : (a b c : ℕ) → a ≤ b → a * c ≤ b * c
mul_below a b c h = grind arith

module _ {C : Type 0} (n : ℕ) (location : QueryBuffers C) where
  abbrev pub var_at : ℕ → VarDataIterator C
  var_at i = record { ncells = n; offset_cursor = i; location = location }

  abbrev pub fixed_at : ℕ → CellIterator C
  fixed_at i = record { ncells = n; position = i; location = location }

  module _ (offsets : List ℕ) (o : offsets_ref location.cell_structure ≡ some offsets) where
    var_next-some :
        (i : ℕ) (before c after : List C)
        → as_ref location.values ≡ before ++ (c ++ after)
        → get_elem? offsets i ≡ some (length before)
        → get_elem? offsets (i + 1) ≡ some (length before + length c)
        → i < n
        → n + 1 < 2 ^ 64
        → var_next (var_at i) ≡ done (some c, var_at (i + 1))
    unfolding var_next
    var_next-some i before c after v h k lt bound =
        let l : ltb i n ≡ true = ground arith in
        let b : ltb (i + 1) (2 ^ 64) ≡ true = ground arith in
        rw (o, b, l, h, k, v, slice-append before c after)

    var_next-none : n + 1 < 2 ^ 64 → var_next (var_at n) ≡ done (none, var_at (n + 1))
    unfolding var_next
    var_next-none bound =
        let b : ltb (n + 1) (2 ^ 64) ≡ true = ground arith in rw (o, b) (ground arith)

    -- With the cells marked by the offsets, the iterator yields the cells that are left.
    pub collect-var_next :
        (fuel i : ℕ) (before : List C) (cells : List (List C))
        → as_ref location.values ≡ before ++ extend_all cells
        → Marks offsets i (length before) cells
        → i + length cells ≡ n
        → n + 1 < 2 ^ 64
        → length cells < fuel
        → collect var_next fuel (var_at i) ≡ done (some cells)
    unfolding collect
    collect-var_next zero i before cells v m e bound f = absurd (omega arith)
    collect-var_next (suc fuel) i before [] v m e bound f =
        let here : i ≡ n = omega arith in rw (here, var_next-none bound)
    collect-var_next (suc fuel) i before (c ∷ cells) v (m, ms) e bound f =
        let s : i + 1 ≡ suc i = omega arith in
        let next : get_elem? offsets (i + 1) ≡ some (length before + length c) =
          rw s (Marks-first offsets (suc i) _ cells ms) in
        let step : var_next (var_at i) ≡ done (some c, var_at (i + 1)) =
          var_next-some i before c (extend_all cells) v m next (omega arith) bound in
        let rest : collect var_next fuel (var_at (i + 1)) ≡ done (some cells) =
          collect-var_next fuel (i + 1) (before ++ c) cells
            (v ∙ sym (append_assoc before c (extend_all cells))) (rw (s, length-append before c) ms)
            (omega arith) bound (omega arith) in
        rw (step, rest)

  module _ (nz : ℕ) (s : location.cell_structure ≡ fixed nz) where
    fixed_next-some :
        (i : ℕ) (before c after : List C)
        → as_ref location.values ≡ before ++ (c ++ after)
        → length before ≡ i * nz
        → length c ≡ nz
        → i < n
        → n * nz < 2 ^ 64
        → fixed_next (fixed_at i) ≡ done (some c, fixed_at (i + 1))
    unfolding fixed_next
    fixed_next-some i before c after v h k lt bound =
        let l : ltb i n ≡ true = ground arith in
        let p : ltb (i * nz) (2 ^ 64) ≡ true = grind (arith, mul_below i n nz) in
        let e : (i + 1) * nz ≡ length before + length c = grind arith in
        let q : ltb (length before + length c) (2 ^ 64) ≡ true =
          let le : (i + 1) * nz ≤ n * nz = mul_below (i + 1) n nz (omega arith) in ground arith in
        rw (l, s, p, e, q, ← h, v, slice-append before c after)

    fixed_next-none : fixed_next (fixed_at n) ≡ done (none, fixed_at n)
    unfolding fixed_next
    fixed_next-none = let l : ltb n n ≡ false = ground arith in rw l

    -- With cells of `nz` values each, the iterator yields the cells that are left.
    pub collect-fixed_next :
        (fuel i : ℕ) (before : List C) (cells : List (List C))
        → as_ref location.values ≡ before ++ extend_all cells
        → length before ≡ i * nz
        → All (λ c. length c ≡ nz) cells
        → i + length cells ≡ n
        → n * nz < 2 ^ 64
        → length cells < fuel
        → collect fixed_next fuel (fixed_at i) ≡ done (some cells)
    unfolding collect
    collect-fixed_next zero i before cells v h a e bound f = absurd (omega arith)
    collect-fixed_next (suc fuel) i before [] v h a e bound f =
        let here : i ≡ n = omega arith in rw (here, fixed_next-none)
    collect-fixed_next (suc fuel) i before (c ∷ cells) v h (k, a) e bound f =
        let step : fixed_next (fixed_at i) ≡ done (some c, fixed_at (i + 1)) =
          fixed_next-some i before c (extend_all cells) v h k (omega arith) bound in
        let l : length (before ++ c) ≡ (i + 1) * nz = grind (arith, length-append before c) in
        let rest : collect fixed_next fuel (fixed_at (i + 1)) ≡ done (some cells) =
          collect-fixed_next fuel (i + 1) (before ++ c) cells
            (v ∙ sym (append_assoc before c (extend_all cells))) l a (omega arith) bound
            (omega arith) in
        rw (step, rest)
