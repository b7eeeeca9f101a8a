-- ===== src/Cells/Structured/Odometer.antt =====
-- test-utils/cells/src/lib.rs: the loops of `NextIndex`, which go over the dimensions from the last
-- to the first by index, as recursion on the lists.
use mathlib.Core.Path.{ap₂}
use native.Mathlib.Nat.{mul_comm}
use tiledb_rs.Base.{
  ℕ, zero, suc, ◌+◌, ◌*◌, ltb, ◌≡◌, refl, ◌∙◌, Bool, true, false, List, [], ◌∷◌, length, get_elem?,
  if◌then◌else◌, done, ◌>>=◌, arith, Option-cases, Bool-cases, inl, inr,
}
use tiledb_rs.Base.Map.{set_elem}
use tiledb_rs.Cells.Structured.{Span, product, compute_loop, advance_loop}

-- The row-major index of coordinates.
abbrev pub encode : List ℕ → List ℕ → ℕ
encode (n ∷ ns) (c ∷ cs) = c * product ns + encode ns cs
encode _ _ = 0

module _ (n c : ℕ) (ns cs : List ℕ) where
  compute_loop-cons :
      (d i scale : ℕ)
      → compute_loop (n ∷ ns) (c ∷ cs) (suc d) i scale
        ≡ (compute_loop ns cs d i scale >>= λ (i, scale). done (i + c * scale, scale * n))
  unfolding compute_loop
  compute_loop-cons zero i scale = refl
  compute_loop-cons (suc d) i scale = elim (Option-cases (get_elem? cs d)) [
    | inl e ↦ rw (e) refl
    | inr (x, e) ↦ elim (Option-cases (get_elem? ns d)) [
      | inl f ↦ rw (e, f) refl
      | inr (m, f) ↦ rw (e, f) (compute_loop-cons d (i + x * scale) (scale * m))
    ]
  ]

-- `compute` is the row-major index.
pub compute_loop-encode :
    (dims cursors : List ℕ)
    → length cursors ≡ length dims
    → compute_loop dims cursors (length dims) 0 1 ≡ done (encode dims cursors, product dims)
unfolding compute_loop
compute_loop-encode [] [] h = refl
compute_loop-encode [] (c ∷ cs) h = ground arith
compute_loop-encode (n ∷ ns) [] h = ground arith
compute_loop-encode (n ∷ ns) (c ∷ cs) h =
    compute_loop-cons n c ns cs (length ns) 0 1
    ∙ rw (compute_loop-encode ns cs (omega arith))
        (ap₂ (λ i scale. done (i, scale)) (omega arith) (mul_comm (product ns) n))

-- What the first dimension does after the others.
abbrev pub head_step : Span → ℕ → Bool × List ℕ → Bool × List ℕ
head_step (first, past) c (true, cs) = (true, c ∷ cs)
head_step (first, past) c (false, cs) =
    if ltb (c + 1) past then (true, (c + 1) ∷ cs) else (false, first ∷ cs)

-- `advance` on the lists of ranges and cursors.
abbrev pub turn : List Span → List ℕ → Bool × List ℕ
turn (r ∷ rs) (c ∷ cs) = head_step r c (turn rs cs)
turn _ _ = (false, [])

module _ (r : Span) (rs : List Span) (c : ℕ) where
  advance_loop-cons :
      (d : ℕ) (cs : List ℕ)
      → advance_loop (r ∷ rs) (suc d) (c ∷ cs)
        ≡ (advance_loop rs d cs >>= λ turned. done (head_step r c turned))
  unfolding advance_loop set_elem
  advance_loop-cons zero cs = ground arith
  advance_loop-cons (suc d) cs = elim (Option-cases (get_elem? cs d)) [
    | inl e ↦ rw (e) refl
    | inr (x, e) ↦ elim (Option-cases (get_elem? rs d)) [
      | inl f ↦ rw (e, f) refl
      | inr (s, f) ↦ elim (Bool-cases (ltb (x + 1) (s.1))) [
        | inl b ↦ rw (e, f, b) refl
        | inr b ↦ rw (e, f, b) (advance_loop-cons d (set_elem cs d (s.0)))
      ]
    ]
  ]

pub advance_loop-turn :
    (ranges : List Span) (cursors : List ℕ)
    → length cursors ≡ length ranges
    → advance_loop ranges (length ranges) cursors ≡ done (turn ranges cursors)
unfolding advance_loop
advance_loop-turn [] [] h = refl
advance_loop-turn [] (c ∷ cs) h = ground arith
advance_loop-turn (r ∷ rs) [] h = ground arith
advance_loop-turn (r ∷ rs) (c ∷ cs) h =
    advance_loop-cons r rs c (length rs) cs ∙ rw (advance_loop-turn rs cs (omega arith)) refl
