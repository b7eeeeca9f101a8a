-- ===== src/Range/Multi/Fold.antt =====
-- tiledb/common/src/range.rs: the fold of `MultiValueRange::num_cells`, against the ranks of the two
-- prefixes that it has read.
use tiledb_rs.Base.{
  ℕ, zero, suc, ◌+◌, ◌-◌, ◌*◌, ◌^◌, ◌≤◌, ◌<◌, ◌≡◌, refl, ap, List, [], ◌∷◌, length, arith, true,
  false, ◌&&◌, ltb, Bool-cases, if◌then◌else◌, Option, none, some, Outcome, done, panic, inl, inr,
}
use tiledb_rs.Base.Int.{ℤ, pos, ◌-ℤ◌, ◌+ℤ◌, ◌*ℤ◌, ltb_ℤ, eqb_ℤ}
use tiledb_rs.Physical.{Elem, InRange, bits_eq}
use tiledb_rs.Physical.Order.{bits_eq_iff}
use tiledb_rs.Range.Integral.{Integral, physical, i128_from, checked_mul}
use tiledb_rs.Range.Multi.{iter_factor, zip, skip_equal, advance, fold_cells}
use tiledb_rs.Range.Multi.Rank.{
  width, digit, rank_from, AllIn, digit-lt, digit_parts, width_pos, rank_gap,
}

pub iter_factor-width : (t : Integral) → iter_factor t ≡ done (pos (width t))
unfolding iter_factor ◌-ℤ◌ ◌+ℤ◌
iter_factor-width Integral.u8 = refl
iter_factor-width Integral.u16 = refl
iter_factor-width Integral.u32 = refl
iter_factor-width Integral.u64 = refl
iter_factor-width Integral.i8 = refl
iter_factor-width Integral.i16 = refl
iter_factor-width Integral.i32 = refl
iter_factor-width Integral.i64 = refl

checked_mul_pos :
    (a w : ℕ)
    → checked_mul (pos a) (pos w) ≡ (if ltb (a * w) (2 ^ 127) then some (pos (a * w)) else none)
unfolding checked_mul ◌*ℤ◌
checked_mul_pos a w = ground arith

-- The width divides 2 ^ 127, so a multiple of it below 2 ^ 127 leaves room for one more digit.
room : (t : Integral) (a : ℕ) → a * width t < 2 ^ 127 → a * width t + width t ≤ 2 ^ 127
room Integral.u8 a h = omega arith
room Integral.u16 a h = omega arith
room Integral.u32 a h = omega arith
room Integral.u64 a h = omega arith
room Integral.i8 a h = omega arith
room Integral.i16 a h = omega arith
room Integral.i32 a h = omega arith
room Integral.i64 a h = omega arith

-- Where there is room, the sum of a round is exact.
advance_lem :
    (t : Integral) (m : ℕ) (l u : Elem (physical t))
    → InRange (physical t) l
    → InRange (physical t) u
    → m + width t ≤ 2 ^ 127
    → digit t l ≤ m + digit t u
    → advance t (pos m) l u ≡ done (pos (m + digit t u - digit t l))
unfolding advance ◌-ℤ◌ ◌+ℤ◌
advance_lem t m l u hl hu fits h =
    ground
      (arith, digit_parts t l hl, digit_parts t u hu, digit-lt t l hl, digit-lt t u hu, width_pos t)

-- What the fold may return on ends whose ranks are `low` and `high`: their difference, or `None`
-- where that is so large that a multiple of the width near it passes 2 ^ 127.
abbrev pub IsSpan : Integral → ℕ → ℕ → Outcome (Option ℤ) → Type 0
IsSpan t low high (done (some z)) = (n : ℕ) × (z ≡ pos n) × (low + n ≡ high) × (n < 2 ^ 127)
IsSpan t low high (done none) = 2 ^ 127 + low < high + width t
IsSpan t low high panic = ⊥

width_le : (a w : ℕ) → 1 ≤ a → w ≤ a * w
width_le zero w h = absurd (omega arith)
width_le (suc a) w h = omega arith

round_up : (s a e w : ℕ) → s + a ≡ e → s * w + a * w ≡ e * w
round_up s a e w h = omega (arith, ap (λ (n : ℕ). n * w) h)

fold_cells-IsSpan :
    (t : Integral) (a s e : ℕ) (ls us : List (Elem (physical t)))
    → 1 ≤ a
    → a < 2 ^ 127
    → s + a ≡ e
    → AllIn t ls
    → AllIn t us
    → length ls ≡ length us
    → IsSpan t
        (rank_from t s ls)
        (rank_from t e us)
        (fold_cells t (pos (width t)) (pos a) (zip ls us))
unfolding fold_cells
fold_cells-IsSpan t a s e [] [] p q h hl hu k = (a, refl, h, q)
fold_cells-IsSpan t a s e [] (u ∷ us) p q h hl hu k = absurd (omega arith)
fold_cells-IsSpan t a s e (l ∷ ls) [] p q h hl hu k = absurd (omega arith)
fold_cells-IsSpan t a s e (l ∷ ls) (u ∷ us) p q h hl hu k =
    elim (Bool-cases (ltb (a * width t) (2 ^ 127))) [
      | inl fits ↦
          rw (not_first, checked_mul_pos a (width t), fits, exact (ground arith))
            (fold_cells-IsSpan t (a * w + du - dl) (s * w + dl) (e * w + du) ls us
              (omega (arith, grows, digit-lt t l hl.0))
              (omega (arith, room t a (ground arith), digit-lt t u hu.0, width_pos t))
              (omega (arith, grows, digit-lt t l hl.0, round_up s a e w h)) hl.1 hu.1 (omega arith))
      | inr over ↦
          rw (not_first, checked_mul_pos a (width t), over)
            (omega (
              arith,
              digit-lt t l hl.0,
              rank_gap t (s * w + dl) (e * w + du) (a * w + du - dl) ls us
                  (omega (arith, grows, digit-lt t l hl.0))
                  (omega (arith, grows, digit-lt t l hl.0, round_up s a e w h)) hl.1 hu.1
                  (omega arith),
              large over,
            ))
    ]
  where
    w : ℕ
    w = width t

    dl : ℕ
    dl = digit t l

    du : ℕ
    du = digit t u

    not_first : (ltb_ℤ (i128_from t u) (i128_from t l) && eqb_ℤ (pos a) (pos 0)) ≡ false
    not_first = ground arith

    grows : w ≤ a * w
    grows = width_le a w p

    large : ltb (a * w) (2 ^ 127) ≡ false → 2 ^ 127 ≤ a * w
    large h = ground arith

    exact : a * w < 2 ^ 127 → advance t (pos (a * w)) l u ≡ done (pos (a * w + du - dl))
    exact fits =
        advance_lem t (a * w) l u hl.0 hu.0 (room t a fits)
          (omega (arith, grows, digit-lt t l hl.0))

digit_inj :
    (t : Integral) (x y : Elem (physical t))
    → InRange (physical t) x
    → InRange (physical t) y
    → digit t x ≡ digit t y
    → bits_eq (physical t) x y ≡ true
digit_inj Integral.u8 x y h k e =
    ground (arith, digit_parts Integral.u8 x h, digit_parts Integral.u8 y k)
digit_inj Integral.u16 x y h k e =
    ground (arith, digit_parts Integral.u16 x h, digit_parts Integral.u16 y k)
digit_inj Integral.u32 x y h k e =
    ground (arith, digit_parts Integral.u32 x h, digit_parts Integral.u32 y k)
digit_inj Integral.u64 x y h k e =
    ground (arith, digit_parts Integral.u64 x h, digit_parts Integral.u64 y k)
digit_inj Integral.i8 x y h k e =
    ground (arith, digit_parts Integral.i8 x h, digit_parts Integral.i8 y k)
digit_inj Integral.i16 x y h k e =
    ground (arith, digit_parts Integral.i16 x h, digit_parts Integral.i16 y k)
digit_inj Integral.i32 x y h k e =
    ground (arith, digit_parts Integral.i32 x h, digit_parts Integral.i32 y k)
digit_inj Integral.i64 x y h k e =
    ground (arith, digit_parts Integral.i64 x h, digit_parts Integral.i64 y k)

-- The first round whose values differ: the fold starts at 0.
first-IsSpan :
    (t : Integral) (s : ℕ) (l u : Elem (physical t)) (ls us : List (Elem (physical t)))
    → InRange (physical t) l
    → InRange (physical t) u
    → digit t l < digit t u
    → AllIn t ls
    → AllIn t us
    → length ls ≡ length us
    → IsSpan t
        (rank_from t s (l ∷ ls))
        (rank_from t s (u ∷ us))
        (fold_cells t (pos (width t)) (pos 0) ((l, u) ∷ zip ls us))
unfolding fold_cells
first-IsSpan t s l u ls us il iu h hl hu k =
    rw (not_reversed, checked_mul_pos 0 (width t), fits, exact)
      (fold_cells-IsSpan t (0 * width t + digit t u - digit t l) (s * width t + digit t l)
        (s * width t + digit t u) ls us (omega arith) (omega (arith, digit-lt t u iu, width_pos t))
        (omega arith) hl hu k)
  where
    not_reversed : (ltb_ℤ (i128_from t u) (i128_from t l) && eqb_ℤ (pos 0) (pos 0)) ≡ false
    not_reversed = ground (arith, digit_parts t l il, digit_parts t u iu)

    fits : ltb (0 * width t) (2 ^ 127) ≡ true
    fits = ground arith

    exact : advance t (pos (0 * width t)) l u ≡ done (pos (0 * width t + digit t u - digit t l))
    exact = advance_lem t (0 * width t) l u il iu (omega (arith, width_pos t)) (omega arith)

pub skip_equal-IsSpan :
    (t : Integral) (s : ℕ) (ls us : List (Elem (physical t)))
    → AllIn t ls
    → AllIn t us
    → length ls ≡ length us
    → rank_from t s ls ≤ rank_from t s us
    → IsSpan t
        (rank_from t s ls)
        (rank_from t s us)
        (fold_cells t (pos (width t)) (pos 0) (skip_equal (physical t) (zip ls us)))
unfolding skip_equal
skip_equal-IsSpan t s [] [] hl hu k h = unfold fold_cells in (0, refl, omega arith, omega arith)
skip_equal-IsSpan t s [] (u ∷ us) hl hu k h = absurd (omega arith)
skip_equal-IsSpan t s (l ∷ ls) [] hl hu k h = absurd (omega arith)
skip_equal-IsSpan t s (l ∷ ls) (u ∷ us) hl hu k h = elim (Bool-cases (bits_eq (physical t) l u)) [
  | inl same ↦
      let e : digit t l ≡ digit t u = ap (digit t) ((bits_eq_iff (physical t) l u).0 same) in
      rw (same, e)
        (skip_equal-IsSpan t (s * width t + digit t u) ls us hl.1 hu.1 (omega arith)
          (omega (arith, ap (λ (d : ℕ). rank_from t (s * width t + d) ls) e)))
  | inr differ ↦
      rw differ (first-IsSpan t s l u ls us hl.0 hu.0 (lower differ) hl.1 hu.1 (omega arith))
]
  where
    lower : bits_eq (physical t) l u ≡ false → digit t l < digit t u
    lower differ = ground (
      arith,
      digit_inj t l u hl.0 hu.0,
      rank_gap t (s * width t + digit t u) (s * width t + digit t l) 1 us ls,
    )
