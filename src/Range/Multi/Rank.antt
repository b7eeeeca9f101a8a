-- ===== src/Range/Multi/Rank.antt =====
-- The rank of a multiple-value cell among the cells of its type and length: its values are the
-- digits of a number in the base that the type's width gives.
use tiledb_rs.Base.{
  compare, ◌∙◌, ap, ℕ, zero, suc, ◌+◌, ◌-◌, ◌*◌, ◌^◌, ◌≤◌, ◌<◌, ◌≡◌, List, [], ◌∷◌, length, All,
  arith,
}
use tiledb_rs.Base.Int.{pos_part, neg_part, ◌-ℤ◌}
use tiledb_rs.Physical.{Elem, InRange, FloatOrder, bits_cmp, slice_cmp}
use tiledb_rs.Physical.Order.{lex, slice_cmp-lex}
use tiledb_rs.Range.Integral.{Integral, physical, i128_from, min_value}

-- The number of values of the type.
abbrev pub width : Integral → ℕ
width Integral.u8 = 2 ^ 8
width Integral.u16 = 2 ^ 16
width Integral.u32 = 2 ^ 32
width Integral.u64 = 2 ^ 64
width Integral.i8 = 2 ^ 8
width Integral.i16 = 2 ^ 16
width Integral.i32 = 2 ^ 32
width Integral.i64 = 2 ^ 64

-- How far the value is above the least one.
unfoldable pub digit : (t : Integral) → Elem (physical t) → ℕ
unfolding ◌-ℤ◌
digit t x = pos_part (i128_from t x -ℤ i128_from t (min_value t))

-- The number with these digits behind `high`.
abbrev pub rank_from : (t : Integral) → ℕ → List (Elem (physical t)) → ℕ
rank_from t high [] = high
rank_from t high (x ∷ xs) = rank_from t (high * width t + digit t x) xs

abbrev pub rank : (t : Integral) → List (Elem (physical t)) → ℕ
rank t xs = rank_from t 0 xs

abbrev pub AllIn : (t : Integral) → List (Elem (physical t)) → Type 0
AllIn t xs = All (InRange (physical t)) xs

pub digit-lt : (t : Integral) (x : Elem (physical t)) → InRange (physical t) x → digit t x < width t
unfolding digit
digit-lt Integral.u8 x h = ground arith
digit-lt Integral.u16 x h = ground arith
digit-lt Integral.u32 x h = ground arith
digit-lt Integral.u64 x h = ground arith
digit-lt Integral.i8 x h = ground arith
digit-lt Integral.i16 x h = ground arith
digit-lt Integral.i32 x h = ground arith
digit-lt Integral.i64 x h = ground arith

pub digit_parts :
    (t : Integral) (x : Elem (physical t))
    → InRange (physical t) x
    → digit t x + neg_part (i128_from t x)
      ≡ pos_part (i128_from t x) + neg_part (i128_from t (min_value t))
unfolding digit
digit_parts Integral.u8 x h = ground arith
digit_parts Integral.u16 x h = ground arith
digit_parts Integral.u32 x h = ground arith
digit_parts Integral.u64 x h = ground arith
digit_parts Integral.i8 x h = ground arith
digit_parts Integral.i16 x h = ground arith
digit_parts Integral.i32 x h = ground arith
digit_parts Integral.i64 x h = ground arith

pub width_pos : (t : Integral) → (1 ≤ width t) × (width t ≤ 2 ^ 64)
width_pos Integral.u8 = omega arith
width_pos Integral.u16 = omega arith
width_pos Integral.u32 = omega arith
width_pos Integral.u64 = omega arith
width_pos Integral.i8 = omega arith
width_pos Integral.i16 = omega arith
width_pos Integral.i32 = omega arith
width_pos Integral.i64 = omega arith

pub le_mul : (s d e w : ℕ) → s + d ≤ e → s * w + d * w ≤ e * w
le_mul s d e w h =
    let split : e ≡ s + d + (e - (s + d)) = omega arith in
    omega (arith, ap (λ (n : ℕ). n * w) split)

pub mul_gap : (d w : ℕ) → 1 ≤ d → 1 ≤ w → d + w ≤ d * w + 1
mul_gap zero w h k = omega arith
mul_gap (suc d) zero h k = omega arith
mul_gap (suc d) (suc w) h k = omega arith

-- A gap between the leading digits of two numbers of one length does not shrink.
pub rank_gap :
    (t : Integral) (s e d : ℕ) (xs ys : List (Elem (physical t)))
    → 1 ≤ d
    → s + d ≤ e
    → AllIn t xs
    → AllIn t ys
    → length xs ≡ length ys
    → rank_from t s xs + d ≤ rank_from t e ys
rank_gap t s e d [] [] p h hx hy l = h
rank_gap t s e d [] (y ∷ ys) p h hx hy l = absurd (omega arith)
rank_gap t s e d (x ∷ xs) [] p h hx hy l = absurd (omega arith)
rank_gap t s e d (x ∷ xs) (y ∷ ys) p h hx hy l =
    rank_gap t (s * width t + digit t x) (e * width t + digit t y) d xs ys p
      (omega
        (arith, le_mul s d e (width t) h, mul_gap d (width t) p (width_pos t).0, digit-lt t x hx.0))
      hx.1 hy.1 (omega arith)

digit_cmp :
    (fl : FloatOrder) (t : Integral) (x y : Elem (physical t))
    → InRange (physical t) x
    → InRange (physical t) y
    → bits_cmp fl (physical t) x y ≡ compare (digit t x) (digit t y)
unfolding digit
digit_cmp fl Integral.u8 x y h k = ground arith
digit_cmp fl Integral.u16 x y h k = ground arith
digit_cmp fl Integral.u32 x y h k = ground arith
digit_cmp fl Integral.u64 x y h k = ground arith
digit_cmp fl Integral.i8 x y h k = ground arith
digit_cmp fl Integral.i16 x y h k = ground arith
digit_cmp fl Integral.i32 x y h k = ground arith
digit_cmp fl Integral.i64 x y h k = ground arith

lex-rank_from :
    (fl : FloatOrder) (t : Integral) (s : ℕ) (xs ys : List (Elem (physical t)))
    → AllIn t xs
    → AllIn t ys
    → length xs ≡ length ys
    → lex (bits_cmp fl (physical t)) xs ys ≡ compare (rank_from t s xs) (rank_from t s ys)
lex-rank_from fl t s [] [] hx hy l = ground arith
lex-rank_from fl t s [] (y ∷ ys) hx hy l = absurd (omega arith)
lex-rank_from fl t s (x ∷ xs) [] hx hy l = absurd (omega arith)
lex-rank_from fl t s (x ∷ xs) (y ∷ ys) hx hy l = ground (
  arith,
  digit_cmp fl t x y hx.0 hy.0,
  lex-rank_from fl t (s * width t + digit t x) xs ys hx.1 hy.1,
  rank_gap t (s * width t + digit t x) (s * width t + digit t y) 1 xs ys,
  rank_gap t (s * width t + digit t y) (s * width t + digit t x) 1 ys xs,
)

-- `bits_cmp` orders the cells of one length by their ranks.
pub slice_cmp-rank :
    (fl : FloatOrder) (t : Integral) (xs ys : List (Elem (physical t)))
    → AllIn t xs
    → AllIn t ys
    → length xs ≡ length ys
    → slice_cmp (bits_cmp fl (physical t)) xs ys ≡ compare (rank t xs) (rank t ys)
slice_cmp-rank fl t xs ys hx hy l =
    slice_cmp-lex (bits_cmp fl (physical t)) xs ys ∙ lex-rank_from fl t 0 xs ys hx hy l
