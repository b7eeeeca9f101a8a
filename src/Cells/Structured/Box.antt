-- ===== src/Cells/Structured/Box.antt =====
-- test-utils/cells/src/lib.rs: the coordinates of a box of `StructuredCells` in row-major order, and
-- the steps of `NextIndex` through them.
use mathlib.Core.Path.{subst}
use tiledb_rs.Base.{
  ℕ, zero, suc, ◌+◌, ◌*◌, ◌-◌, ◌<◌, ◌≤◌, ltb, ◌≡◌, refl, sym, ap, ◌⊎◌, inl, inr, Bool, true, false,
  List, [], ◌∷◌, ◌++◌, map, All, arith, Bool-cases, ◌==◌,
}
use tiledb_rs.Cells.Structured.{Span, product}
use tiledb_rs.Cells.Structured.Odometer.{encode, turn, head_step}

-- Coordinates, one in each range.
abbrev pub InBox : List Span → List ℕ → Type 0
InBox [] [] = Unit
InBox [] (c ∷ cs) = ⊥
InBox (r ∷ rs) [] = ⊥
InBox (r ∷ rs) (c ∷ cs) = (r.0 ≤ c) × (c < r.1) × InBox rs cs

-- Every range lies within its dimension.
abbrev pub Fits : List ℕ → List Span → Type 0
Fits [] [] = Unit
Fits [] (r ∷ rs) = ⊥
Fits (n ∷ ns) [] = ⊥
Fits (n ∷ ns) (r ∷ rs) = (r.1 ≤ n) × Fits ns rs

abbrev pub NonEmpty : List Span → Type 0
NonEmpty ranges = All (λ r. r.0 < r.1) ranges

-- The `m` blocks of coordinates from `i`.
abbrev blocks : List (List ℕ) → ℕ → ℕ → List (List ℕ)
blocks rest i zero = []
blocks rest i (suc m) = map (λ cs. i ∷ cs) rest ++ blocks rest (suc i) m

-- The coordinates of the box in row-major order.
abbrev pub box : List Span → List (List ℕ)
box [] = [] ∷ []
box (r ∷ rs) = blocks (box rs) (r.0) (r.1 - r.0)

-- The coordinates from the cursors on.
abbrev pub remaining : List Span → List ℕ → List (List ℕ)
remaining (r ∷ rs) (c ∷ cs) =
    map (λ cs. c ∷ cs) (remaining rs cs) ++ blocks (box rs) (suc c) (r.1 - suc c)
remaining _ _ = [] ∷ []

abbrev pub firsts : List Span → List ℕ
firsts ranges = map (λ r. r.0) ranges

blocks_first :
    (rest : List (List ℕ)) (i past : ℕ)
    → i < past
    → blocks rest i (past - i) ≡ map (λ cs. i ∷ cs) rest ++ blocks rest (suc i) (past - suc i)
blocks_first rest i past h =
    let m : past - i ≡ suc (past - suc i) = omega arith in ap (blocks rest i) m

pub remaining-firsts :
    (ranges : List Span) → NonEmpty ranges → remaining ranges (firsts ranges) ≡ box ranges
remaining-firsts [] h = refl
remaining-firsts (r ∷ rs) (h, hs) =
    rw (remaining-firsts rs hs) (sym (blocks_first (box rs) (r.0) (r.1) h))

-- After a turn: the coordinates that remain, none if every dimension was reset.
abbrev pub after : List Span → Bool × List ℕ → List (List ℕ)
after ranges (true, cs) = remaining ranges cs
after ranges (false, cs) = []

-- What a turn leaves: coordinates in the box, or the first ones if it went over all dimensions.
abbrev pub Turned : List Span → Bool × List ℕ → Type 0
Turned ranges (true, cs) = InBox ranges cs
Turned ranges (false, cs) = cs ≡ firsts ranges

pub firsts-InBox : (ranges : List Span) → NonEmpty ranges → InBox ranges (firsts ranges)
firsts-InBox [] h = tt
firsts-InBox (r ∷ rs) (h, hs) = (omega arith, h, firsts-InBox rs hs)

turn_step :
    (r : Span) (rs : List Span) (c : ℕ) (cs : List ℕ)
    → NonEmpty (r ∷ rs)
    → r.0 ≤ c
    → c < r.1
    → (t : Bool × List ℕ) → remaining rs cs ≡ cs ∷ after rs t
    → Turned rs t
    → (remaining (r ∷ rs) (c ∷ cs) ≡ (c ∷ cs) ∷ after (r ∷ rs) (head_step r c t))
      × Turned (r ∷ rs) (head_step r c t)
turn_step r rs c cs h p q (true, next) e b = (rw (e) refl, (p, q, b))
turn_step r rs c cs (h, hs) p q (false, next) e f = elim (Bool-cases (ltb (c + 1) (r.1))) [
  | inl l ↦
      let one_more : c + 1 ≡ suc c = omega arith in
      rw (l, e, f, remaining-firsts rs hs, one_more)
        (
          ap (λ ys. (c ∷ cs) ∷ ys) (blocks_first (box rs) (suc c) (r.1) (ground (arith, l))),
          (omega arith, ground (arith, l), firsts-InBox rs hs),
        )
  | inr l ↦ let last : r.1 - suc c ≡ 0 = ground (arith, l, q) in rw (l, e, last, f) (refl, refl)
]

pub turn-after :
    (ranges : List Span) (cs : List ℕ)
    → NonEmpty ranges
    → InBox ranges cs
    → (remaining ranges cs ≡ cs ∷ after ranges (turn ranges cs)) × Turned ranges (turn ranges cs)
turn-after [] [] h b = (refl, refl)
turn-after [] (c ∷ cs) h b = ground arith
turn-after (r ∷ rs) [] h b = ground arith
turn-after (r ∷ rs) (c ∷ cs) (h, hs) (p, q, b) =
    let (e, t) = turn-after rs cs hs b in turn_step r rs c cs (h, hs) p q (turn rs cs) e t

-- The list has the element.
abbrev pub Has : List (List ℕ) → List ℕ → Type 0
Has [] x = ⊥
Has (y ∷ ys) x = (y ≡ x) ⊎ Has ys x

Has-append_left : (xs ys : List (List ℕ)) (x : List ℕ) → Has xs x → Has (xs ++ ys) x
Has-append_left [] ys x h = ground arith
Has-append_left (z ∷ zs) ys x (inl e) = inl e
Has-append_left (z ∷ zs) ys x (inr h) = inr (Has-append_left zs ys x h)

Has-append_right : (xs ys : List (List ℕ)) (x : List ℕ) → Has ys x → Has (xs ++ ys) x
Has-append_right [] ys x h = h
Has-append_right (z ∷ zs) ys x h = inr (Has-append_right zs ys x h)

Has-map_cons :
    (c : ℕ) (xs : List (List ℕ)) (x : List ℕ) → Has xs x → Has (map (λ cs. c ∷ cs) xs) (c ∷ x)
Has-map_cons c [] x h = ground arith
Has-map_cons c (z ∷ zs) x (inl e) = inl (ap (λ cs. c ∷ cs) e)
Has-map_cons c (z ∷ zs) x (inr h) = inr (Has-map_cons c zs x h)

Has-blocks :
    (rest : List (List ℕ)) (i m c : ℕ) (cs : List ℕ)
    → Has rest cs
    → i ≤ c
    → c < i + m
    → Has (blocks rest i m) (c ∷ cs)
Has-blocks rest i zero c cs h p q = ground arith
Has-blocks rest i (suc m) c cs h p q = elim (Bool-cases (i == c)) [
  | inl e ↦
      subst (λ z. Has (map (λ cs. i ∷ cs) rest ++ blocks rest (suc i) m) (z ∷ cs))
        (ground (arith, e))
        (Has-append_left (map (λ cs. i ∷ cs) rest) (blocks rest (suc i) m) (i ∷ cs)
          (Has-map_cons i rest cs h))
  | inr e ↦
      Has-append_right (map (λ cs. i ∷ cs) rest) (blocks rest (suc i) m) (c ∷ cs)
        (Has-blocks rest (suc i) m c cs h (ground (arith, e)) (omega arith))
]

-- The box has all coordinates that lie in it.
pub box-Has : (ranges : List Span) (cs : List ℕ) → InBox ranges cs → Has (box ranges) cs
box-Has [] [] b = inl refl
box-Has [] (c ∷ cs) b = ground arith
box-Has (r ∷ rs) [] b = ground arith
box-Has (r ∷ rs) (c ∷ cs) (p, q, b) =
    Has-blocks (box rs) (r.0) (r.1 - r.0) c cs (box-Has rs cs b) p (omega arith)

module _ {κ} (P : List ℕ → Type κ) where
  All-append : (xs ys : List (List ℕ)) → All P xs → All P ys → All P (xs ++ ys)
  All-append [] ys h k = k
  All-append (x ∷ xs) ys (h, hs) k = (h, All-append xs ys hs k)

  pub All-Has : (xs : List (List ℕ)) (x : List ℕ) → All P xs → Has xs x → P x
  All-Has [] x h m = ground arith
  All-Has (y ∷ ys) x (h, hs) (inl e) = subst P e h
  All-Has (y ∷ ys) x (h, hs) (inr m) = All-Has ys x hs m

All-InBox_cons :
    (r : Span) (rs : List Span) (c : ℕ) (xs : List (List ℕ))
    → r.0 ≤ c
    → c < r.1
    → All (InBox rs) xs
    → All (InBox (r ∷ rs)) (map (λ cs. c ∷ cs) xs)
All-InBox_cons r rs c [] p q h = tt
All-InBox_cons r rs c (x ∷ xs) p q (h, hs) = ((p, q, h), All-InBox_cons r rs c xs p q hs)

All-InBox-blocks :
    (r : Span) (rs : List Span) (rest : List (List ℕ)) (i m : ℕ)
    → r.0 ≤ i
    → i + m ≤ r.1
    → All (InBox rs) rest
    → All (InBox (r ∷ rs)) (blocks rest i m)
All-InBox-blocks r rs rest i zero p q h = tt
All-InBox-blocks r rs rest i (suc m) p q h =
    All-append (InBox (r ∷ rs)) (map (λ cs. i ∷ cs) rest) (blocks rest (suc i) m)
      (All-InBox_cons r rs i rest p (omega arith) h)
      (All-InBox-blocks r rs rest (suc i) m (omega arith) (omega arith) h)

-- And no others, if no range is empty.
pub box-InBox : (ranges : List Span) → NonEmpty ranges → All (InBox ranges) (box ranges)
box-InBox [] h = (tt, tt)
box-InBox (r ∷ rs) (h, hs) =
    All-InBox-blocks r rs (box rs) (r.0) (r.1 - r.0) (omega arith) (omega arith) (box-InBox rs hs)

encode_below : (n c p e : ℕ) → c < n → e < p → c * p + e < n * p
encode_below zero c p e h k = ground arith
encode_below (suc n) zero p e h k = omega arith
encode_below (suc n) (suc c) p e h k = omega (arith, encode_below n c p e (omega arith) k)

pub encode-InBox :
    (dims : List ℕ) (ranges : List Span) (cs : List ℕ)
    → Fits dims ranges
    → InBox ranges cs
    → encode dims cs < product dims
encode-InBox [] [] [] f b = omega arith
encode-InBox [] [] (c ∷ cs) f b = ground arith
encode-InBox [] (r ∷ rs) cs f b = ground arith
encode-InBox (n ∷ ns) [] cs f b = ground arith
encode-InBox (n ∷ ns) (r ∷ rs) [] f b = ground arith
encode-InBox (n ∷ ns) (r ∷ rs) (c ∷ cs) (f, fs) (p, q, b) =
    encode_below n c (product ns) (encode ns cs) (omega arith) (encode-InBox ns rs cs fs b)
