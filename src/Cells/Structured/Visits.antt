-- ===== src/Cells/Structured/Visits.antt =====
-- test-utils/cells/src/lib.rs: the indices that the iterator `NextIndex` of `StructuredCells::slice`
-- goes through.
use mathlib.Core.Path.{subst}
use tiledb_rs.Base.{
  ℕ, zero, suc, ◌<◌, ◌≡◌, refl, sym, ap, ◌∙◌, Bool, true, false, Option, none, some, List, [], ◌∷◌,
  map, length, if◌then◌else◌, arith, done,
}
use tiledb_rs.Cells.Groups.{BitSet}
use tiledb_rs.Cells.Groups.Stable.{member}
use tiledb_rs.Cells.Structured.{Span, product, first_cursors, compute, advance, for_each}
use tiledb_rs.Cells.Structured.Box.{
  InBox, Fits, NonEmpty, remaining, firsts, after, turn-after, Turned, encode-InBox,
}
use tiledb_rs.Cells.Structured.Odometer.{encode, turn, compute_loop-encode, advance_loop-turn}

length-InBox : (ranges : List Span) (cs : List ℕ) → InBox ranges cs → length cs ≡ length ranges
length-InBox [] [] b = refl
length-InBox [] (c ∷ cs) b = ground arith
length-InBox (r ∷ rs) [] b = ground arith
length-InBox (r ∷ rs) (c ∷ cs) (p, q, b) = omega (arith, length-InBox rs cs b)

pub length-Fits :
    (dims : List ℕ) (ranges : List Span) → Fits dims ranges → length ranges ≡ length dims
length-Fits [] [] f = refl
length-Fits [] (r ∷ rs) f = ground arith
length-Fits (n ∷ ns) [] f = ground arith
length-Fits (n ∷ ns) (r ∷ rs) (f, fs) = omega (arith, length-Fits ns rs fs)

pub first_cursors-firsts :
    (all ranges : List Span) → NonEmpty ranges → first_cursors all ranges ≡ some (firsts all)
unfolding first_cursors
first_cursors-firsts all [] h = refl
first_cursors-firsts all ((first, past) ∷ rs) (h, hs) =
    ground (arith, h, first_cursors-firsts all rs hs)

-- The turned cursors, or none.
abbrev next_cursors : Bool × List ℕ → Option (List ℕ)
next_cursors (true, cs) = some cs
next_cursors (false, cs) = none

module _ (dims : List ℕ) (ranges : List Span) (fits : Fits dims ranges) where
  compute-encode : (cs : List ℕ) → InBox ranges cs → compute dims cs ≡ done (encode dims cs)
  unfolding compute
  compute-encode cs b =
      rw
        (compute_loop-encode dims cs
          (omega (arith, length-InBox ranges cs b, length-Fits dims ranges fits)))
        refl

  advance-turn :
      (cs : List ℕ)
      → InBox ranges cs
      → advance dims ranges cs ≡ done (next_cursors (turn ranges cs))
  unfolding advance
  advance-turn cs b =
      rw
        (sym (length-Fits dims ranges fits), advance_loop-turn ranges cs (length-InBox ranges cs b))
        (pair_cases (turn ranges cs))
    where
      pair_cases :
          (t : Bool × List ℕ) → done (if (t.0) then some (t.1) else none) ≡ done (next_cursors t)
      pair_cases (true, cs) = refl
      pair_cases (false, cs) = refl

  module _ (bits : BitSet) (full : NonEmpty ranges) where
    -- The second set has the bits of the first one and those in the list.
    abbrev pub SetsBits : bits.Set → bits.Set → List ℕ → Type 0
    SetsBits v v' is = (j : ℕ) → bits.test v' j ≡ (if member is j then true else bits.test v j)

    -- With this much fuel the loop ends, and has set the indices of the coordinates that are left.
    abbrev pub Ends : ℕ → Type 0
    Ends fuel =
        (cs : List ℕ) (v : bits.Set)
        → InBox ranges cs
        → bits.size v ≡ product dims
        → length (remaining ranges cs) < fuel
        → (v' : bits.Set) × (for_each bits dims ranges fuel (some cs) v ≡ done (some v'))
          × SetsBits v v' (map (encode dims) (remaining ranges cs))

    set_one :
        (v : bits.Set) (i : ℕ) (v' : bits.Set) (is : List ℕ)
        → i < bits.size v
        → SetsBits (bits.set v i) v' is
        → SetsBits v v' (i ∷ is)
    unfolding member
    set_one v i v' is h sets j = ground (arith, sets j, bits.test_set v i j h)

    for_each-step :
        (fuel : ℕ) (cs : List ℕ) (v : bits.Set) (t : Bool × List ℕ)
        → Ends fuel
        → InBox ranges cs
        → bits.size v ≡ product dims
        → length (remaining ranges cs) < suc fuel
        → remaining ranges cs ≡ cs ∷ after ranges t
        → Turned ranges t
        → advance dims ranges cs ≡ done (next_cursors t)
        → (v' : bits.Set) × (for_each bits dims ranges (suc fuel) (some cs) v ≡ done (some v'))
          × SetsBits v v' (map (encode dims) (remaining ranges cs))
    unfolding for_each member
    for_each-step fuel cs v (true, next) ends b s h e inside a =
        let below : encode dims cs < bits.size v =
          omega (arith, s, encode-InBox dims ranges cs fits b) in
        let (v', e', sets) =
          ends next (bits.set v (encode dims cs)) inside
            (bits.size_set v (encode dims cs) below ∙ s) (omega (arith, h, ap length e)) in
        (
          v',
          rw (compute-encode cs b, a) e',
          subst (λ xs. SetsBits v v' (map (encode dims) xs)) (sym e)
              (set_one v (encode dims cs) v' (map (encode dims) (remaining ranges next)) below
                sets),
        )
    for_each-step zero cs v (false, next) ends b s h e f a =
        let one = ap length e in ground (arith, h, one)
    for_each-step (suc fuel) cs v (false, next) ends b s h e f a =
        let below : encode dims cs < bits.size v =
          omega (arith, s, encode-InBox dims ranges cs fits b) in
        (
          bits.set v (encode dims cs),
          rw (compute-encode cs b, a) refl,
          subst (λ xs. SetsBits v (bits.set v (encode dims cs)) (map (encode dims) xs)) (sym e)
              (set_one v (encode dims cs) (bits.set v (encode dims cs)) [] below (λ j. refl)),
        )

    pub for_each-Ends : (fuel : ℕ) → Ends fuel
    for_each-Ends zero cs v b s h = ground arith
    for_each-Ends (suc fuel) cs v b s h =
        let (e, t) = turn-after ranges cs full b in
        for_each-step fuel cs v (turn ranges cs) (for_each-Ends fuel) b s h e t (advance-turn cs b)
