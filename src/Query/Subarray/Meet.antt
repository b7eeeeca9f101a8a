-- ===== src/Query/Subarray/Meet.antt =====
-- The coordinates that the intersection of subarrays selects.
use tiledb_rs.Base.{
  ◌≡◌, ◌↔◌, ◌⊎◌, inl, inr, refl, sym, ap, Option, none, some, List, [], ◌∷◌, map, Outcome, done,
  panic, ◌>>=◌, All,
}
use mathlib.Core.Path.{subst, ap₂}
use tiledb_rs.Physical.{FloatOrder}
use tiledb_rs.Range.{Range, intersect as intersection}
use tiledb_rs.Query.Subarray.{filter_map, In, Documented, narrow, meet}
use tiledb_rs.Query.Subarray.Coordinates.{
  Kind, Coordinate, IsRange, Holds, IsCommon, intersect-IsCommon,
}

-- The predicate holds of an element.
abbrev pub AnyOf : {A : Type 0} → (A → Type 0) → List A → Type 0
AnyOf {A} P xs = (x : A) × In x xs × P x

AnyOf-cons :
    {A : Type 0} (P : A → Type 0) (x : A) (xs : List A) → AnyOf P (x ∷ xs) ↔ (P x ⊎ AnyOf P xs)
AnyOf-cons P x xs = (forth, back)
  where
    forth : AnyOf P (x ∷ xs) → P x ⊎ AnyOf P xs
    forth (y, inl e, h) = inl (subst P e h)
    forth (y, inr i, h) = inr (y, i, h)

    back : P x ⊎ AnyOf P xs → AnyOf P (x ∷ xs)
    back (inl h) = (x, inl refl, h)
    back (inr (y, i, h)) = (y, inr i, h)

-- Of two lists by the same predicates, one element more on either side, or on the right alone.
more_both : {P Q R S T U : Type 0} → P ↔ (Q ⊎ R) → Q ↔ T → R ↔ U → S ↔ (T ⊎ U) → P ↔ S
more_both p q r s = (
  λ x. s.1 (elim (p.0 x) [ inl y ↦ inl (q.0 y) | inr z ↦ inr (r.0 z) ]),
  λ x. p.1 (elim (s.0 x) [ inl y ↦ inl (q.1 y) | inr z ↦ inr (r.1 z) ]),
)

more_right : {R S T U : Type 0} → ¬ T → R ↔ U → S ↔ (T ⊎ U) → R ↔ S
more_right n r s =
    (λ x. s.1 (inr (r.0 x)), λ x. elim (s.0 x) [ inl y ↦ absurd (n y) | inr z ↦ r.1 z ])

trans_iff : {P Q R : Type 0} → P ↔ Q → Q ↔ R → P ↔ R
trans_iff p q = (λ x. q.0 (p.0 x), λ x. p.1 (q.1 x))

All-of-In : {A : Type 0} {P : A → Type 0} (xs : List A) → ((x : A) → In x xs → P x) → All P xs
All-of-In [] h = tt
All-of-In (x ∷ xs) h = (h x (inl refl), All-of-In xs (λ y i. h y (inr i)))

In-of-All : {A : Type 0} (P : A → Type 0) (x : A) (xs : List A) → All P xs → In x xs → P x
In-of-All P x [] a i = absurd i
In-of-All P x (y ∷ xs) a (inl e) = subst P (sym e) (a.0)
In-of-All P x (y ∷ xs) a (inr i) = In-of-All P x xs a.1 i

-- Not both are empty.
abbrev pub OneGiven : List Range → List Range → Type 0
OneGiven [] [] = ⊥
OneGiven _ _ = Unit

module _ (fl : FloatOrder) (k : Kind) where
  -- One of the ranges holds the coordinate.
  abbrev pub AnyHolds : List Range → Coordinate k → Type 0
  AnyHolds rs x = AnyOf (λ r. Holds fl k r x) rs

  -- The ranges of a dimension select the coordinate; no ranges select every one.
  abbrev pub SelectsOne : List Range → Coordinate k → Type 0
  SelectsOne [] x = Unit
  SelectsOne (r ∷ rs) x = AnyHolds (r ∷ rs) x

  abbrev pub AreRanges : List Range → Type 0
  AreRanges rs = All (IsRange fl k) rs

  -- Both ranges of the pair hold the coordinate.
  abbrev BothHold : Coordinate k → Range × Range → Type 0
  BothHold x p = Holds fl k (p.0) x × Holds fl k (p.1) x

  abbrev PairHolds : List (Range × Range) → Coordinate k → Type 0
  PairHolds ps x = AnyOf (BothHold x) ps

  -- What the ranges found for pairs may be.
  abbrev IsMeet : List (Range × Range) → Outcome (List Range) → Type 0
  IsMeet ps (done c) = AreRanges c × ((x : Coordinate k) → AnyHolds c x ↔ PairHolds ps x)
  IsMeet ps panic = ⊥

  abbrev pair_intersection : Range × Range → Outcome (Option Range)
  pair_intersection pair = intersection fl (pair.0) (pair.1)

  add_pair :
      (l r : Range) (ps : List (Range × Range)) (found : Outcome (Option Range))
      (rest : Outcome (List Range))
      → IsCommon fl k l r found
      → IsMeet ps rest
      → IsMeet
          ((l, r) ∷ ps)
          (found >>= λ f. rest >>= λ rs. done (elim f [ none ↦ rs | some y ↦ y ∷ rs ]))
  add_pair l r ps (done none) (done rs) c (a, m) =
      (a, λ x. more_right (c x) (m x) (AnyOf-cons (BothHold x) (l, r) ps))
  add_pair l r ps (done (some y)) (done rs) c (a, m) = (
    (c.0, a),
    λ x.
        more_both (AnyOf-cons (λ u. Holds fl k u x) y rs) (c.1 x) (m x)
          (AnyOf-cons (BothHold x) (l, r) ps),
  )
  add_pair l r ps (done f) panic c m = absurd m
  add_pair l r ps panic rest c m = absurd c

  abbrev ArePairs : List (Range × Range) → Type 0
  ArePairs ps = All (λ p. IsRange fl k (p.0) × IsRange fl k (p.1)) ps

  filter_map-IsMeet :
      (ps : List (Range × Range)) → ArePairs ps → IsMeet ps (filter_map pair_intersection ps)
  unfolding filter_map
  filter_map-IsMeet [] a = (tt, λ x. (λ (r, i, h). absurd i, λ (p, i, h). absurd i))
  filter_map-IsMeet ((l, r) ∷ ps) ((a, b), rest) =
      add_pair l r ps _ _ (intersect-IsCommon fl k l r a b) (filter_map-IsMeet ps rest)

  -- What the updated ranges of a dimension may be: ranges that select what both sides select.
  abbrev pub MeetsOne : List Range → List Range → Outcome (List Range) → Type 0
  MeetsOne my their (done c) =
      AreRanges c × ((x : Coordinate k) → AnyHolds c x ↔ (SelectsOne my x × SelectsOne their x))
  MeetsOne my their panic = ⊥

  -- The pairs are those of an element of each list.
  abbrev IsProduct : List Range → List Range → List (Range × Range) → Type 0
  IsProduct ls rs ps = (l r : Range) → In (l, r) ps ↔ (In l ls × In r rs)

  IsProduct-ArePairs :
      (my their : List Range) (ps : List (Range × Range))
      → IsProduct my their ps
      → AreRanges my
      → AreRanges their
      → ArePairs ps
  IsProduct-ArePairs my their ps d a b = All-of-In ps λ (l, r) i.
      let (p, q) = (d l r).0 i in
      (In-of-All (IsRange fl k) l my a p, In-of-All (IsRange fl k) r their b q)

  IsProduct-PairHolds :
      (my their : List Range) (ps : List (Range × Range))
      → IsProduct my their ps
      → (x : Coordinate k) → PairHolds ps x ↔ (AnyHolds my x × AnyHolds their x)
  IsProduct-PairHolds my their ps d x = (
    λ ((l, r), i, (h, g)). let (p, q) = (d l r).0 i in ((l, p, h), (r, q, g)),
    λ ((l, p, h), (r, q, g)). ((l, r), (d l r).1 (p, q), (h, g)),
  )

  of_pairs :
      (my their : List Range) (ps : List (Range × Range)) (found : Outcome (List Range))
      → ((x : Coordinate k) → PairHolds ps x ↔ (SelectsOne my x × SelectsOne their x))
      → IsMeet ps found
      → MeetsOne my their found
  of_pairs my their ps (done c) e (a, m) = (a, λ x. trans_iff (m x) (e x))
  of_pairs my their ps panic e m = m

  pub meet-MeetsOne :
      (cartesian_product : List Range → List Range → List (Range × Range))
      → Documented cartesian_product
      → (my their : List Range) → AreRanges my
      → AreRanges their
      → OneGiven my their
      → MeetsOne my their (meet fl cartesian_product my their)
  unfolding meet
  meet-MeetsOne product d [] [] a b g = absurd g
  meet-MeetsOne product d [] (t ∷ ts) a b g = (b, λ x. (λ h. (tt, h), λ h. h.1))
  meet-MeetsOne product d (r ∷ rs) [] a b g = (a, λ x. (λ h. (h, tt), λ h. h.0))
  meet-MeetsOne product d (r ∷ rs) (t ∷ ts) a b g =
      let my = r ∷ rs in
      let their = t ∷ ts in
      let ps = product my their in
      of_pairs my their ps _ (IsProduct-PairHolds my their ps (d my their))
        (filter_map-IsMeet ps (IsProduct-ArePairs my their ps (d my their) a b))

  map-IsProduct : (my : List Range) (n : Range) → IsProduct my (n ∷ []) (map (λ r. (r, n)) my)
  map-IsProduct [] n l r = (λ i. absurd i, λ (i, j). i)
  map-IsProduct (m ∷ my) n l r =
      let more = map-IsProduct my n l r in
      (
        λ i. elim i [
          | inl e ↦ (inl (ap (λ p. p.0) e), inl (ap (λ p. p.1) e))
          | inr j ↦ (inr ((more.0 j).0), (more.0 j).1)
        ],
        λ (i, j). elim i [
          | inl e ↦ inl (elim j [ inl f ↦ ap₂ (λ a b. (a, b)) e f | inr g ↦ absurd g ])
          | inr h ↦ inr (more.1 (h, j))
        ],
      )

  filter_map-pairs :
      (my : List Range) (n : Range)
      → filter_map (λ c. intersection fl c n) my
        ≡ filter_map pair_intersection (map (λ r. (r, n)) my)
  unfolding filter_map
  filter_map-pairs [] n = refl
  filter_map-pairs (m ∷ my) n = rw (filter_map-pairs my n)

  pub narrow-MeetsOne :
      (my : List Range) (n : Range)
      → AreRanges my
      → IsRange fl k n
      → MeetsOne my (n ∷ []) (narrow fl my n)
  unfolding narrow
  narrow-MeetsOne [] n a b = ((b, tt), λ x. (λ h. (tt, h), λ h. h.1))
  narrow-MeetsOne (r ∷ rs) n a b =
      let my = r ∷ rs in
      let ps = map (λ (r : Range). (r, n)) my in
      rw (filter_map-pairs my n) (
        of_pairs my (n ∷ []) ps _ (IsProduct-PairHolds my (n ∷ []) ps (map-IsProduct my n))
          (filter_map-IsMeet ps (IsProduct-ArePairs my (n ∷ []) ps (map-IsProduct my n) a (b, tt))))
