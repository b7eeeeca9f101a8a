-- ===== src/Subset/Json/Laws.antt =====
-- tiledb/utils/src/option.rs: the order that `OptionSubset` is on JSON values.
use Prim.Native.String.{String}
use text.Mathlib.Text.{◌==◌ as str_eq}
use text.Mathlib.TextEquality.{eq_iff}
use text.Mathlib.TextPositions.{eq_refl}
use mathlib.Core.Path.{subst}
use tiledb_rs.Base.{
  ◌≡◌, refl, Bool, true, false, none, some, arith, Bool-cases, inl, inr, Option-cases,
}
use tiledb_rs.Subset.Json.{
  Value, null, boolean, number, string, array, object, Values, nil, cons, Entries, empty, entry,
  get_entry, same_length, subset_value, subset_values, subset_map,
}

-- `Number: Eq`: its equality is reflexive and transitive.
pub record IsEquality {N : Type 0} (number_eq : N → N → Bool) : Type 0 where
  pub number_refl : (a : N) → number_eq a a ≡ true
  pub number_trans :
      (a b c : N) → number_eq a b ≡ true → number_eq b c ≡ true → number_eq a c ≡ true

module _ {N : Type 0} where
  -- A map has no key twice, at any depth.
  unfoldable mutual
    pub DistinctKeys : Value N → Type 0
    DistinctKeys null = Unit
    DistinctKeys (boolean b) = Unit
    DistinctKeys (number n) = Unit
    DistinctKeys (string s) = Unit
    DistinctKeys (array vs) = DistinctValues vs
    DistinctKeys (object es) = DistinctEntries es

    pub DistinctValues : Values N → Type 0
    DistinctValues nil = Unit
    DistinctValues (cons v vs) = DistinctKeys v × DistinctValues vs

    pub DistinctEntries : Entries N → Type 0
    DistinctEntries empty = Unit
    DistinctEntries (entry k v es) = DistinctKeys v × (get_entry es k ≡ none) × DistinctEntries es

module _ {N : Type 0} (number_eq : N → N → Bool) (o : IsEquality number_eq) where
  str_trans : (a b c : String) → str_eq a b ≡ true → str_eq b c ≡ true → str_eq a c ≡ true
  str_trans a b c h k = subst (λ z. str_eq a z ≡ true) ((eq_iff b c).0 k) h

  same_length_trans :
      (a b c : Values N) → same_length a b ≡ true → same_length b c ≡ true → same_length a c ≡ true
  unfolding same_length
  same_length_trans nil nil nil h k = refl
  same_length_trans (cons u us) (cons v vs) (cons w ws) h k = same_length_trans us vs ws h k
  same_length_trans us vs ws h k = ground arith

  -- An entry of the first map is below one with its key in the second.
  subset_map_get :
      (es other : Entries N) (key : String) (v : Value N)
      → subset_map number_eq es other ≡ true
      → get_entry es key ≡ some v
      → (w : Value N) × (get_entry other key ≡ some w) × (subset_value number_eq v w ≡ true)
  unfolding subset_value get_entry
  subset_map_get empty other key v h e = ground arith
  subset_map_get (entry k u es) other key v h e = elim (Option-cases (get_entry other k)) [
    | inl n ↦ ground (arith, h, n)
    | inr (w, n) ↦ elim (Bool-cases (str_eq k key)) [
      | inl q ↦
          let same : u ≡ v = ground (arith, e, q) in
          let below : subset_value number_eq u w ≡ true = ground (arith, h, n) in
          (
            w,
            subst (λ z. get_entry other z ≡ some w) ((eq_iff k key).0 q) n,
            subst (λ z. subset_value number_eq z w ≡ true) same below,
          )
      | inr q ↦ subset_map_get es other key v (ground (arith, h, n)) (ground (arith, e, q))
    ]
  ]

  mutual
    unfolding subset_value same_length

    value_trans :
        (a b c : Value N)
        → subset_value number_eq a b ≡ true
        → subset_value number_eq b c ≡ true
        → subset_value number_eq a c ≡ true
    value_trans null b c h k = refl
    value_trans (boolean a) (boolean b) (boolean c) h k = ground arith
    value_trans (number a) (number b) (number c) h k = o.number_trans a b c h k
    value_trans (string a) (string b) (string c) h k = str_trans a b c h k
    value_trans (array a) (array b) (array c) h k = ground (
      arith,
      h,
      k,
      same_length_trans a b c (ground (arith, h)) (ground (arith, k)),
      values_trans a b c (ground (arith, h)) (ground (arith, k)) (ground (arith, h))
          (ground (arith, k)),
    )
    value_trans (object a) (object b) (object c) h k = map_trans a b c h k
    value_trans a b c h k = ground arith

    values_trans :
        (a b c : Values N)
        → same_length a b ≡ true
        → same_length b c ≡ true
        → subset_values number_eq a b ≡ true
        → subset_values number_eq b c ≡ true
        → subset_values number_eq a c ≡ true
    values_trans nil nil nil l m h k = refl
    values_trans (cons u us) (cons v vs) (cons w ws) l m h k = ground (
      arith,
      value_trans u v w (ground (arith, h)) (ground (arith, k)),
      values_trans us vs ws l m (ground (arith, h)) (ground (arith, k)),
    )
    values_trans us vs ws l m h k = ground arith

    map_trans :
        (a b c : Entries N)
        → subset_map number_eq a b ≡ true
        → subset_map number_eq b c ≡ true
        → subset_map number_eq a c ≡ true
    map_trans empty b c h k = refl
    map_trans (entry key u es) b c h k = elim (Option-cases (get_entry b key)) [
      | inl n ↦ ground (arith, h, n)
      | inr (v, n) ↦
          let (w, m, below) = subset_map_get b c key v k n in
          ground (
            arith,
            m,
            value_trans u v w (ground (arith, h, n)) below,
            map_trans es b c (ground (arith, h, n)) k,
          )
    ]

  same_length_refl : (vs : Values N) → same_length vs vs ≡ true
  unfolding same_length
  same_length_refl nil = refl
  same_length_refl (cons v vs) = same_length_refl vs

  -- Every entry of the first map is what the second one has at its key.
  Within : Entries N → Entries N → Type 0
  Within empty other = Unit
  Within (entry k v es) other = (get_entry other k ≡ some v) × Within es other

  Within-cons :
      (es other : Entries N) (key : String) (u : Value N)
      → Within es other
      → get_entry es key ≡ none
      → Within es (entry key u other)
  unfolding Within get_entry
  Within-cons empty other key u h n = tt
  Within-cons (entry k v es) other key u (h, hs) n = elim (Bool-cases (str_eq k key)) [
    | inl q ↦ ground (arith, n, q)
    | inr q ↦
        let differ : str_eq key k ≡ false = not_eq_swap key k q in
        (ground (arith, h, differ), Within-cons es other key u hs (ground (arith, n, q)))
  ]
    where
      not_eq_swap : (s t : String) → str_eq t s ≡ false → str_eq s t ≡ false
      not_eq_swap s t h = elim (Bool-cases (str_eq s t)) [
        | inl e ↦
            let back = subst (λ z. str_eq z s ≡ true) ((eq_iff s t).0 e) (eq_refl s) in
            ground (arith, h, back)
        | inr e ↦ e
      ]

  Within-self : (es : Entries N) → DistinctEntries es → Within es es
  unfolding Within get_entry DistinctKeys
  Within-self empty d = tt
  Within-self (entry k v es) (d, n, ds) =
      (rw (eq_refl k) refl, Within-cons es es k v (Within-self es ds) n)

  mutual
    unfolding subset_value DistinctKeys Within

    value_refl : (a : Value N) → DistinctKeys a → subset_value number_eq a a ≡ true
    value_refl null d = refl
    value_refl (boolean b) d = ground arith
    value_refl (number n) d = o.number_refl n
    value_refl (string s) d = eq_refl s
    value_refl (array vs) d = ground (arith, same_length_refl vs, values_refl vs d)
    value_refl (object es) d = map_refl es es d (Within-self es d)

    values_refl : (vs : Values N) → DistinctValues vs → subset_values number_eq vs vs ≡ true
    values_refl nil d = refl
    values_refl (cons v vs) (d, ds) = ground (arith, value_refl v d, values_refl vs ds)

    map_refl :
        (es other : Entries N)
        → DistinctEntries es
        → Within es other
        → subset_map number_eq es other ≡ true
    map_refl empty other d w = refl
    map_refl (entry k v es) other (d, n, ds) (w, ws) =
        ground (arith, w, value_refl v d, map_refl es other ds ws)

  -- Where the equality of numbers is reflexive and transitive, a value that is a subset of a second
  -- one is a subset of every value that the second one is a subset of.
  pub subset_value_trans :
      (a b c : Value N)
      → subset_value number_eq a b ≡ true
      → subset_value number_eq b c ≡ true
      → subset_value number_eq a c ≡ true
  subset_value_trans = value_trans

  -- Where the equality of numbers is reflexive and transitive, a value of which no map has a key
  -- twice, at any depth, is a subset of itself.
  pub subset_value_refl : (a : Value N) → DistinctKeys a → subset_value number_eq a a ≡ true
  subset_value_refl = value_refl
