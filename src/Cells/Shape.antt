-- ===== src/Cells/Shape.antt =====
-- test-utils/cells/src/lib.rs: cells of which every field has the same number of records, and what
-- the map of fields answers about them.
use Prim.Native.String.{String}
use text.Mathlib.Text.{◌==◌ as str_eq}
use mathlib.Core.Path.{subst}
use tiledb_rs.Base.{
  Bool, sym, zero, if◌then◌else◌, ◌==◌, ap, suc, ◌∙◌, done, ℕ, ◌<◌, ◌≡◌, refl, true, some, List, [],
  ◌∷◌, map, length, All, arith, Bool-cases, inl, inr,
}
use tiledb_rs.Base.Map.{get, contains_key}
use tiledb_rs.Cells.{Fields, Cells, len, is_empty, first_field, check_len, new, filter}
use tiledb_rs.Cells.Field.{CellType, Cell, FieldData, of_cells}
use tiledb_rs.Cells.Field.View.{by_view, go-of_cells}
use tiledb_rs.Cells.Field.Methods as Data

pub len-of_cells : (c : CellType) (xs : List (Cell c)) → Data.len (of_cells c xs) ≡ length xs
len-of_cells c xs = go-of_cells c xs _

data_is_empty : (d : FieldData) → Data.is_empty d ≡ (Data.len d == 0)
data_is_empty =
    by_view (λ d. Data.is_empty d ≡ (Data.len d == 0))
      (λ c xs. rw (len-of_cells c xs) (go-of_cells c xs _))

-- Every field has `n` cells.
abbrev pub HasLen : ℕ → Fields → Type 0
HasLen n fields = All (λ e. Data.len (e.1) ≡ n) fields

-- There is a field, and all have the same number of cells.
abbrev pub IsUniform : Cells → ℕ → Type 0
IsUniform self n = HasLen n self.fields × (0 < length self.fields)

-- Every key is one of the fields'.
abbrev pub HasKeys : Fields → List String → Type 0
HasKeys fields keys = All (λ key. contains_key fields key ≡ true) keys

pub get-HasLen :
    (n : ℕ) (fields : Fields) (key : String)
    → HasLen n fields
    → contains_key fields key ≡ true
    → (d : FieldData) × (get fields key ≡ some d) × (Data.len d ≡ n)
unfolding get contains_key
get-HasLen n [] key h c = ground arith
get-HasLen n ((k, d) ∷ fields) key (l, h) c = elim (Bool-cases (str_eq k key)) [
  | inl e ↦ (d, rw (e) refl, l)
  | inr e ↦ let (d', g, m) = get-HasLen n fields key h (ground (arith, e, c)) in (d', rw (e) g, m)
]

pub get-len-HasLen :
    (n : ℕ) (fields : Fields) (key : String) (d : FieldData)
    → HasLen n fields
    → get fields key ≡ some d
    → Data.len d ≡ n
unfolding get
get-len-HasLen n [] key d h e = ground arith
get-len-HasLen n ((k, d') ∷ fields) key d (h, hs) e = elim (Bool-cases (str_eq k key)) [
  | inl q ↦ subst (λ z. Data.len z ≡ n) (ground (arith, e, q)) h
  | inr q ↦ get-len-HasLen n fields key d hs (ground (arith, e, q))
]

pub get-contains_key :
    (fields : Fields) (key : String) (d : FieldData)
    → get fields key ≡ some d
    → contains_key fields key ≡ true
unfolding get contains_key
get-contains_key [] key d e = ground arith
get-contains_key ((k, d') ∷ fields) key d e = ground (arith, e, get-contains_key fields key d)

module _ (f : FieldData → FieldData) where
  abbrev pub map_data : Fields → Fields
  map_data fields = map (λ (k, d). (k, f d)) fields

  -- Changing the data does not change the keys.
  pub get-map_data :
      (fields : Fields) (key : String) (d : FieldData)
      → get fields key ≡ some d
      → get (map_data fields) key ≡ some (f d)
  unfolding get
  get-map_data [] key d h = ground arith
  get-map_data ((k, e) ∷ fields) key d h = ground (arith, get-map_data fields key d)

  pub contains_key-map_data :
      (fields : Fields) (key : String)
      → contains_key (map_data fields) key ≡ contains_key fields key
  unfolding contains_key
  contains_key-map_data [] key = refl
  contains_key-map_data ((k, e) ∷ fields) key = ground (arith, contains_key-map_data fields key)

pub HasKeys-map_data :
    (f : FieldData → FieldData) (fields : Fields) (keys : List String)
    → HasKeys fields keys
    → HasKeys (map_data f fields) keys
HasKeys-map_data f fields [] h = tt
HasKeys-map_data f fields (key ∷ keys) (h, hs) =
    (contains_key-map_data f fields key ∙ h, HasKeys-map_data f fields keys hs)

pub length-map_data :
    (f : FieldData → FieldData) (fields : Fields) → length (map_data f fields) ≡ length fields
length-map_data f [] = refl
length-map_data f ((k, d) ∷ fields) = ap suc (length-map_data f fields)

first_field-HasLen :
    (n : ℕ) (fields : Fields)
    → HasLen n fields
    → 0 < length fields
    → (d : FieldData) × (first_field fields ≡ done d) × (Data.len d ≡ n)
first_field-HasLen n [] h k = ground arith
first_field-HasLen n ((key, d) ∷ fields) (h, hs) k = (d, refl, h)

pub len-IsUniform : (self : Cells) (n : ℕ) → IsUniform self n → len self ≡ done n
unfolding len
len-IsUniform self n (h, k) = let (d, e, l) = first_field-HasLen n self.fields h k in rw (e, l) refl

pub is_empty-IsUniform : (self : Cells) (n : ℕ) → IsUniform self n → is_empty self ≡ done (n == 0)
unfolding is_empty
is_empty-IsUniform self n (h, k) =
    let (d, e, l) = first_field-HasLen n self.fields h k in rw (e, data_is_empty d, l) refl

check_len-HasLen : (n : ℕ) (fields : Fields) → HasLen n fields → check_len (some n) fields ≡ done tt
unfolding check_len
check_len-HasLen n [] h = refl
check_len-HasLen n ((k, d) ∷ fields) (h, hs) = ground (arith, h, check_len-HasLen n fields hs)

pub new-HasLen :
    (n : ℕ) (fields : Fields) → HasLen n fields → new fields ≡ done (record { fields = fields })
unfolding new check_len
new-HasLen n [] h = refl
new-HasLen n ((k, d) ∷ fields) (h, hs) =
    rw (check_len-HasLen (Data.len d) fields (subst (λ m. HasLen m fields) (sym h) hs)) refl

-- How many of the `n` indices from `i` pass the test.
abbrev pub count_passing : (ℕ → Bool) → ℕ → ℕ → ℕ
count_passing test i zero = 0
count_passing test i (suc n) =
    let rest = count_passing test (suc i) n in if test i then suc rest else rest

length-filter_from {ℓ} :
    {A : Type ℓ} (test : ℕ → Bool) (i : ℕ) (xs : List A)
    → length (Data.filter_from test i xs) ≡ count_passing test i (length xs)
unfolding Data.filter_from
length-filter_from test i [] = refl
length-filter_from test i (x ∷ xs) = ground (arith, length-filter_from test (suc i) xs)

filter-HasLen :
    (test : ℕ → Bool) (n : ℕ) (fields : Fields)
    → HasLen n fields
    → HasLen (count_passing test 0 n) (map_data (λ d. Data.filter d test) fields)
filter-HasLen test n [] h = tt
filter-HasLen test n ((k, d) ∷ fields) (h, hs) = (
  subst (λ m. Data.len (Data.filter d test) ≡ count_passing test 0 m) h (len-filter d),
  filter-HasLen test n fields hs,
)
  where
    len-filter : (d : FieldData) → Data.len (Data.filter d test) ≡ count_passing test 0 (Data.len d)
    len-filter =
        by_view (λ d. Data.len (Data.filter d test) ≡ count_passing test 0 (Data.len d))
          (λ c xs.
            rw
              (
                len-of_cells c xs,
                go-of_cells c xs (λ c values. of_cells c (Data.filter_from test 0 values)),
                len-of_cells c (Data.filter_from test 0 xs),
              )
              (length-filter_from test 0 xs))

-- `filter` filters every field.
pub filter-map_data :
    (self : Cells) (test : ℕ → Bool) (n : ℕ)
    → HasLen n self.fields
    → filter self test ≡ done (record { fields = map_data (λ d. Data.filter d test) self.fields })
unfolding filter
filter-map_data self test n h =
    new-HasLen (count_passing test 0 n) (map_data (λ d. Data.filter d test) self.fields)
      (filter-HasLen test n self.fields h)
