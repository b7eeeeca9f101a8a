-- ===== src/Pod/Schema/Fields.antt =====
-- The fields of a schema, by index and by name.
use Prim.Native.String.{String}
use text.Mathlib.Text.{◌==◌ as str_eq}
use tiledb_rs.Base.{
  ℕ, zero, suc, ◌+◌, ◌-◌, ◌<◌, ◌≤◌, ◌≡◌, refl, ap, ◌∙◌, ltb, true, false, Option, none, some, List,
  [], ◌∷◌, ◌++◌, map, drop, length, length-append, length-map, get_elem?, arith, done,
  if◌then◌else◌,
}
use mathlib.Core.Option
use native.Mathlib.Decide.{dec_lt}
use tiledb_rs.Query.Output.{collect}
use tiledb_rs.Pod.Schema.{
  SchemaData, DimensionData, AttributeData, FieldData, FieldDataIter, dimension, attribute, field,
  field_name, field_by_name, attribute_by_name, by_index, by_name, num_fields, fields, next,
}

-- The dimensions, then the attributes.
abbrev pub all_fields : SchemaData → List FieldData
all_fields s = map dimension s.domain.dimension ++ map attribute s.attributes

-- The first field of the name.
abbrev pub find_name : String → List FieldData → Option FieldData
find_name name [] = none
find_name name (f ∷ fs) = if str_eq (field_name f) name then some f else find_name name fs

attribute_by_name-find :
    (name : String) (attributes : List AttributeData)
    → attribute_by_name name attributes ≡ find_name name (map attribute attributes)
unfolding attribute_by_name
attribute_by_name-find name [] = refl
attribute_by_name-find name (a ∷ attributes) = rw (attribute_by_name-find name attributes)

field_by_name-find :
    (name : String) (ds : List DimensionData) (attributes : List AttributeData)
    → field_by_name name ds attributes
      ≡ find_name name (map dimension ds ++ map attribute attributes)
unfolding field_by_name
field_by_name-find name [] attributes = attribute_by_name-find name attributes
field_by_name-find name (d ∷ ds) attributes = rw (field_by_name-find name ds attributes)

get_elem?-map :
    {A B : Type 0} (f : A → B) (xs : List A) (i : ℕ)
    → get_elem? (map f xs) i ≡ Option.map f (get_elem? xs i)
get_elem?-map f [] i = refl
get_elem?-map f (x ∷ xs) zero = refl
get_elem?-map f (x ∷ xs) (suc i) = get_elem?-map f xs i

get_elem?-append_left :
    {A : Type 0} (xs ys : List A) (i : ℕ) → i < length xs → get_elem? (xs ++ ys) i ≡ get_elem? xs i
get_elem?-append_left [] ys i h = absurd (omega arith)
get_elem?-append_left (x ∷ xs) ys zero h = refl
get_elem?-append_left (x ∷ xs) ys (suc i) h = get_elem?-append_left xs ys i (omega arith)

get_elem?-append_right :
    {A : Type 0} (xs ys : List A) (i : ℕ) → get_elem? (xs ++ ys) (length xs + i) ≡ get_elem? ys i
get_elem?-append_right [] ys i = ap (get_elem? ys) (omega arith)
get_elem?-append_right (x ∷ xs) ys i =
    let e : suc (length xs) + i ≡ suc (length xs + i) = omega arith in
    rw e (get_elem?-append_right xs ys i)

get_elem?-some :
    {A : Type 0} (xs : List A) (i : ℕ) → i < length xs → (x : A) × (get_elem? xs i ≡ some x)
get_elem?-some [] i h = absurd (omega arith)
get_elem?-some (x ∷ xs) zero h = (x, refl)
get_elem?-some (x ∷ xs) (suc i) h = get_elem?-some xs i (omega arith)

get_elem?-none : {A : Type 0} (xs : List A) (i : ℕ) → length xs ≤ i → get_elem? xs i ≡ none
get_elem?-none [] i h = refl
get_elem?-none (x ∷ xs) zero h = absurd (omega arith)
get_elem?-none (x ∷ xs) (suc i) h = get_elem?-none xs i (omega arith)

drop-cons :
    {A : Type 0} (xs : List A) (i : ℕ) (x : A)
    → get_elem? xs i ≡ some x
    → drop i xs ≡ x ∷ drop (i + 1) xs
drop-cons [] i x e = absurd (ground arith)
drop-cons (y ∷ xs) zero x e = ap (λ z. z ∷ xs) (ground arith)
drop-cons (y ∷ xs) (suc i) x e =
    let s : suc i + 1 ≡ suc (i + 1) = omega arith in rw s (drop-cons xs i x e)

drop-all : {A : Type 0} (xs : List A) (i : ℕ) → length xs ≤ i → drop i xs ≡ []
drop-all [] zero h = refl
drop-all [] (suc i) h = refl
drop-all (x ∷ xs) zero h = absurd (omega arith)
drop-all (x ∷ xs) (suc i) h = drop-all xs i (omega arith)

all_fields-dimension :
    (ds : List DimensionData) (fs : List FieldData) (i : ℕ) (d : DimensionData)
    → i < length ds
    → get_elem? ds i ≡ some d
    → get_elem? (map dimension ds ++ fs) i ≡ some (dimension d)
all_fields-dimension ds fs i d h e =
    get_elem?-append_left (map dimension ds) fs i (omega (arith, length-map dimension ds))
    ∙ get_elem?-map dimension ds i
    ∙ ap (Option.map dimension) e

all_fields-attribute :
    (ds : List DimensionData) (attributes : List AttributeData) (i : ℕ)
    → length ds ≤ i
    → get_elem? (map dimension ds ++ map attribute attributes) i
      ≡ Option.map attribute (get_elem? attributes (i - length ds))
all_fields-attribute ds attributes i h =
    let e : i ≡ length (map dimension ds) + (i - length ds) =
      omega (arith, length-map dimension ds) in
    ap (get_elem? (map dimension ds ++ map attribute attributes)) e
    ∙ get_elem?-append_right (map dimension ds) (map attribute attributes) (i - length ds)
    ∙ get_elem?-map attribute attributes (i - length ds)

field-index : (s : SchemaData) (i : ℕ) → field s (by_index i) ≡ done (get_elem? (all_fields s) i)
unfolding field
field-index s i =
    let ds = s.domain.dimension in
    let attributes = s.attributes in
    elim (dec_lt i (length ds)) [
      | yes h ↦
          let (d, e) = get_elem?-some ds i h in
          let b : ltb i (length ds) ≡ true = ground arith in
          rw (b, e, all_fields-dimension ds (map attribute attributes) i d h e)
      | no h ↦
          let b : ltb i (length ds) ≡ false = ground arith in
          let at = all_fields-attribute ds attributes i (omega arith) in
          elim (dec_lt i (length ds + length attributes)) [
            | yes k ↦
                let (a, e) = get_elem?-some attributes (i - length ds) (omega arith) in
                let c : ltb i (length ds + length attributes) ≡ true = ground arith in
                rw (b, c, at, e)
            | no k ↦
                let e = get_elem?-none attributes (i - length ds) (omega arith) in
                let c : ltb i (length ds + length attributes) ≡ false = ground arith in
                rw (b, c, at, e)
          ]
    ]

field-name :
    (s : SchemaData) (name : String) → field s (by_name name) ≡ done (find_name name (all_fields s))
unfolding field
field-name s name = ap done (field_by_name-find name s.domain.dimension s.attributes)

-- What `field` answers for an index is the field at it, the dimensions before the attributes, and for
-- a name the first field of that name. It does not panic.
pub field-all_fields :
    (s : SchemaData) (i : ℕ) (name : String)
    → (field s (by_index i) ≡ done (get_elem? (all_fields s) i))
      × (field s (by_name name) ≡ done (find_name name (all_fields s)))
field-all_fields s i name = (field-index s i, field-name s name)

abbrev at_cursor : SchemaData → ℕ → FieldDataIter
at_cursor s i = record { schema = s; cursor = i }

length-all_fields : (s : SchemaData) → length (all_fields s) ≡ num_fields s
length-all_fields s = omega (
  arith,
  length-append (map dimension s.domain.dimension) (map attribute s.attributes),
  length-map dimension s.domain.dimension,
  length-map attribute s.attributes,
)

next-some :
    (s : SchemaData) (i : ℕ) (f : FieldData)
    → get_elem? (all_fields s) i ≡ some f
    → i < num_fields s
    → next (at_cursor s i) ≡ done (some f, at_cursor s (i + 1))
unfolding next
next-some s i f e h =
    let b : ltb i (num_fields s) ≡ true = ground arith in rw (b, field-index s i, e)

next-none :
    (s : SchemaData) (i : ℕ) → num_fields s ≤ i → next (at_cursor s i) ≡ done (none, at_cursor s i)
unfolding next
next-none s i h = let b : ltb i (num_fields s) ≡ false = ground arith in rw b

collect-drop :
    (s : SchemaData) (fuel i : ℕ)
    → num_fields s < i + fuel
    → i ≤ num_fields s
    → collect next fuel (at_cursor s i) ≡ done (some (drop i (all_fields s)))
unfolding collect
collect-drop s zero i f h = absurd (omega arith)
collect-drop s (suc fuel) i f h = elim (dec_lt i (num_fields s)) [
  | yes k ↦
      let l = length-all_fields s in
      let (x, e) = get_elem?-some (all_fields s) i (omega arith) in
      let d = drop-cons (all_fields s) i x e in
      rw (next-some s i x e k, collect-drop s fuel (i + 1) (omega arith) (omega arith), d)
  | no k ↦
      let d = drop-all (all_fields s) i (omega (arith, length-all_fields s)) in
      rw (next-none s i (omega arith), d)
]

-- The iterator over the fields ends, having yielded the dimensions, then the attributes.
pub fields-all_fields :
    (s : SchemaData) (fuel : ℕ)
    → num_fields s < fuel
    → collect next fuel (fields s) ≡ done (some (all_fields s))
fields-all_fields s fuel h = collect-drop s fuel 0 (omega arith) (omega arith)
