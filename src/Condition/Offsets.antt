-- ===== src/Condition/Offsets.antt =====
-- The offsets of byte strings in their concatenation, and the loop that copies them there.
use tiledb_rs.Base.{
  ℕ, zero, suc, ◌+◌, ◌≡◌, refl, ap, ◌∙◌, true, leb, List, [], ◌∷◌, ◌++◌, map, length, length-append,
  take, drop, get_elem?, some, arith, done,
}
use tiledb_rs.Physical.{PhysicalType, Elem, size_of}
use tiledb_rs.Range.Slices.Bytes.{le_bytes, to_bits, memory, length-le_bytes}
use tiledb_rs.Condition.{numeric_offsets, text_offsets, text_total, zeros, copy_at, fill}

abbrev pub concat : List (List ℕ) → List ℕ
concat [] = []
concat (v ∷ values) = v ++ concat values

-- Each member lies in the data at its offset.
abbrev pub Located : List (List ℕ) → List ℕ → List ℕ → Type 0
Located members offsets bytes =
    (length offsets ≡ length members)
    × ((i : ℕ) (v : List ℕ)
        → get_elem? members i ≡ some v
        → (start : ℕ) × (get_elem? offsets i ≡ some start)
          × (take (length v) (drop start bytes) ≡ v))

append_assoc : (xs ys zs : List ℕ) → (xs ++ ys) ++ zs ≡ xs ++ (ys ++ zs)
append_assoc [] ys zs = refl
append_assoc (x ∷ xs) ys zs = ap (λ rest. x ∷ rest) (append_assoc xs ys zs)

pub append_nil : (xs : List ℕ) → xs ++ [] ≡ xs
append_nil [] = refl
append_nil (x ∷ xs) = ap (λ rest. x ∷ rest) (append_nil xs)

pub length-text_offsets :
    (values : List (List ℕ)) (start : ℕ) → length (text_offsets values start) ≡ length values
length-text_offsets [] start = refl
length-text_offsets (v ∷ values) start = ap suc (length-text_offsets values (start + length v))

pub take-append : (xs ys : List ℕ) → take (length xs) (xs ++ ys) ≡ xs
take-append [] ys = refl
take-append (x ∷ xs) ys = ap (λ rest. x ∷ rest) (take-append xs ys)

pub drop-append : (xs ys : List ℕ) → drop (length xs) (xs ++ ys) ≡ ys
drop-append [] ys = refl
drop-append (x ∷ xs) ys = drop-append xs ys

text_offsets_cons :
    (before v : List ℕ) (members : List (List ℕ))
    → Located members
        (text_offsets members (length before + length v))
        (before ++ (v ++ concat members))
    → Located
        (v ∷ members)
        (text_offsets (v ∷ members) (length before))
        (before ++ concat (v ∷ members))
text_offsets_cons before v members step = (omega (arith, step.0), found)
  where
    of_some : {a b : List ℕ} → some a ≡ some b → a ≡ b
    of_some p = ground arith

    found :
        (i : ℕ) (v' : List ℕ)
        → get_elem? (v ∷ members) i ≡ some v'
        → (start : ℕ) × (get_elem?
              (length before ∷ text_offsets members (length before + length v))
              i
            ≡ some start)
          × (take (length v') (drop start (before ++ (v ++ concat members))) ≡ v')
    found zero v' p = (
      length before,
      refl,
      rw (← of_some p, drop-append before (v ++ concat members)) (take-append v (concat members)),
    )
    found (suc i) v' p = step.1 i v' p

pub text_offsets-Located :
    (before : List ℕ) (members : List (List ℕ))
    → Located members (text_offsets members (length before)) (before ++ concat members)
text_offsets-Located before [] = (refl, λ i v h. absurd (ground arith))
text_offsets-Located before (v ∷ members) = text_offsets_cons before v members (
    rw (← length-append before v, ← append_assoc before v (concat members))
      (text_offsets-Located (before ++ v) members))

length-zeros : (n : ℕ) → length (zeros n) ≡ n
length-zeros zero = refl
length-zeros (suc n) = ap suc (length-zeros n)

drop-zeros : (n k : ℕ) → drop n (zeros (n + k)) ≡ zeros k
drop-zeros zero k = let e : 0 + k ≡ k = omega arith in rw e
drop-zeros (suc n) k = let e : suc n + k ≡ suc (n + k) = omega arith in rw e (drop-zeros n k)

drop_past : (n : ℕ) (xs ys : List ℕ) → drop (length xs + n) (xs ++ ys) ≡ drop n ys
drop_past n [] ys = let e : 0 + n ≡ n = omega arith in rw e
drop_past n (x ∷ xs) ys =
    let e : suc (length xs) + n ≡ suc (length xs + n) = omega arith in rw e (drop_past n xs ys)

copied :
    (before v : List ℕ) (k : ℕ)
    → copy_at (length before) v (before ++ zeros (length v + k)) ≡ done ((before ++ v) ++ zeros k)
copied before v k = rw (
  fits,
  take-append before (zeros (length v + k)),
  drop_past (length v) before (zeros (length v + k)),
  drop-zeros (length v) k,
  append_assoc before v (zeros k),
)
  where
    fits : leb (length before + length v) (length (before ++ zeros (length v + k))) ≡ true
    fits = ground (arith, length-append before (zeros (length v + k)), length-zeros (length v + k))

fill_from :
    (before : List ℕ) (values : List (List ℕ))
    → fill (text_offsets values (length before)) values (before ++ zeros (length (concat values)))
      ≡ done (before ++ concat values)
unfolding fill
fill_from before [] = refl
fill_from before (v ∷ values) =
    rw
      (
        length-append v (concat values),
        copied before v (length (concat values)),
        ← length-append before v,
      )
      (fill_from (before ++ v) values ∙ ap done (append_assoc before v (concat values)))

text_total_lem :
    (values : List (List ℕ)) (start : ℕ) → text_total values start ≡ start + length (concat values)
text_total_lem [] start = omega arith
text_total_lem (v ∷ values) start =
    omega (arith, text_total_lem values (start + length v), length-append v (concat values))

pub filled :
    (values : List (List ℕ))
    → fill (text_offsets values 0) values (zeros (text_total values 0)) ≡ done (concat values)
filled values = rw (text_total_lem values 0, plain) (fill_from [] values)
  where
    plain : 0 + length (concat values) ≡ length (concat values)
    plain = omega arith

abbrev pub bytes_of : (t : PhysicalType) → Elem t → List ℕ
bytes_of t x = le_bytes (size_of t) (to_bits t x)

pub memory-concat :
    (t : PhysicalType) (val : List (Elem t)) → memory t val ≡ concat (map (bytes_of t) val)
memory-concat t [] = refl
memory-concat t (x ∷ val) = ap (λ rest. bytes_of t x ++ rest) (memory-concat t val)

pub numeric_offsets_lem :
    (t : PhysicalType) (val : List (Elem t)) (start : ℕ)
    → numeric_offsets (length val) start (size_of t) ≡ text_offsets (map (bytes_of t) val) start
numeric_offsets_lem t [] start = refl
numeric_offsets_lem t (x ∷ val) start =
    rw (length-le_bytes (size_of t) (to_bits t x))
      (ap (λ rest. start ∷ rest) (numeric_offsets_lem t val (start + size_of t)))

pub numeric_offsets-Located :
    (t : PhysicalType) (val : List (Elem t))
    → Located (map (bytes_of t) val) (numeric_offsets (length val) 0 (size_of t)) (memory t val)
numeric_offsets-Located t val =
    rw (numeric_offsets_lem t val 0, memory-concat t val)
      (text_offsets-Located [] (map (bytes_of t) val))
