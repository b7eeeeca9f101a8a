-- ===== src/Pod/Enumeration/Cut.antt =====
-- Bytes that are cut into records, at offsets or into pieces of one size.
use tiledb_rs.Base.{
  ℕ, zero, suc, ◌+◌, ◌*◌, ◌/◌, ◌^◌, ◌≤◌, ◌<◌, ◌≡◌, refl, sym, ap, ◌∙◌, ltb, true, List, [], ◌∷◌,
  ◌++◌, length, length-append, take, drop, All, arith, done, panic, ◌>>=◌, inl, inr, Outcome-cases,
}
use mathlib.Core.Path.{ap₂}
use mathlib.Core.List.{append_assoc, append-nil}
use native.Mathlib.Nat.{mul-div_cancel}
use tiledb_rs.Physical.{PhysicalType, u8, u16, u32, u64, i8, i16, i32, i64, f32, f64, size_of}
use tiledb_rs.Datatype.{Datatype, physical_type}
use tiledb_rs.Datatype.Classes.{size}
use tiledb_rs.Base.Vectors.{slice}
use tiledb_rs.Query.Input.{offsets_from, extend_all}
use tiledb_rs.Query.Output.Slices.{take-append, drop-append, slice-append}
use tiledb_rs.Pod.Enumeration.{records_at, chunks_loop}

slice-append_end :
    (before last : List ℕ)
    → slice (before ++ last) (length before) (length (before ++ last)) ≡ done last
slice-append_end before last =
    let e : before ++ last ≡ before ++ (last ++ []) =
      ap (λ l. before ++ l) (sym (append-nil last)) in
    let l : length (before ++ last) ≡ length before + length last = length-append before last in
    ap (λ n. slice (before ++ last) (length before) n) l
    ∙ ap (λ b. slice b (length before) (length before + length last)) e
    ∙ slice-append before last []

cons_offsets :
    (first : ℕ) (v : List ℕ) (variants : List (List ℕ)) (offsets : List ℕ)
    → ltb (first + length v) (2 ^ 64) ≡ true
    → offsets_from first (v ∷ variants) ≡ done offsets
    → (rest : List ℕ) × (offsets_from (first + length v) variants ≡ done rest)
      × (offsets ≡ (first + length v) ∷ rest)
unfolding offsets_from
cons_offsets first v variants offsets b o =
    let o' : (offsets_from (first + length v) variants >>= λ rest. done ((first + length v) ∷ rest))
        ≡ done offsets =
      rw b at o in
    elim (Outcome-cases (offsets_from (first + length v) variants)) [
      | inl (rest, e) ↦
          let f : done ((first + length v) ∷ rest) ≡ done offsets = rw e at o' in
          (rest, e, ground arith)
      | inr e ↦ let f : panic ≡ done offsets = rw e at o' in absurd (ground arith)
    ]

nil_offsets :
    (first : ℕ) (offsets : List ℕ) → offsets_from {C = ℕ} first [] ≡ done offsets → offsets ≡ []
unfolding offsets_from
nil_offsets first offsets o = ground arith

records_at-one :
    (bytes r : List ℕ) (first : ℕ)
    → slice bytes first (length bytes) ≡ done r
    → records_at bytes (first ∷ []) ≡ done (r ∷ [])
unfolding records_at
records_at-one bytes r first e = ap (λ s. s >>= λ r. done (r ∷ [])) e

records_at-cons :
    (bytes r : List ℕ) (rest : List (List ℕ)) (first past : ℕ) (offsets : List ℕ)
    → slice bytes first past ≡ done r
    → records_at bytes (past ∷ offsets) ≡ done rest
    → records_at bytes (first ∷ past ∷ offsets) ≡ done (r ∷ rest)
unfolding records_at
records_at-cons bytes r rest first past offsets e f =
    ap₂ (λ s t. s >>= λ r. t >>= λ rest. done (r ∷ rest)) e f

-- The offsets of the records but the last cut the bytes into the records.
pub records_at-offsets :
    (before : List ℕ) (variants : List (List ℕ)) (last offsets : List ℕ)
    → offsets_from (length before) variants ≡ done offsets
    → length before + length (extend_all variants) < 2 ^ 64
    → records_at (before ++ (extend_all variants ++ last)) (length before ∷ offsets)
      ≡ done (variants ++ (last ∷ []))
records_at-offsets before [] last offsets o h =
    rw (nil_offsets (length before) offsets o)
      (records_at-one (before ++ last) last (length before) (slice-append_end before last))
records_at-offsets before (v ∷ variants) last offsets o h =
    let l : length before + length v ≡ length (before ++ v) = sym (length-append before v) in
    let total : length (v ++ extend_all variants) ≡ length v + length (extend_all variants) =
      length-append v (extend_all variants) in
    let b : ltb (length before + length v) (2 ^ 64) ≡ true = ground arith in
    let (rest, o', e) = cons_offsets (length before) v variants offsets b o in
    let cut = slice-append before v (extend_all variants ++ last) in
    let more =
      records_at-offsets (before ++ v) variants last rest (rw (← l) o') (omega (arith, l)) in
    let more' : records_at (before ++ (v ++ (extend_all variants ++ last)))
          ((length before + length v) ∷ rest)
        ≡ done (variants ++ (last ∷ [])) =
      rw (← append_assoc before v (extend_all variants ++ last), l) more in
    rw (e, append_assoc v (extend_all variants) last)
      (records_at-cons (before ++ (v ++ (extend_all variants ++ last))) v (variants ++ (last ∷ []))
        (length before) (length before + length v) rest cut more')

-- All bytes in order, cut into pieces of one length.
pub chunks_loop-extend_all :
    (rounds n : ℕ) (variants : List (List ℕ))
    → 1 ≤ n
    → All (λ v. length v ≡ n) variants
    → length (extend_all variants) ≤ rounds
    → chunks_loop rounds n (extend_all variants) ≡ variants
unfolding chunks_loop
chunks_loop-extend_all zero n [] p a h = refl
chunks_loop-extend_all (suc rounds) n [] p a h = refl
chunks_loop-extend_all rounds n ([] ∷ variants) p a h = absurd (omega arith)
chunks_loop-extend_all zero n ((b ∷ v) ∷ variants) p a h = absurd (omega arith)
chunks_loop-extend_all (suc rounds) n ((b ∷ v) ∷ variants) p (a, rest) h =
    let l : length (v ++ extend_all variants) ≡ length v + length (extend_all variants) =
      length-append v (extend_all variants) in
    let t : take n (b ∷ (v ++ extend_all variants)) ≡ b ∷ v =
      rw (← a) (take-append (b ∷ v) (extend_all variants)) in
    let d : drop n (b ∷ (v ++ extend_all variants)) ≡ extend_all variants =
      rw (← a) (drop-append (b ∷ v) (extend_all variants)) in
    rw (t, d, chunks_loop-extend_all rounds n variants p rest (omega (arith, l)))

-- The last of a list, and what stands before it.
pub split_last :
    (v : List ℕ) (variants : List (List ℕ))
    → (before : List (List ℕ)) × (last : List ℕ) × ((v ∷ variants) ≡ before ++ (last ∷ []))
split_last v [] = ([], v, refl)
split_last v (w ∷ variants) =
    let (before, last, e) = split_last w variants in (v ∷ before, last, ap (λ l. v ∷ l) e)

pub extend_all-last :
    (before : List (List ℕ)) (last : List ℕ)
    → extend_all (before ++ (last ∷ [])) ≡ extend_all before ++ last
extend_all-last [] last = append-nil last
extend_all-last (v ∷ before) last =
    ap (λ l. v ++ l) (extend_all-last before last) ∙ sym (append_assoc v (extend_all before) last)

size_of_pos : (t : PhysicalType) → 1 ≤ size_of t
size_of_pos u8 = omega arith
size_of_pos u16 = omega arith
size_of_pos u32 = omega arith
size_of_pos u64 = omega arith
size_of_pos i8 = omega arith
size_of_pos i16 = omega arith
size_of_pos i32 = omega arith
size_of_pos i64 = omega arith
size_of_pos f32 = omega arith
size_of_pos f64 = omega arith

pub size_pos : (d : Datatype) → 1 ≤ size d
unfolding size
size_pos d = size_of_pos (physical_type d)

pub divided : (n s nz : ℕ) → 1 ≤ s → 1 ≤ nz → n * (s * nz) / s / nz ≡ n
divided n s nz p q =
    let e : n * (s * nz) ≡ n * nz * s = grind arith in
    rw (e, mul-div_cancel (n * nz) p, mul-div_cancel n q)
