-- ===== src/Pod/Metadata/Values.antt =====
-- Metadata by the types of their values.
use tiledb_rs.Base.{
  ◌≡◌, ◌↔◌, refl, sym, ap, ◌∙◌, true, false, List, ok, arith, Bool-cases, inl, inr,
}
use mathlib.Core.Path.{ap₂}
use Prim.Native.String.{String}
use tiledb_rs.Physical.{PhysicalType, u8, u16, u32, u64, i8, i16, i32, i64, f32, f64, Elem}
use tiledb_rs.Datatype.{Datatype, physical_type}
use tiledb_rs.Datatype.Classes.{same_physical_type, same_type}
use tiledb_rs.Datatype.Compatible.{is_compatible_type-physical_type, same_type_iff}
use tiledb_rs.Pod.Metadata.{Metadata, of_vec, value_cmp, new}

-- `value_cmp` on values of two types.
value_cmp-of_vec :
    (s t : PhysicalType) (v : List (Elem s)) (w : List (Elem t))
    → value_cmp (of_vec s v) (of_vec t w) (λ u l r. true) false ≡ same_type s t
unfolding value_cmp of_vec
value_cmp-of_vec u8 u8 v w = refl
value_cmp-of_vec u16 u16 v w = refl
value_cmp-of_vec u32 u32 v w = refl
value_cmp-of_vec u64 u64 v w = refl
value_cmp-of_vec i8 i8 v w = refl
value_cmp-of_vec i16 i16 v w = refl
value_cmp-of_vec i32 i32 v w = refl
value_cmp-of_vec i64 i64 v w = refl
value_cmp-of_vec f32 f32 v w = refl
value_cmp-of_vec f64 f64 v w = refl
value_cmp-of_vec _ _ v w = refl

abbrev of_key : String → Datatype → (t : PhysicalType) → List (Elem t) → Metadata
of_key key d t v = record { key = key; datatype = d; value = of_vec t v }

-- `new` makes metadata exactly of values of the physical type of the datatype.
pub new_iff :
    (t : PhysicalType) (key : String) (d : Datatype) (v : List (Elem t)) (m : Metadata)
    → (new t key d v ≡ ok m) ↔ ((t ≡ physical_type d) × (m ≡ of_key key d t v))
unfolding new
new_iff t key d v m = elim (Bool-cases (same_type (physical_type d) t)) [
  | inl b ↦
      let e : physical_type d ≡ t = (same_type_iff (physical_type d) t).0 b in
      rw (is_compatible_type-physical_type t d, b)
        (λ h. (sym e, ground arith), λ h. ap ok (sym (h.1)))
  | inr b ↦
      rw (is_compatible_type-physical_type t d, b)
        (
          λ h. absurd (ground arith),
          λ h.
              let c : same_type (physical_type d) t ≡ true =
                (same_type_iff (physical_type d) t).1 (sym (h.0)) in
              absurd (ground arith),
        )
]

-- Of two metadata that `new` made, `value_cmp` takes the branch for values of one type exactly if
-- their datatypes have the same physical type.
pub new-value_cmp :
    (s t : PhysicalType) (key other : String) (d e : Datatype) (v : List (Elem s))
    (w : List (Elem t)) (m n : Metadata)
    → new s key d v ≡ ok m
    → new t other e w ≡ ok n
    → value_cmp m.value n.value (λ u l r. true) false ≡ same_physical_type d e
unfolding same_physical_type
new-value_cmp s t key other d e v w m n h k =
    let (p, a) = (new_iff s key d v m).0 h in
    let (q, b) = (new_iff t other e w n).0 k in
    ap₂ (λ x y. value_cmp x y (λ u l r. true) false) (ap (λ m. m.value) a) (ap (λ m. m.value) b)
    ∙ value_cmp-of_vec s t v w
    ∙ ap₂ same_type p q
