-- ===== src/Filter/Sizes.antt =====
-- What filters do to the size of a cell's values, and the codes of their options.
use tiledb_rs.Base.{
  ℕ, ◌==◌, ◌≡◌, ◌≢◌, ◌↔◌, inl, inr, refl, sym, ap, ◌∙◌, if◌then◌else◌, true, false, Bool, none,
  some, ok, arith, Bool-cases,
}
use tiledb_rs.Datatype.{Datatype, physical_type, uint8, int8, int16, int32, int64, eq_datatype}
use tiledb_rs.Datatype.Codes.{eq_datatype_iff}
use tiledb_rs.Datatype.Classes.{size}
use tiledb_rs.Filter.{
  CompressionType, FilterData, delta, double_delta, none_filter, bit_shuffle, byte_shuffle,
  bit_width_reduction, positive_delta, checksum, compression, scale_float, web_p, xor,
  transform_datatype, xor_datatype, transform_compression, takes_window, ScaleFloatByteWidth,
  width_code, width_of_code, i8, i16, i32, i64, WebPFilterInputFormat, rgb, bgr, rgba, bgra,
  format_code, format_of_code, bzip2, dictionary, gzip, lz4, rle, zstd,
}

-- The filter has no option that names the type it puts out.
abbrev pub KeepsSize : FilterData → Type 0
KeepsSize (compression c) =
    (d : Datatype) → (c.kind ≢ delta (some d)) × (c.kind ≢ double_delta (some d))
KeepsSize (scale_float byte_width factor offset) = ⊥
KeepsSize _ = Unit

sizes : (size int8 ≡ 1) × (size int16 ≡ 2) × (size int32 ≡ 4) × (size int64 ≡ 8)
unfolding size physical_type
sizes = (refl, refl, refl, refl)

xor-size : (n : ℕ) (e : Datatype) → xor_datatype n ≡ some e → size e ≡ n
xor-size n e h = elim (Bool-cases (n == 1)) [
  | inl a ↦ ground (arith, sizes)
  | inr a ↦ elim (Bool-cases (n == 2)) [
    | inl b ↦ ground (arith, sizes)
    | inr b ↦ ground (arith, sizes)
  ]
]

taken : (b : Bool) (d e : Datatype) → (if b then some d else none) ≡ some e → d ≡ e
taken true d e h = cc
taken false d e h = absurd (ground arith)

reinterpreted-size :
    (k : CompressionType) (d e : Datatype)
    → ((f : Datatype) → (k ≢ delta (some f)) × (k ≢ double_delta (some f)))
    → transform_compression k d ≡ some e
    → d ≡ e
reinterpreted-size (delta none) d e n h = cc
reinterpreted-size (delta (some f)) d e n h = absurd ((n f).0 refl)
reinterpreted-size (double_delta none) d e n h = cc
reinterpreted-size (double_delta (some f)) d e n h = absurd ((n f).1 refl)
reinterpreted-size bzip2 d e n h = cc
reinterpreted-size dictionary d e n h = cc
reinterpreted-size gzip d e n h = cc
reinterpreted-size lz4 d e n h = cc
reinterpreted-size rle d e n h = cc
reinterpreted-size zstd d e n h = cc

-- A filter other than the scaling of floats, and other than a delta compression with a type of its
-- own, puts out values of the size of those that it takes.
pub transform_datatype-size :
    (f : FilterData) (d e : Datatype)
    → KeepsSize f
    → transform_datatype f d ≡ some e
    → size e ≡ size d
unfolding transform_datatype
transform_datatype-size none_filter d e k h = ap size (cc)
transform_datatype-size bit_shuffle d e k h = ap size (cc)
transform_datatype-size byte_shuffle d e k h = ap size (cc)
transform_datatype-size (checksum kind) d e k h = ap size (cc)
transform_datatype-size (bit_width_reduction w) d e k h =
    ap size (sym (taken (takes_window d) d e h))
transform_datatype-size (positive_delta w) d e k h = ap size (sym (taken (takes_window d) d e h))
transform_datatype-size (compression c) d e k h = ap size (sym (reinterpreted-size c.kind d e k h))
transform_datatype-size (scale_float w f o) d e k h = absurd k
transform_datatype-size (web_p i l q) d e k h = elim (Bool-cases (eq_datatype d uint8)) [
  | inl u ↦
      ap size (sym (taken (eq_datatype d uint8) uint8 e h) ∙ sym ((eq_datatype_iff d uint8).0 u))
  | inr u ↦
      let n : (if false then some uint8 else none) ≡ some e = rw u at h in absurd (ground arith)
]
transform_datatype-size xor d e k h = xor-size (size d) e h

-- The codes of the widths and of the formats, and of nothing else, are taken back to them.
pub width_of_code_iff :
    (n : ℕ) (w : ScaleFloatByteWidth) → (width_of_code n ≡ ok w) ↔ (width_code w ≡ n)
unfolding width_of_code width_code
width_of_code_iff n i8 = ground arith
width_of_code_iff n i16 = ground arith
width_of_code_iff n i32 = ground arith
width_of_code_iff n i64 = ground arith

pub format_of_code_iff :
    (n : ℕ) (f : WebPFilterInputFormat) → (format_of_code n ≡ ok f) ↔ (format_code f ≡ n)
unfolding format_of_code format_code
format_of_code_iff n rgb = ground arith
format_of_code_iff n bgr = ground arith
format_of_code_iff n rgba = ground arith
format_of_code_iff n bgra = ground arith
