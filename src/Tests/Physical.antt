-- ===== src/Tests/Physical.antt =====
-- Comparisons of values and of slices, and conversions of single values.
use tiledb_rs.Base.{ℕ, ◌≡◌, ◌↔◌, refl, List, [], ◌∷◌, true, lt, compare, ==_iff, ◌==◌}
use tiledb_rs.Base.Order.{IsTotal}
use tiledb_rs.Physical.{f32, f64, bits_cmp, slice_cmp, slice_eq}
use tiledb_rs.Physical.Order.{bits_cmp-IsTotal, slice_cmp-lex, slice_cmp-IsTotal, slice_eq_iff, lex}
use tiledb_rs.Tests.Floats.{floats}

-- -0.0 is below 0.0, and a negative NaN below both.
float_order :
    (bits_cmp floats f32 0x80000000 0 ≡ lt) × (bits_cmp floats f32 0xffc00000 0x80000000 ≡ lt)
float_order = (refl, refl)

slice_cmp-lex_example :
    slice_cmp compare (1 ∷ 2 ∷ []) (1 ∷ 2 ∷ 0 ∷ []) ≡ lex compare (1 ∷ 2 ∷ []) (1 ∷ 2 ∷ 0 ∷ [])
slice_cmp-lex_example = slice_cmp-lex compare (1 ∷ 2 ∷ []) (1 ∷ 2 ∷ 0 ∷ [])

slice_cmp-IsTotal_example : IsTotal (slice_cmp (bits_cmp floats f64))
slice_cmp-IsTotal_example = slice_cmp-IsTotal (bits_cmp floats f64) (bits_cmp-IsTotal floats f64)

abbrev short : List ℕ
short = 1 ∷ 2 ∷ []

abbrev long : List ℕ
long = 1 ∷ 2 ∷ 3 ∷ []

slice_eq_iff_example : (slice_eq ◌==◌ short long ≡ true) ↔ (short ≡ long)
slice_eq_iff_example = slice_eq_iff ◌==◌ ==_iff short long
