-- ===== src/Tests/Numbers.antt =====
-- Neighbours of integers.
use tiledb_rs.Base.{◌≡◌, refl, done}
use tiledb_rs.Range.Integral.{Integral}
use tiledb_rs.Numbers.{up, next_numeric_value, add_one}

next_of_u8 :
    (next_numeric_value Integral.u8 254 up ≡ done 255)
    × (next_numeric_value Integral.u8 255 up ≡ done 255)
unfolding next_numeric_value add_one
next_of_u8 = (refl, refl)
