-- ===== src/Tests/Floats.antt =====
-- An order of bit patterns as `f32::total_cmp` and `f64::total_cmp` document it: negative values
-- below the others, and greater magnitudes further out.
use tiledb_rs.Base.{ℕ, ◌-◌, ◌^◌, ltb, if◌then◌else◌, arith}
use tiledb_rs.Base.Int.{ℤ, pos, negsuc, cmp_ℤ}
use tiledb_rs.Base.Order.{IsTotal}
use tiledb_rs.Physical.{FloatOrder}

abbrev pub signed32 : ℕ → ℤ
signed32 b = if ltb b (2 ^ 31) then pos b else negsuc (b - 2 ^ 31)

abbrev pub signed64 : ℕ → ℤ
signed64 b = if ltb b (2 ^ 63) then pos b else negsuc (b - 2 ^ 63)

pub float32_order-IsTotal : IsTotal (λ (a b : ℕ). cmp_ℤ (signed32 a) (signed32 b))
float32_order-IsTotal = record {
  cmp_refl = λ a. ground arith;
  eq_of_cmp = λ a b. ground arith;
  cmp_swap = λ a b. ground arith;
  lt_trans = λ a b c. ground arith;
}

pub float64_order-IsTotal : IsTotal (λ (a b : ℕ). cmp_ℤ (signed64 a) (signed64 b))
float64_order-IsTotal = record {
  cmp_refl = λ a. ground arith;
  eq_of_cmp = λ a b. ground arith;
  cmp_swap = λ a b. ground arith;
  lt_trans = λ a b c. ground arith;
}

abbrev pub floats : FloatOrder
floats = record {
  total_cmp32 = λ a b. cmp_ℤ (signed32 a) (signed32 b);
  total_cmp64 = λ a b. cmp_ℤ (signed64 a) (signed64 b);
  total32 = float32_order-IsTotal;
  total64 = float64_order-IsTotal;
}
