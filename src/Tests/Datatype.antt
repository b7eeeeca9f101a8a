-- ===== src/Tests/Datatype.antt =====
-- The logical types.
use tiledb_rs.Base.{◌≤◌, ◌≡◌, ◌↔◌, ok, err}
use tiledb_rs.Datatype.{uint64}
use tiledb_rs.Datatype.Codes.{
  to_ffi, try_from_ffi, try_from_ffi_iff, try_from_ffi-err_iff, invalid_discriminant,
}
use tiledb_rs.Datatype.Names.{bytes, to_ascii_lowercase, to_string, from_str, from_str_iff}

try_from_ffi_iff_example : (try_from_ffi 10 ≡ ok uint64) ↔ (to_ffi uint64 ≡ 10)
try_from_ffi_iff_example = try_from_ffi_iff 10 uint64

try_from_ffi-err_iff_example : (try_from_ffi 44 ≡ err (invalid_discriminant 44)) ↔ (44 ≤ 44)
try_from_ffi-err_iff_example = try_from_ffi-err_iff 44

from_str_iff_example :
    (from_str (bytes "uInt64") ≡ ok uint64)
    ↔ (to_ascii_lowercase (bytes "uInt64") ≡ to_ascii_lowercase (to_string uint64))
from_str_iff_example = from_str_iff (bytes "uInt64") uint64
